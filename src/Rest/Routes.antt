-- ===== src/Rest/Routes.antt =====
-- NewVChamberRestMux of rest.go: the routes of the RESTful API. The router of gorilla/mux is a
-- parameter, as is its answer to a request that no route is for.
use vchamber.Prelude.{
  Bool, ℕ, ◌≡◌, ◌≢◌, refl, sym, List, [], ◌∷◌, Option, none, some, String, ◌⊎◌, inl, inr, Outcome,
  ok, ◌>>=◌,
}
use vchamber.Wire.{Time}
use vchamber.Room.{Room}
use vchamber.Server.{Hub}
use vchamber.Rest.{Response, create_room, get_server_info, destroy_server, get_all_room_info}

-- The handlers that routes name.
pub data Handler : Type 0 where
  on_create_room on_get_server_info on_destroy_server on_get_all_room_info : Handler

pub record Route : Type 0 where
  pub path : String
  pub methods : List String
  pub handler : Handler

abbrev pub rest_routes : List Route
rest_routes =
    record { path = "/room"; methods = "GET" ∷ "POST" ∷ []; handler = on_create_room }
    ∷ record { path = "/server"; methods = "GET" ∷ []; handler = on_get_server_info }
    ∷ record { path = "/server"; methods = "DELETE" ∷ []; handler = on_destroy_server }
    ∷ record { path = "/allroom"; methods = "GET" ∷ []; handler = on_get_all_room_info }
    ∷ []

-- mux.Router: the handler for a path and a method, and the answer where there is none.
pub record Router : Type 0 where
  pub find : List Route → String → String → Option Handler
  pub no_route : String → String → Response

-- One of a list of texts.
abbrev pub OneOf : String → List String → Type 0
OneOf s [] = ⊥
OneOf s (t ∷ ts) = (s ≡ t) ⊎ OneOf s ts

-- A route of the list has the handler, for the path and the method.
abbrev pub Routes : List Route → String → String → Handler → Type 0
Routes [] path method h = ⊥
Routes (r ∷ rs) path method h =
    ((r.path ≡ path) × OneOf method r.methods × (r.handler ≡ h)) ⊎ Routes rs path method h

-- What a router promises: a handler that it finds stands in a route for the request.
pub record RouterLaws (router : Router) : Type 0 where
  pub find-Routes :
      (rs : List Route) (path method : String) (h : Handler)
      → router.find rs path method ≡ some h
      → Routes rs path method h

-- What the handlers of requests take beside the server.
pub record Inputs : Type 0 where
  pub encode : List ℕ → String
  pub rid : String
  pub m_buf : Option (List ℕ)
  pub g_buf : Option (List ℕ)
  pub now : Time
  pub taken : Bool

-- The server, the response, and the room that the server takes from enqRoom.
unfoldable pub run_handler :
    Inputs → Option Handler → Response → Hub → Outcome (Hub × Response × Option Room)
run_handler i none missing hub = ok (hub, missing, none)
run_handler i (some on_create_room) missing hub =
    let (rsp, room) = create_room i.encode i.rid i.m_buf i.g_buf i.now i.taken in
    ok (hub, rsp, room)
run_handler i (some on_get_server_info) missing hub = ok (hub, get_server_info hub, none)
run_handler i (some on_destroy_server) missing hub = do
  (hub', rsp) ← destroy_server hub
  ok (hub', rsp, none)
run_handler i (some on_get_all_room_info) missing hub = ok (hub, get_all_room_info hub, none)

unfoldable pub serve :
    Router → Inputs → String → String → Hub → Outcome (Hub × Response × Option Room)
serve router i path method hub =
    run_handler i (router.find rest_routes path method) (router.no_route path method) hub

-- Only one route leads to destroyServer, and only one makes a room.
destroy_route :
    (path method : String) → Routes rest_routes path method on_destroy_server → method ≡ "DELETE"
destroy_route path method (inl (p, o, h)) = cc
destroy_route path method (inr (inl (p, o, h))) = cc
destroy_route path method (inr (inr (inl (p, inl e, h)))) = e
destroy_route path method (inr (inr (inl (p, inr o, h)))) = absurd o
destroy_route path method (inr (inr (inr (inl (p, o, h))))) = cc
destroy_route path method (inr (inr (inr (inr r)))) = absurd r

create_route :
    (path method : String) → Routes rest_routes path method on_create_room → path ≡ "/room"
create_route path method (inl (p, o, h)) = sym p
create_route path method (inr (inl (p, o, h))) = cc
create_route path method (inr (inr (inl (p, o, h)))) = cc
create_route path method (inr (inr (inr (inl (p, o, h))))) = cc
create_route path method (inr (inr (inr (inr r)))) = absurd r

module _ (router : Router) (i : Inputs) (path method : String) (hub : Hub) (missing : Response)
    (laws : RouterLaws router) (m : method ≢ "DELETE") (p : path ≢ "/room") where
  found_keeps :
      (h : Option Handler)
      → router.find rest_routes path method ≡ h
      → (rsp : Response) × (run_handler i h missing hub ≡ ok (hub, rsp, none))
  unfolding run_handler
  found_keeps none e = (missing, refl)
  found_keeps (some on_create_room) e =
      absurd
        (p (create_route path method (laws.find-Routes rest_routes path method on_create_room e)))
  found_keeps (some on_get_server_info) e = (get_server_info hub, refl)
  found_keeps (some on_destroy_server) e =
      absurd (
        m (
          destroy_route path method (laws.find-Routes rest_routes path method on_destroy_server e)))
  found_keeps (some on_get_all_room_info) e = (get_all_room_info hub, refl)

-- With a router that finds only handlers of routes for the request, a request whose method is not
-- DELETE and whose path is not /room is answered, leaves the server as it is and makes no room.
pub serve_keeps :
    (router : Router) (i : Inputs) (path method : String) (hub : Hub)
    → RouterLaws router
    → method ≢ "DELETE"
    → path ≢ "/room"
    → (rsp : Response) × (serve router i path method hub ≡ ok (hub, rsp, none))
unfolding serve
serve_keeps router i path method hub laws m p =
    found_keeps router i path method hub (router.no_route path method) laws m p
      (router.find rest_routes path method) refl
