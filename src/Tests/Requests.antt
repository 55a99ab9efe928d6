-- ===== src/Tests/Requests.antt =====
-- Requests to the RESTful API, over a router that takes the first route that fits.
use vchamber.Prelude.{
  ◌≡◌, inl, inr, Bool, true, false, Bool-cases, List, [], ◌∷◌, Option, none, some, String, str_eq,
  str_eq_iff, if◌then◌else◌, ◌&&◌, ok, arith,
}
use vchamber.Rest.{Response, respond_with_error}
use vchamber.Rest.Routes.{
  Handler, Route, Router, RouterLaws, Routes, OneOf, Inputs, serve, serve_keeps,
}
use vchamber.Tests.Servers.{hub}

one_of : String → List String → Bool
one_of s [] = false
one_of s (t ∷ ts) = if str_eq s t then true else one_of s ts

one_of-OneOf : (s : String) (ts : List String) → one_of s ts ≡ true → OneOf s ts
unfolding one_of
one_of-OneOf s [] e = cc
one_of-OneOf s (t ∷ ts) e = elim (Bool-cases (str_eq s t)) [
  | inl f ↦ inl ((str_eq_iff s t).0 f)
  | inr f ↦ inr (one_of-OneOf s ts (ground arith))
]

first_route : List Route → String → String → Option Handler
first_route [] path method = none
first_route (r ∷ rs) path method =
    if str_eq r.path path && one_of method r.methods
    then some r.handler
    else first_route rs path method

first_route-Routes :
    (rs : List Route) (path method : String) (h : Handler)
    → first_route rs path method ≡ some h
    → Routes rs path method h
unfolding first_route
first_route-Routes [] path method h e = cc
first_route-Routes (r ∷ rs) path method h e = elim (Bool-cases (str_eq r.path path)) [
  | inr f ↦ inr (first_route-Routes rs path method h (ground arith))
  | inl f ↦ elim (Bool-cases (one_of method r.methods)) [
    | inr g ↦ inr (first_route-Routes rs path method h (ground arith))
    | inl g ↦ inl ((str_eq_iff r.path path).0 f, one_of-OneOf method r.methods g, ground arith)
  ]
]

abbrev router : Router
router = record {
  find = first_route;
  no_route = λ path method. respond_with_error "404 page not found" 404;
}

router-RouterLaws : RouterLaws router
router-RouterLaws = record { find-Routes = first_route-Routes }

abbrev inputs : Inputs
inputs = record {
  encode = λ b. "key";
  rid = "room";
  m_buf = some [];
  g_buf = some [];
  now = 0;
  taken = true;
}

serve_keeps_example :
    (rsp : Response) × (serve router inputs "/server" "GET" hub ≡ ok (hub, rsp, none))
serve_keeps_example =
    serve_keeps router inputs "/server" "GET" hub router-RouterLaws (λ e. cc) (λ e. cc)
