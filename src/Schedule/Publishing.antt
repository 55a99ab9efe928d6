-- ===== src/Schedule/Publishing.antt =====
-- What the orchestrator binds and publishes.
use vchamber.Prelude.{
  ℕ, ◌≡◌, inl, inr, refl, ◌∙◌, Bool, true, false, List, [], ◌∷◌, Option, none, some, Option-cases,
  String, if◌then◌else◌, str_eq, str_eq_iff, str_eq_self, str-cases, GoMap, lookup, lookup-insert,
  Returns, arith,
}
use vchamber.Wire.{Float64, one_float}
use vchamber.Rest.{ServerInfoMsg}
use vchamber.Rest.Creation.{has}
use vchamber.Schedule.Storage.{Storage, StorageLaws}
use vchamber.Schedule.Orchestrator.{
  Reply, unreachable, unreadable, answered, hosts_from, bind_rooms, bind_reply, poll,
  update_backend_info,
}

-- The backends that are published: one that cannot be reached is, and one that answers what cannot
-- be read or decoded is not.
abbrev pub is_listed : (List ℕ → Option ServerInfoMsg) → Reply → Bool
is_listed decode unreachable = true
is_listed decode unreadable = false
is_listed decode (answered buf) = elim (decode buf) [ none ↦ false | some m ↦ true ]

-- The host has answered, and told this room.
abbrev pub tells : (List ℕ → Option ServerInfoMsg) → Reply → String → Bool
tells decode unreachable room = false
tells decode unreadable room = false
tells decode (answered buf) room = elim (decode buf) [ none ↦ false | some m ↦ has room m.rooms ]

module _ (fetch : String → Reply) (decode : List ℕ → Option ServerInfoMsg) where
  -- The hosts of a list that are published.
  abbrev pub listed : List String → List String
  listed [] = []
  listed (h ∷ hs) = if is_listed decode (fetch h) then h ∷ listed hs else listed hs

  -- The last host of a list that tells a room.
  abbrev pub last_teller : String → List String → Option String
  last_teller room [] = none
  last_teller room (h ∷ hs) = elim (last_teller room hs) [
    | some later ↦ some later
    | none ↦ if tells decode (fetch h) room then some h else none
  ]

module _ {S : Type 0} (store : Storage S) (fetch : String → Reply)
    (decode : List ℕ → Option ServerInfoMsg) where
  bind_reply-listed :
      (host j : String) (r : Reply) (s : S) (b : GoMap Float64)
      → lookup j (bind_reply store fetch decode host r (s, b)).1 ≡ (
          if is_listed decode r
          then (if str_eq host j then some one_float else lookup j b)
          else lookup j b)
  unfolding bind_reply
  bind_reply-listed host j unreachable s b = lookup-insert host j one_float b
  bind_reply-listed host j unreadable s b = refl
  bind_reply-listed host j (answered buf) s b = elim (Option-cases (decode buf)) [
    | inl none_left ↦ ground (arith)
    | inr (m, e) ↦ ground (arith, lookup-insert host j one_float b)
  ]

  poll-listed :
      (hs : List String) (s : S) (b : GoMap Float64) (j : String)
      → lookup j (poll store fetch decode hs (s, b)).1
        ≡ (if has j (listed fetch decode hs) then some one_float else lookup j b)
  unfolding poll
  poll-listed [] s b j = refl
  poll-listed (h ∷ hs) s b j = ground (
    arith,
    poll-listed hs (bind_reply store fetch decode h (fetch h) (s, b)).0
        (bind_reply store fetch decode h (fetch h) (s, b)).1 j,
    bind_reply-listed h j (fetch h) s b,
  )

  -- The hosts of the message, whatever the registry does.
  pub update_backend_info-listed :
      (decimal : ℕ → String) (n : ℕ) (s : S)
      → Returns (update_backend_info store fetch decode decimal (some n) none s) (λ (s', info).
        (j : String)
        → lookup j info.backends
          ≡ (if has j (listed fetch decode (hosts_from decimal 0 n)) then some one_float else none))
  unfolding update_backend_info lookup
  update_backend_info-listed decimal n s = λ j. poll-listed (hosts_from decimal 0 n) s [] j

module _ {S : Type 0} (store : Storage S) (laws : StorageLaws store)
    (sets : (s : S) (k v : String) → (store.set s k v).1 ≡ none) (fetch : String → Reply)
    (decode : List ℕ → Option ServerInfoMsg) where
  -- A room of the list is bound to the host, any other as before.
  bind_rooms-get :
      (host : String) (rooms : List String) (s : S) (room : String)
      → store.get (bind_rooms store fetch decode host rooms s) room
        ≡ (if has room rooms then (host, none) else store.get s room)
  unfolding bind_rooms
  bind_rooms-get host [] s room = refl
  bind_rooms-get host (r ∷ rooms) s room = elim (str-cases r room) [
    | inl same ↦
        bind_rooms-get host rooms (store.set s r host).0 room
        ∙ ground (arith, str_eq_self room, laws.get-set s r host (sets s r host))
    | inr other ↦
        bind_rooms-get host rooms (store.set s r host).0 room
        ∙ ground (
          arith,
          laws.get-set_ne s r room host (sets s r host) (λ e. ground (arith, str_eq_iff r room)),
        )
  ]

  bind_reply-get :
      (host : String) (r : Reply) (s : S) (b : GoMap Float64) (room : String)
      → store.get (bind_reply store fetch decode host r (s, b)).0 room
        ≡ (if tells decode r room then (host, none) else store.get s room)
  unfolding bind_reply
  bind_reply-get host unreachable s b room = refl
  bind_reply-get host unreadable s b room = refl
  bind_reply-get host (answered buf) s b room = elim (Option-cases (decode buf)) [
    | inl none_left ↦ ground (arith)
    | inr (m, e) ↦ ground (arith, bind_rooms-get host m.rooms s room)
  ]

  poll-get :
      (hs : List String) (s : S) (b : GoMap Float64) (room : String)
      → store.get (poll store fetch decode hs (s, b)).0 room
        ≡ elim (last_teller fetch decode room hs) [ some h ↦ (h, none) | none ↦ store.get s room ]
  unfolding poll
  poll-get [] s b room = refl
  poll-get (h ∷ hs) s b room = ground (
    arith,
    poll-get hs (bind_reply store fetch decode h (fetch h) (s, b)).0
        (bind_reply store fetch decode h (fetch h) (s, b)).1 room,
    bind_reply-get h (fetch h) s b room,
  )

  -- For `n` backend pods, if the publication succeeds and the registry takes every entry: what is
  -- published names exactly the hosts of the pods that are reached and answer what decodes, and
  -- those that cannot be reached, each with the load 1; and the registry binds every room to the
  -- last pod's host that tells it, and holds what it held on a room that no pod tells.
  pub update_backend_info_exact :
      (decimal : ℕ → String) (n : ℕ) (s : S)
      → Returns (update_backend_info store fetch decode decimal (some n) none s) (λ (s', info).
        ((j : String)
          → lookup j info.backends ≡ (
              if has j (listed fetch decode (hosts_from decimal 0 n))
              then some one_float
              else none))
        × ((room : String)
            → store.get s' room ≡ elim (last_teller fetch decode room (hosts_from decimal 0 n)) [
              | some h ↦ (h, none)
              | none ↦ store.get s room
            ]))
  unfolding update_backend_info lookup
  update_backend_info_exact decimal n s = (
    λ j. poll-listed store fetch decode (hosts_from decimal 0 n) s [] j,
    λ room. poll-get (hosts_from decimal 0 n) s [] room,
  )
