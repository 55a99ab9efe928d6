-- ===== src/Schedule/Running.antt =====
-- Where the rooms of the backends are, after the orchestrator has run for a while.
use vchamber.Prelude.{
  ℕ, ◌≡◌, ◌≢◌, refl, ◌∙◌, ap, List, [], ◌∷◌, All, length, Option, none, some, String, Returns,
  bind-Returns, Returns-map, arith,
}
use vchamber.Rest.{ServerInfoMsg}
use vchamber.Schedule.Storage.{Storage, StorageLaws}
use vchamber.Schedule.Revproxy.{Url, backend_ws_scheme, proxy_backend}
use vchamber.Schedule.Orchestrator.{
  Tick, hosts_from, update_backend_info, run_ticks, run_orchestrator,
}
use vchamber.Schedule.Routing.{proxied}
use vchamber.Schedule.Publishing.{last_teller, update_backend_info_exact}

-- A tick at which Kubernetes lists the pods and Redis takes the publication.
abbrev pub Succeeds : Tick → Type 0
Succeeds t = ((n : ℕ) × (t.pods ≡ some n)) × (t.published ≡ none)

abbrev count : Option ℕ → ℕ
count none = 0
count (some n) = n

module _ (decode : List ℕ → Option ServerInfoMsg) (decimal : ℕ → String) where
  -- The host that told of a room at the latest tick at which one did, the last such host of it.
  abbrev pub newest_teller : String → List Tick → Option String
  newest_teller room [] = none
  newest_teller room (t ∷ ts) = elim (newest_teller room ts) [
    | some later ↦ some later
    | none ↦ last_teller t.fetch decode room (hosts_from decimal 0 (count t.pods))
  ]

-- The entry of a room, by who told of it.
abbrev pub entry : Option String → String × Option String → String × Option String
entry (some h) old = (h, none)
entry none old = old

entry_lem :
    (o : Option String) (old : String × Option String)
    → (elim o as (λ x. String × Option String) [ some h ↦ (h, none) | none ↦ old ]) ≡ entry o old
entry_lem (some h) old = refl
entry_lem none old = refl

entry_later :
    (a b : Option String) (old : String × Option String)
    → entry a (entry b old)
      ≡ entry (elim a as (λ x. Option String) [ some later ↦ some later | none ↦ b ]) old
entry_later (some h) b old = refl
entry_later none b old = refl

module _ {S : Type 0} (store : Storage S) (laws : StorageLaws store)
    (sets : (s : S) (k v : String) → (store.set s k v).1 ≡ none)
    (decode : List ℕ → Option ServerInfoMsg) (decimal : ℕ → String) where
  tick-get :
      (t : Tick) (s : S)
      → Succeeds t
      → Returns
          (update_backend_info store t.fetch decode decimal t.pods t.published s)
          (λ (s', info).
            (room : String)
            → store.get s' room
              ≡ entry
                  (last_teller t.fetch decode room (hosts_from decimal 0 (count t.pods)))
                  (store.get s room))
  tick-get t s ((n, e), p) = rw e (
      rw p (
        Returns-map (update_backend_info store t.fetch decode decimal (some n) none s) _ _
          (update_backend_info_exact store laws sets t.fetch decode decimal n s)
          (λ (s', info) (b, g) room.
            g room
            ∙ entry_lem (last_teller t.fetch decode room (hosts_from decimal 0 n))
                (store.get s room))))

  ticks-get :
      (ts : List Tick) (s : S)
      → All Succeeds ts
      → Returns (run_ticks store decode decimal ts s) (λ (s', infos).
        (length infos ≡ length ts)
        × ((room : String)
            → store.get s' room ≡ entry (newest_teller decode decimal room ts) (store.get s room)))
  unfolding run_ticks
  ticks-get [] s h = (refl, λ room. refl)
  ticks-get (t ∷ ts) s (h, hs) =
      bind-Returns (update_backend_info store t.fetch decode decimal t.pods t.published s) _ _ _
        (tick-get t s h)
        (λ (s', info) e.
          bind-Returns (run_ticks store decode decimal ts s') _ _ _ (ticks-get ts s' hs)
            (λ (s'', infos) (l, g). (
              omega (arith, l),
              λ room.
                  g room
                  ∙ ap (entry (newest_teller decode decimal room ts)) (e room)
                  ∙ entry_later (newest_teller decode decimal room ts) _ (store.get s room),
            )))

  -- After Run has started and its updates have all succeeded, with a registry that takes every entry
  -- and keeps it: it has published one message for each, and the reverse proxy sends the requests for
  -- a room that a host has told of to the one that told of it last, where neither name is empty; the
  -- registry binds every room to the host that told of it last, and holds what it held of a room
  -- that no host has told of.
  pub run_routes :
      (query : String → String → String) (ts : List Tick) (s : S) (url : Url) (h : String)
      → All Succeeds ts
      → query url.raw_query "rid" ≢ ""
      → h ≢ ""
      → newest_teller decode decimal (query url.raw_query "rid") ts ≡ some h
      → Returns (run_orchestrator store decode decimal none none ts s) (λ (s', infos).
        (length infos ≡ length ts)
        × (proxy_backend store query s' url
            ≡ some (record backend_ws_scheme {
              host = h;
              fragment = url.fragment;
              path = url.path;
              raw_query = url.raw_query;
            }))
        × ((room : String)
            → store.get s' room ≡ entry (newest_teller decode decimal room ts) (store.get s room)))
  unfolding run_orchestrator
  run_routes query ts s url h ticks named host told =
      Returns-map (run_ticks store decode decimal ts s) _ _ (ticks-get ts s ticks)
        (λ (s', infos) (l, g). (
          l,
          proxied store query (λ b. none) s' url h named
              (ap (λ (p : String × Option String). p.0) (g (query url.raw_query "rid"))
                ∙ rw told refl)
              host,
          g,
        ))
