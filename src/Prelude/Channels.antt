-- ===== src/Prelude/Channels.antt =====
-- A buffered Go channel. A receive on a closed and empty channel gives the zero value, here `none`.
use mathlib.Core.Path.{◌≡◌, refl, subst}
use mathlib.Core.Bool.{Bool, true, false}
use mathlib.Core.Option.{Option, none, some}
use mathlib.Core.List.{List, [], ◌∷◌, ◌++◌}
use Prim.Native.Nat.{ℕ}
use native.Mathlib.Omega.{arith}
use vchamber.Prelude.Tests.{ltb, if◌then◌else◌}
use vchamber.Prelude.Lists.{length, All, All-snoc}
use vchamber.Prelude.Results.{Outcome, Safely, ok, blocked, panic, send_on_closed, close_of_closed}

pub record Chan (A : Type 0) : Type 0 where
  pub buffer : List A
  pub capacity : ℕ
  pub closed : Bool

module _ {A : Type 0} where
  -- make(chan T, n)
  abbrev pub make_chan : ℕ → Chan A
  make_chan n = record { buffer = []; capacity = n; closed = false }

  -- ch <- a
  unfoldable pub send : A → Chan A → Outcome (Chan A)
  send a ch =
      if ch.closed
      then panic send_on_closed
      else if ltb (length ch.buffer) ch.capacity
      then ok (record ch { buffer = ch.buffer ++ a ∷ [] })
      else blocked

  -- ch <- a where the channel has no buffer; `taken` says whether somebody receives it.
  unfoldable pub offer : Bool → Chan A → Outcome (Chan A)
  offer taken ch = if ch.closed then panic send_on_closed else if taken then ok ch else blocked

  -- On an open channel it never panics, and waits exactly if nobody receives it.
  pub offer-Safely :
      (taken : Bool) (ch : Chan A) → ch.closed ≡ false → Safely (offer taken ch) (λ c. Unit)
  unfolding offer
  offer-Safely taken ch o = ground (arith, o)

  -- close(ch)
  unfoldable pub close_chan : Chan A → Outcome (Chan A)
  close_chan ch = if ch.closed then panic close_of_closed else ok (record ch { closed = true })

  recv_from : List A → Chan A → Outcome (Option A × Chan A)
  recv_from [] ch = if ch.closed then ok (none, ch) else blocked
  recv_from (a ∷ rest) ch = ok (some a, record ch { buffer = rest })

  -- a, ok := <-ch
  unfoldable pub recv : Chan A → Outcome (Option A × Chan A)
  unfolding recv_from
  recv ch = recv_from ch.buffer ch

  pub recv-Safely : (ch : Chan A) → Safely (recv ch) (λ r. Unit)
  unfolding recv
  recv-Safely ch = from ch.buffer
    where
      from : (xs : List A) → Safely (recv_from xs ch) (λ r. Unit)
      from [] = ground arith
      from (x ∷ xs) = tt

  -- A closed channel that is empty gives the zero value; a send to it panics.
  pub recv_closed : (ch : Chan A) → ch.buffer ≡ [] → ch.closed ≡ true → recv ch ≡ ok (none, ch)
  unfolding recv
  recv_closed ch e h = rw (e, recv_from) (ground arith)

  pub send_closed : (a : A) (ch : Chan A) → ch.closed ≡ true → send a ch ≡ panic send_on_closed
  unfolding send
  send_closed a ch h = rw (h, if◌then◌else◌) refl

  -- What holds of every message that waits holds after a send, and the channel stays open.
  pub send-All :
      (P : A → Type 0) (a : A) (ch : Chan A)
      → ch.closed ≡ false
      → All P ch.buffer
      → P a
      → Safely (send a ch) (λ ch'. (ch'.closed ≡ false) × All P ch'.buffer)
  unfolding send
  send-All P a ch o h p = ground (arith, All-snoc P ch.buffer a h p)

  pub recv-All :
      (P : A → Type 0) (ch : Chan A)
      → All P ch.buffer
      → Safely
          (recv ch)
          (λ (o, ch'). All P ch'.buffer × (ch'.closed ≡ ch.closed) × ((a : A) → o ≡ some a → P a))
  unfolding recv
  recv-All P ch h = from ch.buffer h
    where
      from :
          (xs : List A)
          → All P xs
          → Safely (recv_from xs ch) (λ (o, ch').
            All P ch'.buffer × (ch'.closed ≡ ch.closed) × ((a : A) → o ≡ some a → P a))
      from [] n = ground (arith, h)
      from (x ∷ xs) (p, ps) = (ps, refl, λ a e. subst P (ground arith) p)
