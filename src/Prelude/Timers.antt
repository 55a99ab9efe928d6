-- ===== src/Prelude/Timers.antt =====
-- Go's time.Timer over a clock that counts in numbers.
use Prim.Native.Nat.{ℕ, ◌+◌}
use mathlib.Core.Bool.{Bool, true, false}
use mathlib.Core.Option.{Option, none, some}
use vchamber.Prelude.Tests.{ltb, if◌then◌else◌}
use vchamber.Prelude.Results.{Outcome, ok, blocked}

-- A time.Timer: when it is to expire, and whether its channel holds a value.
pub record Timer : Type 0 where
  pub deadline : Option ℕ
  pub fired : Bool

abbrev pub is_armed : Timer → Bool
is_armed t = elim t.deadline [ none ↦ false | some d ↦ true ]

abbrev pub new_timer : ℕ → ℕ → Timer
new_timer now d = record { deadline = some (now + d); fired = false }

-- Stop leaves the channel as it is, and says whether the timer was armed.
abbrev pub stop : Timer → Timer
stop t = record t { deadline = none }

abbrev pub reset : ℕ → ℕ → Timer → Timer
reset now d t = record t { deadline = some (now + d) }

-- <-t.C
abbrev pub drain : Timer → Outcome Timer
drain t = if t.fired then ok (record t { fired = false }) else blocked

-- The runtime: an armed timer whose time has come sends on its channel, which holds one value.
unfoldable pub expire : ℕ → Timer → Timer
expire now t = elim t.deadline [
  | none ↦ t
  | some d ↦ if ltb now d then t else record { deadline = none; fired = true }
]
