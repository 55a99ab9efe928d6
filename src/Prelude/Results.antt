-- ===== src/Prelude/Results.antt =====
-- What running a piece of Go code comes to: a result, a wait on a channel, or a panic.
use mathlib.Core.Path.{◌≡◌, refl, subst}
use mathlib.Core.Bool.{Bool, true, false}
use native.Mathlib.Omega.{arith}
use vchamber.Prelude.Tests.{if◌then◌else◌}

pub data Fault : Type 0 where
  nil_dereference send_on_closed close_of_closed failed_assertion explicit_panic : Fault

-- `blocked`: the code waits on a channel operation that cannot proceed in this state.
pub data Outcome {ℓ} (A : Type ℓ) : Type ℓ where
  ok : A → Outcome A
  blocked : Outcome A
  panic : Fault → Outcome A

infixl 5 ◌>>=◌
abbrev pub ◌>>=◌ {ℓ κ} : {A : Type ℓ} {B : Type κ} → Outcome A → (A → Outcome B) → Outcome B
ok a >>= f = f a
blocked >>= f = blocked
panic x >>= f = panic x

pub bind-eq-ok {ℓ κ} :
    {A : Type ℓ} {B : Type κ} (m : Outcome A) (f : A → Outcome B) {b : B}
    → (m >>= f) ≡ ok b
    → (a : A) × (m ≡ ok a) × (f a ≡ ok b)
bind-eq-ok (ok a) f h = (a, refl, h)
bind-eq-ok blocked f h = cc
bind-eq-ok (panic x) f h = cc

-- The postcondition of a run that completes.
abbrev pub Returns : {A : Type 0} → Outcome A → (A → Type 0) → Type 0
Returns (ok a) P = P a
Returns blocked P = ⊥
Returns (panic x) P = ⊥

-- A run that does not panic, with a postcondition for when it completes.
abbrev pub Safely : {A : Type 0} → Outcome A → (A → Type 0) → Type 0
Safely (ok a) P = P a
Safely blocked P = Unit
Safely (panic x) P = ⊥

-- A postcondition for when a run completes, whatever else it may do.
abbrev pub Partly : {A : Type 0} → Outcome A → (A → Type 0) → Type 0
Partly (ok a) P = P a
Partly blocked P = Unit
Partly (panic x) P = Unit

module _ {A B : Type 0} where
  pub bind-Partly :
      (m : Outcome A) (f : A → Outcome B) (P : A → Type 0) (Q : B → Type 0)
      → Partly m P
      → ((a : A) → P a → Partly (f a) Q)
      → Partly (m >>= f) Q
  bind-Partly (ok a) f P Q h k = k a h
  bind-Partly blocked f P Q h k = tt
  bind-Partly (panic x) f P Q h k = tt

  pub bind-Safely :
      (m : Outcome A) (f : A → Outcome B) (P : A → Type 0) (Q : B → Type 0)
      → Safely m P
      → ((a : A) → P a → Safely (f a) Q)
      → Safely (m >>= f) Q
  bind-Safely (ok a) f P Q h k = k a h
  bind-Safely blocked f P Q h k = tt
  bind-Safely (panic x) f P Q h k = absurd h

  pub bind-Returns :
      (m : Outcome A) (f : A → Outcome B) (P : A → Type 0) (Q : B → Type 0)
      → Returns m P
      → ((a : A) → P a → Returns (f a) Q)
      → Returns (m >>= f) Q
  bind-Returns (ok a) f P Q h k = k a h
  bind-Returns blocked f P Q h k = absurd h
  bind-Returns (panic x) f P Q h k = absurd h

module _ {A : Type 0} where
  pub Partly-ok : (m : Outcome A) (P : A → Type 0) {a : A} → Partly m P → m ≡ ok a → P a
  Partly-ok (ok b) P h e = subst P (ground arith) h
  Partly-ok blocked P h e = cc
  Partly-ok (panic x) P h e = cc

  pub Partly-map :
      (m : Outcome A) (P Q : A → Type 0) → Partly m P → ((a : A) → P a → Q a) → Partly m Q
  Partly-map (ok a) P Q h k = k a h
  Partly-map blocked P Q h k = tt
  Partly-map (panic x) P Q h k = tt

  -- What is so whenever the run completes.
  pub Partly_of_ok : (m : Outcome A) (P : A → Type 0) → ((a : A) → m ≡ ok a → P a) → Partly m P
  Partly_of_ok (ok a) P h = h a refl
  Partly_of_ok blocked P h = tt
  Partly_of_ok (panic x) P h = tt

  pub Partly_of_Safely : (m : Outcome A) (P : A → Type 0) → Safely m P → Partly m P
  Partly_of_Safely (ok a) P h = h
  Partly_of_Safely blocked P h = tt
  Partly_of_Safely (panic x) P h = tt

  -- What does nothing more may be left off.
  pub bind_idle : (m : Outcome A) (f : A → Outcome A) → ((a : A) → f a ≡ ok a) → (m >>= f) ≡ m
  bind_idle (ok a) f h = h a
  bind_idle blocked f h = refl
  bind_idle (panic x) f h = refl

  pub if-Partly :
      (b : Bool) (x y : Outcome A) (P : A → Type 0)
      → (b ≡ true → Partly x P)
      → (b ≡ false → Partly y P)
      → Partly (if b then x else y) P
  if-Partly true x y P h k = h refl
  if-Partly false x y P h k = k refl

  pub Safely_of_Returns : (m : Outcome A) (P : A → Type 0) → Returns m P → Safely m P
  Safely_of_Returns (ok a) P h = h
  Safely_of_Returns blocked P h = tt
  Safely_of_Returns (panic x) P h = h

  pub Returns-ok : (m : Outcome A) (P : A → Type 0) {a : A} → Returns m P → m ≡ ok a → P a
  Returns-ok (ok b) P h e = subst P (ground arith) h
  Returns-ok blocked P h e = absurd h
  Returns-ok (panic x) P h e = absurd h

  pub Returns-eq : (m : Outcome A) (P : A → Type 0) → Returns m P → (a : A) × (m ≡ ok a) × P a
  Returns-eq (ok a) P h = (a, refl, h)
  Returns-eq blocked P h = absurd h
  Returns-eq (panic x) P h = absurd h

  pub Safely-ok : (m : Outcome A) (P : A → Type 0) {a : A} → Safely m P → m ≡ ok a → P a
  Safely-ok (ok b) P h e = subst P (ground arith) h
  Safely-ok blocked P h e = cc
  Safely-ok (panic x) P h e = absurd h

  pub Safely-map :
      (m : Outcome A) (P Q : A → Type 0) → Safely m P → ((a : A) → P a → Q a) → Safely m Q
  Safely-map (ok a) P Q h k = k a h
  Safely-map blocked P Q h k = tt
  Safely-map (panic x) P Q h k = h

  pub Returns-map :
      (m : Outcome A) (P Q : A → Type 0) → Returns m P → ((a : A) → P a → Q a) → Returns m Q
  Returns-map (ok a) P Q h k = k a h
  Returns-map blocked P Q h k = h
  Returns-map (panic x) P Q h k = h

  pub Safely-and :
      (m : Outcome A) (P Q : A → Type 0) → Safely m P → Safely m Q → Safely m (λ a. P a × Q a)
  Safely-and (ok a) P Q h k = (h, k)
  Safely-and blocked P Q h k = tt
  Safely-and (panic x) P Q h k = h

  pub Returns-and :
      (m : Outcome A) (P Q : A → Type 0) → Returns m P → Returns m Q → Returns m (λ a. P a × Q a)
  Returns-and (ok a) P Q h k = (h, k)
  Returns-and blocked P Q h k = h
  Returns-and (panic x) P Q h k = h

  pub Returns-Partly :
      (m : Outcome A) (P Q : A → Type 0) → Returns m P → Partly m Q → Returns m (λ a. P a × Q a)
  Returns-Partly (ok a) P Q h k = (h, k)
  Returns-Partly blocked P Q h k = h
  Returns-Partly (panic x) P Q h k = h

  pub if-Safely :
      (b : Bool) (x y : Outcome A) (P : A → Type 0)
      → (b ≡ true → Safely x P)
      → (b ≡ false → Safely y P)
      → Safely (if b then x else y) P
  if-Safely true x y P h k = h refl
  if-Safely false x y P h k = k refl
