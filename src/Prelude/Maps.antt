-- ===== src/Prelude/Maps.antt =====
-- Go's map[string]V: an association list in which no key stands twice.
use Prim.Native.Nat.{◌+◌}
use Prim.Native.String.{String}
use mathlib.Core.Path.{◌≡◌, refl}
use mathlib.Core.Logic.{◌⊎◌, inl, inr}
use mathlib.Core.Option.{Option, none, some}
use mathlib.Core.List.{List, [], ◌∷◌}
use native.Mathlib.Omega.{arith}
use vchamber.Prelude.Tests.{str_eq, str_eq_iff, str_eq_self, if◌then◌else◌}
use vchamber.Prelude.Lists.{length}

abbrev pub GoMap {ℓ} : Type ℓ → Type ℓ
GoMap V = List (String × V)

module _ {ℓ} {V : Type ℓ} where
  -- v, ok := m[k]
  unfoldable pub lookup : String → GoMap V → Option V
  lookup k [] = none
  lookup k ((j, v) ∷ m) = if str_eq j k then some v else lookup k m

  -- m[k] = v
  unfoldable pub insert : String → V → GoMap V → GoMap V
  insert k v [] = (k, v) ∷ []
  insert k v ((j, w) ∷ m) = if str_eq j k then (j, v) ∷ m else (j, w) ∷ insert k v m

  -- delete(m, k)
  unfoldable pub delete : String → GoMap V → GoMap V
  delete k [] = []
  delete k ((j, v) ∷ m) = if str_eq j k then delete k m else (j, v) ∷ delete k m

  abbrev pub IsDistinct : GoMap V → Type ℓ
  IsDistinct [] = Unit
  IsDistinct ((j, v) ∷ m) = (lookup j m ≡ none) × IsDistinct m

  pub lookup-insert :
      (k j : String) (v : V) (m : GoMap V)
      → lookup j (insert k v m) ≡ (if str_eq k j then some v else lookup j m)
  unfolding lookup insert
  lookup-insert k j v [] = refl
  lookup-insert k j v ((i, w) ∷ m) =
      ground (arith, str_eq_iff k j, str_eq_iff i k, str_eq_iff i j, lookup-insert k j v m)

  pub lookup-delete :
      (k j : String) (m : GoMap V)
      → lookup j (delete k m) ≡ (if str_eq k j then none else lookup j m)
  unfolding lookup delete
  lookup-delete k j [] = ground arith
  lookup-delete k j ((i, w) ∷ m) =
      ground (arith, str_eq_iff k j, str_eq_iff i k, str_eq_iff i j, lookup-delete k j m)

  pub insert-IsDistinct :
      (k : String) (v : V) (m : GoMap V) → IsDistinct m → IsDistinct (insert k v m)
  unfolding lookup insert
  insert-IsDistinct k v [] d = (refl, tt)
  insert-IsDistinct k v ((i, w) ∷ m) d =
      ground
        (arith, str_eq_iff i k, str_eq_iff k i, lookup-insert k i v m, insert-IsDistinct k v m d.1)

  pub delete-IsDistinct : (k : String) (m : GoMap V) → IsDistinct m → IsDistinct (delete k m)
  unfolding lookup delete
  delete-IsDistinct k [] d = tt
  delete-IsDistinct k ((i, w) ∷ m) d =
      ground (arith, lookup-delete k i m, delete-IsDistinct k m d.1)

  -- A new key makes the map one longer.
  pub length-insert_new :
      (k : String) (v : V) (m : GoMap V) → lookup k m ≡ none → length (insert k v m) ≡ length m + 1
  unfolding lookup insert
  length-insert_new k v [] h = omega arith
  length-insert_new k v ((i, w) ∷ m) h = ground (arith, length-insert_new k v m)

  -- Every entry is found under its key.
  pub eq_nil_of_lookup : (m : GoMap V) → ((k : String) → lookup k m ≡ none) → m ≡ []
  unfolding lookup
  eq_nil_of_lookup [] h = refl
  eq_nil_of_lookup ((i, w) ∷ m) h = ground (arith, h i, str_eq_self i)

  pub nil_cases : (m : GoMap V) → (m ≡ []) ⊎ ((k : String) × (v : V) × (lookup k m ≡ some v))
  unfolding lookup
  nil_cases [] = inl refl
  nil_cases ((i, w) ∷ m) = inr (i, w, ground (arith, str_eq_self i))

module _ {ℓ} {V : Type ℓ} where
  -- Entries further down are found too.
  pub lookup-tail :
      (j k : String) (w v : V) (m : GoMap V)
      → IsDistinct ((j, w) ∷ m)
      → lookup k m ≡ some v
      → lookup k ((j, w) ∷ m) ≡ some v
  unfolding lookup
  lookup-tail j k w v m d h = ground (arith, str_eq_iff j k)

  pub lookup-head : (j : String) (w : V) (m : GoMap V) → lookup j ((j, w) ∷ m) ≡ some w
  unfolding lookup
  lookup-head j w m = ground (arith, str_eq_self j)

  -- To delete a key that is not there changes nothing.
  pub delete_absent : (k : String) (m : GoMap V) → lookup k m ≡ none → delete k m ≡ m
  unfolding lookup delete
  delete_absent k [] h = refl
  delete_absent k ((i, w) ∷ m) h = ground (arith, delete_absent k m)

  -- Only the first entry goes with its own key.
  pub delete_head :
      (k : String) (v : V) (m : GoMap V) → lookup k m ≡ none → delete k ((k, v) ∷ m) ≡ m
  unfolding delete
  delete_head k v m h = ground (arith, str_eq_self k, delete_absent k m h)
