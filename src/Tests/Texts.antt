-- ===== src/Tests/Texts.antt =====
-- Texts as lists of numbers, and back.
use Prim.Native.Char.{Char, char, code, IsLt, IsScalar, nul}
use Prim.Native.String.{String, [] as empty, ◌∷◌ as ◌▹◌}
use Prim.Native.Nat.{Ordering, compare}
use vchamber.Prelude.{ℕ, ◌≡◌, refl, ap, ◌∙◌, List, [], ◌∷◌, Option, none, some}

-- The character with a number, if there is one.
less : (o : Ordering) → Option (IsLt o)
less Ordering.lt = some tt
less Ordering.eq = none
less Ordering.gt = none

abbrev Both : Ordering → Ordering → Type 0
Both Ordering.lt o = IsLt o
Both Ordering.eq _ = ⊥
Both Ordering.gt _ = ⊥

abbrev Scalar : Ordering → Ordering → Ordering → Type 0
Scalar Ordering.lt _ _ = Unit
Scalar Ordering.eq o p = Both o p
Scalar Ordering.gt o p = Both o p

both_less : (o p : Ordering) → Option (Both o p)
both_less Ordering.lt p = less p
both_less Ordering.eq p = none
both_less Ordering.gt p = none

scalar_test : (o p q : Ordering) → Option (Scalar o p q)
scalar_test Ordering.lt p q = some tt
scalar_test Ordering.eq p q = both_less p q
scalar_test Ordering.gt p q = both_less p q

char_of : (n : ℕ) → Option (IsScalar n) → Char
char_of n none = nul
char_of n (some p) = char n p

pub to_char : ℕ → Char
to_char n = char_of n (scalar_test (compare n 55296) (compare 57343 n) (compare n 1114112))

less_complete : (o : Ordering) (p : IsLt o) → less o ≡ some p
unfolding less
less_complete Ordering.lt p = refl
less_complete Ordering.eq p = absurd p
less_complete Ordering.gt p = absurd p

both_less_complete : (o p : Ordering) (h : Both o p) → both_less o p ≡ some h
unfolding both_less
both_less_complete Ordering.lt p h = less_complete p h
both_less_complete Ordering.eq p h = absurd h
both_less_complete Ordering.gt p h = absurd h

scalar_test_complete : (o p q : Ordering) (h : Scalar o p q) → scalar_test o p q ≡ some h
unfolding scalar_test
scalar_test_complete Ordering.lt p q h = refl
scalar_test_complete Ordering.eq p q h = both_less_complete p q h
scalar_test_complete Ordering.gt p q h = both_less_complete p q h

pub to_char-code : (c : Char) → to_char (code c) ≡ c
unfolding to_char char_of
to_char-code (char n p) =
    ap (char_of n) (scalar_test_complete (compare n 55296) (compare 57343 n) (compare n 1114112) p)

pub codes : String → List ℕ
codes empty = []
codes (c ▹ s) = code c ∷ codes s

pub read_text : List ℕ → String
read_text [] = empty
read_text (n ∷ ns) = to_char n ▹ read_text ns

pub read_text-codes : (s : String) → read_text (codes s) ≡ s
unfolding read_text codes
read_text-codes empty = refl
read_text-codes (c ▹ s) =
    ap (λ d. d ▹ read_text (codes s)) (to_char-code c) ∙ ap (λ t. c ▹ t) (read_text-codes s)
