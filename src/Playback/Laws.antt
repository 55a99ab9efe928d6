-- ===== src/Playback/Laws.antt =====
-- What is relied on of float64 arithmetic: rounding is monotone, and comparisons with NaN fail.
use vchamber.Prelude.{ℕ, ◌≡◌, true, false, ◌<◌, ◌≤◌, arith, ltb, ◌+◌, ◌*◌, ◌/◌}
use vchamber.Wire.{Float64, zero_float, FloatOps, Duration}

pub record FloatLaws (fl : FloatOps) : Type 0 where
  pub gt_irrefl : (x : Float64) → fl.gt x x ≡ false
  pub gt-add : (p x y : Float64) → fl.gt (fl.add p x) (fl.add p y) ≡ true → fl.gt x y ≡ true
  -- for a factor that is not negative
  pub gt-mul :
      (s x y : Float64)
      → fl.gt zero_float s ≡ false
      → fl.gt (fl.mul x s) (fl.mul y s) ≡ true
      → fl.gt x y ≡ true
  pub gt-seconds : (d e : Duration) → fl.gt (fl.seconds d) (fl.seconds e) ≡ true → e < d

-- Natural numbers in place of bit patterns.
abbrev pub whole_ops : FloatOps
whole_ops = record {
  add = λ x y. record { bits = x.bits + y.bits };
  mul = λ x y. record { bits = x.bits * y.bits };
  div = λ x y. record { bits = x.bits / y.bits };
  max = λ x y. x;
  gt = λ x y. ltb y.bits x.bits;
  seconds = λ d. record { bits = d };
}

whole-gt_irrefl : (x : Float64) → whole_ops.gt x x ≡ false
whole-gt_irrefl x = ground arith

whole-gt-add :
    (p x y : Float64)
    → whole_ops.gt (whole_ops.add p x) (whole_ops.add p y) ≡ true
    → whole_ops.gt x y ≡ true
whole-gt-add p x y h = ground arith

mul_mono : (x y s : ℕ) → x ≤ y → x * s ≤ y * s
mul_mono x y s h = grind arith

whole-gt-mul :
    (s x y : Float64)
    → whole_ops.gt zero_float s ≡ false
    → whole_ops.gt (whole_ops.mul x s) (whole_ops.mul y s) ≡ true
    → whole_ops.gt x y ≡ true
whole-gt-mul s x y n h = ground (arith, mul_mono x.bits y.bits s.bits)

whole-gt-seconds :
    (d e : Duration) → whole_ops.gt (whole_ops.seconds d) (whole_ops.seconds e) ≡ true → e < d
whole-gt-seconds d e h = ground arith

pub whole_laws : FloatLaws whole_ops
whole_laws = record {
  gt_irrefl = whole-gt_irrefl;
  gt-add = whole-gt-add;
  gt-mul = whole-gt-mul;
  gt-seconds = whole-gt-seconds;
}
