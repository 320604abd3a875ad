-- ===== src/Float/Ratio.antt =====
-- Exact non-negative fractions, to run the definitions that compute in floating point.
use native.Mathlib.Nat.{le-div_iff_mul-le, div-lt_iff_lt-mul}
use wrk.Base.{ℕ, ◌+◌, ◌-◌, ◌*◌, ◌/◌, ◌%◌, ◌^◌, ◌<◌, ◌≤◌, ◌≡◌, true, false, leb, ◌==◌, arith}
use wrk.Float.{Float}

pub record Ratio : Type 0 where
  pub num : ℕ
  pub den : ℕ

abbrev pub ratio : ℕ → ℕ → Ratio
ratio a b = record { num = a; den = b }

instance abbrev pub ratio_float : Float Ratio
ratio_float = record {
  of_u64 = λ n. ratio n 1;
  of_i64 = λ n. ratio n 1;
  to_u64 = λ x. (x.num / x.den) % 2 ^ 64;
  to_i64 = λ x. x.num / x.den;
  to_int = λ x. (x.num / x.den) % 2 ^ 32;
  round = λ x. ratio ((2 * x.num + x.den) / (2 * x.den)) 1;
  fadd = λ x y. ratio (x.num * y.den + y.num * x.den) (x.den * y.den);
  fsub = λ x y. ratio (x.num * y.den - y.num * x.den) (x.den * y.den);
  fmul = λ x y. ratio (x.num * y.num) (x.den * y.den);
  fdiv = λ x y. ratio (x.num * y.den) (x.den * y.num);
  square = λ x. ratio (x.num * x.num) (x.den * x.den);
  fsqrt = λ x. x;
  fle = λ x y. leb (x.num * y.den) (y.num * x.den);
  feq = λ x y. x.num * y.den == y.num * x.den;
}

pub ratio_range : (x : Ratio) → ratio_float.to_u64 x < 2 ^ 64
ratio_range x = omega arith

-- A fraction that compares as above `low` and at most `high`, an `int`, is at least `low` when it is
-- converted to `int`.
pub ratio_at_least :
    (x : Ratio) (low high : ℕ)
    → ratio_float.fle x (ratio low 1) ≡ false
    → ratio_float.fle x (ratio high 1) ≡ true
    → high < 2 ^ 31
    → low ≤ ratio_float.to_int x
ratio_at_least x low high more fits small =
    let above : low * x.den < x.num = ground arith in
    let within : x.num ≤ high * x.den = ground arith in
    let some_den : 0 < x.den = grind arith in
    let big : low ≤ x.num / x.den = (le-div_iff_mul-le some_den).1 (omega arith) in
    let fit : x.num / x.den < high + 1 = (div-lt_iff_lt-mul some_den).1 (grind arith) in omega arith
