-- ===== src/Float.antt =====
-- The `double` and `long double` arithmetic of the program, as an interface: what the C
-- implementation does is not in the repository. Both widths go by one type.
pub mod Ratio
use wrk.Base.{ℕ, Bool, ltb, ◌%◌, ◌+◌, ◌^◌}

pub record Float (F : Type 0) : Type 0 where
  pub of_u64 : ℕ → F
  pub of_i64 : ℕ → F  -- of the signed reading of a 64-bit pattern
  pub to_u64 : F → ℕ
  pub to_i64 : F → ℕ  -- a 64-bit pattern
  pub to_int : F → ℕ  -- a 32-bit pattern
  pub round : F → F
  pub fadd : F → F → F
  pub fsub : F → F → F
  pub fmul : F → F → F
  pub fdiv : F → F → F
  pub square : F → F  -- `powl(x, 2)`
  pub fsqrt : F → F
  pub fle : F → F → Bool
  pub feq : F → F → Bool

-- `a < b` on int64_t patterns.
abbrev pub lt_i64 : ℕ → ℕ → Bool
lt_i64 a b = ltb ((a + 2 ^ 63) % 2 ^ 64) ((b + 2 ^ 63) % 2 ^ 64)

-- The constant 0.5.
abbrev pub half : {F : Type 0} → Float F → F
half fl = fl.fdiv (fl.of_u64 1) (fl.of_u64 2)
