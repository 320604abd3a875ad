-- ===== src/Script/Copy.antt =====
-- `script_copy_value` of src/script.c, which copies a value from one Lua state to another.
pub mod Flat
pub mod Nested
use wrk.Base.{ℕ, zero, suc, true, false, until_nul}
use wrk.Lua.{
  nil, boolean, number, string, table, function, cfunction, userdata, Heap, Machine,
  cannot_transfer, ok, raised, fault, no_fuel, M, Step, ◌>>=◌, ◌>>◌,
}
use wrk.Lua.Api.{fail, push, pop, value_at, newtable, settable, next, from_top}

-- The two states of a copy.
pub record Both (W F : Type 0) : Type 0 where
  pub src : Machine W F
  pub dst : Machine W F

module _ {W F : Type 0} where
  abbrev pub on_src : {A : Type 0} → M W F A → Step (Both W F) F A
  on_src m s = elim (m s.src) [
    | ok (a, src') ↦ ok (a, record s { src = src' })
    | raised e ↦ raised e
    | fault ↦ fault
    | no_fuel ↦ no_fuel
  ]

  abbrev pub on_dst : {A : Type 0} → M W F A → Step (Both W F) F A
  on_dst m s = elim (m s.dst) [
    | ok (a, dst') ↦ ok (a, record s { dst = dst' })
    | raised e ↦ raised e
    | fault ↦ fault
    | no_fuel ↦ no_fuel
  ]

module _ {W F : Type 0} ⦃heap : Heap W F⦄ where
  -- The index is `k` places below the top. The loop over the pairs of a table is `copy_pairs`.
  unfoldable mutual
    pub script_copy_value : ℕ → ℕ → Step (Both W F) F (Unit {0})
    script_copy_value zero k = λ s. no_fuel
    script_copy_value (suc fuel) k = do
      v ← on_src (value_at (from_top k))
      elim v [
        | boolean b ↦ on_dst (push (boolean b))
        | nil ↦ on_dst (push nil)
        | number n ↦ on_dst (push (number n))
        | string s ↦ on_dst (push (string (until_nul s)))
        | table t ↦ (do on_dst newtable; on_src (push nil); copy_pairs fuel k)
        | function r ↦ on_src (fail (cannot_transfer (function r)))
        | cfunction f ↦ on_src (fail (cannot_transfer (cfunction f)))
        | userdata r u ↦ on_src (fail (cannot_transfer (userdata r u)))
      ]

    pub copy_pairs : ℕ → ℕ → Step (Both W F) F (Unit {0})
    copy_pairs zero k = λ s. no_fuel
    copy_pairs (suc fuel) k = do
      more ← on_src (next (from_top (suc k)))
      elim more [
        | false ↦ on_src (pop 1)
        | true ↦ (do
          script_copy_value fuel 1
          script_copy_value fuel 2
          on_dst (settable (from_top 3))
          on_src (pop 1)
          copy_pairs fuel k)
      ]
