-- ===== src/Script.antt =====
-- src/script.c over Lua's C interface: the check of a function, and the fields of a table.
pub mod Fields
pub mod Report
pub mod Calls
pub mod Done
pub mod Copy
pub mod Thread
pub mod Address
pub mod Create
pub mod Request
pub mod Tests
use wrk.Base.{ℕ, Bool, not, List, [], ◌∷◌, codes}
use wrk.Float.{Float}
use wrk.Lua.{CFunction, Value, nil, number, string, cfunction, Heap, M, pure, ◌>>=◌, ◌>>◌}
use wrk.Lua.Api.{push, pop, value_at, getglobal, setfield, Index, from_top, is_closure}

-- The pointer `value` of a `table_field` with its `type`; NULL is `no_value`.
pub data FieldValue : Type 0 where
  no_value : FieldValue
  c_function : CFunction → FieldValue
  word : ℕ → FieldValue
  text : List ℕ → FieldValue

pub record TableField : Type 0 where
  pub name : List ℕ
  pub value : FieldValue

module _ {F : Type 0} ⦃fl : Float F⦄ where
  -- What the `switch` of `set_fields` pushes.
  unfoldable pub field_value : FieldValue → Value F
  field_value no_value = nil
  field_value (c_function f) = cfunction f
  field_value (word n) = number (fl.of_i64 n)
  field_value (text s) = string s

module _ {W F : Type 0} ⦃fl : Float F⦄ ⦃heap : Heap W F⦄ where
  -- The loop, up to the field without a name.
  unfoldable pub set_fields : Index → List TableField → M W F (Unit {0})
  unfolding field_value
  set_fields i [] = pure tt
  set_fields i (f ∷ fields) = do push (field_value f.value); setfield i f.name; set_fields i fields

module _ {W F : Type 0} ⦃heap : Heap W F⦄ where
  unfoldable pub script_is_function : List ℕ → M W F Bool
  script_is_function name = do getglobal name; v ← value_at (from_top 1); pop 1; pure (is_closure v)

  unfoldable pub script_is_static : M W F Bool
  unfolding script_is_function
  script_is_static = do f ← script_is_function (codes "request"); pure (not f)

  unfoldable pub script_want_response : M W F Bool
  unfolding script_is_function
  script_want_response = script_is_function (codes "response")

  unfoldable pub script_has_done : M W F Bool
  unfolding script_is_function
  script_has_done = script_is_function (codes "done")
