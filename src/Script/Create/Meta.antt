-- ===== src/Script/Create/Meta.antt =====
-- The metatables that `script_create` of src/script.c makes.
use mathlib.Core.Path.{subst}
use wrk.Base.{ℕ, ◌≡◌, ◌≢◌, refl, sym, ◌∙◌, false, List, [], ◌∷◌, codes, same_bytes}
use wrk.Float.{Float}
use wrk.Lua.{Value, nil, string, table, Heap, ok}
use wrk.Lua.Api.{from_top, newmetatable}
use wrk.Lua.Laws.{HeapLaws}
use wrk.Lua.Seq.{bind_ok}
use wrk.Script.{TableField, field_value, set_fields}
use wrk.Script.Fields.{
  put_fields, set_fields_lem, put_fields-other, put_fields-Live, global-put_fields,
}
use wrk.Script.Create.{addrlib, statslib, threadlib, metatable}

pub names_apart :
    (same_bytes (codes "wrk.addr") (codes "wrk.stats") ≡ false)
    × (same_bytes (codes "wrk.stats") (codes "wrk.thread") ≡ false)
    × (same_bytes (codes "wrk.addr") (codes "wrk.thread") ≡ false)
unfolding same_bytes
names_apart = (refl, refl, refl)

module _ {W F : Type 0} ⦃fl : Float F⦄ (heap : Heap W F) where
  -- The heap with a new metatable that has these fields.
  abbrev pub with_meta : W → List ℕ → List TableField → W
  with_meta w name fields =
      let (t, w1) = heap.new_table w in
      put_fields heap (heap.set_registry w1 name (table t)) t fields

  abbrev pub with_metas : W → W
  with_metas w =
      with_meta (with_meta (with_meta w (codes "wrk.addr") addrlib) (codes "wrk.stats") statslib)
        (codes "wrk.thread") threadlib

module _ {W F : Type 0} ⦃fl : Float F⦄ ⦃heap : Heap W F⦄ where
  pub metatable_lem :
      (name : List ℕ) (fields : List TableField) (st : List (Value F)) (w : W)
      → heap.registry w name ≡ nil
      → metatable name fields (record { stack = st; heap = w })
        ≡ ok (
          tt,
          record { stack = table (heap.new_table w).0 ∷ st; heap = with_meta heap w name fields },
        )
  metatable_lem name fields st w free =
      let (t, w1) = heap.new_table w in
      let st' : List (Value F) = table t ∷ st in
      let w2 = heap.set_registry w1 name (table t) in
      bind_ok (newmetatable name) (λ _. set_fields (from_top 2) fields)
        (record { stack = st; heap = w }) (rw (free, newmetatable))
      ∙ set_fields_lem (from_top 2) t fields st' w2 (λ v. refl)

module _ {W F : Type 0} ⦃fl : Float F⦄ (heap : Heap W F) (laws : HeapLaws W F ⦃heap = heap⦄) where
  registry-put_fields :
      (w : W) (t : ℕ) (fields : List TableField) (n : List ℕ)
      → heap.registry (put_fields heap w t fields) n ≡ heap.registry w n
  registry-put_fields w t [] n = refl
  registry-put_fields w t (f ∷ fields) n =
      registry-put_fields (heap.put w t (string f.name) (field_value f.value)) t fields n
      ∙ laws.registry-put w n t (string f.name) (field_value f.value)

  pub registry-with_meta :
      (w : W) (name : List ℕ) (fields : List TableField) (n : List ℕ)
      → same_bytes name n ≡ false
      → heap.registry (with_meta heap w name fields) n ≡ heap.registry w n
  registry-with_meta w name fields n apart =
      let (t, w1) = heap.new_table w in
      registry-put_fields (heap.set_registry w1 name (table t)) t fields n
      ∙ laws.registry-set_registry w1 name (table t) n apart
      ∙ laws.registry-new_table w n

  pub global-with_meta :
      (w : W) (name : List ℕ) (fields : List TableField) (n : List ℕ)
      → heap.global (with_meta heap w name fields) n ≡ heap.global w n
  global-with_meta w name fields n =
      let (t, w1) = heap.new_table w in
      global-put_fields heap laws (heap.set_registry w1 name (table t)) t fields n
      ∙ laws.global-set_registry w1 name (table t) n
      ∙ laws.global-new_table w n

  -- A table that was there keeps what it has.
  abbrev pub Keeps : W → W → ℕ → Type 0
  Keeps w w' u = laws.Live w' u × ((k : Value F) → heap.get w' u k ≡ heap.get w u k)

  with_meta-Keeps :
      (w : W) (name : List ℕ) (fields : List TableField) (u : ℕ)
      → laws.Live w u
      → Keeps w (with_meta heap w name fields) u
  with_meta-Keeps w name fields u live =
      let (t, w1) = heap.new_table w in
      let w2 = heap.set_registry w1 name (table t) in
      let apart : t ≢ u = λ same. laws.new-fresh w (subst (λ x. laws.Live w x) (sym same) live) in
      (
        put_fields-Live heap laws w2 t u fields
            (laws.set_registry-Live w1 name (table t) u (laws.new_table-Live w u live)),
        (λ k.
            put_fields-other heap laws w2 t u fields k apart
            ∙ laws.get-set_registry w1 name (table t) u k
            ∙ laws.get-new_table w u k live),
      )

  pub with_metas-Keeps : (w : W) (u : ℕ) → laws.Live w u → Keeps w (with_metas heap w) u
  with_metas-Keeps w u live =
      let m1 = with_meta heap w (codes "wrk.addr") addrlib in
      let m2 = with_meta heap m1 (codes "wrk.stats") statslib in
      let (l1, k1) = with_meta-Keeps w (codes "wrk.addr") addrlib u live in
      let (l2, k2) = with_meta-Keeps m1 (codes "wrk.stats") statslib u l1 in
      let (l3, k3) = with_meta-Keeps m2 (codes "wrk.thread") threadlib u l2 in
      (l3, (λ k. k3 k ∙ k2 k ∙ k1 k))
