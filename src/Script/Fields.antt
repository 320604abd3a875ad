-- ===== src/Script/Fields.antt =====
-- What `set_fields` leaves in a table.
use wrk.Base.{
  ℕ, ◌≡◌, ◌≢◌, refl, ap, sym, ◌∙◌, false, some, List, [], ◌∷◌, arith, same_bytes, All,
  same_bytes_self,
}
use wrk.Float.{Float}
use wrk.Lua.{Value, string, table, Heap, ok}
use wrk.Lua.Api.{setfield, Index, place}
use wrk.Lua.Laws.{HeapLaws}
use wrk.Script.{TableField, field_value, set_fields}

module _ {W F : Type 0} ⦃fl : Float F⦄ (heap : Heap W F) where
  -- The assignments of `set_fields`, one after the other.
  abbrev pub put_fields : W → ℕ → List TableField → W
  put_fields w t [] = w
  put_fields w t (f ∷ fields) =
      put_fields (heap.put w t (string f.name) (field_value f.value)) t fields

  -- The table has these fields.
  abbrev pub HasFields : W → ℕ → List TableField → Type 0
  HasFields w t fields = All (λ f. heap.get w t (string f.name) ≡ field_value f.value) fields

-- No field has the name.
abbrev pub NotAmong : List ℕ → List TableField → Type 0
NotAmong name fields = All (λ f. same_bytes f.name name ≡ false) fields

abbrev pub AreDistinct : List TableField → Type 0
AreDistinct [] = Unit
AreDistinct (f ∷ fields) = NotAmong f.name fields × AreDistinct fields

pub string_ne :
    {F : Type 0} (xs ys : List ℕ)
    → same_bytes xs ys ≡ false
    → ◌≢◌ {A = Value F} (string xs) (string ys)
string_ne xs ys h e =
    let same : xs ≡ ys = ground (arith, e) in
    cc (h, ap (λ t. same_bytes t ys) same, same_bytes_self ys)

module _ {W F : Type 0} ⦃fl : Float F⦄ ⦃heap : Heap W F⦄ where
  setfield_lem :
      (i : Index) (name : List ℕ) (v : Value F) (st : List (Value F)) (w : W) (t : ℕ)
      → place i (v ∷ st) ≡ some (table t)
      → setfield i name (record { stack = v ∷ st; heap = w })
        ≡ ok (tt, record { stack = st; heap = heap.put w t (string name) v })
  setfield_lem i name v st w t h = ground arith

  -- The index means the same table while a value is on top.
  pub set_fields_lem :
      (i : Index) (t : ℕ) (fields : List TableField) (st : List (Value F)) (w : W)
      → ((v : Value F) → place i (v ∷ st) ≡ some (table t))
      → set_fields i fields (record { stack = st; heap = w })
        ≡ ok (tt, record { stack = st; heap = put_fields heap w t fields })
  unfolding set_fields
  set_fields_lem i t [] st w h = refl
  set_fields_lem i t (f ∷ fields) st w h =
      let v : Value F = field_value f.value in
      cc (
        setfield_lem i f.name v st w t (h v),
        set_fields_lem i t fields st (heap.put w t (string f.name) v) h,
      )

module _ {W F : Type 0} ⦃fl : Float F⦄ (heap : Heap W F) (laws : HeapLaws W F ⦃heap = heap⦄) where
  pub put_fields-NotAmong :
      (w : W) (t : ℕ) (fields : List TableField) (name : List ℕ)
      → NotAmong name fields
      → heap.get (put_fields heap w t fields) t (string name) ≡ heap.get w t (string name)
  put_fields-NotAmong w t [] name h = refl
  put_fields-NotAmong w t (f ∷ fields) name (h, hs) =
      put_fields-NotAmong (heap.put w t (string f.name) (field_value f.value)) t fields name hs
      ∙ laws.get-put_key w t (string f.name) (string name) (field_value f.value)
          (string_ne f.name name h)

  pub put_fields-HasFields :
      (w : W) (t : ℕ) (fields : List TableField)
      → AreDistinct fields
      → HasFields heap (put_fields heap w t fields) t fields
  put_fields-HasFields w t [] h = tt
  put_fields-HasFields w t (f ∷ fields) (h, hs) =
      let w' = heap.put w t (string f.name) (field_value f.value) in
      (
        put_fields-NotAmong w' t fields f.name h
            ∙ laws.get-put_self w t (string f.name) (field_value f.value),
        put_fields-HasFields w' t fields hs,
      )

  pub put_fields-other :
      (w : W) (t t' : ℕ) (fields : List TableField) (k : Value F)
      → t ≢ t'
      → heap.get (put_fields heap w t fields) t' k ≡ heap.get w t' k
  put_fields-other w t t' [] k h = refl
  put_fields-other w t t' (f ∷ fields) k h =
      put_fields-other (heap.put w t (string f.name) (field_value f.value)) t t' fields k h
      ∙ laws.get-put_table w t t' (string f.name) k (field_value f.value) h

  pub put_fields-Live :
      (w : W) (t t' : ℕ) (fields : List TableField)
      → laws.Live w t'
      → laws.Live (put_fields heap w t fields) t'
  put_fields-Live w t t' [] h = h
  put_fields-Live w t t' (f ∷ fields) h =
      put_fields-Live (heap.put w t (string f.name) (field_value f.value)) t t' fields
        (laws.put-Live w t' t (string f.name) (field_value f.value) h)

  -- What leaves the tables alone leaves their fields alone.
  pub HasFields-kept :
      (w w' : W) (t : ℕ) (fields : List TableField)
      → ((k : Value F) → heap.get w' t k ≡ heap.get w t k)
      → HasFields heap w t fields
      → HasFields heap w' t fields
  HasFields-kept w w' t [] same h = tt
  HasFields-kept w w' t (f ∷ fields) same (h, hs) =
      (same (string f.name) ∙ h, HasFields-kept w w' t fields same hs)

  pub global-put_fields :
      (w : W) (t : ℕ) (fields : List TableField) (name : List ℕ)
      → heap.global (put_fields heap w t fields) name ≡ heap.global w name
  global-put_fields w t [] name = refl
  global-put_fields w t (f ∷ fields) name =
      global-put_fields (heap.put w t (string f.name) (field_value f.value)) t fields name
      ∙ laws.global-put w name t (string f.name) (field_value f.value)

  pub HasFields-put :
      (w : W) (t : ℕ) (fields : List TableField) (name : List ℕ) (v : Value F)
      → NotAmong name fields
      → HasFields heap w t fields
      → HasFields heap (heap.put w t (string name) v) t fields
  HasFields-put w t [] name v apart h = tt
  HasFields-put w t (f ∷ fields) name v (a, apart) (h, hs) = (
    laws.get-put_key w t (string name) (string f.name) v (λ e. string_ne f.name name a (sym e)) ∙ h,
    HasFields-put w t fields name v apart hs,
  )
