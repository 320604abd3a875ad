-- ===== src/Script/Copy/Nested.antt =====
-- The copy of a table that holds a table.
use wrk.Base.{ℕ, zero, suc, ◌<◌, ◌≡◌, refl, ◌∙◌, true, none, some, List, [], ◌∷◌, arith}
use wrk.Lua.{
  Value, nil, boolean, number, string, table, function, cfunction, userdata, Heap, Machine, fault,
  Step, ◌>>◌,
}
use wrk.Lua.Api.{pop, settable, next, from_top}
use wrk.Lua.Seq.{bind_ok, bind_fault}
use wrk.Script.Copy.{Both, on_src, on_dst, script_copy_value, copy_pairs}
use wrk.Script.Copy.Flat.{
  is_plain, copy_of, no_table_below, copy_plain, copy_value_table, copy_pairs-round, round_lem,
  copy_table,
}

module _ {W F : Type 0} ⦃heap : Heap W F⦄ where
  next-fault :
      (k : Value F) (v : Value F) (st : List (Value F)) (w : W)
      → no_table_below st ≡ true
      → next (from_top 3) (record { stack = k ∷ v ∷ st; heap = w }) ≡ fault
  next-fault k v [] w h = refl
  next-fault k v (nil ∷ st) w h = refl
  next-fault k v (boolean b ∷ st) w h = refl
  next-fault k v (number n ∷ st) w h = refl
  next-fault k v (string s ∷ st) w h = refl
  next-fault k v (table t ∷ st) w h = cc
  next-fault k v (function r ∷ st) w h = refl
  next-fault k v (cfunction c ∷ st) w h = refl
  next-fault k v (userdata r u ∷ st) w h = refl

  copy_pairs-fault :
      (fuel j : ℕ) (s : Both W F)
      → next (from_top (suc j)) s.src ≡ fault
      → copy_pairs (suc fuel) j s ≡ fault
  unfolding copy_pairs
  copy_pairs-fault fuel j s h = ground arith

  -- The copy of the key, which by then reads the table itself.
  copy_below_fault :
      (fuel t u : ℕ) (k : Value F) (st : List (Value F)) (w : W) (dst : Machine W F)
      → heap.next_pair w t nil ≡ some (k, table u)
      → heap.next_pair w u nil ≡ none
      → is_plain k ≡ true
      → no_table_below st ≡ true
      → script_copy_value
          (suc (suc (suc (suc fuel))))
          2
          (record { src = record { stack = k ∷ table t ∷ st; heap = w }; dst = dst })
        ≡ fault
  copy_below_fault fuel t u k st w dst n e plain below =
      let (t', w1) = heap.new_table dst.heap in
      let (u', w2) = heap.new_table w1 in
      let under = k ∷ table t ∷ st in
      let dst1 : Machine W F = record { stack = table t' ∷ dst.stack; heap = w1 } in
      let s : Both W F = record { src = record { stack = under; heap = w }; dst = dst } in
      copy_value_table (suc (suc (suc fuel))) 2 t s refl
      ∙ copy_pairs-round (suc (suc fuel)) 2 t nil k (table u) under w dst1 refl n
      ∙ round_lem (script_copy_value (suc (suc fuel))) (copy_pairs (suc (suc fuel)) 2) t' k
          (copy_of k) (table u') (table u ∷ k ∷ under) under dst.stack w w1 w2
          (copy_table (suc (suc fuel)) u [] (k ∷ under) w dst1 e tt (omega arith))
          (copy_plain (suc fuel) 2 k
            (record {
              src = record { stack = k ∷ under; heap = w };
              dst = record { stack = table u' ∷ table t' ∷ dst.stack; heap = w2 };
            })
            refl plain)
          refl
      ∙ copy_pairs-fault (suc fuel) 2
          (record {
            src = record { stack = under; heap = w };
            dst = record {
              stack = table t' ∷ dst.stack;
              heap = heap.put w2 t' (table u') (copy_of k);
            };
          })
          (next-fault k (table t) st w below)

  -- With fuel for six levels, a table whose first pair is a plain key with an empty table is not
  -- copied: when there is no table below it, the copy comes to read a place of the stack that holds
  -- no table.
  pub copy_nested :
      (fuel t u : ℕ) (k : Value F) (st : List (Value F)) (w : W) (dst : Machine W F)
      → heap.next_pair w t nil ≡ some (k, table u)
      → heap.next_pair w u nil ≡ none
      → is_plain k ≡ true
      → no_table_below st ≡ true
      → 5 < fuel
      → script_copy_value fuel 1
          (record { src = record { stack = table t ∷ st; heap = w }; dst = dst })
        ≡ fault
  copy_nested (suc (suc (suc (suc (suc (suc fuel)))))) t u k st w dst n e plain below enough =
      let (t', w1) = heap.new_table dst.heap in
      let (u', w2) = heap.new_table w1 in
      let more = suc (suc (suc (suc fuel))) in
      let under = k ∷ table t ∷ st in
      let dst1 : Machine W F = record { stack = table t' ∷ dst.stack; heap = w1 } in
      let s : Both W F = record {
        src = record { stack = table u ∷ under; heap = w };
        dst = dst1;
      } in
      let dst2 : Machine W F = record { stack = table u' ∷ table t' ∷ dst.stack; heap = w2 } in
      let s1 : Both W F = record { src = record { stack = under; heap = w }; dst = dst2 } in
      let store_pair : Step (Both W F) F (Unit {0}) =
        on_dst (settable (from_top 3)) >> (on_src (pop 1) >> copy_pairs more 1) in
      copy_value_table (suc more) 1 t
        (record { src = record { stack = table t ∷ st; heap = w }; dst = dst }) refl
      ∙ copy_pairs-round more 1 t nil k (table u) (table t ∷ st) w dst1 refl n
      ∙ bind_ok (script_copy_value more 1) (λ _. script_copy_value more 2 >> store_pair) s
          (copy_table more u [] under w dst1 e tt (omega arith))
      ∙ bind_fault (script_copy_value more 2) (λ _. store_pair) s1
          (copy_below_fault fuel t u k st w dst2 n e plain below)
  copy_nested zero t u k st w dst n e plain below enough = ground arith
  copy_nested (suc zero) t u k st w dst n e plain below enough = ground arith
  copy_nested (suc (suc zero)) t u k st w dst n e plain below enough = ground arith
  copy_nested (suc (suc (suc zero))) t u k st w dst n e plain below enough = ground arith
  copy_nested (suc (suc (suc (suc zero)))) t u k st w dst n e plain below enough = ground arith
  copy_nested (suc (suc (suc (suc (suc zero))))) t u k st w dst n e plain below enough =
      ground arith
