-- ===== src/Script/Copy/Flat.antt =====
-- The copy of plain values, and of a table of plain values.
use wrk.Base.{
  ℕ, zero, suc, ◌+◌, ◌<◌, ◌≡◌, refl, ◌∙◌, Bool, true, false, none, some, List, [], ◌∷◌, arith,
  length, until_nul, All,
}
use wrk.Lua.{
  Value, nil, boolean, number, string, table, function, cfunction, userdata, Heap, Machine,
  cannot_transfer, ok, raised, Step, ◌>>◌,
}
use wrk.Lua.Api.{pop, settable, is_key, from_top, place}
use wrk.Lua.Seq.{bind_ok}
use wrk.Script.Copy.{Both, on_src, on_dst, script_copy_value, copy_pairs}

module _ {F : Type 0} where
  -- The values that are copied without a table.
  abbrev pub is_plain : Value F → Bool
  is_plain nil = true
  is_plain (boolean b) = true
  is_plain (number n) = true
  is_plain (string s) = true
  is_plain _ = false

  -- Such a value as it arrives.
  abbrev pub copy_of : Value F → Value F
  copy_of (string s) = string (until_nul s)
  copy_of v = v

  -- A pair of plain values, of which the value may be a key where it arrives.
  abbrev pub ArePlain : (F → Bool) → Value F × Value F → Type 0
  ArePlain is_nan (k, v) =
      (is_plain k ≡ true) × (is_plain v ≡ true) × (is_key is_nan (copy_of v) ≡ true)

  -- The place below the value on top holds no table.
  abbrev pub no_table_below : List (Value F) → Bool
  no_table_below [] = true
  no_table_below (table t ∷ st) = false
  no_table_below (v ∷ st) = true

  abbrev pub is_refused : Value F → Bool
  is_refused (function r) = true
  is_refused (cfunction f) = true
  is_refused (userdata r u) = true
  is_refused _ = false

module _ {W F : Type 0} ⦃heap : Heap W F⦄ where
  -- The pairs of a table behind a key, in the order of traversal.
  abbrev pub Follows : W → ℕ → Value F → List (Value F × Value F) → Type 0
  Follows w t k [] = heap.next_pair w t k ≡ none
  Follows w t k ((k', v) ∷ pairs) = (heap.next_pair w t k ≡ some (k', v)) × Follows w t k' pairs

  -- The assignments to a table for these pairs: the key is stored under the value.
  abbrev pub put_swapped : W → ℕ → List (Value F × Value F) → W
  put_swapped w t [] = w
  put_swapped w t ((k, v) ∷ pairs) = put_swapped (heap.put w t (copy_of v) (copy_of k)) t pairs

  pub copy_plain :
      (fuel k : ℕ) (v : Value F) (s : Both W F)
      → place (from_top k) s.src.stack ≡ some v
      → is_plain v ≡ true
      → script_copy_value (suc fuel) k s
        ≡ ok (tt, record s { dst = record { stack = copy_of v ∷ s.dst.stack; heap = s.dst.heap } })
  unfolding script_copy_value
  copy_plain fuel k nil s at h = ground arith
  copy_plain fuel k (boolean b) s at h = ground arith
  copy_plain fuel k (number n) s at h = ground arith
  copy_plain fuel k (string t) s at h = ground arith
  copy_plain fuel k (table t) s at h = cc
  copy_plain fuel k (function r) s at h = cc
  copy_plain fuel k (cfunction c) s at h = cc
  copy_plain fuel k (userdata r u) s at h = cc

  pub copy_refused :
      (fuel k : ℕ) (v : Value F) (s : Both W F)
      → place (from_top k) s.src.stack ≡ some v
      → is_refused v ≡ true
      → script_copy_value (suc fuel) k s ≡ raised (cannot_transfer v)
  unfolding script_copy_value
  copy_refused fuel k nil s at h = cc
  copy_refused fuel k (boolean b) s at h = cc
  copy_refused fuel k (number n) s at h = cc
  copy_refused fuel k (string t) s at h = cc
  copy_refused fuel k (table t) s at h = cc
  copy_refused fuel k (function r) s at h = ground arith
  copy_refused fuel k (cfunction c) s at h = ground arith
  copy_refused fuel k (userdata r u) s at h = ground arith

  -- A round of the loop behind `lua_next`.
  abbrev pub round :
      (ℕ → Step (Both W F) F (Unit {0}))
      → Step (Both W F) F (Unit {0})
      → Step (Both W F) F (Unit {0})
  round copy rest = do copy 1; copy 2; on_dst (settable (from_top 3)); on_src (pop 1); rest

  pub copy_value_table :
      (fuel j t : ℕ) (s : Both W F)
      → place (from_top j) s.src.stack ≡ some (table t)
      → let (t', w') = heap.new_table s.dst.heap in
        script_copy_value (suc fuel) j s
        ≡ copy_pairs fuel j (record {
          src = record { stack = nil ∷ s.src.stack; heap = s.src.heap };
          dst = record { stack = table t' ∷ s.dst.stack; heap = w' };
        })
  unfolding script_copy_value
  copy_value_table fuel j t s at = ground arith

  pub copy_pairs-round :
      (fuel j t : ℕ) (k k' v : Value F) (st : List (Value F)) (w : W) (dst : Machine W F)
      → place (from_top j) st ≡ some (table t)
      → heap.next_pair w t k ≡ some (k', v)
      → copy_pairs (suc fuel) j (record { src = record { stack = k ∷ st; heap = w }; dst = dst })
        ≡ round
            (script_copy_value fuel)
            (copy_pairs fuel j)
            (record { src = record { stack = v ∷ k' ∷ st; heap = w }; dst = dst })
  unfolding copy_pairs
  copy_pairs-round fuel (suc j) t k k' v st w dst at n = ground arith
  copy_pairs-round fuel zero t k k' v st w dst at n = cc

  stored :
      (t : ℕ) (k v : Value F) (st : List (Value F)) (src : Machine W F) (w : W)
      → is_key heap.is_nan k ≡ true
      → on_dst
          (settable (from_top 3))
          (record { src = src; dst = record { stack = v ∷ k ∷ table t ∷ st; heap = w } })
        ≡ ok (
          tt,
          record { src = src; dst = record { stack = table t ∷ st; heap = heap.put w t k v } },
        )
  stored t k v st src w key = ground arith

  -- What is on top of the source after the two copies is taken off.
  pub round_lem :
      (copy : ℕ → Step (Both W F) F (Unit {0})) (rest : Step (Both W F) F (Unit {0})) (t' : ℕ)
      (x k' v' : Value F) (before st st' : List (Value F)) (w w' w'' : W)
      → let s1 : Both W F = record {
        src = record { stack = x ∷ st; heap = w };
        dst = record { stack = v' ∷ table t' ∷ st'; heap = w'' };
      } in
        copy 1 (record {
          src = record { stack = before; heap = w };
          dst = record { stack = table t' ∷ st'; heap = w' };
        })
          ≡ ok (tt, s1)
        → copy 2 s1
          ≡ ok (tt, record s1 { dst = record { stack = k' ∷ v' ∷ table t' ∷ st'; heap = w'' } })
        → is_key heap.is_nan v' ≡ true
        → round copy rest (record {
          src = record { stack = before; heap = w };
          dst = record { stack = table t' ∷ st'; heap = w' };
        })
          ≡ rest (record {
            src = record { stack = st; heap = w };
            dst = record { stack = table t' ∷ st'; heap = heap.put w'' t' v' k' };
          })
  round_lem copy rest t' x k' v' before st st' w w' w'' first second key =
      let s : Both W F = record {
        src = record { stack = before; heap = w };
        dst = record { stack = table t' ∷ st'; heap = w' };
      } in
      let s1 : Both W F = record {
        src = record { stack = x ∷ st; heap = w };
        dst = record { stack = v' ∷ table t' ∷ st'; heap = w'' };
      } in
      let store_pair : Step (Both W F) F (Unit {0}) =
        on_dst (settable (from_top 3)) >> (on_src (pop 1) >> rest) in
      bind_ok (copy 1) (λ _. copy 2 >> store_pair) s first
      ∙ bind_ok (copy 2) (λ _. store_pair) s1 second
      ∙ bind_ok (on_dst (settable (from_top 3))) (λ _. on_src (pop 1) >> rest)
          (record {
            src = record { stack = x ∷ st; heap = w };
            dst = record { stack = k' ∷ v' ∷ table t' ∷ st'; heap = w'' };
          })
          (stored t' v' k' st' (record { stack = x ∷ st; heap = w }) w'' key)

  -- One round of the loop, on a pair of plain values.
  pair_lem :
      (fuel t t' : ℕ) (k k' v : Value F) (st st' : List (Value F)) (w w' : W)
      → heap.next_pair w t k ≡ some (k', v)
      → is_plain k' ≡ true
      → is_plain v ≡ true
      → is_key heap.is_nan (copy_of v) ≡ true
      → copy_pairs (suc (suc fuel)) 1 (record {
        src = record { stack = k ∷ table t ∷ st; heap = w };
        dst = record { stack = table t' ∷ st'; heap = w' };
      })
        ≡ copy_pairs (suc fuel) 1 (record {
          src = record { stack = k' ∷ table t ∷ st; heap = w };
          dst = record { stack = table t' ∷ st'; heap = heap.put w' t' (copy_of v) (copy_of k') };
        })
  pair_lem fuel t t' k k' v st st' w w' n hk hv key =
      let dst : Machine W F = record { stack = table t' ∷ st'; heap = w' } in
      let s : Both W F = record {
        src = record { stack = v ∷ k' ∷ table t ∷ st; heap = w };
        dst = dst;
      } in
      let s1 : Both W F = record s {
        dst = record { stack = copy_of v ∷ table t' ∷ st'; heap = w' };
      } in
      copy_pairs-round (suc fuel) 1 t k k' v (table t ∷ st) w dst refl n
      ∙ round_lem (script_copy_value (suc fuel)) (copy_pairs (suc fuel) 1) t' v (copy_of k')
          (copy_of v) s.src.stack (k' ∷ table t ∷ st) st' w w' w' (copy_plain fuel 1 v s refl hv)
          (copy_plain fuel 2 k' s1 refl hk) key

  pairs_lem :
      (fuel t t' : ℕ) (k : Value F) (pairs : List (Value F × Value F)) (st st' : List (Value F))
      (w w' : W)
      → Follows w t k pairs
      → All (ArePlain heap.is_nan) pairs
      → length pairs < fuel
      → copy_pairs fuel 1 (record {
        src = record { stack = k ∷ table t ∷ st; heap = w };
        dst = record { stack = table t' ∷ st'; heap = w' };
      })
        ≡ ok (
          tt,
          record {
            src = record { stack = st; heap = w };
            dst = record { stack = table t' ∷ st'; heap = put_swapped w' t' pairs };
          },
        )
  unfolding copy_pairs
  pairs_lem zero t t' k pairs st st' w w' follows plain enough = elim enough [ ]
  pairs_lem (suc zero) t t' k (p ∷ pairs) st st' w w' follows plain enough = ground arith
  pairs_lem (suc fuel) t t' k [] st st' w w' follows plain enough = ground arith
  pairs_lem (suc (suc fuel)) t t' k ((k', v) ∷ pairs) st st' w w' (n, follows)
        ((hk, hv, key), plain) enough =
      pair_lem fuel t t' k k' v st st' w w' n hk hv key
      ∙ pairs_lem (suc fuel) t t' k' pairs st st' w (heap.put w' t' (copy_of v) (copy_of k'))
          follows plain (omega arith)

  pub copy_table :
      (fuel t : ℕ) (pairs : List (Value F × Value F)) (st : List (Value F)) (w : W)
      (dst : Machine W F)
      → Follows w t nil pairs
      → All (ArePlain heap.is_nan) pairs
      → length pairs + 1 < fuel
      → let (t', w') = heap.new_table dst.heap in
        script_copy_value fuel 1
          (record { src = record { stack = table t ∷ st; heap = w }; dst = dst })
        ≡ ok (
          tt,
          record {
            src = record { stack = st; heap = w };
            dst = record { stack = table t' ∷ dst.stack; heap = put_swapped w' t' pairs };
          },
        )
  unfolding script_copy_value
  copy_table zero t pairs st w dst follows plain enough = elim enough [ ]
  copy_table (suc fuel) t pairs st w dst follows plain enough =
      let (t', w') = heap.new_table dst.heap in
      pairs_lem fuel t t' nil pairs st dst.stack w w' follows plain (omega arith)
