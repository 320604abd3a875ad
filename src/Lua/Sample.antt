-- ===== src/Lua/Sample.antt =====
-- A small heap, to run the definitions that call Lua: assignments in a list, the latest first, and functions
-- that give back their arguments.
unfoldable use native.Mathlib.Decide.{ℕ_discrete}
use wrk.Base.{
  ◌==◌, ◌&&◌, ℕ, suc, ◌<◌, ◌≡◌, ◌≢◌, refl, ap, Option, none, some, List, [], ◌∷◌, arith,
  if◌then◌else◌, length, same_bytes, same_bytes_self,
}
use wrk.Float.Ratio.{Ratio}
use wrk.Lua.{Value, nil, Heap}
use wrk.Lua.Laws.{HeapLaws}

unfoldable pub Ratio-discrete : Discrete Ratio
unfolding ℕ_discrete
Ratio-discrete = hlevel ℕ_discrete

unfoldable pub Value-discrete : Discrete (Value Ratio)
unfolding ℕ_discrete Ratio-discrete
Value-discrete = hlevel (ℕ_discrete, Ratio-discrete)

unfoldable pub Place-discrete : Discrete (ℕ × Value Ratio)
unfolding ℕ_discrete Value-discrete
Place-discrete = hlevel (ℕ_discrete, Value-discrete)

-- `links` is the order of traversal, which the assignments do not change.
pub record World : Type 0 where
  pub writes : List ((ℕ × Value Ratio) × Value Ratio)
  pub globals : List (List ℕ × Value Ratio)
  pub links : List ((ℕ × Value Ratio) × (Value Ratio × Value Ratio))
  pub next_id : ℕ

abbrev find : {A : Type 0} → ℕ × Value Ratio → List ((ℕ × Value Ratio) × A) → Option A
find p [] = none
find p ((q, v) ∷ rest) =
    let more = find p rest in elim (Place-discrete q p) [ yes e ↦ some v | no ne ↦ more ]

abbrev or_nil : Option (Value Ratio) → Value Ratio
or_nil none = nil
or_nil (some v) = v

abbrev find_name : List ℕ → List (List ℕ × Value Ratio) → Value Ratio
find_name name [] = nil
find_name name ((n, v) ∷ rest) =
    let more = find_name name rest in if same_bytes n name then v else more

instance unfoldable pub sample_heap : Heap World Ratio
unfolding same_bytes Place-discrete
sample_heap = record {
  global = λ w name. find_name name w.globals;
  set_global = λ w name v. record w { globals = (name, v) ∷ w.globals };
  registry = λ w name. nil;
  set_registry = λ w name v. w;
  get = λ w t k. or_nil (find (t, k) w.writes);
  put = λ w t k v. record w { writes = ((t, k), v) ∷ w.writes };
  new_table = λ w. (w.next_id, record w { next_id = suc w.next_id });
  new_userdata = λ w u. (w.next_id, record w { next_id = suc w.next_id });
  set_metatable = λ w r m. w;
  call = λ w f args. some (args, w);
  next_pair = λ w t k. find (t, k) w.links;
  table_size = λ w t. length w.writes;
  number_text = λ x. [];
  is_nan = λ x. x.num == 0 && x.den == 0;
  udata_size = λ u. 8;
}

find_self :
    {A : Type 0} (p : ℕ × Value Ratio) (v : A) (rest : List ((ℕ × Value Ratio) × A))
    → find p ((p, v) ∷ rest) ≡ some v
find_self p v rest =
    elim (Place-discrete p p)
      as (λ (d : Dec (p ≡ p)). (elim d [ yes e ↦ some v | no ne ↦ find p rest ]) ≡ some v) [
        | yes e ↦ refl
        | no ne ↦ elim (ne refl) [ ]
      ]

find_other :
    {A : Type 0} (p q : ℕ × Value Ratio) (v : A) (rest : List ((ℕ × Value Ratio) × A))
    → q ≢ p
    → find p ((q, v) ∷ rest) ≡ find p rest
find_other p q v rest apart =
    elim (Place-discrete q p)
      as (λ (d : Dec (q ≡ p)). (elim d [ yes e ↦ some v | no ne ↦ find p rest ]) ≡ find p rest) [
        | yes e ↦ elim (apart e) [ ]
        | no ne ↦ refl
      ]

pub sample_laws : HeapLaws World Ratio
unfolding sample_heap
sample_laws = record {
  Live = λ w t. t < w.next_id;
  get-put_self = λ w t k v. ap or_nil (find_self (t, k) v w.writes);
  get-put_key = λ w t k k' v apart.
      ap or_nil
        (find_other (t, k') (t, k) v w.writes (λ e. apart (ap (λ (p : ℕ × Value Ratio). p.1) e)));
  get-put_table = λ w t t' k k' v apart.
      ap or_nil
        (find_other (t', k') (t, k) v w.writes (λ e. apart (ap (λ (p : ℕ × Value Ratio). p.0) e)));
  get-new_table = λ w t k live. refl;
  get-new_userdata = λ w u t k. refl;
  get-set_metatable = λ w r t m k. refl;
  new-Live = λ w. omega arith;
  new-fresh = λ w. omega arith;
  put-Live = λ w t t' k v live. live;
  global-put = λ w name t k v. refl;
  global-new_table = λ w name. refl;
  global-set_global = λ w name v. rw (same_bytes_self name) refl;
  new_table-Live = λ w t live. omega arith;
  set_registry-Live = λ w name v t live. live;
  get-set_registry = λ w name v t k. refl;
  global-set_registry = λ w name v n. refl;
  registry-set_registry = λ w name v n apart. refl;
  registry-put = λ w n t k v. refl;
  registry-new_table = λ w n. refl;
}

pub sample_live : (w : World) (t : ℕ) → t < w.next_id → sample_laws.Live w t
unfolding sample_laws
sample_live w t h = h
