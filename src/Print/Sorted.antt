-- ===== src/Print/Sorted.antt =====
-- What `stats_percentile` reads of the samples that `stats_summarize` of src/stats.c has sorted.
use wrk.Base.{
  ℕ, zero, suc, ◌+◌, ◌-◌, ◌^◌, ◌≤◌, ◌<◌, ◌≡◌, refl, ◌∙◌, Bool, none, some, List, [], ◌∷◌, ◌++◌,
  arith, ltb, leb, if◌then◌else◌, take, drop, length, get_elem?, All, sub64, length-take,
}
use mathlib.Core.Option.{some-injective, none-ne-some}
use wrk.Float.{Float, half}
use wrk.Hdr.{Hdr, HdrReport}
use wrk.Stats.{Stats, stats_compare}
use wrk.Stats.Order.{IsNegative, compare_near}
use wrk.Stats.Report.{stats_percentile}
use wrk.Print.{stats_summarize}

-- How many samples a test holds of.
abbrev pub count : (ℕ → Bool) → List ℕ → ℕ
count f [] = 0
count f (x ∷ xs) = (if f x then 1 else 0) + count f xs

-- All samples lie in a range of less than 2^31, where the comparator is an order.
abbrev pub AreNear : ℕ → List ℕ → Type 0
AreNear low xs = All (λ x. (low ≤ x) × (x < low + 2 ^ 31) × (x < 2 ^ 64)) xs

-- The comparator finds no sample below the one before it.
abbrev pub IsOrdered : List ℕ → Type 0
IsOrdered [] = Unit
IsOrdered (x ∷ []) = Unit
IsOrdered (x ∷ y ∷ xs) = (¬ IsNegative (stats_compare y x)) × IsOrdered (y ∷ xs)

-- What `qsort` of the C library does: its output has the samples of its input, each as often, and
-- where the comparator is an order it is sorted by it.
pub record Sorts (qsort : List ℕ → List ℕ) : Type 0 where
  pub same : (xs : List ℕ) (f : ℕ → Bool) → count f (qsort xs) ≡ count f xs
  pub long : (xs : List ℕ) → length (qsort xs) ≡ length xs
  pub near : (xs : List ℕ) (low : ℕ) → AreNear low xs → AreNear low (qsort xs)
  pub ordered : (xs : List ℕ) (low : ℕ) → AreNear low xs → IsOrdered (qsort xs)

next-le : (low x y : ℕ) (xs : List ℕ) → AreNear low (x ∷ y ∷ xs) → IsOrdered (x ∷ y ∷ xs) → x ≤ y
next-le low x y xs ((l, u, w), ((l', u', w'), ns)) (o, os) =
    let order = compare_near y x w' w (omega arith) (omega arith) in ground arith

none_below :
    (low x v : ℕ) (xs : List ℕ)
    → AreNear low (x ∷ xs)
    → IsOrdered (x ∷ xs)
    → v ≤ x
    → count (λ y. ltb y v) (x ∷ xs) ≡ 0
none_below low x v [] n o h = ground arith
none_below low x v (y ∷ ys) n o h =
    let r = next-le low x y ys n o in
    let rest = none_below low y v ys n.1 o.1 (omega arith) in ground arith

first-le :
    (low x : ℕ) (xs : List ℕ) (k : ℕ) {v : ℕ}
    → AreNear low (x ∷ xs)
    → IsOrdered (x ∷ xs)
    → get_elem? xs k ≡ some v
    → x ≤ v
first-le low x [] k n o e = absurd (none-ne-some _ e)
first-le low x (y ∷ ys) zero n o e = omega (arith, next-le low x y ys n o, some-injective _ _ e)
first-le low x (y ∷ ys) (suc k) n o e =
    omega (arith, next-le low x y ys n o, first-le low y ys k n.1 o.1 e)

-- The sample at place `k` has at most `k` samples below it, and more than `k` up to it.
rank_lem :
    (low : ℕ) (xs : List ℕ) (k : ℕ) {v : ℕ}
    → AreNear low xs
    → IsOrdered xs
    → get_elem? xs k ≡ some v
    → (count (λ y. ltb y v) xs ≤ k) × (k < count (λ y. leb y v) xs)
rank_lem low [] k n o e = absurd (none-ne-some _ e)
rank_lem low (x ∷ xs) zero {v} n o e =
    let same = some-injective _ _ e in
    let none_less = none_below low x v xs n o (omega arith) in ground arith
rank_lem low (x ∷ []) (suc k) n o e = absurd (none-ne-some _ e)
rank_lem low (x ∷ y ∷ ys) (suc k) {v} n o e =
    let l = first-le low x (y ∷ ys) k n o e in
    let (below, up_to) = rank_lem low (y ∷ ys) k n.1 o.1 e in (ground arith, ground arith)

get_elem?-append :
    (xs ys : List ℕ) (k : ℕ)
    → k < length xs
    → (v : ℕ) × (get_elem? xs k ≡ some v) × (get_elem? (xs ++ ys) k ≡ some v)
get_elem?-append [] ys k h = absurd (omega arith)
get_elem?-append (x ∷ xs) ys zero h = (x, refl, refl)
get_elem?-append (x ∷ xs) ys (suc k) h = get_elem?-append xs ys k (omega arith)

module _ {H F : Type 0} ⦃fl : Float F⦄ ⦃hdr : Hdr H⦄ ⦃report : HdrReport H F⦄ where
  -- The rank of a percentile: its share of the number of samples, a half added and rounded.
  abbrev pub rank : Stats H → F → ℕ
  rank s p =
      fl.to_u64
        (fl.round (fl.fadd (fl.fmul (fl.fdiv p (fl.of_u64 100)) (fl.of_u64 s.limit)) (half fl)))

  percentile_read :
      (qsort : List ℕ → List ℕ) (s : Stats H) (p : F)
      → s.histogram ≡ none
      → 1 ≤ rank s p
      → rank s p < 2 ^ 64
      → stats_percentile (stats_summarize {F = F} qsort s).1 p
        ≡ get_elem? (qsort (take s.limit s.slots) ++ drop s.limit s.slots) (rank s p - 1)
  unfolding stats_percentile stats_summarize
  percentile_read qsort s p raw one small =
      let place : sub64 (rank s p) 1 ≡ rank s p - 1 = omega arith in rw (raw, place) refl

  -- A percentile of raw samples that lie in a range of less than 2^31, asked for behind
  -- `stats_summarize`, where its rank is between 1 and the number of samples, is the sample of that
  -- rank: fewer samples than the rank are below it, and at least as many as the rank are no more
  -- than it. `qsort` is taken to keep the samples and to sort them where the comparator is an order.
  pub percentile_lem :
      (qsort : List ℕ → List ℕ) (s : Stats H) (p : F) (low : ℕ)
      → Sorts qsort
      → s.histogram ≡ none
      → s.limit ≤ length s.slots
      → AreNear low (take s.limit s.slots)
      → 1 ≤ rank s p
      → rank s p ≤ s.limit
      → s.limit < 2 ^ 64
      → let samples = take s.limit s.slots in
        (v : ℕ) × (stats_percentile (stats_summarize {F = F} qsort s).1 p ≡ some v)
        × (count (λ y. ltb y v) samples < rank s p)
        × (rank s p ≤ count (λ y. leb y v) samples)
  percentile_lem qsort s p low sorts raw room near one top small =
      let samples = take s.limit s.slots in
      let sorted = qsort samples in
      let k = rank s p - 1 in
      let long : k < length sorted =
        omega (arith, sorts.long samples, length-take s.limit s.slots) in
      let (v, e, e') = get_elem?-append sorted (drop s.limit s.slots) k long in
      let (below, up_to) =
        rank_lem low sorted k (sorts.near samples low near) (sorts.ordered samples low near) e in
      (
        v,
        percentile_read qsort s p raw one (omega arith) ∙ e',
        omega (arith, below, sorts.same samples (λ y. ltb y v)),
        omega (arith, up_to, sorts.same samples (λ y. leb y v)),
      )
