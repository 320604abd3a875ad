-- ===== src/Stats/Totals.antt =====
-- The extremes and the mean of src/stats.c against the values recorded.
use native.Mathlib.Nat.{le_refl}
use wrk.Base.{
  ◌∙◌, ap, true, false, ℕ, ◌≤◌, ◌<◌, ◌^◌, ◌≡◌, refl, ◌⊎◌, inl, inr, Bool, List, [], ◌∷◌, arith, ltb,
  if◌then◌else◌, take, drop, sum, All, take-append-drop, take-length, sum-append, Bool-cases,
}
use wrk.Float.{Float}
use wrk.Hdr.{Hdr, HdrReport}
use wrk.Stats.{Stats, store, stats_record, record_all}
use wrk.Stats.Window.{IsRing, contents}
use wrk.Stats.Report.{sum_from-eq-sum, stats_mean}

abbrev pub Among : ℕ → List ℕ → Type 0
Among m [] = ⊥
Among m (x ∷ xs) = (m ≡ x) ⊎ Among m xs

module _ {H : Type 0} ⦃hdr : Hdr H⦄ where
  record_extremes :
      (s : Stats H) (x : ℕ)
      → ((stats_record s x).min ≡ (if ltb x s.min then x else s.min))
        × ((stats_record s x).max ≡ (if ltb s.max x then x else s.max))
  unfolding stats_record store
  record_extremes s x = ground arith

  -- With or without a histogram, `min` and `max` are the extremes of what was there and what was
  -- recorded since: every value lies between them, and each is one of the values.
  pub record_all_extremes :
      (s : Stats H) (xs : List ℕ)
      → let s' = record_all s xs in
        (s'.min ≤ s.min)
        × (s.max ≤ s'.max)
        × All (λ x. (s'.min ≤ x) × (x ≤ s'.max)) xs
        × ((s'.min ≡ s.min) ⊎ Among s'.min xs)
        × ((s'.max ≡ s.max) ⊎ Among s'.max xs)
  unfolding record_all
  record_all_extremes s [] = (le_refl _, le_refl _, tt, inl refl, inl refl)
  record_all_extremes s (x ∷ xs) =
      let (low, high) = record_extremes s x in
      let (down, up, all, least, most) = record_all_extremes (stats_record s x) xs in
      (
        ground arith,
        ground arith,
        (ground arith, all),
        from_first (record_all s (x ∷ xs)).min (ltb x s.min) low least,
        from_first (record_all s (x ∷ xs)).max (ltb s.max x) high most,
      )
    where
      from_first :
          (m : ℕ) (c : Bool) {a b : ℕ}
          → b ≡ (if c then x else a)
          → (m ≡ b) ⊎ Among m xs
          → (m ≡ a) ⊎ Among m (x ∷ xs)
      from_first m true e (inl h) = inr (inl (h ∙ e))
      from_first m false e (inl h) = inl (h ∙ e)
      from_first m c e (inr h) = inr (inr h)

module _ {H : Type 0} where
  sum-contents : (s : Stats H) → IsRing s → sum (contents s) ≡ sum (take s.limit s.slots)
  sum-contents s v = elim (Bool-cases (ltb s.limit s.samples)) [
    | inl e ↦ rw e
    | inr e ↦ rw e (
        omega (
          arith,
          sum-append (drop s.index s.slots) (take s.index s.slots),
          sum-append (take s.index s.slots) (drop s.index s.slots),
          ap sum (take-append-drop s.index s.slots),
          ap sum (take-length s.slots s.limit (ground arith)),
        ))
  ]

module _ {H F : Type 0} ⦃fl : Float F⦄ ⦃report : HdrReport H F⦄ where
  -- The mean of a raw store that is not empty, and whose samples add up to less than 2^64, is their
  -- sum divided by their number.
  pub mean_of_contents :
      (s : Stats H)
      → IsRing s
      → 0 < s.limit
      → sum (contents s) < 2 ^ 64
      → stats_mean s ≡ fl.fdiv (fl.of_u64 (sum (contents s))) (fl.of_u64 s.limit)
  unfolding stats_mean
  mean_of_contents s v pos small =
      let same = sum-contents s v in
      ground (arith, v.raw, same, sum_from-eq-sum 0 (take s.limit s.slots) (omega arith))
