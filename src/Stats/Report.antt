-- ===== src/Stats/Report.antt =====
-- The summaries of src/stats.c: mean, deviation, share within the deviation, percentile.
use wrk.Base.{
  ℕ, ◌+◌, ◌-◌, ◌≤◌, ◌<◌, ◌^◌, ◌≡◌, ◌&&◌, Option, none, some, List, [], ◌∷◌, arith, ltb, ◌==◌,
  if◌then◌else◌, take, sum, get_elem?, get_elem?-length, add64, sub64, u64,
}
use wrk.Float.{Float, lt_i64, half}
use wrk.Hdr.{Bucket, Hdr, HdrReport}
use wrk.Stats.{Stats}
use wrk.Stats.Window.{IsRing}

-- The loop of `stats_mean`.
unfoldable pub sum_from : ℕ → List ℕ → ℕ
sum_from total [] = total
sum_from total (x ∷ xs) = sum_from (add64 total x) xs

-- The `while (hdr_iter_next(&iter))` loop of `stats_within_stdev`: the two counts.
unfoldable pub within_counts : List Bucket → ℕ → ℕ → ℕ → ℕ → ℕ × ℕ
within_counts [] lower upper total lower_count = (lower_count, total)
within_counts (b ∷ bs) lower upper total lower_count =
    let lower_count' = if lt_i64 b.value_from_index lower then b.count_to_index else lower_count in
    let rest = within_counts bs lower upper total lower_count' in
    if lt_i64 upper b.highest_equivalent_value then (lower_count', b.count_to_index) else rest

module _ {F : Type 0} ⦃fl : Float F⦄ where
  squares_from : F → F → List ℕ → F
  squares_from mean total [] = total
  squares_from mean total (x ∷ xs) =
      squares_from mean (fl.fadd total (fl.square (fl.fsub (fl.of_u64 x) mean))) xs

  -- The counting loop over the raw samples.
  unfoldable pub count_within : F → F → ℕ → List ℕ → ℕ
  count_within lower upper total [] = total
  count_within lower upper total (x ∷ xs) =
      count_within lower upper
        (if fl.fle lower (fl.of_u64 x) && fl.fle (fl.of_u64 x) upper then add64 total 1 else total)
        xs

module _ {H F : Type 0} ⦃fl : Float F⦄ ⦃report : HdrReport H F⦄ where
  mean_raw : Stats H → F
  unfolding sum_from
  mean_raw s =
      if s.limit == 0
      then fl.of_u64 0
      else fl.fdiv (fl.of_u64 (sum_from 0 (take s.limit s.slots))) (fl.of_u64 s.limit)

  unfoldable pub stats_mean : Stats H → F
  unfolding mean_raw
  stats_mean s = elim s.histogram [ none ↦ mean_raw s | some h ↦ report.hdr_mean h ]

  stdev_raw : Stats H → F → F
  unfolding squares_from
  stdev_raw s mean =
      if ltb s.limit 2
      then fl.of_u64 0
      else fl.fsqrt (
          fl.fdiv (squares_from mean (fl.of_u64 0) (take s.limit s.slots))
            (fl.of_u64 (s.limit - 1)))

  unfoldable pub stats_stdev : Stats H → F → F
  unfolding stdev_raw
  stats_stdev s mean = elim s.histogram [ none ↦ stdev_raw s mean | some h ↦ report.hdr_stddev h ]

module _ {H F : Type 0} ⦃fl : Float F⦄ ⦃hdr : Hdr H⦄ where
  within_histogram : H → F → F → F
  unfolding within_counts
  within_histogram h lower upper =
      let total = hdr.total_count h in
      let (lower_count, upper_count) =
        within_counts (hdr.buckets h) (fl.to_i64 lower) (fl.to_i64 upper) total 0 in
      if total == 0
      then fl.of_u64 0
      else fl.fdiv (fl.fmul (fl.of_u64 100) (fl.of_i64 (sub64 upper_count lower_count)))
          (fl.of_i64 total)

  within_raw : Stats H → F → F → F
  unfolding count_within
  within_raw s lower upper =
      fl.fmul
        (fl.fdiv (fl.of_u64 (count_within lower upper 0 (take s.limit s.slots)))
          (fl.of_u64 s.limit))
        (fl.of_u64 100)

  unfoldable pub stats_within_stdev : Stats H → F → F → ℕ → F
  unfolding within_histogram within_raw
  stats_within_stdev s mean stdev n =
      let upper = fl.fadd mean (fl.fmul stdev (fl.of_u64 n)) in
      let lower = fl.fsub mean (fl.fmul stdev (fl.of_u64 n)) in
      elim s.histogram [ none ↦ within_raw s lower upper | some h ↦ within_histogram h lower upper ]

module _ {H F : Type 0} ⦃fl : Float F⦄ ⦃report : HdrReport H F⦄ where
  percentile_raw : Stats H → F → Option ℕ
  percentile_raw s p =
      let rank =
        fl.to_u64 (
          fl.round (fl.fadd (fl.fmul (fl.fdiv p (fl.of_u64 100)) (fl.of_u64 s.limit)) (half fl))) in
      get_elem? s.slots (sub64 rank 1)

  -- `none` is a read outside the allocation.
  unfoldable pub stats_percentile : Stats H → F → Option ℕ
  unfolding percentile_raw
  stats_percentile s p = elim s.histogram [
    | none ↦ percentile_raw s p
    | some h ↦
        let value = report.value_at_percentile h p in some (if lt_i64 value 0 then 0 else value)
  ]

module _ {H F : Type 0} (fl : Float F) (report : HdrReport H F) where
  -- Asked for the 100th percentile, a full raw store reads the array one past its end, if the
  -- division by 100 is exact there and halves are rounded up, as `round` does.
  percentile_top :
      (s : Stats H)
      → IsRing s
      → s.limit ≡ s.samples
      → fl.to_u64 (
          fl.round (
            fl.fadd
              (fl.fmul (fl.fdiv (fl.of_u64 100) (fl.of_u64 100)) (fl.of_u64 s.limit))
              (half fl)))
        ≡ s.limit + 1
      → stats_percentile ⦃fl = fl⦄ ⦃report = report⦄ s (fl.of_u64 100) ≡ none
  unfolding stats_percentile
  percentile_top s v full round_up =
      rw (v.raw, round_up) (get_elem?-length s.slots (sub64 (s.limit + 1) 1) (omega arith))

-- The loop of `stats_mean` adds up the samples modulo 2^64.
pub sum_from-eq-sum :
    (total : ℕ) (xs : List ℕ) → total < 2 ^ 64 → sum_from total xs ≡ u64 (total + sum xs)
unfolding sum_from
sum_from-eq-sum total [] h = omega arith
sum_from-eq-sum total (x ∷ xs) h = omega (arith, sum_from-eq-sum (add64 total x) xs)

-- Counts that rise along the buckets, from `low` on and up to `total`.
abbrev pub IsRising : ℕ → List Bucket → ℕ → Type 0
IsRising low [] total = low ≤ total
IsRising low (b ∷ bs) total = (low ≤ b.count_to_index) × IsRising b.count_to_index bs total

rising-le : (low : ℕ) (bs : List Bucket) (total : ℕ) → IsRising low bs total → low ≤ total
rising-le low [] total h = h
rising-le low (b ∷ bs) total h = omega (arith, rising-le b.count_to_index bs total h.1)

-- If the cumulative counts rise along the buckets from a number on that is no less than the count
-- to start from, up to the total, then the count below the lower bound is at most the count up to
-- the upper bound, which is at most the total: the share of `stats_within_stdev` is between nothing
-- and everything.
pub within_counts_bounds :
    (bs : List Bucket) (lower upper total low count : ℕ)
    → count ≤ low
    → IsRising low bs total
    → let (lower_count, upper_count) = within_counts bs lower upper total count in
      (lower_count ≤ upper_count) × (upper_count ≤ total)
unfolding within_counts
within_counts_bounds [] lower upper total low count c h = omega arith
within_counts_bounds (b ∷ bs) lower upper total low count c h =
    let count' = if lt_i64 b.value_from_index lower then b.count_to_index else count in
    ground (
      arith,
      rising-le b.count_to_index bs total h.1,
      within_counts_bounds bs lower upper total b.count_to_index count',
    )
