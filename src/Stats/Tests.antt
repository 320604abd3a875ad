-- ===== src/Stats/Tests.antt =====
-- Runs of the definitions, and the theorems at concrete stores.
use wrk.Base.{
  ℕ, ◌+◌, ◌-◌, ◌^◌, ◌<◌, ◌≡◌, refl, none, some, List, [], ◌∷◌, ◌++◌, arith, length, sum, last,
  get_or,
}
use wrk.Float.Ratio.{Ratio, ratio, ratio_float}
use wrk.Hdr.{Bucket, Hdr, HdrReport}
use wrk.Stats.{Stats, stats_alloc, stats_record, record_all}
use wrk.Stats.Window.{IsRing, contents, contents-record_all}
use wrk.Stats.Rand.{after, rand64, rand64_lem, stats_sample}

-- A histogram that keeps the values themselves.
instance abbrev pub list_hdr : Hdr (List ℕ)
list_hdr = record {
  empty_histogram = [];
  record_value = λ h x. x ∷ h;
  total_count = length;
  reset = λ h. [];
  add = λ h k. h ++ k;
  hdr_min = λ h. get_or h 0 0;
  hdr_max = λ h. get_or h 0 0;
  buckets = λ h. [];
}

instance abbrev pub list_report : HdrReport (List ℕ) Ratio
list_report = record {
  hdr_mean = λ h. ratio (sum h) (length h);
  hdr_stddev = λ h. ratio 0 1;
  value_at_percentile = λ h p. get_or h 0 0;
}

abbrev fresh : Stats (List ℕ)
fresh = record {
  samples = 3;
  index = 0;
  limit = 0;
  min = 2 ^ 64 - 1;
  max = 0;
  histogram = none;
  slots = 0 ∷ 0 ∷ 0 ∷ [];
}

abbrev full : Stats (List ℕ)
full = record fresh { index = 1; limit = 3; min = 5; max = 9; slots = 9 ∷ 5 ∷ 7 ∷ [] }

alloc_fresh : stats_alloc 3 ≡ fresh
unfolding stats_alloc
alloc_fresh = refl

fresh-IsRing : IsRing fresh
fresh-IsRing = ground arith

full-IsRing : IsRing full
full-IsRing = ground arith

wraps_round : contents (record_all fresh (1 ∷ 2 ∷ 3 ∷ 4 ∷ [])) ≡ 2 ∷ 3 ∷ 4 ∷ []
unfolding record_all stats_record
wraps_round = refl

contents-record_all_example :
    contents (record_all full (4 ∷ 6 ∷ [])) ≡ last 3 (contents full ++ 4 ∷ 6 ∷ [])
contents-record_all_example = contents-record_all full (4 ∷ 6 ∷ []) full-IsRing

-- A generator that counts up.
abbrev counting : ℕ → ℕ × ℕ
counting g = (g, g + 1)

rand64_lem_example : (rand64 counting 1 10 42 ≡ some (2, 43)) × (◌<◌ 2 10)
unfolding after
rand64_lem_example = rand64_lem counting 0 0 10 42 (omega arith) (λ j l. elim l [ ]) (omega arith)

abbrev sampled : Stats (List ℕ)
sampled = record fresh { index = 2; limit = 2; min = 5; max = 7; slots = 5 ∷ 7 ∷ 0 ∷ [] }

sample_run : stats_sample counting 1 fresh 1 2 full ≡ some (sampled, 3)
unfolding stats_sample rand64 stats_record
sample_run = refl

abbrev spectrum : List Bucket
spectrum =
    record { value_from_index = 0; highest_equivalent_value = 1; count_to_index = 2 }
    ∷ record { value_from_index = 2; highest_equivalent_value = 3; count_to_index = 5 }
    ∷ []
