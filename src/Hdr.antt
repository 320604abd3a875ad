-- ===== src/Hdr.antt =====
-- What the program calls of HdrHistogram (src/hdr_histogram.h), as an interface.
-- Values are uint64_t patterns.
use wrk.Base.{ℕ, List}

-- One step of `hdr_iter_next`, as `stats_within_stdev` reads it.
pub record Bucket : Type 0 where
  pub value_from_index : ℕ
  pub highest_equivalent_value : ℕ
  pub count_to_index : ℕ

pub record Hdr (H : Type 0) : Type 0 where
  pub empty_histogram : H
  pub record_value : H → ℕ → H
  pub total_count : H → ℕ
  pub reset : H → H
  pub add : H → H → H
  pub hdr_min : H → ℕ
  pub hdr_max : H → ℕ
  pub buckets : H → List Bucket

-- The part that computes in floating point.
pub record HdrReport (H F : Type 0) : Type 0 where
  pub hdr_mean : H → F
  pub hdr_stddev : H → F
  pub value_at_percentile : H → F → ℕ
