-- ===== src/Stats.antt =====
-- src/stats.c: the sample store behind the printed statistics.
pub mod Window
pub mod Rand
pub mod Order
pub mod Report
pub mod Totals
pub mod Access
pub mod Tests
use wrk.Base.{
  ℕ, zero, suc, ◌+◌, ◌-◌, ◌%◌, ◌≡◌, Bool, true, false, ◌&&◌, Option, none, some, List, [], ◌∷◌,
  ◌++◌, ltb, leb, ◌==◌, if◌then◌else◌, length, get_or, set, take, drop, replicate, u64_max, add64,
  sub64, u32,
}
use wrk.Float.{Float}
use wrk.Hdr.{Bucket, Hdr, HdrReport}

-- `errors`: uint32_t counters.
pub record Errors : Type 0 where
  pub connect : ℕ
  pub read : ℕ
  pub write : ℕ
  pub status : ℕ
  pub timeout : ℕ

-- `stats`, with the pointer to a histogram as an option and the flexible array as a list.
pub record Stats (H : Type 0) : Type 0 where
  pub samples : ℕ
  pub index : ℕ
  pub limit : ℕ
  pub min : ℕ
  pub max : ℕ
  pub histogram : Option H
  pub slots : List ℕ

module _ {H : Type 0} where
  unfoldable pub stats_alloc : ℕ → Stats H
  stats_alloc samples = record {
    samples = samples;
    index = 0;
    limit = 0;
    min = u64_max;
    max = 0;
    histogram = none;
    slots = replicate samples 0;
  }

  unfoldable pub stats_reset : Stats H → Stats H
  stats_reset s = record s { limit = 0; index = 0; min = u64_max; max = 0 }

  unfoldable pub stats_rewind : Stats H → Stats H
  stats_rewind s = record s { limit = 0; index = 0 }

  -- The two comparisons with which `stats_record` begins.
  unfoldable pub widen : Stats H → ℕ → Stats H
  widen s x = record s {
    min = if ltb x s.min then x else s.min;
    max = if ltb s.max x then x else s.max;
  }

  -- The write into the ring, then `index++`, `limit++` and the return of `index` to 0.
  unfoldable pub store : Stats H → ℕ → Stats H
  store s x =
      let index' = add64 s.index 1 in
      record s {
        slots = set s.slots s.index x;
        limit = if ltb s.limit s.samples then add64 s.limit 1 else s.limit;
        index = if index' == s.samples then 0 else index';
      }

  module _ ⦃hdr : Hdr H⦄ where
    record_into : Option H → Stats H → ℕ → Stats H
    unfolding store
    record_into (some h) s x = record s { histogram = some (hdr.record_value h x) }
    record_into none s x = store s x

    unfoldable pub stats_record : Stats H → ℕ → Stats H
    unfolding widen record_into
    stats_record s x = let s' = widen s x in record_into s'.histogram s' x

    -- Calls of `stats_record` one after the other.
    unfoldable pub record_all : Stats H → List ℕ → Stats H
    record_all s [] = s
    record_all s (x ∷ xs) = record_all (stats_record s x) xs

-- `stats_compare`: the uint64_t difference, converted to int; the result is the int's bit pattern.
unfoldable pub stats_compare : ℕ → ℕ → ℕ
stats_compare x y = u32 (sub64 x y)
