-- ===== src/Stats/Access.antt =====
-- What the script reads of the statistics: `script_stats_get` and `script_stats_len` of
-- src/script.c.
use wrk.Base.{
  ℕ, zero, suc, ◌+◌, ◌-◌, ◌%◌, ◌^◌, ◌≤◌, ◌<◌, ◌≡◌, refl, Option, none, some, List, [], ◌∷◌, arith,
  ltb, if◌then◌else◌, length, get_or, get_elem?, get_elem?-length,
}
use wrk.Float.{Float}
use wrk.Hdr.{Hdr, HdrReport}
use wrk.Stats.{Stats}
use wrk.Stats.Window.{IsRing}
use wrk.Stats.Report.{stats_mean, stats_stdev, stats_percentile}

get_elem?-get_or : (xs : List ℕ) (i d : ℕ) → i < length xs → get_elem? xs i ≡ some (get_or xs i d)
get_elem?-get_or [] i d h = elim h [ ]
get_elem?-get_or (x ∷ xs) zero d h = refl
get_elem?-get_or (x ∷ xs) (suc i) d h = get_elem?-get_or xs i d (omega arith)

-- The argument: an int, as its 32-bit pattern, one of the names, another string, or something else.
pub data Key : Type 0 where
  at_index : ℕ → Key
  key_min key_max key_mean key_stdev key_percentile : Key
  other_string not_a_key : Key

-- What is pushed: an integer (a 64-bit pattern), a number, the function for percentiles, or nothing.
pub data Got (F : Type 0) : Type 0 where
  got_int : ℕ → Got F
  got_number : F → Got F
  got_function : Got F
  got_nothing : Got F

-- An int as an int64_t.
abbrev pub sign_extend : ℕ → ℕ
sign_extend i = if ltb i (2 ^ 31) then i else i + (2 ^ 64 - 2 ^ 32)

module _ {H F : Type 0} ⦃fl : Float F⦄ ⦃hdr : Hdr H⦄ ⦃report : HdrReport H F⦄ where
  -- `s->data[index - 1]`; `none` is an access outside the array.
  unfoldable pub get_raw : Stats H → ℕ → Option (Got F)
  get_raw s i =
      let before = (i + (2 ^ 32 - 1)) % 2 ^ 32 in
      if ltb before (2 ^ 31)
      then elim (get_elem? s.slots before) [ none ↦ none | some x ↦ some (got_int x) ]
      else none

  unfoldable pub get_histogram : H → ℕ → Got F
  get_histogram h i = got_int (
      report.value_at_percentile h (
        fl.fdiv (fl.fmul (fl.of_u64 100) (fl.of_i64 (sign_extend i)))
          (fl.of_i64 (hdr.total_count h))))

  unfoldable pub script_stats_get : Stats H → Key → Option (Got F)
  script_stats_get s (at_index i) = elim s.histogram [
    | some h ↦ some (get_histogram h i)
    | none ↦ get_raw s i
  ]
  script_stats_get s key_min = some (got_int s.min)
  script_stats_get s key_max = some (got_int s.max)
  script_stats_get s key_mean = some (got_number (stats_mean s))
  script_stats_get s key_stdev = some (got_number (stats_stdev s (stats_mean s)))
  script_stats_get s key_percentile = some got_function
  script_stats_get s other_string = some got_nothing
  script_stats_get s not_a_key = some got_nothing

module _ {H F : Type 0} ⦃fl : Float F⦄ ⦃report : HdrReport H F⦄ where
  -- With the number that `luaL_checknumber` gives.
  unfoldable pub script_stats_percentile : Stats H → F → Option (Got F)
  script_stats_percentile s p = elim (stats_percentile s p) [
    | none ↦ none
    | some n ↦ some (got_int n)
  ]

module _ {H : Type 0} ⦃hdr : Hdr H⦄ where
  unfoldable pub script_stats_len : Stats H → ℕ
  script_stats_len s = elim s.histogram [ some h ↦ hdr.total_count h | none ↦ s.limit ]

module _ {H F : Type 0} (fl : Float F) (hdr : Hdr H) (report : HdrReport H F) where
  -- On a well-formed raw store a positive index below 2^31 reads the
  -- sample at its place, counted from 1, if it is no more than the length that the script is
  -- told; if it is more than the number of samples allocated, the array is read outside.
  script_stats_get_lem :
      (s : Stats H) (i : ℕ)
      → IsRing s
      → 0 < i
      → i < 2 ^ 31
      → (i ≤ script_stats_len ⦃hdr = hdr⦄ s
          → script_stats_get ⦃fl = fl⦄ ⦃hdr = hdr⦄ ⦃report = report⦄ s (at_index i)
            ≡ some (got_int (get_or s.slots (i - 1) 0)))
        × (s.samples < i
            → script_stats_get ⦃fl = fl⦄ ⦃hdr = hdr⦄ ⦃report = report⦄ s (at_index i) ≡ none)
  unfolding script_stats_get script_stats_len get_raw
  script_stats_get_lem s i v pos small =
      let before : (i + (2 ^ 32 - 1)) % 2 ^ 32 ≡ i - 1 = omega arith in
      (
        λ h. ground (arith, v.raw, v.room, v.filled, before, get_elem?-get_or s.slots (i - 1) 0),
        λ h. ground (arith, v.raw, v.room, before, get_elem?-length s.slots (i - 1)),
      )
