-- ===== src/Print.antt =====
-- The printing of the statistics in src/wrk.c, with `aprintf` of src/aprintf.c and `stats_summarize` of
-- src/stats.c. The digits that `printf` gives a number, `qsort` and the detailed spectrum of
-- HdrHistogram are parameters.
pub mod Columns
pub mod Sorted
pub mod Tests
use wrk.Base.{
  ℕ, ◌+◌, ◌-◌, Bool, ◌&&◌, ◌||◌, Option, none, some, List, [], ◌∷◌, ◌++◌, leb, if◌then◌else◌,
  length, take, drop, replicate, get_elem?, codes,
}
use wrk.Float.{Float}
use wrk.Hdr.{Hdr, HdrReport}
use wrk.Stats.{Stats}
use wrk.Stats.Report.{stats_mean, stats_stdev, stats_within_stdev, stats_percentile}
use wrk.Units.{Scaled, format_time_us}

-- What may read outside a text or an array.
infixl 5 ◌>>=◌
abbrev pub ◌>>=◌ : {A B : Type 0} → Option A → (A → Option B) → Option B
none >>= f = none
some a >>= f = f a

-- `*s` and the pointer that is returned, as an offset into it. The text `printed` is what `vsnprintf`
-- makes, and `grows` is whether `realloc` has the room.
unfoldable pub aprintf : (ℕ → Bool) → Option (List ℕ) → List ℕ → Option (List ℕ) × Option ℕ
aprintf grows s printed =
    let n = length printed + 1 in
    let old : List ℕ = elim s [ none ↦ [] | some text ↦ text ] in
    let len = length old in
    if grows (len + n) then (some (old ++ printed), some len) else (none, none)

abbrev pub is_alpha : ℕ → Bool
is_alpha c = (leb b'A' c && leb c b'Z') || (leb b'a' c && leb c b'z')

-- `%*s` and `%-*s`
abbrev pub right : ℕ → List ℕ → List ℕ
right width s = replicate (width - length s) b' ' ++ s

abbrev pub left : ℕ → List ℕ → List ℕ
left width s = s ++ replicate (width - length s) b' '

-- `msg[len - k]`; `none` is an access before the text.
abbrev pub from_end : List ℕ → ℕ → Option ℕ
from_end msg k = if leb k (length msg) then get_elem? msg (length msg - k) else none

-- The spaces behind a text: one less for each of its last two bytes that is a letter.
abbrev pub pad_of : Option ℕ → Option ℕ → Option ℕ
pad_of (some a) (some b) =
    let pad = if is_alpha a then 1 else 2 in some (if is_alpha b then pad - 1 else pad)
pad_of none _ = none
pad_of (some a) none = none

unfoldable pub units_pad : List ℕ → Option ℕ
units_pad msg = pad_of (from_end msg 1) (from_end msg 2)

-- The text `msg` in a column; the widths of the program are 8, 9 and 10, so that `width -= pad` is positive.
unfoldable pub print_units : List ℕ → ℕ → Option (List ℕ)
unfolding units_pad
print_units msg width = elim (units_pad msg) [
  | none ↦ none
  | some pad ↦ some (right (width - pad) (take (width - pad) msg) ++ take pad (codes "  "))
]

unfoldable pub print_stats_header : List ℕ
print_stats_header =
    codes "  Thread Stats"
    ++ right 6 (codes "Avg")
    ++ right 11 (codes "Stdev")
    ++ right 8 (codes "Max")
    ++ right 12 (codes "+/- Stdev")
    ++ 10 ∷ []

-- `fixed p x` is what `%.*Lf` prints.
module _ {F : Type 0} (fixed : ℕ → F → List ℕ) where
  abbrev pub scaled_text : Scaled F → List ℕ
  scaled_text s = fixed s.precision s.amount ++ s.unit

module _ {H F : Type 0} ⦃fl : Float F⦄ ⦃hdr : Hdr H⦄ ⦃report : HdrReport H F⦄ where
  -- The first `limit` samples sorted in place, and the mean.
  unfoldable pub stats_summarize : (List ℕ → List ℕ) → Stats H → F × Stats H
  stats_summarize qsort s =
      let s' = record s { slots = qsort (take s.limit s.slots) ++ drop s.limit s.slots } in
      (stats_mean s', s')

  -- The line, and the statistics as they are left.
  unfoldable pub print_stats :
      (List ℕ → List ℕ)
      → (ℕ → F → List ℕ)
      → List ℕ
      → Stats H
      → (F → Scaled F)
      → Option (List ℕ × Stats H)
  unfolding stats_summarize print_units
  print_stats qsort fixed name s fmt =
      let (mean, s') = stats_summarize qsort s in
      let stdev = stats_stdev s' mean in
      let share = stats_within_stdev s' mean stdev 1 in
      do
        first ← print_units (scaled_text fixed (fmt mean)) 8
        second ← print_units (scaled_text fixed (fmt stdev)) 10
        third ← print_units (scaled_text fixed (fmt (fl.of_u64 s.max))) 9
        some (
          codes "    "
              ++ left 10 name
              ++ first
              ++ second
              ++ third
              ++ right 8 (fixed 2 share)
              ++ codes "%"
              ++ 10 ∷ [],
          s',
        )

module _ {F : Type 0} ⦃fl : Float F⦄ where
  unfoldable pub percentiles : List F
  percentiles =
      let thousandths = λ (n : ℕ). fl.fdiv (fl.of_u64 n) (fl.of_u64 1000) in
      thousandths 50000
      ∷ thousandths 75000
      ∷ thousandths 90000
      ∷ thousandths 99000
      ∷ thousandths 99900
      ∷ thousandths 99990
      ∷ thousandths 99999
      ∷ thousandths 100000
      ∷ []

  -- A line of a distribution, for a percentile and the value there.
  unfoldable pub latency_line : (ℕ → F → List ℕ) → F → F → Option (List ℕ)
  unfolding print_units
  latency_line fixed p n = do
    column ← print_units (scaled_text fixed (format_time_us n)) 10
    some (right 7 (fixed 3 p) ++ codes "%" ++ column ++ 10 ∷ [])

  -- The loop over the percentiles; `value` may read outside its array.
  unfoldable pub latency_lines : (ℕ → F → List ℕ) → (F → Option F) → List F → Option (List ℕ)
  unfolding latency_line
  latency_lines fixed value [] = some []
  latency_lines fixed value (p ∷ ps) = do
    n ← value p
    line ← latency_line fixed p n
    rest ← latency_lines fixed value ps
    some (line ++ rest)

module _ {H F : Type 0} ⦃fl : Float F⦄ ⦃report : HdrReport H F⦄ where
  -- `spectrum` is what `hdr_percentiles_print` prints.
  unfoldable pub print_hdr_latency : (H → List ℕ) → (ℕ → F → List ℕ) → H → List ℕ → Option (List ℕ)
  unfolding latency_lines percentiles
  print_hdr_latency spectrum fixed h description = do
    lines ← latency_lines fixed (λ p. some (fl.of_i64 (report.value_at_percentile h p))) percentiles
    some (
        codes "  Latency Distribution (HdrHistogram - "
        ++ description
        ++ codes ")"
        ++ (10 ∷ [])
        ++ lines
        ++ (10 ∷ [])
        ++ codes "  Detailed Percentile spectrum:"
        ++ (10 ∷ [])
        ++ spectrum h)

  unfoldable pub print_stats_latency : (ℕ → F → List ℕ) → Stats H → Option (List ℕ)
  unfolding latency_lines percentiles
  print_stats_latency fixed s = do
    lines ←
        latency_lines fixed
          (λ p. elim (stats_percentile s p) [ none ↦ none | some n ↦ some (fl.of_u64 n) ])
          percentiles
    some (codes "  Latency Distribution" ++ (10 ∷ []) ++ lines)
