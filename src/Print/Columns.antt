-- ===== src/Print/Columns.antt =====
-- The columns of what is printed.
use wrk.Base.{
  ℕ, zero, suc, ◌+◌, ◌-◌, ◌*◌, ◌≤◌, ◌<◌, ◌≡◌, refl, ap, ◌∙◌, some, List, [], ◌∷◌, ◌++◌, arith,
  if◌then◌else◌, length, take, replicate, get_elem?, codes, length-append, length-take,
  length-replicate, All,
}
use wrk.Float.{Float}
use wrk.Hdr.{Hdr, HdrReport}
use wrk.Stats.{Stats}
use wrk.Stats.Report.{stats_stdev, stats_within_stdev}
use wrk.Units.{Scaled, format_time_us}
use wrk.Print.{
  is_alpha, right, left, from_end, units_pad, pad_of, print_units, scaled_text, stats_summarize,
  print_stats, latency_line, latency_lines, percentiles, print_hdr_latency,
}

get_elem?-some : (xs : List ℕ) (i : ℕ) → i < length xs → (x : ℕ) × (get_elem? xs i ≡ some x)
get_elem?-some [] i h = elim h [ ]
get_elem?-some (x ∷ xs) zero h = (x, refl)
get_elem?-some (x ∷ xs) (suc i) h = get_elem?-some xs i (omega arith)

from_end-some :
    (msg : List ℕ) (k : ℕ) → 0 < k → k ≤ length msg → (x : ℕ) × (from_end msg k ≡ some x)
from_end-some msg k h l =
    let (x, e) = get_elem?-some msg (length msg - k) (omega arith) in (x, ground arith)

units_pad_lem : (msg : List ℕ) → 2 ≤ length msg → (pad : ℕ) × (units_pad msg ≡ some pad) × (pad ≤ 2)
unfolding units_pad
units_pad_lem msg h =
    let (a, ea) = from_end-some msg 1 (omega arith) (omega arith) in
    let (b, eb) = from_end-some msg 2 (omega arith) h in
    let pad : ℕ = if is_alpha a then 1 else 2 in
    (
      (if is_alpha b then pad - 1 else pad),
      ap (λ x. pad_of x (from_end msg 2)) ea ∙ ap (pad_of (some a)) eb,
      ground arith,
    )

take_all : (n : ℕ) (xs : List ℕ) → length xs ≤ n → take n xs ≡ xs
take_all zero [] h = refl
take_all zero (x ∷ xs) h = ground arith
take_all (suc n) [] h = refl
take_all (suc n) (x ∷ xs) h = ap (λ ys. x ∷ ys) (take_all n xs (omega arith))

spaces_lem : (pad : ℕ) → pad ≤ 2 → take pad (codes "  ") ≡ replicate pad b' '
spaces_lem zero h = refl
spaces_lem (suc zero) h = refl
spaces_lem (suc (suc zero)) h = refl
spaces_lem (suc (suc (suc pad))) h = ground arith

-- What a text takes in a column: exactly the width, and if two bytes are to spare the text is there in
-- full, spaces before it and at most two behind it.
abbrev pub IsColumn : List ℕ → ℕ → List ℕ → Type 0
IsColumn msg width out =
    (length out ≡ width)
    × (length msg + 2 ≤ width
        → (before behind : ℕ) × (behind ≤ 2)
          × (out ≡ replicate before b' ' ++ msg ++ replicate behind b' '))

-- The start of a line of the statistics.
abbrev pub name_column : List ℕ → List ℕ
name_column name = codes "    " ++ left 10 name

length-name_column : (name : List ℕ) → length name ≤ 10 → length (name_column name) ≡ 14
length-name_column name small = omega (
  arith,
  length-append name (replicate (10 - length name) b' '),
  length-replicate {A = ℕ} (10 - length name) b' ',
  length-append (codes "    ") (left 10 name),
)

length-columns :
    (start first second third : List ℕ)
    → length start ≡ 14
    → length first ≡ 8
    → length second ≡ 10
    → length third ≡ 9
    → length (start ++ first ++ second ++ third) ≡ 41
length-columns start first second third p q r t = omega (
  arith,
  length-append start (first ++ second ++ third),
  length-append first (second ++ third),
  length-append (start ++ first) second,
  length-append (start ++ first ++ second) third,
  length-append start first,
  length-append second third,
)

-- A text of at least two bytes is printed as such a column, if that has room for two.
pub print_units_lem :
    (msg : List ℕ) (width : ℕ)
    → 2 ≤ length msg
    → 2 ≤ width
    → (out : List ℕ) × (print_units msg width ≡ some out) × IsColumn msg width out
unfolding print_units
print_units_lem msg width h l =
    let (pad, e, small) = units_pad_lem msg h in
    let shown = take (width - pad) msg in
    (
      right (width - pad) shown ++ take pad (codes "  "),
      rw (e, print_units),
      (
        omega (
          arith,
          length-append (replicate (width - pad - length shown) b' ') shown,
          length-append (right (width - pad) shown) (take pad (codes "  ")),
          length-replicate {A = ℕ} (width - pad - length shown) b' ',
          length-take (width - pad) msg,
          ap length (spaces_lem pad small),
          length-replicate {A = ℕ} pad b' ',
        ),
        (λ room. (
          width - pad - length msg,
          pad,
          small,
          rw (take_all (width - pad) msg (omega arith), spaces_lem pad small),
        )),
      ),
    )

module _ {F : Type 0} ⦃fl : Float F⦄ (fixed : ℕ → F → List ℕ) where
  -- A percentile is printed with at most seven bytes, and a time with two at least.
  abbrev pub FitsLine : F → F → Type 0
  FitsLine p n = (length (fixed 3 p) ≤ 7) × (2 ≤ length (scaled_text fixed (format_time_us n)))

  latency_line_lem :
      (p n : F)
      → FitsLine p n
      → (line : List ℕ) × (latency_line fixed p n ≡ some line) × (length line ≡ 19)
  unfolding latency_line
  latency_line_lem p n (small, two) =
      let (column, e, (len, full)) =
        print_units_lem (scaled_text fixed (format_time_us n)) 10 two (omega arith) in
      let percent = right 7 (fixed 3 p) in
      (
        percent ++ codes "%" ++ column ++ 10 ∷ [],
        rw e,
        omega (
          arith,
          len,
          length-append (replicate (7 - length (fixed 3 p)) b' ') (fixed 3 p),
          length-replicate {A = ℕ} (7 - length (fixed 3 p)) b' ',
          length-append percent (codes "%"),
          length-append (percent ++ codes "%") column,
          length-append (percent ++ codes "%" ++ column) (10 ∷ []),
        ),
      )

  latency_lines_lem :
      (value : F → F) (ps : List F)
      → All (λ p. FitsLine p (value p)) ps
      → (text : List ℕ) × (latency_lines fixed (λ p. some (value p)) ps ≡ some text)
        × (length text ≡ 19 * length ps)
  unfolding latency_lines
  latency_lines_lem value [] h = ([], refl, refl)
  latency_lines_lem value (p ∷ ps) (h, hs) =
      let (line, e, len) = latency_line_lem p (value p) h in
      let (rest, e', len') = latency_lines_lem value ps hs in
      (line ++ rest, rw (e, e'), omega (arith, len, len', length-append line rest))

module _ {H F : Type 0} ⦃fl : Float F⦄ ⦃report : HdrReport H F⦄ where
  -- The distribution of a histogram is eight lines of 19 bytes, a percentile and the value there in
  -- columns, below the title and above the detailed spectrum, if each percentile is printed with at
  -- most seven bytes and each value with at least two.
  pub print_hdr_latency_lem :
      (spectrum : H → List ℕ) (fixed : ℕ → F → List ℕ) (h : H) (description : List ℕ)
      → All (λ p. FitsLine fixed p (fl.of_i64 (report.value_at_percentile h p))) percentiles
      → (lines : List ℕ) × (length lines ≡ 8 * 19)
        × (print_hdr_latency spectrum fixed h description
            ≡ some (
                codes "  Latency Distribution (HdrHistogram - "
                ++ description
                ++ codes ")"
                ++ (10 ∷ [])
                ++ lines
                ++ (10 ∷ [])
                ++ codes "  Detailed Percentile spectrum:"
                ++ (10 ∷ [])
                ++ spectrum h))
  unfolding print_hdr_latency percentiles
  print_hdr_latency_lem spectrum fixed h description fits =
      let (lines, e, len) =
        latency_lines_lem fixed (λ p. fl.of_i64 (report.value_at_percentile h p)) percentiles
          fits in
      (lines, len, rw e)

module _ {H F : Type 0} ⦃fl : Float F⦄ ⦃hdr : Hdr H⦄ ⦃report : HdrReport H F⦄ where
  -- A line of the statistics, for a name of at most ten bytes and if each of the three amounts is
  -- printed with at least two: four spaces, the name and spaces up to ten bytes, the mean in a column
  -- of 8 bytes, the deviation in one of 10, the maximum in one of 9, then the share within the
  -- deviation; the name and the columns take 41 bytes. A column has exactly its width whatever the
  -- amount; an amount with two bytes to spare there is printed in full, spaces before it and at most
  -- two behind it. The samples are left as `qsort` leaves them.
  pub print_stats_lem :
      (qsort : List ℕ → List ℕ) (fixed : ℕ → F → List ℕ) (name : List ℕ) (s : Stats H)
      (fmt : F → Scaled F)
      → length name ≤ 10
      → ((x : F) → 2 ≤ length (scaled_text fixed (fmt x)))
      → let (mean, s') = stats_summarize {F = F} qsort s in
        let stdev = stats_stdev s' mean in
        let share = stats_within_stdev s' mean stdev 1 in
        let text = λ (x : F). scaled_text fixed (fmt x) in
        (first second third : List ℕ) × IsColumn (text mean) 8 first
        × IsColumn (text stdev) 10 second
        × IsColumn (text (fl.of_u64 s.max)) 9 third
        × (length (name_column name ++ first ++ second ++ third) ≡ 41)
        × (print_stats qsort fixed name s fmt
            ≡ some (
              name_column name
                  ++ first
                  ++ second
                  ++ third
                  ++ right 8 (fixed 2 share)
                  ++ codes "%"
                  ++ 10 ∷ [],
              s',
            ))
  unfolding print_stats
  print_stats_lem qsort fixed name s fmt small two =
      let (mean, s') = stats_summarize {F = F} qsort s in
      let stdev = stats_stdev s' mean in
      let (first, e1, c1) =
        print_units_lem (scaled_text fixed (fmt mean)) 8 (two mean) (omega arith) in
      let (second, e2, c2) =
        print_units_lem (scaled_text fixed (fmt stdev)) 10 (two stdev) (omega arith) in
      let (third, e3, c3) =
        print_units_lem (scaled_text fixed (fmt (fl.of_u64 s.max))) 9 (two (fl.of_u64 s.max))
          (omega arith) in
      (
        first,
        second,
        third,
        c1,
        c2,
        c3,
        length-columns (name_column name) first second third (length-name_column name small) c1.0
            c2.0 c3.0,
        rw (e1, e2, e3),
      )
