-- ===== src/Units.antt =====
-- src/units.c: numbers with a unit, scanned and scaled for printing. Texts are lists of bytes.
pub mod Scan
pub mod Scale
pub mod Tests
use wrk.Base.{
  ℕ, zero, suc, ◌+◌, ◌-◌, ◌*◌, ◌≤◌, Bool, true, false, not, ◌&&◌, ◌||◌, Option, none, some, List,
  [], ◌∷◌, leb, ltb, ◌==◌, if◌then◌else◌, mul64, sub64, take, u64_max, min,
}
use mathlib.Core.Option
use mathlib.Core.Option.{get_or}
use wrk.Float.{Float}

-- `units`; the array of names ends where the list does.
pub record Units : Type 0 where
  pub scale : ℕ
  pub base : List ℕ
  pub units : List (List ℕ)

abbrev pub time_units_us : Units
time_units_us = record {
  scale = 1000;
  base = b'u' ∷ b's' ∷ [];
  units = (b'm' ∷ b's' ∷ []) ∷ (b's' ∷ []) ∷ [];
}

abbrev pub time_units_s : Units
time_units_s = record { scale = 60; base = b's' ∷ []; units = (b'm' ∷ []) ∷ (b'h' ∷ []) ∷ [] }

abbrev pub binary_units : Units
binary_units = record {
  scale = 1024;
  base = [];
  units = (b'K' ∷ []) ∷ (b'M' ∷ []) ∷ (b'G' ∷ []) ∷ (b'T' ∷ []) ∷ (b'P' ∷ []) ∷ [];
}

abbrev pub metric_units : Units
metric_units = record {
  scale = 1000;
  base = [];
  units = (b'k' ∷ []) ∷ (b'M' ∷ []) ∷ (b'G' ∷ []) ∷ (b'T' ∷ []) ∷ (b'P' ∷ []) ∷ [];
}

abbrev pub is_digit : ℕ → Bool
is_digit c = leb b'0' c && leb c b'9'

-- `isspace` in the C locale.
abbrev pub is_space : ℕ → Bool
is_space c = c == 32 || (leb 9 c && leb c 13)

abbrev pub to_lower : ℕ → ℕ
to_lower c = if leb b'A' c && leb c b'Z' then c + 32 else c

-- Texts that differ at most in case.
unfoldable pub same_text : List ℕ → List ℕ → Bool
same_text [] [] = true
same_text [] (y ∷ ys) = false
same_text (x ∷ xs) [] = false
same_text (x ∷ xs) (y ∷ ys) = to_lower x == to_lower y && same_text xs ys

-- `!strncasecmp(s, t, 3)` on texts without a NUL.
abbrev pub same_3 : List ℕ → List ℕ → Bool
same_3 s t = same_text (take 3 s) (take 3 t)

unfoldable pub skip_spaces : List ℕ → List ℕ
skip_spaces [] = []
skip_spaces (c ∷ cs) = let rest = skip_spaces cs in if is_space c then rest else c ∷ cs

-- The digits of a conversion: their value, `none` if there is none, and what stands behind them.
unfoldable pub scan_digits : Option ℕ → List ℕ → Option ℕ × List ℕ
scan_digits n [] = (n, [])
scan_digits n (c ∷ cs) =
    let more = scan_digits (some (10 * get_or n 0 + (c - b'0'))) cs in
    if is_digit c then more else (n, c ∷ cs)

-- `%lu` behind the spaces: a number beyond the range becomes the largest, and a minus sign negates
-- modulo 2^64 a number within it.
unfoldable pub scan_u64 : List ℕ → Option ℕ × List ℕ
scan_u64 [] = (none, [])
scan_u64 (c ∷ cs) =
    if c == b'-'
    then (let (n, rest) = scan_digits none cs in
        (Option.map (λ k. if ltb u64_max k then u64_max else sub64 0 k) n, rest))
    else (let (n, rest) = scan_digits none (if c == b'+' then cs else c ∷ cs) in
        (Option.map (λ k. min k u64_max) n, rest))

-- `%2s` behind the spaces: at most `n` bytes that are no spaces.
unfoldable pub scan_word : ℕ → List ℕ → List ℕ
scan_word zero cs = []
scan_word (suc n) [] = []
scan_word (suc n) (c ∷ cs) = if is_space c then [] else c ∷ scan_word n cs

-- `sscanf(s, "%lu%2s", &base, unit)`; `none` where it returns less than 1, and the empty text for the
-- unit where it returns 1.
unfoldable pub sscanf_units : List ℕ → Option (ℕ × List ℕ)
unfolding skip_spaces scan_digits scan_u64 scan_word
sscanf_units s =
    let (n, rest) = scan_u64 (skip_spaces s) in
    Option.map (λ base. (base, scan_word 2 (skip_spaces rest))) n

-- The `for` loop of `scan_units`; `none` if it runs to the end of the names.
unfoldable pub find_scale : ℕ → ℕ → List ℕ → List (List ℕ) → Option ℕ
find_scale step scale unit [] = none
find_scale step scale unit (u ∷ us) =
    let scale' = mul64 scale step in
    let more = find_scale step scale' unit us in if same_3 unit u then some scale' else more

abbrev pub is_empty : List ℕ → Bool
is_empty [] = true
is_empty (c ∷ cs) = false

unfoldable pub scan_units : Units → List ℕ → Option ℕ
scan_units m s = elim (sscanf_units s) [
  | none ↦ none
  | some (base, unit) ↦
      if not (is_empty unit) && not (same_3 unit m.base)
      then Option.map (λ scale. mul64 base scale) (find_scale m.scale 1 unit m.units)
      else some (mul64 base 1)
]

unfoldable pub scan_metric : List ℕ → Option ℕ
unfolding scan_units
scan_metric s = scan_units metric_units s

unfoldable pub scan_time : List ℕ → Option ℕ
unfolding scan_units
scan_time s = scan_units time_units_s s

-- What `format_units` prints: an amount, the name of its unit, and the number of decimals.
pub record Scaled (F : Type 0) : Type 0 where
  pub amount : F
  pub unit : List ℕ
  pub precision : ℕ

module _ {F : Type 0} ⦃fl : Float F⦄ where
  -- The `for` loop of `format_units`, which looks one name ahead.
  unfoldable pub scale_units : ℕ → F → F → List ℕ → List (List ℕ) → F × List ℕ
  scale_units step bound amount unit [] = (amount, unit)
  scale_units step bound amount unit (u ∷ []) = (amount, unit)
  scale_units step bound amount unit (u ∷ v ∷ us) =
      let further = scale_units step bound (fl.fdiv amount (fl.of_u64 step)) u (v ∷ us) in
      if fl.fle bound amount then further else (amount, unit)

  unfoldable pub format_units : F → Units → ℕ → Scaled F
  unfolding scale_units
  format_units n m p =
      let bound = fl.fmul (fl.of_u64 m.scale) (fl.fdiv (fl.of_u64 85) (fl.of_u64 100)) in
      let (amount, unit) = scale_units m.scale bound n m.base m.units in
      record { amount = amount; unit = unit; precision = p }

  unfoldable pub format_binary : F → Scaled F
  unfolding format_units
  format_binary n = format_units n binary_units 2

  unfoldable pub format_metric : F → Scaled F
  unfolding format_units
  format_metric n = format_units n metric_units 2

  unfoldable pub format_time_us : F → Scaled F
  unfolding format_units
  format_time_us n =
      if fl.fle (fl.of_u64 1000000) n
      then format_units (fl.fdiv n (fl.of_u64 1000000)) time_units_s 2
      else format_units n time_units_us 2

  unfoldable pub format_time_s : F → Scaled F
  unfolding format_units
  format_time_s n = format_units n time_units_s 0
