-- ===== src/Units/Scan.antt =====
-- What `scan_units` reads.
use mathlib.Core.Option
use mathlib.Core.Option.{get_or}
use native.Mathlib.Nat.{pow-suc, pow-zero, div-add-mod', add-mul-mod_self_right}
use wrk.Base.{
  ℕ, zero, suc, ◌+◌, ◌-◌, ◌*◌, ◌/◌, ◌%◌, ◌^◌, ◌≤◌, ◌≡◌, refl, ap, ◌∙◌, sym, true, false, ◌||◌,
  Option, none, some, List, [], ◌∷◌, ◌++◌, arith, ◌==◌, if◌then◌else◌, mul64, min, u64_max,
  Bool-cases, inl, inr, All, length,
}
use wrk.Units.{
  Units, is_digit, is_space, same_3, skip_spaces, scan_digits, scan_u64, scan_word, sscanf_units,
  find_scale, is_empty, scan_units,
}

-- The number that digits stand for.
abbrev pub value_from : ℕ → List ℕ → ℕ
value_from n [] = n
value_from n (c ∷ cs) = value_from (10 * n + (c - b'0')) cs

abbrev pub AreDigits : List ℕ → Type 0
AreDigits = All (λ c. is_digit c ≡ true)

-- A text that begins with no digit.
abbrev pub NoDigit : List ℕ → Type 0
NoDigit [] = Unit
NoDigit (c ∷ cs) = is_digit c ≡ false

scan_digits_lem :
    (n : ℕ) (ds rest : List ℕ)
    → AreDigits ds
    → NoDigit rest
    → scan_digits (some n) (ds ++ rest) ≡ (some (value_from n ds), rest)
unfolding scan_digits
scan_digits_lem n [] [] d r = refl
scan_digits_lem n [] (c ∷ rest) d r = rw r
scan_digits_lem n (c ∷ ds) rest d r = rw (d.0) (scan_digits_lem (10 * n + (c - b'0')) ds rest d.1 r)

-- The place of a unit among the names, the first that fits.
abbrev pub unit_index : List ℕ → List (List ℕ) → Option ℕ
unit_index unit [] = none
unit_index unit (u ∷ us) =
    let more = Option.map suc (unit_index unit us) in if same_3 unit u then some 0 else more

pow_one : (n : ℕ) → n ^ 1 ≡ n
pow_one n = pow-suc n 0 ∙ ap (λ k. k * n) (pow-zero n) ∙ omega arith

mul_mod : (a b m : ℕ) → a % m * b % m ≡ a * b % m
mul_mod a b m =
    sym (add-mul-mod_self_right (a % m * b) (a / m * b) m)
    ∙ ap (λ k. k % m) (omega (arith, ap (λ t. t * b) (div-add-mod' a m)))

power_step :
    (scale step i : ℕ)
    → mul64 scale step * step ^ (i + 1) % 2 ^ 64 ≡ scale * step ^ (suc i + 1) % 2 ^ 64
power_step scale step i =
    mul_mod (scale * step) (step ^ (i + 1)) (2 ^ 64)
    ∙ ap (λ k. k % 2 ^ 64) (omega (arith, ap (λ t. scale * t) power))
  where
    power : step ^ (suc i + 1) ≡ step ^ (i + 1) * step
    power = ap (λ k. step ^ k) (omega arith) ∙ pow-suc step (i + 1)

-- The loop finds the power of the step that belongs to the place of the unit.
pub find_scale_lem :
    (step scale : ℕ) (unit : List ℕ) (us : List (List ℕ))
    → find_scale step scale unit us
      ≡ Option.map (λ i. scale * step ^ (i + 1) % 2 ^ 64) (unit_index unit us)
unfolding find_scale
find_scale_lem step scale unit [] = refl
find_scale_lem step scale unit (u ∷ us) = elim (Bool-cases (same_3 unit u)) [
  | inl fits ↦ rw fits (rw (pow_one step))
  | inr on ↦ rw on (find_scale_lem step (mul64 scale step) unit us ∙ shift (unit_index unit us))
]
  where
    shift :
        (o : Option ℕ)
        → Option.map (λ i. mul64 scale step * step ^ (i + 1) % 2 ^ 64) o
          ≡ Option.map (λ i. scale * step ^ (i + 1) % 2 ^ 64) (Option.map suc o)
    shift none = refl
    shift (some i) = ap some (power_step scale step i)

-- The text of a unit: at most two bytes, no spaces, no digit at the front.
abbrev pub IsUnit : List ℕ → Type 0
IsUnit w = NoDigit w × All (λ c. is_space c ≡ false) w × (length w ≤ 2)

scan_word_lem :
    (n : ℕ) (w : List ℕ) → All (λ c. is_space c ≡ false) w → length w ≤ n → scan_word n w ≡ w
unfolding scan_word
scan_word_lem zero [] h l = refl
scan_word_lem (suc n) [] h l = refl
scan_word_lem zero (c ∷ w) h l = elim l [ ]
scan_word_lem (suc n) (c ∷ w) h l = rw (h.0, scan_word_lem n w h.1 (omega arith))

skip_none : (w : List ℕ) → All (λ c. is_space c ≡ false) w → skip_spaces w ≡ w
unfolding skip_spaces
skip_none [] h = refl
skip_none (c ∷ w) h = rw (h.0)

digit_kind :
    (d : ℕ)
    → is_digit d ≡ true
    → (is_space d ≡ false) × ((d == b'-') ≡ false) × ((d == b'+') ≡ false)
digit_kind d h = ground arith

first_digit :
    (d : ℕ) (ds w : List ℕ)
    → AreDigits (d ∷ ds)
    → NoDigit w
    → scan_u64 (d ∷ ds ++ w) ≡ (some (min (value_from 0 (d ∷ ds)) u64_max), w)
unfolding scan_u64 scan_digits
first_digit d ds w ok u =
    let (a, b, c) = digit_kind d (ok.0) in
    ground (arith, b, c, ok.0, scan_digits_lem (0 + (d - b'0')) ds w ok.1 u)

-- A number with a unit directly behind it is read as the number, at most 2^64 - 1, and the unit.
pub sscanf_units_lem :
    (d : ℕ) (ds w : List ℕ)
    → AreDigits (d ∷ ds)
    → IsUnit w
    → sscanf_units (d ∷ ds ++ w) ≡ some (min (value_from 0 (d ∷ ds)) u64_max, w)
unfolding sscanf_units skip_spaces
sscanf_units_lem d ds w ok u = ground (
  arith,
  digit_kind d (ok.0),
  first_digit d ds w ok (u.0),
  skip_none w (u.1),
  scan_word_lem 2 w (u.1) (u.2),
)

-- The value of a number with the unit at a place.
abbrev pub with_scale : ℕ → ℕ → Option ℕ → Option ℕ
with_scale n scale = Option.map (λ i. n * scale ^ (i + 1) % 2 ^ 64)

rescale :
    (n scale : ℕ) (o : Option ℕ)
    → Option.map (λ k. mul64 n k) (Option.map (λ i. 1 * scale ^ (i + 1) % 2 ^ 64) o)
      ≡ with_scale n scale o
rescale n scale none = refl
rescale n scale (some i) = ap some (
    ap (λ t. t % 2 ^ 64) (omega arith)
    ∙ mul_mod (1 * scale ^ (i + 1)) n (2 ^ 64)
    ∙ ap (λ t. t % 2 ^ 64) (omega arith))

-- A number with the name of the `i`-th unit directly behind it is scanned as the number times the
-- scale to the power `i + 1`, modulo 2^64; with the name of the base unit, or none, as the number.
-- Any other word of at most two bytes behind it is refused. A number beyond 2^64 - 1 is read as
-- 2^64 - 1.
pub scan_units_lem :
    (m : Units) (d : ℕ) (ds w : List ℕ)
    → AreDigits (d ∷ ds)
    → IsUnit w
    → let n = min (value_from 0 (d ∷ ds)) u64_max in
      scan_units m (d ∷ ds ++ w) ≡ (
        if is_empty w || same_3 w m.base
        then some n
        else with_scale n m.scale (unit_index w m.units))
unfolding scan_units
scan_units_lem m d ds w ok u =
    let n = min (value_from 0 (d ∷ ds)) u64_max in
    ground (
      arith,
      sscanf_units_lem d ds w ok u,
      find_scale_lem m.scale 1 w m.units,
      rescale n m.scale (unit_index w m.units),
    )
