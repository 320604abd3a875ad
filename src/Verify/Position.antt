-- ===== src/Verify/Position.antt =====
-- What the place in the message means.
use wrk.Base.{
  ℕ, ◌+◌, ◌^◌, ◌<◌, ◌≡◌, ◌↔◌, ◌≢◌, ◌⊎◌, refl, ◌∙◌, inl, inr, Bool-cases, List, [], ◌∷◌, ◌++◌, arith,
  length, take, if◌then◌else◌, ◌==◌, length-append, take-append_length,
}
use wrk.Verify.{requests, invalid, position, script_verify_request}

abbrev pub newlines : List ℕ → ℕ
newlines [] = 0
newlines (b ∷ text) = (if b == 10 then 1 else 0) + newlines text

-- How many bytes stand behind the last newline of the text, or in the text if it has none.
abbrev pub last_line : List ℕ → ℕ
last_line [] = 0
last_line (b ∷ text) =
    let rest = last_line text in
    if newlines text == 0 then (if b == 10 then rest else 1 + rest) else rest

last_line-no_newline : (text : List ℕ) → newlines text ≡ 0 → last_line text ≡ length text
last_line-no_newline [] e = refl
last_line-no_newline (b ∷ text) e = ground (arith, last_line-no_newline text)

position_lem :
    (line column : ℕ) (text : List ℕ)
    → line + length text < 2 ^ 31
    → column + length text < 2 ^ 31
    → position line column text ≡ (
      line + newlines text,
      if newlines text == 0 then column + length text else 1 + last_line text,
    )
unfolding position
position_lem line column [] l k = ground arith
position_lem line column (b ∷ text) l k = elim (Bool-cases (b == 10)) [
  | inl y ↦ ground (
    arith,
    y,
    position_lem (line + 1) 1 text (omega arith) (omega arith),
    last_line-no_newline text,
  )
  | inr n ↦ ground (
    arith,
    n,
    position_lem line (column + 1) text (omega arith) (omega arith),
    last_line-no_newline text,
  )
]

-- The bytes that the parser takes, fewer than 2^31 - 1 of them, give the place that is printed: one line
-- more than their newlines, and one column more than the bytes behind the last of these.
place_lem :
    (taken : List ℕ)
    → length taken + 1 < 2 ^ 31
    → position 1 1 taken ≡ (1 + newlines taken, 1 + last_line taken)
place_lem taken small =
    position_lem 1 1 taken (omega arith) (omega arith) ∙ ground (arith, last_line-no_newline taken)

-- A request is accepted exactly when the parser takes all of it and finds a request in it; the
-- number of requests found is then the result. Otherwise the message gives the line and the column of the
-- first byte that was not taken, or of the end: the line is one more than the newlines among the bytes
-- taken, and the column one more than the bytes taken behind the last newline, or than all if there is
-- none. The bytes taken are fewer than 2^31 - 1.
pub verify_lem :
    (taken rest : List ℕ) (count : ℕ)
    → length taken + 1 < 2 ^ 31
    → let verdict = script_verify_request (taken ++ rest) (length taken) count in
      ((verdict ≡ requests count) ↔ ((rest ≡ []) × (count ≢ 0)))
      × ((rest ≢ []) ⊎ (count ≡ 0) → verdict ≡ invalid (1 + newlines taken) (1 + last_line taken))
unfolding script_verify_request
verify_lem taken [] count small =
    let read : take (length taken) (taken ++ []) ≡ taken = take-append_length taken [] in
    let place = place_lem taken small in
    let size = length-append taken [] in
    (
      (λ e. (refl, ground (arith, read, place, size)), λ e. ground (arith, read, place, size)),
      λ e. ground (arith, read, place, size),
    )
verify_lem taken (b ∷ rest) count small =
    let read : take (length taken) (taken ++ b ∷ rest) ≡ taken =
      take-append_length taken (b ∷ rest) in
    let place = place_lem taken small in
    let size = length-append taken (b ∷ rest) in
    (
      (λ e. absurd (ground (arith, read, place, size)), λ e. absurd (ground (arith, e))),
      λ e. ground (arith, read, place, size),
    )
