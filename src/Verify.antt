-- ===== src/Verify.antt =====
-- The check of the script's request: `verify_request` and `script_verify_request` of src/script.c.
pub mod Position
use wrk.Base.{
  ℕ, zero, suc, ◌+◌, ◌-◌, ◌*◌, ◌^◌, ◌<◌, ◌≤◌, ◌%◌, ◌/◌, ◌≡◌, ◌≢◌, ◌↔◌, ◌⊎◌, inl, inr, refl, ap, ◌∙◌,
  sym, Bool, true, false, not, Option, none, some, List, [], ◌∷◌, ◌++◌, arith, All, length, sum,
  map, take, drop, sub64, add64, mul64, add32, if◌then◌else◌, leb, ltb, ◌==◌, ◌&&◌, ◌||◌,
  Bool-cases, Option-cases, length-append,
}

-- `exit(1)` with the place that is printed, or the number of requests in the text.
pub data Verdict : Type 0 where
  requests : ℕ → Verdict
  invalid : ℕ → ℕ → Verdict

-- The loop that counts lines and columns, 32-bit patterns of `int`; b'\n' is 10.
unfoldable pub position : ℕ → ℕ → List ℕ → ℕ × ℕ
position line column [] = (line, column)
position line column (b ∷ text) =
    if b == 10 then position (add32 line 1) 1 text else position line (add32 column 1) text

-- `parsed` is what `http_parser_execute` returns for the request, and `count` how often it calls
-- `verify_request`.
unfoldable pub script_verify_request : List ℕ → ℕ → ℕ → Verdict
script_verify_request request parsed count =
    let (line, column) = position 1 1 (take parsed request) in
    if not (parsed == length request) || count == 0 then invalid line column else requests count
