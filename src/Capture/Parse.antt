-- ===== src/Capture/Parse.antt =====
-- The texts that `script_response` reads back out of the header buffer.
use wrk.Base.{
  ℕ, zero, suc, ◌+◌, ◌≤◌, ◌≡◌, ◌≢◌, refl, some, List, [], ◌∷◌, ◌++◌, arith, length, All,
  length-append,
}
use wrk.Capture.{buffer_pushlstring, header_pairs}

-- No byte is NUL.
abbrev pub IsText : List ℕ → Type 0
IsText = All (λ b. b ≢ 0)

pub pushlstring_lem :
    (text behind : List ℕ)
    → IsText text
    → buffer_pushlstring (text ++ 0 ∷ behind) ≡ some (text, behind)
unfolding buffer_pushlstring
pushlstring_lem [] behind h = refl
pushlstring_lem (b ∷ text) behind h = ground (arith, pushlstring_lem text behind h.1)

-- A header as its two texts, and the bytes that stand for a list of them.
abbrev pub Header : Type 0
Header = List ℕ × List ℕ

abbrev pub encode : List Header → List ℕ
encode [] = []
encode ((name, text) ∷ hs) = name ++ 0 ∷ (text ++ 0 ∷ encode hs)

abbrev pub AreTexts : List Header → Type 0
AreTexts [] = Unit
AreTexts ((name, text) ∷ hs) = IsText name × IsText text × AreTexts hs

pushlstring_nil : {x : List ℕ × List ℕ} → buffer_pushlstring [] ≢ some x
unfolding buffer_pushlstring
pushlstring_nil e = cc

header_pairs_step :
    (fuel : ℕ) (bytes : List ℕ) {name text behind behind' : List ℕ} {hs : List Header}
    → buffer_pushlstring bytes ≡ some (name, behind)
    → buffer_pushlstring behind ≡ some (text, behind')
    → header_pairs fuel behind' ≡ some hs
    → header_pairs (suc fuel) bytes ≡ some ((name, text) ∷ hs)
unfolding header_pairs
header_pairs_step fuel [] p q r = absurd (pushlstring_nil p)
header_pairs_step fuel (b ∷ bytes) p q r = ground arith

pub length-encode :
    (name text : List ℕ) (hs : List Header)
    → length (encode ((name, text) ∷ hs)) ≡ length name + length text + length (encode hs) + 2
length-encode name text hs =
    omega
      (arith, length-append name (0 ∷ (text ++ 0 ∷ encode hs)), length-append text (0 ∷ encode hs))

-- Reading the bytes of a list of headers without NULs gives the headers.
pub header_pairs-encode :
    (fuel : ℕ) (hs : List Header)
    → length (encode hs) ≤ fuel
    → AreTexts hs
    → header_pairs fuel (encode hs) ≡ some hs
unfolding header_pairs
header_pairs-encode zero [] h t = refl
header_pairs-encode (suc fuel) [] h t = refl
header_pairs-encode zero ((name, text) ∷ hs) h t =
    absurd (omega (arith, length-encode name text hs))
header_pairs-encode (suc fuel) ((name, text) ∷ hs) h t =
    header_pairs_step fuel (encode ((name, text) ∷ hs)) (pushlstring_lem name _ t.0)
      (pushlstring_lem text _ t.1)
      (header_pairs-encode fuel hs (omega (arith, length-encode name text hs)) t.2)
