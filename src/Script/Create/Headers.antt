-- ===== src/Script/Create/Headers.antt =====
-- The headers of the command line, as `script_create` of src/script.c gives them to the script.
use mathlib.Core.Path.{subst}
use wrk.Base.{
  ℕ, ◌≡◌, ◌↔◌, refl, ap, ◌∙◌, Bool, true, false, Option, none, some, List, [], ◌∷◌, ◌++◌, arith,
  ◌==◌, if◌then◌else◌, All,
}
use wrk.Lua.{Value, string, table, Heap, ok}
use wrk.Script.Create.{split_colon, behind_space, header_of, put_headers}

-- A header as it is given on the command line.
abbrev pub header_text : List ℕ → List ℕ → List ℕ
header_text name value = name ++ b':' ∷ b' ' ∷ value

abbrev pub HasNoColon : List ℕ → Type 0
HasNoColon name = All (λ c. c == b':' ≡ false) name

split_colon-append :
    (name rest : List ℕ) → HasNoColon name → split_colon (name ++ b':' ∷ rest) ≡ some (name, rest)
unfolding split_colon
split_colon-append [] rest h = refl
split_colon-append (c ∷ name) rest (h, hs) = rw (h, split_colon-append name rest hs)

-- What an answer of `split_colon` says of the text.
abbrev IsSplit : List ℕ → Option (List ℕ × List ℕ) → Type 0
IsSplit cs none = Unit
IsSplit cs (some (name, rest)) = HasNoColon name × (cs ≡ name ++ b':' ∷ rest)

cons-IsSplit :
    (c : ℕ) (cs : List ℕ) (b : Bool) (more : Option (List ℕ × List ℕ))
    → c == b':' ≡ b
    → IsSplit cs more
    → IsSplit (c ∷ cs) (
        if b
        then some ([], cs)
        else elim more [ none ↦ none | some (before, behind) ↦ some (c ∷ before, behind) ])
cons-IsSplit c cs true more h i =
    let is_colon : c ≡ b':' = ground arith in (tt, ap (λ x. x ∷ cs) is_colon)
cons-IsSplit c cs false none h i = tt
cons-IsSplit c cs false (some (before, behind)) h (free, e) = ((h, free), ap (λ xs. c ∷ xs) e)

split_colon-IsSplit : (cs : List ℕ) → IsSplit cs (split_colon cs)
unfolding split_colon
split_colon-IsSplit [] = tt
split_colon-IsSplit (c ∷ cs) =
    cons-IsSplit c cs (c == b':') (split_colon cs) refl (split_colon-IsSplit cs)

-- What an answer of `header_of` says of the text.
abbrev IsHeader : List ℕ → Option (List ℕ × List ℕ) → Type 0
IsHeader h none = Unit
IsHeader h (some (name, value)) = HasNoColon name × (h ≡ header_text name value)

behind-IsHeader :
    (h name rest : List ℕ) (c : ℕ) (b : Bool)
    → c == b' ' ≡ b
    → HasNoColon name
    → h ≡ name ++ b':' ∷ c ∷ rest
    → IsHeader h
        (elim (if b then some rest else none) [ none ↦ none | some value ↦ some (name, value) ])
behind-IsHeader h name rest c true is free e =
    let is_space : c ≡ b' ' = ground arith in (free, e ∙ ap (λ x. name ++ b':' ∷ x ∷ rest) is_space)
behind-IsHeader h name rest c false is free e = tt

cases-IsHeader :
    (h : List ℕ) (m : Option (List ℕ × List ℕ))
    → IsSplit h m
    → IsHeader h (elim m [
      | none ↦ none
      | some (name, rest) ↦ elim (behind_space rest) [
        | none ↦ none
        | some value ↦ some (name, value)
      ]
    ])
cases-IsHeader h none i = tt
cases-IsHeader h (some (name, [])) (free, e) = tt
cases-IsHeader h (some (name, c ∷ rest)) (free, e) =
    behind-IsHeader h name rest c (c == b' ') refl free e

header_of-IsHeader : (h : List ℕ) → IsHeader h (header_of h)
unfolding header_of
header_of-IsHeader h = cases-IsHeader h (split_colon h) (split_colon-IsSplit h)

-- A header of the command line is a name and a value exactly if it is the name, a colon, a space and
-- the value, and the name has no colon: any other header is passed over.
pub header_of_lem :
    (h name value : List ℕ)
    → header_of h ≡ some (name, value) ↔ (HasNoColon name × (h ≡ header_text name value))
unfolding header_of
header_of_lem h name value = (
  (λ e. subst (IsHeader h) e (header_of-IsHeader h)),
  (λ (free, e). ap header_of e ∙ rw (split_colon-append name (b' ' ∷ value) free, header_of)),
)

module _ {W F : Type 0} (heap : Heap W F) where
  abbrev pub with_header : W → ℕ → Option (List ℕ × List ℕ) → W
  with_header w t none = w
  with_header w t (some (name, value)) = heap.put w t (string name) (string value)

  -- The assignments of the headers, in order.
  abbrev pub with_headers : W → ℕ → List (List ℕ) → W
  with_headers w t [] = w
  with_headers w t (h ∷ headers) = with_headers (with_header w t (header_of h)) t headers

module _ {W F : Type 0} ⦃heap : Heap W F⦄ where
  put_headers-cons :
      (h : List ℕ) (headers : List (List ℕ)) (t : ℕ) (a b c d : Value F) (w : W)
      (m : Option (List ℕ × List ℕ))
      → header_of h ≡ m
      → let st : List (Value F) = table t ∷ a ∷ b ∷ c ∷ d ∷ [] in
        put_headers (h ∷ headers) (record { stack = st; heap = w })
        ≡ put_headers headers (record { stack = st; heap = with_header heap w t m })
  unfolding put_headers
  put_headers-cons h headers t a b c d w none e = rw e
  put_headers-cons h headers t a b c d w (some (name, value)) e = rw e

  -- On the stack that `script_create` has by then, with the table of headers on top as the fifth value from
  -- the base: the loop leaves the stack as it was, and stores the value of each header under its name,
  -- in the order of the command line, and nothing for what is no header.
  pub put_headers_lem :
      (t : ℕ) (a b c d : Value F) (headers : List (List ℕ)) (w : W)
      → let st : List (Value F) = table t ∷ a ∷ b ∷ c ∷ d ∷ [] in
        put_headers headers (record { stack = st; heap = w })
        ≡ ok (tt, record { stack = st; heap = with_headers heap w t headers })
  unfolding put_headers
  put_headers_lem t a b c d [] w = refl
  put_headers_lem t a b c d (h ∷ headers) w =
      put_headers-cons h headers t a b c d w (header_of h) refl
      ∙ put_headers_lem t a b c d headers (with_header heap w t (header_of h))
