-- ===== src/Capture/Table.antt =====
-- The table of headers that the script is given.
use wrk.Base.{
  ℕ, ◌≡◌, refl, ap, sym, ◌∙◌, true, false, Option, none, some, List, [], ◌∷◌, arith, if◌then◌else◌,
  Bool-cases, inl, inr, same_bytes, same_bytes→eq, same_bytes_self,
}
use wrk.Capture.{rawset, rawset_all}
use wrk.Capture.Parse.{Header}

-- The value under a name in a table.
abbrev pub lookup : List ℕ → List Header → Option (List ℕ)
lookup name [] = none
lookup name ((n, t) ∷ rest) =
    let more = lookup name rest in if same_bytes n name then some t else more

-- The value of the last header with a name.
abbrev pub last_of : List ℕ → List Header → Option (List ℕ)
last_of name [] = none
last_of name ((n, t) ∷ hs) = elim (last_of name hs) [
  | some later ↦ some later
  | none ↦ if same_bytes n name then some t else none
]

not_both :
    (m n name : List ℕ)
    → same_bytes m name ≡ true
    → same_bytes m n ≡ false
    → same_bytes n name ≡ false
not_both m n name y different = elim (Bool-cases (same_bytes n name)) [
  | inl both ↦
      let same : m ≡ n = same_bytes→eq m name y ∙ sym (same_bytes→eq n name both) in
      let tests : same_bytes m n ≡ true = ap (λ k. same_bytes k n) same ∙ same_bytes_self n in
      absurd (ground (arith, tests, different))
  | inr k ↦ k
]

lookup-rawset :
    (name n t : List ℕ) (table : List Header)
    → lookup name (rawset table n t) ≡ (if same_bytes n name then some t else lookup name table)
unfolding rawset
lookup-rawset name n t [] = refl
lookup-rawset name n t ((m, u) ∷ rest) = elim (Bool-cases (same_bytes m n)) [
  | inl y ↦
      let same : m ≡ n = same_bytes→eq m n y in
      let tests : same_bytes m name ≡ same_bytes n name = ap (λ k. same_bytes k name) same in
      ground (arith, y, tests)
  | inr different ↦ elim (Bool-cases (same_bytes m name)) [
    | inl y ↦
        let apart : same_bytes n name ≡ false = not_both m n name y different in
        ground (arith, different, y, apart)
    | inr k ↦ ground (arith, different, k, lookup-rawset name n t rest)
  ]
]

pub same_option : (o : Option (List ℕ)) → (elim o [ some later ↦ some later | none ↦ none ]) ≡ o
same_option none = refl
same_option (some t) = refl

pub lookup-rawset_all :
    (name : List ℕ) (table hs : List Header)
    → lookup name (rawset_all table hs)
      ≡ elim (last_of name hs) [ some later ↦ some later | none ↦ lookup name table ]
unfolding rawset_all
lookup-rawset_all name table [] = refl
lookup-rawset_all name table ((n, t) ∷ hs) =
    lookup-rawset_all name (rawset table n t) hs ∙ ground (arith, lookup-rawset name n t table)
