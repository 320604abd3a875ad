-- ===== src/Base/Slices.antt =====
-- Slices of lists: `take`, `drop`, `set` and the last elements.
use Prim.Native.Nat.{ℕ, zero, suc, ◌+◌, ◌-◌, ◌≤◌, ◌<◌}
use mathlib.Core.Path.{◌≡◌, refl, ap, sym, ◌∙◌}
use mathlib.Core.List.{List, [], ◌∷◌, ◌++◌}
use native.Mathlib.Omega.{arith}
use native.Mathlib.Decide.{dec_le}
use wrk.Base.Lists.{length, get_or, set, take, drop, sum, length-append, length-drop}

module _ {ℓ} {A : Type ℓ} where
  pub take-set : (xs : List A) (i : ℕ) (v : A) → take i (set xs i v) ≡ take i xs
  take-set [] i v = refl
  take-set (x ∷ xs) zero v = refl
  take-set (x ∷ xs) (suc i) v = ap (λ t. x ∷ t) (take-set xs i v)

  pub take-suc-set :
      (xs : List A) (i : ℕ) (v : A)
      → i < length xs
      → take (suc i) (set xs i v) ≡ take i xs ++ v ∷ []
  take-suc-set [] i v h = elim h [ ]
  take-suc-set (x ∷ xs) zero v h = refl
  take-suc-set (x ∷ xs) (suc i) v h = ap (λ t. x ∷ t) (take-suc-set xs i v (omega arith))

  pub drop-suc-set : (xs : List A) (i : ℕ) (v : A) → drop (suc i) (set xs i v) ≡ drop (suc i) xs
  drop-suc-set [] i v = refl
  drop-suc-set (x ∷ xs) zero v = refl
  drop-suc-set (x ∷ []) (suc i) v = refl
  drop-suc-set (x ∷ y ∷ xs) (suc i) v = drop-suc-set (y ∷ xs) i v

  pub take-length : (xs : List A) (n : ℕ) → length xs ≤ n → take n xs ≡ xs
  take-length [] zero h = refl
  take-length [] (suc n) h = refl
  take-length (x ∷ xs) zero h = elim h [ ]
  take-length (x ∷ xs) (suc n) h = ap (λ t. x ∷ t) (take-length xs n (omega arith))

  pub drop-length : (xs : List A) (n : ℕ) → length xs ≤ n → drop n xs ≡ []
  drop-length [] zero h = refl
  drop-length [] (suc n) h = refl
  drop-length (x ∷ xs) zero h = elim h [ ]
  drop-length (x ∷ xs) (suc n) h = drop-length xs n (omega arith)

  pub drop-eq-cons :
      (xs : List A) (i : ℕ) (d : A) → i < length xs → drop i xs ≡ get_or xs i d ∷ drop (suc i) xs
  drop-eq-cons [] i d h = elim h [ ]
  drop-eq-cons (x ∷ xs) zero d h = refl
  drop-eq-cons (x ∷ xs) (suc i) d h = drop-eq-cons xs i d (omega arith)

  pub drop-append : (n : ℕ) (xs ys : List A) → n ≤ length xs → drop n (xs ++ ys) ≡ drop n xs ++ ys
  drop-append zero xs ys h = refl
  drop-append (suc n) [] ys h = elim h [ ]
  drop-append (suc n) (x ∷ xs) ys h = drop-append n xs ys (omega arith)

  pub drop-append_length : (xs ys : List A) → drop (length xs) (xs ++ ys) ≡ ys
  drop-append_length [] ys = refl
  drop-append_length (x ∷ xs) ys = drop-append_length xs ys

  pub take-append_length : (xs ys : List A) → take (length xs) (xs ++ ys) ≡ xs
  take-append_length [] ys = refl
  take-append_length (x ∷ xs) ys = ap (λ t. x ∷ t) (take-append_length xs ys)

  pub take-append-drop : (n : ℕ) (xs : List A) → take n xs ++ drop n xs ≡ xs
  take-append-drop zero xs = refl
  take-append-drop (suc n) [] = refl
  take-append-drop (suc n) (x ∷ xs) = ap (λ t. x ∷ t) (take-append-drop n xs)

  pub drop_congr : {m n : ℕ} (xs : List A) → m ≡ n → drop m xs ≡ drop n xs
  drop_congr xs p = ap (λ k. drop k xs) p

  pub drop-drop : (m n : ℕ) (xs : List A) → drop m (drop n xs) ≡ drop (n + m) xs
  drop-drop m zero xs = drop_congr xs (omega arith)
  drop-drop zero (suc n) [] = sym (drop-length [] (suc n + zero) (omega arith))
  drop-drop (suc m) (suc n) [] = sym (drop-length [] (suc n + suc m) (omega arith))
  drop-drop m (suc n) (x ∷ xs) =
      drop-drop m n xs ∙ drop_congr {m = suc (n + m)} (x ∷ xs) (omega arith)

  -- The last `n` elements, in order.
  abbrev pub last : ℕ → List A → List A
  last n xs = drop (length xs - n) xs

  pub last-eq_self : (n : ℕ) (xs : List A) → length xs ≤ n → last n xs ≡ xs
  last-eq_self n xs h = drop_congr {n = 0} xs (omega arith)

  pub last-cons : (x : A) (xs : List A) (n : ℕ) → length xs ≡ n → last n (x ∷ xs) ≡ xs
  last-cons x xs n h = drop_congr {n = 1} (x ∷ xs) (omega arith)

  pub length-last : (n : ℕ) (xs : List A) → n ≤ length xs → length (last n xs) ≡ n
  length-last n xs h = omega (arith, length-drop (length xs - n) xs)

  -- Cutting down to the last `n` in between loses nothing.
  pub last-last_append : (n : ℕ) (xs ys : List A) → last n (last n xs ++ ys) ≡ last n (xs ++ ys)
  last-last_append n xs ys = elim (dec_le (length xs) n) [
    | yes p ↦ ap (λ t. last n (t ++ ys)) (last-eq_self n xs p)
    | no p ↦
        ap (λ t. last n t) (sym (drop-append (length xs - n) xs ys (omega arith)))
        ∙ drop-drop (length (drop (length xs - n) (xs ++ ys)) - n) (length xs - n) (xs ++ ys)
        ∙ drop_congr (xs ++ ys)
            (omega (arith, length-drop (length xs - n) (xs ++ ys), length-append xs ys))
  ]

pub sum-append : (xs ys : List ℕ) → sum (xs ++ ys) ≡ sum xs + sum ys
sum-append [] ys = omega arith
sum-append (x ∷ xs) ys = omega (arith, sum-append xs ys)
