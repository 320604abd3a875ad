-- ===== src/Base/Indexed.antt =====
-- A list of which one element is replaced.
use Prim.Native.Nat.{ℕ, zero, suc, ◌+◌}
use mathlib.Core.Path.{◌≡◌, refl, ap, sym, ◌∙◌, subst}
use mathlib.Core.Logic.{◌⊎◌, inl, inr}
use mathlib.Core.List.{List, [], ◌∷◌, map}
use mathlib.Core.Option.{some, some-injective, none-ne-some}
use native.Mathlib.Omega.{arith}
use wrk.Base.Lists.{All, get_elem?, set, sum}

module _ {ℓ} {A : Type ℓ} where
  pub get_elem?-set :
      (xs : List A) (i j : ℕ) (x y z : A)
      → get_elem? xs i ≡ some x
      → get_elem? xs j ≡ some y
      → ((x ≡ y) × (get_elem? (set xs i z) j ≡ some z)) ⊎ (get_elem? (set xs i z) j ≡ some y)
  get_elem?-set [] i j x y z e f = absurd (none-ne-some _ e)
  get_elem?-set (w ∷ xs) zero zero x y z e f = inl (some-injective _ _ (sym e ∙ f), refl)
  get_elem?-set (w ∷ xs) zero (suc j) x y z e f = inr f
  get_elem?-set (w ∷ xs) (suc i) zero x y z e f = inr f
  get_elem?-set (w ∷ xs) (suc i) (suc j) x y z e f = get_elem?-set xs i j x y z e f

module _ {ℓ κ} {A : Type ℓ} (P : A → Type κ) where
  pub All-get_elem? : (xs : List A) (i : ℕ) {x : A} → All P xs → get_elem? xs i ≡ some x → P x
  All-get_elem? [] i a e = absurd (none-ne-some _ e)
  All-get_elem? (x ∷ xs) zero a e = subst P (some-injective _ _ e) a.0
  All-get_elem? (x ∷ xs) (suc i) a e = All-get_elem? xs i a.1 e

  pub All-set : (xs : List A) (i : ℕ) (y : A) → All P xs → P y → All P (set xs i y)
  All-set [] i y a p = tt
  All-set (x ∷ xs) zero y a p = (p, a.1)
  All-set (x ∷ xs) (suc i) y a p = (a.0, All-set xs i y a.1 p)

module _ {ℓ κ μ} {A : Type ℓ} (P : A → Type κ) (Q : A → Type μ) where
  pub All-weaken : ((x : A) → P x → Q x) → (xs : List A) → All P xs → All Q xs
  All-weaken h [] a = tt
  All-weaken h (x ∷ xs) a = (h x a.0, All-weaken h xs a.1)

module _ {ℓ} {A : Type ℓ} (f : A → ℕ) where
  pub sum-set :
      (xs : List A) (i : ℕ) (x y : A)
      → get_elem? xs i ≡ some x
      → sum (map f (set xs i y)) + f x ≡ sum (map f xs) + f y
  sum-set [] i x y e = absurd (none-ne-some _ e)
  sum-set (z ∷ xs) zero x y e = omega (arith, ap f (some-injective _ _ e))
  sum-set (z ∷ xs) (suc i) x y e = omega (arith, sum-set xs i x y e)
