-- ===== src/Units/Scale.antt =====
-- What `format_units` never prints.
use wrk.Base.{ℕ, ◌≡◌, refl, ap, List, [], ◌∷◌, ◌++◌, ◌⊎◌, inl, inr, Bool-cases}
use wrk.Float.{Float}
use wrk.Units.{Units, scale_units, format_units, format_time_s, time_units_s}

abbrev pub OneOf : List ℕ → List (List ℕ) → Type 0
OneOf u [] = ⊥
OneOf u (v ∷ vs) = (u ≡ v) ⊎ OneOf u vs

module _ {F : Type 0} ⦃fl : Float F⦄ where
  scale_units_lem :
      (step : ℕ) (bound amount : F) (unit : List ℕ) (us : List (List ℕ)) (top : List ℕ)
      {r : F × List ℕ}
      → r ≡ scale_units step bound amount unit (us ++ top ∷ [])
      → OneOf r.1 (unit ∷ us)
  unfolding scale_units
  scale_units_lem step bound amount unit [] top h = inl (ap (λ (t : F × List ℕ). t.1) h)
  scale_units_lem step bound amount unit (u ∷ []) top h = elim (Bool-cases (fl.fle bound amount)) [
    | inl e ↦ inr (inl (ap (λ (t : F × List ℕ). t.1) (rw e at h)))
    | inr e ↦ inl (ap (λ (t : F × List ℕ). t.1) (rw e at h))
  ]
  scale_units_lem step bound amount unit (u ∷ v ∷ us) top h =
      elim (Bool-cases (fl.fle bound amount)) [
        | inl e ↦ inr (
            scale_units_lem step bound (fl.fdiv amount (fl.of_u64 step)) u (v ∷ us) top (rw e at h))
        | inr e ↦ inl (ap (λ (t : F × List ℕ). t.1) (rw e at h))
      ]

  -- Whatever the amount, the largest of the units is never used: the loop looks at the name after
  -- the one that it would use, and stops where there is none.
  pub largest_unit_unused :
      (n : F) (m : Units) (p : ℕ) (us : List (List ℕ)) (top : List ℕ)
      → m.units ≡ us ++ top ∷ []
      → OneOf (format_units n m p).unit (m.base ∷ us)
  unfolding format_units
  largest_unit_unused n m p us top e =
      let bound = fl.fmul (fl.of_u64 m.scale) (fl.fdiv (fl.of_u64 85) (fl.of_u64 100)) in
      scale_units_lem m.scale bound n m.base us top (ap (scale_units m.scale bound n m.base) e)

  -- A duration is printed in seconds or minutes, never in hours, however long it is.
  never_hours : (n : F) → OneOf (format_time_s n).unit ((b's' ∷ []) ∷ (b'm' ∷ []) ∷ [])
  unfolding format_time_s
  never_hours n = largest_unit_unused n time_units_s 0 ((b'm' ∷ []) ∷ []) (b'h' ∷ []) refl
