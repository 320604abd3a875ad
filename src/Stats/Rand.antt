-- ===== src/Stats/Rand.antt =====
-- `rand64` and `stats_sample` of src/stats.c.
use wrk.Base.{
  ℕ, zero, suc, ◌+◌, ◌-◌, ◌*◌, ◌/◌, ◌%◌, ◌≤◌, ◌<◌, ◌≡◌, refl, ◌∙◌, Option, none, some, List, [],
  ◌∷◌, arith, leb, if◌then◌else◌, get_or, length, u64_max, All, Option-cases, inl, inr, ap,
}
use native.Mathlib.Nat.{mod-eq_of_lt, div-add-mod', add-mul-mod_self_right, div-lt_iff_lt-mul}
use Prim.Native.Nat.add
use wrk.Hdr.{Hdr}
use wrk.Stats.{Stats, stats_record, record_all}

-- `max -= max % n`: the draws from here on are rejected. (`n` = 0 divides by zero in the code.)
abbrev pub cutoff : ℕ → ℕ
cutoff n = u64_max - u64_max % n

-- The generator (tinymt64) enters as the state transition `next`, which returns a 64-bit number.
module _ {G : Type 0} (next : G → ℕ × G) where
  -- The `do … while (x >= max)` loop on fuel; `none` if every draw so far was rejected.
  draw : ℕ → ℕ → G → Option (ℕ × G)
  draw zero max g = none
  draw (suc fuel) max g =
      let (x, g') = next g in
      let more = draw fuel max g' in if leb max x then more else some (x, g')

  unfoldable pub rand64 : ℕ → ℕ → G → Option (ℕ × G)
  unfolding draw
  rand64 fuel n g = elim (draw fuel (cutoff n) g) [ none ↦ none | some (x, g') ↦ some (x % n, g') ]

  -- The generator after `k` draws, and the draw that it makes next.
  unfoldable pub after : ℕ → G → G
  after zero g = g
  after (suc k) g = after k (next g).1

  -- The first draw below the cut-off is taken, and the generator stands just behind it.
  draw_first :
      (k more max : ℕ) (g : G)
      → ((j : ℕ) → j < k → max ≤ (next (after j g)).0)
      → (next (after k g)).0 < max
      → draw (k + suc more) max g ≡ some (next (after k g))
  unfolding draw after
  draw_first zero more max g early h = rw add.zero (ground arith)
  draw_first (suc k) more max g early h = rw add.suc (
      ground
        (arith, early 0, draw_first k more max (next g).1 (λ j l. early (suc j) (omega arith)) h))

  -- `rand64` ends as soon as the generator draws below the cut-off: it returns that first draw modulo
  -- `n`, in range, with any fuel above the number of rejected draws.
  pub rand64_lem :
      (k more n : ℕ) (g : G)
      → 0 < n
      → ((j : ℕ) → j < k → cutoff n ≤ (next (after j g)).0)
      → (next (after k g)).0 < cutoff n
      → (rand64 (k + suc more) n g ≡ some ((next (after k g)).0 % n, (next (after k g)).1))
        × ((next (after k g)).0 % n < n)
  unfolding rand64
  rand64_lem k more n g pos early h =
      (rw (draw_first k more (cutoff n) g early h, rand64), omega arith)

module _ {G : Type 0} (next : G → ℕ × G) where
  rand64-lt :
      (fuel n : ℕ) (g : G) {x : ℕ} {g' : G} → 0 < n → rand64 next fuel n g ≡ some (x, g') → x < n
  unfolding rand64
  rand64-lt fuel n g pos e = ground (arith, Option-cases (draw next fuel (cutoff n) g))

cutoff-eq : (m n : ℕ) → m - m % n ≡ m / n * n
cutoff-eq m n = omega (arith, div-add-mod' m n)

-- The draws that are kept are spread evenly: each remainder below `n` is that of exactly the
-- numbers `r + j * n` with `j < u64_max / n`, and all of these are kept.
pub cutoff_even :
    (n r j x : ℕ)
    → r < n
    → (j < u64_max / n → (r + j * n < cutoff n) × ((r + j * n) % n ≡ r))
      × (x < cutoff n → x % n ≡ r → (x ≡ r + x / n * n) × (x / n < u64_max / n))
cutoff_even n r j x h = (
  λ l. (
    rw (cutoff-eq u64_max n) (below j (u64_max / n) l),
    add-mul-mod_self_right r j n ∙ mod-eq_of_lt h,
  ),
  λ l e. (
    omega (arith, div-add-mod' x n),
    (div-lt_iff_lt-mul (omega arith)).1 (rw (cutoff-eq u64_max n) at l),
  ),
)
  where
    below : (j q : ℕ) → j < q → r + j * n < q * n
    below j q l = grind arith

module _ {H G : Type 0} ⦃hdr : Hdr H⦄ (next : G → ℕ × G) (fuel : ℕ) where
  -- `stats_sample`; `none` if a draw ran out of fuel. A `limit` of 0 divides by zero in the code.
  unfoldable pub stats_sample : Stats H → G → ℕ → Stats H → Option (Stats H × G)
  stats_sample dst g zero src = some (dst, g)
  stats_sample dst g (suc count) src = elim (rand64 next fuel src.limit g) [
    | none ↦ none
    | some (n, g') ↦ stats_sample (stats_record dst (get_or src.slots n 0)) g' count src
  ]

  -- If all its draws end, what `stats_sample` adds to its destination is `count` values, each one
  -- of the samples held by the source, which has at least one.
  pub stats_sample_lem :
      (dst src : Stats H) (g : G) (count : ℕ) {dst' : Stats H} {g' : G}
      → 0 < src.limit
      → stats_sample dst g count src ≡ some (dst', g')
      → (xs : List ℕ) × (length xs ≡ count)
        × All (λ x. (i : ℕ) × (i < src.limit) × (x ≡ get_or src.slots i 0)) xs
        × (dst' ≡ record_all dst xs)
  unfolding stats_sample record_all
  stats_sample_lem dst src g zero pos e = ([], refl, tt, ground arith)
  stats_sample_lem dst src g (suc count) {dst'} {g'} pos e =
      elim (Option-cases (rand64 next fuel src.limit g)) [
        | inl stuck ↦ absurd (cc)
        | inr ((n, g''), drawn) ↦
            let x = get_or src.slots n 0 in
            let (xs, count_lem, from, end) =
              stats_sample_lem (stats_record dst x) src g'' count {dst' = dst'} {g' = g'} pos
                (ground arith) in
            (
              x ∷ xs,
              ap suc count_lem,
              ((n, rand64-lt next fuel src.limit g pos drawn, refl), from),
              end,
            )
      ]
