-- ===== src/Stats/Order.antt =====
-- `stats_compare` of src/stats.c, the order that `qsort` is given.
use wrk.Base.{ℕ, ◌+◌, ◌^◌, ◌≤◌, ◌<◌, ◌≡◌, ◌↔◌, arith}
use wrk.Stats.{stats_compare}

-- The int that the comparator returns is negative.
abbrev pub IsNegative : ℕ → Type 0
IsNegative r = 2 ^ 31 ≤ r

-- Samples less than 2^31 apart are ordered as they should be: the result is negative exactly when
-- the first is smaller, and 0 exactly when they are equal.
pub compare_near :
    (x y : ℕ)
    → x < 2 ^ 64
    → y < 2 ^ 64
    → x < y + 2 ^ 31
    → y < x + 2 ^ 31
    → (IsNegative (stats_compare x y) ↔ (x < y)) × ((stats_compare x y ≡ 0) ↔ (x ≡ y))
unfolding stats_compare
compare_near x y hx hy h k =
    ((λ n. omega arith, λ l. omega arith), (λ e. omega arith, λ e. omega arith))

-- A sample that is larger by 2^31 or more, but less than 2^32, counts as smaller, and one that is
-- larger by exactly 2^32 counts as equal.
compare_far :
    (x d : ℕ)
    → x + d < 2 ^ 64
    → 2 ^ 31 ≤ d
    → d < 2 ^ 32
    → IsNegative (stats_compare (x + d) x)
      × (x + 2 ^ 32 < 2 ^ 64 → stats_compare (x + 2 ^ 32) x ≡ 0)
unfolding stats_compare
compare_far x d h l u = (omega arith, λ k. omega arith)
