-- ===== src/Print/Tests.antt =====
-- The theorems on what is printed, at concrete statistics.
use wrk.Base.{
  suc, ◌+◌, ◌≤◌, ◌<◌, Bool, leb, ltb, if◌then◌else◌, Bool-cases, inl, inr, ℕ, ◌≡◌, refl, none, some,
  true, List, [], ◌∷◌, ◌++◌, arith, length, codes, replicate,
}
use wrk.Float.Ratio.{Ratio, ratio, ratio_float}
use wrk.Stats.{Stats}
use wrk.Stats.Tests.{list_hdr, list_report}
use wrk.Stats.Report.{stats_stdev, stats_within_stdev}
use wrk.Units.{Scaled}
use wrk.Print.{
  scaled_text, right, aprintf, stats_summarize, print_stats, print_stats_header, print_units,
}
use wrk.Print.Columns.{IsColumn, name_column, print_stats_lem}
use wrk.Stats.{stats_compare}
use wrk.Stats.Order.{IsNegative, compare_near}
use wrk.Stats.Report.{stats_percentile}
use wrk.Print.Sorted.{count, AreNear, IsOrdered, Sorts, rank, percentile_lem}

-- Digits for the printing of numbers: always zero.
abbrev zeros : ℕ → Ratio → List ℕ
zeros p x = codes "0." ++ replicate p b'0'

-- The amount with the unit of milliseconds.
abbrev in_ms : Ratio → Scaled Ratio
in_ms x = record { amount = x; unit = codes "ms"; precision = 2 }

abbrev latencies : Stats (List ℕ)
latencies = record {
  samples = 3;
  index = 0;
  limit = 2;
  min = 5;
  max = 9;
  histogram = none;
  slots = 9 ∷ 5 ∷ 0 ∷ [];
}

header_text :
    print_stats_header ≡ codes "  Thread Stats   Avg      Stdev     Max   +/- Stdev" ++ 10 ∷ []
unfolding print_stats_header
header_text = refl

milliseconds : print_units (codes "12.50ms") 8 ≡ some (codes " 12.50ms")
unfolding print_units
milliseconds = refl

thousands : print_units (codes "1.20k") 8 ≡ some (codes "  1.20k ")
unfolding print_units
thousands = refl

appended : aprintf (λ n. true) (some (codes "ab")) (codes "c") ≡ (some (codes "abc"), some 2)
unfolding aprintf
appended = refl

print_stats_lem_example :
    let (mean, s') = stats_summarize {F = Ratio} (λ xs. xs) latencies in
    let stdev = stats_stdev s' mean in
    let text = λ (x : Ratio). scaled_text zeros (in_ms x) in
    (first second third : List ℕ) × IsColumn (text mean) 8 first
    × IsColumn (text stdev) 10 second
    × IsColumn (text (ratio 9 1)) 9 third
    × (length (name_column (codes "Latency") ++ first ++ second ++ third) ≡ 41)
    × (print_stats (λ xs. xs) zeros (codes "Latency") latencies in_ms
        ≡ some (
          name_column (codes "Latency")
              ++ first
              ++ second
              ++ third
              ++ right 8 (zeros 2 (stats_within_stdev s' mean stdev 1))
              ++ codes "%"
              ++ 10 ∷ [],
          s',
        ))
print_stats_lem_example =
    print_stats_lem (λ xs. xs) zeros (codes "Latency") latencies in_ms (omega arith)
      (λ x. omega arith)

-- Sorting by insertion.
insert_sample : ℕ → List ℕ → List ℕ
insert_sample x [] = x ∷ []
insert_sample x (y ∷ ys) = let rest = insert_sample x ys in if leb x y then x ∷ y ∷ ys else y ∷ rest

insertion_sort : List ℕ → List ℕ
unfolding insert_sample
insertion_sort [] = []
insertion_sort (x ∷ xs) = insert_sample x (insertion_sort xs)

count-insert_sample :
    (f : ℕ → Bool) (x : ℕ) (ys : List ℕ)
    → count f (insert_sample x ys) ≡ (if f x then 1 else 0) + count f ys
unfolding insert_sample
count-insert_sample f x [] = omega arith
count-insert_sample f x (y ∷ ys) = ground (arith, count-insert_sample f x ys)

length-insert_sample : (x : ℕ) (ys : List ℕ) → length (insert_sample x ys) ≡ suc (length ys)
unfolding insert_sample
length-insert_sample x [] = refl
length-insert_sample x (y ∷ ys) = ground (arith, length-insert_sample x ys)

insert_sample-AreNear :
    (low x : ℕ) (ys : List ℕ) → AreNear low (x ∷ ys) → AreNear low (insert_sample x ys)
unfolding insert_sample
insert_sample-AreNear low x [] n = n
insert_sample-AreNear low x (y ∷ ys) (nx, (ny, ns)) =
    let rest = insert_sample-AreNear low x ys (nx, ns) in
    elim (Bool-cases (leb x y)) [ inl e ↦ rw e (nx, (ny, ns)) | inr e ↦ rw e (ny, rest) ]

in_order :
    (low x y : ℕ) (ys : List ℕ)
    → AreNear low (x ∷ y ∷ ys)
    → x ≤ y
    → ¬ IsNegative (stats_compare y x)
in_order low x y ys ((l, u, w), ((l', u', w'), ns)) h =
    let order = compare_near y x w' w (omega arith) (omega arith) in
    λ bad. omega (arith, order.0.0 bad)

insert_sample-IsOrdered :
    (low x : ℕ) (ys : List ℕ) → AreNear low (x ∷ ys) → IsOrdered ys → IsOrdered (insert_sample x ys)
unfolding insert_sample
insert_sample-IsOrdered low x [] n o = tt
insert_sample-IsOrdered low x (y ∷ []) n o = elim (Bool-cases (leb x y)) [
  | inl e ↦ rw e (in_order low x y [] n (ground arith), tt)
  | inr e ↦ rw e (in_order low y x [] (n.1.0, (n.0, tt)) (ground arith), tt)
]
insert_sample-IsOrdered low x (y ∷ z ∷ zs) (nx, (ny, (nz, ns))) o =
    let rest = insert_sample-IsOrdered low x (z ∷ zs) (nx, (nz, ns)) o.1 in
    elim (Bool-cases (leb x y)) [
      | inl e ↦ rw e (in_order low x y [] (nx, (ny, tt)) (ground arith), o)
      | inr e ↦ rw e (elim (Bool-cases (leb x z)) [
        | inl e' ↦ rw e' (in_order low y x [] (ny, (nx, tt)) (ground arith), rw e' at rest)
        | inr e' ↦ rw e' (o.0, rw e' at rest)
      ])
    ]

count-insertion_sort : (xs : List ℕ) (f : ℕ → Bool) → count f (insertion_sort xs) ≡ count f xs
unfolding insertion_sort
count-insertion_sort [] f = refl
count-insertion_sort (x ∷ xs) f =
    omega (arith, count-insert_sample f x (insertion_sort xs), count-insertion_sort xs f)

length-insertion_sort : (xs : List ℕ) → length (insertion_sort xs) ≡ length xs
unfolding insertion_sort
length-insertion_sort [] = refl
length-insertion_sort (x ∷ xs) =
    omega (arith, length-insert_sample x (insertion_sort xs), length-insertion_sort xs)

insertion_sort-AreNear : (xs : List ℕ) (low : ℕ) → AreNear low xs → AreNear low (insertion_sort xs)
unfolding insertion_sort
insertion_sort-AreNear [] low n = tt
insertion_sort-AreNear (x ∷ xs) low n =
    insert_sample-AreNear low x (insertion_sort xs) (n.0, insertion_sort-AreNear xs low n.1)

insertion_sort-IsOrdered : (xs : List ℕ) (low : ℕ) → AreNear low xs → IsOrdered (insertion_sort xs)
unfolding insertion_sort
insertion_sort-IsOrdered [] low n = tt
insertion_sort-IsOrdered (x ∷ xs) low n =
    insert_sample-IsOrdered low x (insertion_sort xs) (n.0, insertion_sort-AreNear xs low n.1)
      (insertion_sort-IsOrdered xs low n.1)

insertion_sort-Sorts : Sorts insertion_sort
insertion_sort-Sorts = record {
  same = count-insertion_sort;
  long = length-insertion_sort;
  near = insertion_sort-AreNear;
  ordered = insertion_sort-IsOrdered;
}

-- Of the samples 9 and 5 the median has rank 2.
median : rank latencies (ratio 50 1) ≡ 2
median = refl

percentile_lem_example :
    let samples : List ℕ = 9 ∷ 5 ∷ [] in
    (v : ℕ) × (stats_percentile
        (stats_summarize {F = Ratio} insertion_sort latencies).1
        (ratio 50 1)
      ≡ some v)
    × (count (λ y. ltb y v) samples < 2)
    × (2 ≤ count (λ y. leb y v) samples)
percentile_lem_example =
    percentile_lem insertion_sort latencies (ratio 50 1) 0 insertion_sort-Sorts refl (omega arith)
      (ground arith) (omega arith) (omega arith) (omega arith)
