-- ===== src/Stats/Window.antt =====
-- The ring of samples of src/stats.c refines a window over the most recent values.
use mathlib.Core.List.{append-nil, append_assoc}
use native.Mathlib.Numerals.{add-one}
use wrk.Base.{
  ℕ, suc, ◌+◌, ◌≤◌, ◌<◌, ◌≡◌, refl, sym, ◌∙◌, inl, inr, none, List, [], ◌∷◌, ◌++◌, arith, ltb,
  ltb→lt, if◌then◌else◌, length, set, take, drop, last, get_or, last-cons, Bool-cases, ◌==◌,
  length-set, take-suc-set, drop-suc-set, take-length, drop-length, drop-eq-cons, last-eq_self,
  last-last_append, length-append, length-take, length-drop, u64_mod,
}
use wrk.Hdr.{Hdr}
use wrk.Stats.{Stats, widen, store, stats_record, record_all}

-- A full ring forgets its oldest sample when one is written.
rotate :
    (d : List ℕ) (i x : ℕ)
    → i < length d
    → let i' = if i + 1 == length d then 0 else i + 1 in
      drop i' (set d i x) ++ take i' (set d i x) ≡ drop (suc i) d ++ (take i d ++ x ∷ [])
rotate d i x h = elim (Bool-cases (i + 1 == length d)) [
  | inl e ↦ rw (
    e,
    append-nil,
    drop-length d (suc i) (ground arith),
    ← take-suc-set d i x h,
    take-length (set d i x) (suc i) (ground (arith, length-set d i x)),
  )
  | inr e ↦ rw (e, add-one, drop-suc-set, take-suc-set d i x h)
]

-- Read from the oldest sample on, that is the window moved on by one value.
rotate-last :
    (d : List ℕ) (i x : ℕ)
    → i < length d
    → drop (suc i) d ++ (take i d ++ x ∷ []) ≡ last (length d) ((drop i d ++ take i d) ++ x ∷ [])
rotate-last d i x h =
    let older = drop (suc i) d in
    let newer = take i d ++ x ∷ [] in
    rw (drop-eq-cons d i 0 h) (
      rw (append_assoc older (take i d) (x ∷ [])) (
        sym (
          last-cons (get_or d i 0) (older ++ newer) (length d) (
            omega (
              arith,
              length-append older newer,
              length-append (take i d) (x ∷ []),
              length-take i d,
              length-drop (suc i) d,
            )))))

module _ {H : Type 0} where
  -- The state of a store that keeps raw samples: the ring is within the allocation, and until it is
  -- full the write index is the number of samples.
  pub record IsRing (s : Stats H) : Type 0 where
    pub raw : s.histogram ≡ none
    pub room : s.samples ≡ length s.slots
    pub small : s.samples < u64_mod
    pub in_range : s.index < s.samples
    pub filled : s.limit ≤ s.samples
    pub filling : s.limit < s.samples → s.index ≡ s.limit

  -- The samples held, oldest first.
  abbrev pub contents : Stats H → List ℕ
  contents s =
      if ltb s.limit s.samples
      then take s.limit s.slots
      else drop s.index s.slots ++ take s.index s.slots

  store-IsRing : {s : Stats H} (x : ℕ) → IsRing s → IsRing (store s x)
  unfolding store
  store-IsRing {s} x v = ground (arith, length-set s.slots s.index x)

  -- The count of samples held is `limit`.
  pub length-contents : {s : Stats H} → IsRing s → length (contents s) ≡ s.limit
  length-contents {s} v = ground (
    arith,
    length-take s.limit s.slots,
    length-append (drop s.index s.slots) (take s.index s.slots),
    length-take s.index s.slots,
    length-drop s.index s.slots,
  )

  module _ ⦃hdr : Hdr H⦄ where
    -- A raw store takes every value into the ring.
    record_raw : {s : Stats H} (x : ℕ) → IsRing s → stats_record s x ≡ store (widen s x) x
    unfolding stats_record
    record_raw x v = rw v.raw

    -- Every call of `stats_record` keeps the ring well formed and its size as allocated.
    pub record-IsRing :
        {s : Stats H} (x : ℕ)
        → IsRing s
        → IsRing (stats_record s x) × ((stats_record s x).samples ≡ s.samples)
    unfolding widen
    record-IsRing {s} x v =
        rw (record_raw x v) (store-IsRing x (ground arith), (unfold store in refl))

    contents-record :
        {s : Stats H} (x : ℕ)
        → IsRing s
        → contents (stats_record s x) ≡ last s.samples (contents s ++ x ∷ [])
    unfolding store widen
    contents-record {s} x v = rw (record_raw x v) (elim (Bool-cases (ltb s.limit s.samples)) [
      | inl e ↦
          let e' : s.index ≡ s.limit = v.filling (ltb→lt _ _ e) in
          ground (
            arith,
            take-suc-set s.slots s.limit x,
            take-length (set s.slots s.limit x) (suc s.limit),
            length-set s.slots s.limit x,
            append-nil (set s.slots s.limit x),
            add-one s.limit,
            length-take s.limit s.slots,
            length-append (take s.limit s.slots) (x ∷ []),
            last-eq_self s.samples (take s.limit s.slots ++ x ∷ []),
          )
      | inr e ↦ ground (arith, rotate s.slots s.index x, rotate-last s.slots s.index x)
    ])

    pub record_all-IsRing :
        (s : Stats H) (xs : List ℕ)
        → IsRing s
        → IsRing (record_all s xs) × ((record_all s xs).samples ≡ s.samples)
    unfolding record_all
    record_all-IsRing s [] v = (v, refl)
    record_all-IsRing s (x ∷ xs) v =
        let (v', e) = record-IsRing x v in
        let (v'', e') = record_all-IsRing (stats_record s x) xs v' in (v'', e' ∙ e)

    -- After any sequence of calls of `stats_record` on a well-formed raw store, the samples held
    -- are exactly the last `samples` values of what was held before followed by what was recorded,
    -- in order.
    pub contents-record_all :
        (s : Stats H) (xs : List ℕ)
        → IsRing s
        → contents (record_all s xs) ≡ last s.samples (contents s ++ xs)
    unfolding record_all
    contents-record_all s [] v =
        rw append-nil
          (sym (last-eq_self s.samples (contents s) (omega (arith, length-contents v, v.filled))))
    contents-record_all s (x ∷ xs) v =
        let (v', e) = record-IsRing x v in
        rw (
          contents-record_all (stats_record s x) xs v',
          contents-record x v,
          e,
          last-last_append,
          append_assoc,
        )
