-- ===== src/Reader/Loop.antt =====
-- What the receiving loop does.
use wrk.Base.{ℕ, zero, suc, ◌+◌, ◌≡◌, ◌≢◌, some, List, [], ◌++◌, arith, length}
use wrk.Float.{Float}
use wrk.Hdr.{Hdr}
use wrk.Conn.{Config, Connection, Thread, ok, error, retry, Out}
use wrk.Reader.{ReadInput, read_failed, Callback, run_callbacks, socket_readable}
use wrk.Reader.Counts.{IsFull, Counts, read_failed-Counts, add_bytes, callbacks-KeepsReads}

-- The bytes of the first `k` turns.
abbrev pub received : ℕ → (ℕ → ReadInput) → ℕ
received zero reads = 0
received (suc k) reads = length (reads 0).bytes + received k (λ i. reads (suc i))

-- How the last turn ends: its bytes are taken and there is no more to read; the parser does not take
-- them all; the read fails; it is to be tried again.
pub data Ending : Type 0 where
  taken refused failed waits : Ending

module _ {H F : Type 0} where
  -- The counts that turn `k` leaves.
  abbrev pub Final : Ending → ℕ → (ℕ → ReadInput) → Thread H F → ℕ → ℕ → Type 0
  Final taken k reads t bytes failures = Counts t (bytes + received (suc k) reads) failures
  Final refused k reads t bytes failures = Counts t (bytes + received k reads) (failures + 1)
  Final failed k reads t bytes failures = Counts t (bytes + received k reads) (failures + 1)
  Final waits k reads t bytes failures = Counts t (bytes + received k reads) failures

module _ {H F : Type 0} where
  moved :
      (ending : Ending) (k : ℕ) (reads : ℕ → ReadInput) (t : Thread H F) (bytes failures : ℕ)
      → Final ending k (λ i. reads (suc i)) t (bytes + length (reads 0).bytes) failures
      → Final ending (suc k) reads t bytes failures
  moved taken k reads t bytes failures f = ground arith
  moved refused k reads t bytes failures f = ground arith
  moved failed k reads t bytes failures f = ground arith
  moved waits k reads t bytes failures f = ground arith

module _ {H F P : Type 0} ⦃fl : Float F⦄ ⦃hdr : Hdr H⦄ (cfg : Config)
    (parse : P → List ℕ → ℕ × P × List Callback) where
  -- What the system and the parser answer in the turns up to turn `k`, each from the state that the turns
  -- before it have left.
  pub data Turns : Ending → ℕ → (ℕ → ReadInput) → P → Thread H F → Connection F → Type 0 where
    last_taken :
        {reads : ℕ → ReadInput} {p q : P} {t : Thread H F} {c : Connection F} (made : List Callback)
        (out : Out H F)
        → (reads 0).result ≡ ok
        → ¬ IsFull (reads 0)
        → parse p (reads 0).bytes ≡ (length (reads 0).bytes, q, made)
        → run_callbacks cfg made t c ≡ some out
        → Turns taken 0 reads p t c
    last_refused :
        {reads : ℕ → ReadInput} {p q : P} {t : Thread H F} {c : Connection F} (used : ℕ)
        (made : List Callback) (out : Out H F)
        → (reads 0).result ≡ ok
        → used ≢ length (reads 0).bytes
        → parse p (reads 0).bytes ≡ (used, q, made)
        → run_callbacks cfg made t c ≡ some out
        → Turns refused 0 reads p t c
    last_failed :
        {reads : ℕ → ReadInput} {p : P} {t : Thread H F} {c : Connection F}
        → (reads 0).result ≡ error
        → Turns failed 0 reads p t c
    last_waits :
        {reads : ℕ → ReadInput} {p : P} {t : Thread H F} {c : Connection F}
        → (reads 0).result ≡ retry
        → Turns waits 0 reads p t c
    full :
        {ending : Ending} {k : ℕ} {reads : ℕ → ReadInput} {p q : P} {t : Thread H F}
        {c : Connection F} (made : List Callback) (out : Out H F)
        → IsFull (reads 0)
        → parse p (reads 0).bytes ≡ (length (reads 0).bytes, q, made)
        → run_callbacks cfg made t c ≡ some out
        → Turns ending k
            (λ i. reads (suc i))
            q
            (add_bytes (length (reads 0).bytes) out.thread)
            out.conn
        → Turns ending (suc k) reads p t c

  full_turn :
      (fuel : ℕ) (reads : ℕ → ReadInput) (p q p' : P) (t : Thread H F) (c : Connection F)
      (made : List Callback) (out last : Out H F)
      → IsFull (reads 0)
      → parse p (reads 0).bytes ≡ (length (reads 0).bytes, q, made)
      → run_callbacks cfg made t c ≡ some out
      → socket_readable cfg parse fuel
          (λ i. reads (suc i))
          q
          (add_bytes (length (reads 0).bytes) out.thread)
          out.conn
        ≡ some (p', last)
      → socket_readable cfg parse (suc fuel) reads p t c
        ≡ some (p', record last { calls = out.calls ++ last.calls })
  unfolding socket_readable
  full_turn fuel reads p q p' t c made out last is_full parsed ran e =
      ground (arith, parsed, ran, e)

  -- The loop ends after the turns that there are to make, within as much fuel, and counts the bytes of all
  -- turns that the parser takes: if the last turn is taken or there is nothing to read yet, no error; if
  -- its read fails or the parser does not take all its bytes, these are not counted and one read error
  -- is. The callbacks are those of the program, and make no access outside a buffer.
  pub readable_lem :
      {ending : Ending} {k : ℕ} {reads : ℕ → ReadInput} {p : P} {t : Thread H F} {c : Connection F}
      (bytes failures : ℕ)
      → Turns ending k reads p t c
      → Counts t bytes failures
      → (p' : P) × (out : Out H F) × (socket_readable cfg parse (suc k) reads p t c
          ≡ some (p', out))
        × Final ending k reads out.thread bytes failures
  unfolding socket_readable
  readable_lem {reads = reads} {t = t} {c = c} bytes failures
        (last_taken {q = q} made out e last parsed ran) counts =
      let quiet = callbacks-KeepsReads cfg made t c ran in
      (
        q,
        record out { thread = add_bytes (length (reads 0).bytes) out.thread },
        ground (arith, parsed, ran),
        ground (arith, quiet),
      )
  readable_lem {reads = reads} {t = t} {c = c} bytes failures
        (last_refused {q = q} used made out e some_left parsed ran) counts =
      let r = reads 0 in
      let quiet = callbacks-KeepsReads cfg made t c ran in
      let over = read_failed r out.thread out.conn in
      let kept : Counts out.thread bytes failures = ground (arith, quiet) in
      (
        q,
        record over { calls = out.calls ++ over.calls },
        ground (arith, parsed, ran),
        ground (arith, read_failed-Counts r out.thread out.conn bytes failures kept),
      )
  readable_lem {reads = reads} {p = p} {t = t} {c = c} bytes failures (last_failed e) counts = (
    p,
    read_failed (reads 0) t c,
    ground arith,
    ground (arith, read_failed-Counts (reads 0) t c bytes failures counts),
  )
  readable_lem {p = p} {t = t} {c = c} bytes failures (last_waits e) counts =
      (p, record { thread = t; conn = c; calls = [] }, ground arith, ground arith)
  readable_lem {k = suc k} {reads = reads} {p = p} {t = t} {c = c} bytes failures
        (full {ending = ending} {q = q} made out is_full parsed ran turns) counts =
      let n = length (reads 0).bytes in
      let quiet = callbacks-KeepsReads cfg made t c ran in
      let counts' : Counts (add_bytes n out.thread) (bytes + n) failures = ground (arith, quiet) in
      let (p', last, e, f) = readable_lem (bytes + n) failures turns counts' in
      (
        p',
        record last { calls = out.calls ++ last.calls },
        full_turn (suc k) reads p q p' t c made out last is_full parsed ran e,
        moved ending k reads last.thread bytes failures f,
      )
