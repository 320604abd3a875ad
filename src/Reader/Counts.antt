-- ===== src/Reader/Counts.antt =====
-- The counts of bytes and of read errors, which the callbacks leave alone.
use wrk.Base.{
  ℕ, ◌+◌, ◌^◌, ◌<◌, ◌%◌, ◌≡◌, inl, inr, some, List, [], ◌∷◌, arith, length, add64, Bool-cases,
  Option-cases,
}
use wrk.Float.{Float}
use wrk.Hdr.{Hdr}
use wrk.Conn.{Config, Connection, Thread, Call, ok, Out}
use wrk.Capture.Events.{callback}
use wrk.Socket.{Attempt, reconnect_socket, connect_socket}
use wrk.Response.{
  ResponseInput, count_response, script_calls, settle, record_latencies, account, response_complete,
}
use wrk.Loop.Count.{ways_to_end}
use wrk.Reader.{ReadInput, recvbuf, read_failed, Callback, collects, completes, run_callbacks}

-- A turn behind which the loop goes on: a full buffer, and more to read.
abbrev pub IsFull : ReadInput → Type 0
IsFull r = (r.result ≡ ok) × (length r.bytes ≡ recvbuf) × (0 < r.more)

module _ {H F : Type 0} where
  -- The thread's counts of bytes and of read errors.
  abbrev pub Counts : Thread H F → ℕ → ℕ → Type 0
  Counts t bytes failures = (t.bytes ≡ bytes % 2 ^ 64) × (t.errors.read ≡ failures % 2 ^ 32)

  pub read_failed-Counts :
      (r : ReadInput) (t : Thread H F) (c : Connection F) (bytes failures : ℕ)
      → Counts t bytes failures
      → Counts (read_failed r t c).thread bytes (failures + 1)
  unfolding read_failed reconnect_socket connect_socket
  read_failed-Counts r t c bytes failures counts = elim (Bool-cases r.attempt.connects) [
    | inl y ↦ elim (Bool-cases r.attempt.accepted) [ inl y' ↦ ground arith | inr n ↦ ground arith ]
    | inr n ↦ ground arith
  ]

  -- The count of the bytes of a turn.
  abbrev pub add_bytes : ℕ → Thread H F → Thread H F
  add_bytes n t = record t { bytes = add64 t.bytes n }

  -- The thread's counts of bytes and of read errors are the same.
  abbrev KeepsReads : Thread H F → Thread H F → Type 0
  KeepsReads t u = (u.bytes ≡ t.bytes) × (u.errors.read ≡ t.errors.read)

  reconnect-KeepsReads :
      (a : Attempt) (t : Thread H F) (c : Connection F)
      → KeepsReads t (reconnect_socket a t c).thread
  unfolding reconnect_socket connect_socket
  reconnect-KeepsReads a t c = ground arith

  count-KeepsReads : (status : ℕ) (t : Thread H F) → KeepsReads t (count_response status t)
  unfolding count_response
  count-KeepsReads status t = ground arith

module _ {H F : Type 0} ⦃fl : Float F⦄ ⦃hdr : Hdr H⦄ (cfg : Config) where
  record-KeepsReads :
      (now : ℕ) (t : Thread H F) (c : Connection F) → KeepsReads t (record_latencies cfg now t c)
  unfolding record_latencies
  record-KeepsReads now t c = ground arith

  account-KeepsReads :
      (i : ResponseInput) (t : Thread H F) (c : Connection F) (calls : List Call)
      → KeepsReads t (account cfg i t c calls).thread
  unfolding account
  account-KeepsReads i t c calls =
      let (c', watch) = settle c in
      let t' = record_latencies cfg i.now t c' in
      ground (arith, record-KeepsReads i.now t c', reconnect-KeepsReads i.attempt t' c')

  respond-KeepsReads :
      (i : ResponseInput) (t : Thread H F) (c : Connection F) {out : Out H F}
      → response_complete cfg i t c ≡ some out
      → KeepsReads t out.thread
  respond-KeepsReads i t c e =
      let one = count-KeepsReads i.status t in
      elim (ways_to_end cfg i t c e) [
        | inl (late, same, left) ↦ rw same one
        | inr (call, capture, same) ↦ ground (
          arith,
          one,
          same,
          account-KeepsReads i (count_response i.status t) (record c { capture = capture })
              (script_calls call),
        )
      ]

  -- The callbacks leave the thread's counts of bytes and read errors alone.
  pub callbacks-KeepsReads :
      (es : List Callback) (t : Thread H F) (c : Connection F) {out : Out H F}
      → run_callbacks cfg es t c ≡ some out
      → KeepsReads t out.thread
  unfolding run_callbacks
  callbacks-KeepsReads [] t c e = ground arith
  callbacks-KeepsReads (collects x ∷ es) t c {out} e = elim (Option-cases (callback c.capture x)) [
    | inl stuck ↦ absurd (ground arith)
    | inr (capture, p) ↦
        callbacks-KeepsReads es t (record c { capture = capture }) {out = out}
          (ground (arith, p, e))
  ]
  callbacks-KeepsReads (completes i ∷ es) t c e =
      elim (Option-cases (response_complete cfg i t c)) [
        | inl stuck ↦ absurd (ground arith)
        | inr (out, p) ↦ elim (Option-cases (run_callbacks cfg es out.thread out.conn)) [
          | inl stuck ↦ absurd (ground arith)
          | inr (last, q) ↦
              let first = respond-KeepsReads i t c p in
              let others = callbacks-KeepsReads es out.thread out.conn q in
              ground (arith, p, q, e, first, others)
        ]
      ]
