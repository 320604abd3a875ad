-- ===== src/Reader.antt =====
-- Receiving: `socket_readable` of src/wrk.c.
pub mod Counts
pub mod Loop
pub mod Tests
use wrk.Base.{
  ℕ, zero, suc, Option, none, some, List, [], ◌∷◌, ◌++◌, length, add64, add32, if◌then◌else◌, ltb,
  ◌==◌, ◌&&◌,
}
use wrk.Stats.{Errors}
use wrk.Float.{Float}
use wrk.Hdr.{Hdr}
use wrk.Capture.Events.{Event, callback}
use wrk.Response.{ResponseInput, response_complete}
use wrk.Conn.{Config, Connection, Thread, Status, ok, error, retry, Out}
use wrk.Socket.{Attempt, reconnect_socket}

-- RECVBUF
abbrev pub recvbuf : ℕ
recvbuf = 8192

-- What the system answers in one turn of the loop: the status of `sock.read` and the bytes that it puts
-- into `buf`, what `sock.readable` says behind it, and the answer to a reconnect.
pub record ReadInput : Type 0 where
  pub result : Status
  pub bytes : List ℕ
  pub more : ℕ
  pub attempt : Attempt

abbrev pub count_read : Errors → Errors
count_read e = record e { read = add32 e.read 1 }

module _ {H F : Type 0} where
  -- The `error:` label.
  unfoldable pub read_failed : ReadInput → Thread H F → Connection F → Out H F
  read_failed r t c = reconnect_socket r.attempt (record t { errors = count_read t.errors }) c

-- A callback that the parser makes: a text that is collected, or the end of a response with what
-- `response_complete` reads.
pub data Callback : Type 0 where
  collects : Event → Callback
  completes : ResponseInput → Callback

module _ {H F : Type 0} ⦃fl : Float F⦄ ⦃hdr : Hdr H⦄ (cfg : Config) where
  -- The callbacks in their order; `none` is an access outside a buffer.
  unfoldable pub run_callbacks : List Callback → Thread H F → Connection F → Option (Out H F)
  run_callbacks [] t c = some (record { thread = t; conn = c; calls = [] })
  run_callbacks (collects e ∷ es) t c = elim (callback c.capture e) [
    | none ↦ none
    | some capture ↦ run_callbacks es t (record c { capture = capture })
  ]
  run_callbacks (completes i ∷ es) t c = elim (response_complete cfg i t c) [
    | none ↦ none
    | some out ↦ elim (run_callbacks es out.thread out.conn) [
      | none ↦ none
      | some last ↦ some (record last { calls = out.calls ++ last.calls })
    ]
  ]

-- `parse` is `http_parser_execute`: of the state of the parser, which is a field of the connection, and the
-- bytes, how many it takes, the state that it leaves when its callbacks have run, and the callbacks
-- that it makes.
module _ {H F P : Type 0} ⦃fl : Float F⦄ ⦃hdr : Hdr H⦄ (cfg : Config)
    (parse : P → List ℕ → ℕ × P × List Callback) where
  -- The loop, on fuel; the answers of the system come from a function of the turn.
  unfoldable pub socket_readable :
      ℕ → (ℕ → ReadInput) → P → Thread H F → Connection F → Option (P × Out H F)
  socket_readable zero reads p t c = none
  socket_readable (suc fuel) reads p t c =
      let r = reads 0 in
      let (used, q, made) = parse p r.bytes in
      elim r.result [
        | ok ↦ elim (run_callbacks cfg made t c) [
          | none ↦ none
          | some out ↦
              let t' = record (out.thread) { bytes = add64 out.thread.bytes (length r.bytes) } in
              let rest = socket_readable fuel (λ k. reads (suc k)) q t' out.conn in
              if used == length r.bytes
              then (if length r.bytes == recvbuf && ltb 0 r.more
                  then elim rest [
                    | none ↦ none
                    | some (p', last) ↦ some (p', record last { calls = out.calls ++ last.calls })
                  ]
                  else some (q, record out { thread = t' }))
              else (let failed = read_failed r out.thread out.conn in
                  some (q, record failed { calls = out.calls ++ failed.calls }))
        ]
        | error ↦ some (p, read_failed r t c)
        | retry ↦ some (p, record { thread = t; conn = c; calls = [] })
      ]
