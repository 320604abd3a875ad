-- ===== src/Life.antt =====
-- The life of one connection: the handlers of src/wrk.c that the event loop runs on it, as steps
-- under a clock that does not go back.
pub mod Times
pub mod Moves
pub mod Plan
pub mod Rate
pub mod Wait
pub mod Wake
pub mod Tests
use wrk.Base.{ℕ, ◌+◌, ◌^◌, ◌≤◌, ◌<◌, ◌≡◌, some, List, [], add64}
use wrk.Float.{Float}
use wrk.Hdr.{Hdr}
use wrk.Capture.{Capture}
use wrk.Conn.{Config, Connection, Thread, Call, Status, Out}
use wrk.Pace.{delay_request}
use wrk.Socket.{Attempt, socket_connected}
use wrk.Writer.{WriteInput, socket_writeable}
use wrk.Reader.{ReadInput, read_failed}
use wrk.Response.{ResponseInput, response_complete}

pub record State (H F : Type 0) : Type 0 where
  pub clock : ℕ
  pub thread : Thread H F
  pub conn : Connection F

abbrev pub at : {H F : Type 0} → ℕ → Out H F → State H F
at now out = record { clock = now; thread = out.thread; conn = out.conn }

module _ {H F : Type 0} ⦃fl : Float F⦄ ⦃hdr : Hdr H⦄ (cfg : Config) where
  -- One handler, or a part of `socket_readable`: a header or body that the script collects, a
  -- response, the count of the bytes, the error. The list is that of its calls. A response comes
  -- only while one is pending.
  pub data Handler : State H F → State H F → List Call → Type 0 where
    connected :
        (s : State H F) (status : Status) (a : Attempt) (fd : ℕ)
        → Handler s
            (at s.clock (socket_connected status a fd s.thread s.conn))
            (socket_connected status a fd s.thread s.conn).calls
    write :
        (s : State H F) (i : WriteInput) (fd : ℕ)
        → s.clock ≤ i.now
        → i.now ≤ i.write_time
        → i.write_time ≤ i.start_time
        → i.start_time < 2 ^ 64
        → Handler s
            (at i.start_time (socket_writeable cfg i fd s.thread s.conn))
            (socket_writeable cfg i fd s.thread s.conn).calls
    delay :
        (s : State H F) (now : ℕ)
        → s.clock ≤ now
        → now < 2 ^ 64
        → Handler s
            (record s { clock = now; conn = (delay_request now s.conn).1 })
            (delay_request now s.conn).2
    collect :
        (s : State H F) (capture : Capture)
        → Handler s (record s { conn = record (s.conn) { capture = capture } }) []
    respond :
        (s : State H F) (i : ResponseInput) (out : Out H F)
        → s.clock ≤ i.now
        → i.now < 2 ^ 64
        → 0 < s.conn.pending
        → s.conn.pending < 2 ^ 64
        → s.conn.complete + 1 < 2 ^ 64
        → response_complete cfg i s.thread s.conn ≡ some out
        → Handler s (at i.now out) out.calls
    receive :
        (s : State H F) (count : ℕ)
        → Handler s
            (record s { thread = record (s.thread) { bytes = add64 s.thread.bytes count } })
            []
    read_error :
        (s : State H F) (r : ReadInput)
        → Handler s
            (at s.clock (read_failed r s.thread s.conn))
            (read_failed r s.thread s.conn).calls

  -- What a connection sees: its own handlers, and changes of the thread by the other connections
  -- and the timers, while the clock goes on.
  pub data Step : State H F → State H F → Type 0 where
    own : {s u : State H F} {calls : List Call} → Handler s u calls → Step s u
    others :
        (s : State H F) (now : ℕ) (thread : Thread H F)
        → s.clock ≤ now
        → Step s (record s { clock = now; thread = thread })

  pub data Reach (s : State H F) : State H F → Type 0 where
    here : Reach s s
    next : {t u : State H F} → Reach s t → Step t u → Reach s u
