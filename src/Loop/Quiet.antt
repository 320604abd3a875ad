-- ===== src/Loop/Quiet.antt =====
-- The handlers that count no response and do not stop the loop.
use wrk.Base.{ℕ, ◌≡◌, refl, false, ◌||◌, Option, none, some, List, [], ◌∷◌, ◌++◌, arith}
use wrk.Float.{Float}
use wrk.Capture.{ScriptCall}
use wrk.Conn.{Config, Connection, Thread, Call, Status, ok, error, retry, Out}
use wrk.Pace.{begin_catch_up, usec_to_next_send, delay_request}
use wrk.Socket.{
  Attempt, connect_socket, reconnect_socket, socket_connected, delayed_initial_connect,
}
use wrk.Writer.{WriteInput, count_write, begin_batch, write_some, socket_writeable}
use wrk.Reader.{ReadInput, count_read, read_failed}
use wrk.Response.{script_calls}
use wrk.Loop.{stops}

pub stops-append : (xs ys : List Call) → stops (xs ++ ys) ≡ (stops xs || stops ys)
stops-append [] ys = refl
stops-append (x ∷ xs) ys = ground (arith, stops-append xs ys)

pub script_quiet : (call : Option ScriptCall) → stops (script_calls call) ≡ false
script_quiet none = refl
script_quiet (some call) = refl

module _ {H F : Type 0} where
  -- The limits and counts of a thread.
  abbrev pub SameCounts : Thread H F → Thread H F → Type 0
  SameCounts t u =
      (t.stop_at ≡ u.stop_at)
      × (t.connections ≡ u.connections)
      × (t.complete ≡ u.complete)
      × (t.requests ≡ u.requests)

  -- An outcome that counts no response and does not stop the loop.
  abbrev pub IsQuiet : Thread H F → Connection F → Out H F → Type 0
  IsQuiet t c out =
      SameCounts out.thread t × (out.conn.complete ≡ c.complete) × (stops out.calls ≡ false)

  connect-IsQuiet :
      (a : Attempt) (t : Thread H F) (c : Connection F) → IsQuiet t c (connect_socket a t c)
  unfolding connect_socket
  connect-IsQuiet a t c = ground arith

  pub reconnect-IsQuiet :
      (a : Attempt) (t : Thread H F) (c : Connection F) → IsQuiet t c (reconnect_socket a t c)
  unfolding reconnect_socket
  reconnect-IsQuiet a t c = connect-IsQuiet a t c

  pub connected-IsQuiet :
      (s : Status) (a : Attempt) (fd : ℕ) (t : Thread H F) (c : Connection F)
      → IsQuiet t c (socket_connected s a fd t c)
  unfolding socket_connected
  connected-IsQuiet ok a fd t c = ground arith
  connected-IsQuiet error a fd t c = reconnect-IsQuiet a _ c
  connected-IsQuiet retry a fd t c = ground arith

  pub initial-IsQuiet :
      (now : ℕ) (a : Attempt) (t : Thread H F) (c : Connection F)
      → IsQuiet t c (delayed_initial_connect now a t c).1
  unfolding delayed_initial_connect
  initial-IsQuiet now a t c = connect-IsQuiet a t (record c { thread_start = now })

  pub failed-IsQuiet :
      (r : ReadInput) (t : Thread H F) (c : Connection F) → IsQuiet t c (read_failed r t c)
  unfolding read_failed
  failed-IsQuiet r t c = reconnect-IsQuiet r.attempt (record t { errors = count_read t.errors }) c

  write_some-IsQuiet :
      (i : WriteInput) (fd : ℕ) (t : Thread H F) (c : Connection F)
      → IsQuiet t c (write_some i fd t c)
  unfolding write_some
  write_some-IsQuiet i fd t c =
      ground (arith, reconnect-IsQuiet i.attempt (record t { errors = count_write t.errors }) c)

module _ {F : Type 0} ⦃fl : Float F⦄ where
  pub complete-pace :
      (now : ℕ) (c : Connection F) → (usec_to_next_send now c).1.complete ≡ c.complete
  unfolding usec_to_next_send begin_catch_up
  complete-pace now c = ground arith

  complete-batch :
      (cfg : Config) (i : WriteInput) (c : Connection F)
      → (begin_batch cfg i c).complete ≡ c.complete
  unfolding begin_batch
  complete-batch cfg i c = ground arith

  pub delay_quiet : (now : ℕ) (c : Connection F) → stops (delay_request now c).2 ≡ false
  unfolding delay_request
  delay_quiet now c = ground arith

module _ {H F : Type 0} ⦃fl : Float F⦄ (cfg : Config) where
  pub write-IsQuiet :
      (i : WriteInput) (fd : ℕ) (t : Thread H F) (c : Connection F)
      → IsQuiet t c (socket_writeable cfg i fd t c)
  unfolding socket_writeable
  write-IsQuiet i fd t c =
      let (usec, c') = usec_to_next_send i.now c in
      ground (
        arith,
        complete-pace i.now c,
        complete-batch cfg i c',
        write_some-IsQuiet i fd t c,
        write_some-IsQuiet i fd t (begin_batch cfg i c'),
      )
