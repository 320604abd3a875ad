-- ===== src/Socket.antt =====
-- Connecting: `connect_socket`, `reconnect_socket`, `delayed_initial_connect` and `socket_connected`
-- of src/wrk.c.
pub mod Reconnect
pub mod Tests
use wrk.Base.{ℕ, ◌+◌, Bool, true, false, List, [], ◌∷◌, ◌++◌, if◌then◌else◌, ◌&&◌, add32}
use wrk.Stats.{Errors}
use wrk.Conn.{
  Connection, Thread, Call, create_file_event, delete_file_event, sock_close, close_fd, parser_init,
  readable, writable, both, on_connected, on_readable, on_writeable, Status, ok, error, retry, Out,
  Next, no_more,
}

-- What the system answers to one attempt to connect: the new descriptor, whether `connect` succeeds
-- or is in progress, the clock behind it, and whether the event loop takes the descriptor.
pub record Attempt : Type 0 where
  pub fd : ℕ
  pub connects : Bool
  pub now : ℕ
  pub accepted : Bool

abbrev pub count_connect : Errors → Errors
count_connect e = record e { connect = add32 e.connect 1 }

module _ {H F : Type 0} where
  -- The `error:` label of `connect_socket`.
  connect_error : Attempt → Thread H F → Connection F → List Call → Out H F
  connect_error a t c calls = record {
    thread = record t { errors = count_connect t.errors };
    conn = c;
    calls = calls ++ close_fd a.fd ∷ [];
  }

  unfoldable pub connect_socket : Attempt → Thread H F → Connection F → Out H F
  unfolding connect_error
  connect_socket a t c =
      let watch = create_file_event a.fd both on_connected ∷ [] in
      let timed = record c { latest_connect = a.now } in
      if a.connects
      then (if a.accepted
          then record { thread = t; conn = record timed { fd = a.fd }; calls = watch }
          else connect_error a t timed watch)
      else connect_error a t c []

  unfoldable pub reconnect_socket : Attempt → Thread H F → Connection F → Out H F
  reconnect_socket a t c =
      let out = connect_socket a t c in
      record out { calls = delete_file_event c.fd both ∷ sock_close ∷ close_fd c.fd ∷ out.calls }

  -- The clock is read before the attempt.
  unfoldable pub delayed_initial_connect : ℕ → Attempt → Thread H F → Connection F → Next × Out H F
  delayed_initial_connect now a t c =
      (no_more, connect_socket a t (record c { thread_start = now }))

  -- `connected` is what `sock.connect` returns.
  unfoldable pub socket_connected : Status → Attempt → ℕ → Thread H F → Connection F → Out H F
  socket_connected ok a fd t c = record {
    thread = t;
    conn = record c { written = 0 };
    calls =
        parser_init
        ∷ create_file_event fd readable on_readable
        ∷ create_file_event fd writable on_writeable
        ∷ [];
  }
  socket_connected error a fd t c =
      reconnect_socket a (record t { errors = count_connect t.errors }) c
  socket_connected retry a fd t c = record { thread = t; conn = c; calls = [] }
