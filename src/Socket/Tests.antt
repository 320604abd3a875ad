-- ===== src/Socket/Tests.antt =====
-- The theorem on reconnecting at an attempt that fails.
use wrk.Base.{◌≡◌, true, false, List, [], ◌∷◌}
use wrk.Pace.Tests.{paced_connection}
use wrk.Timer.Tests.{test_thread}
use wrk.Conn.{Call, close_fd, delete_file_event, create_file_event, sock_close, both, on_connected}
use wrk.Socket.{Attempt, count_connect, reconnect_socket}
use wrk.Socket.Reconnect.{closes, succeeds, reconnect_lem}

-- The new descriptor has the number of the one that was closed.
abbrev refused_attempt : Attempt
refused_attempt = record { fd = 5; connects = false; now = 0; accepted = true }

reconnect_lem_example :
    let out = reconnect_socket refused_attempt test_thread paced_connection in
    (tried : List Call) × (out.calls ≡ delete_file_event 5 both ∷ sock_close ∷ close_fd 5 ∷ tried)
    × (succeeds refused_attempt ≡ true
        → (out.conn.fd ≡ 5)
          × (tried ≡ create_file_event 5 both on_connected ∷ [])
          × (closes 5 tried ≡ 0)
          × (out.thread ≡ test_thread))
    × (succeeds refused_attempt ≡ false
        → (out.conn.fd ≡ 5)
          × (closes 5 tried ≡ 1)
          × (out.thread ≡ record test_thread { errors = count_connect test_thread.errors }))
reconnect_lem_example = reconnect_lem refused_attempt test_thread paced_connection
