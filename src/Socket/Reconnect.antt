-- ===== src/Socket/Reconnect.antt =====
-- Which descriptors are closed and watched, and when.
use wrk.Base.{ℕ, suc, ◌≡◌, refl, Bool, true, false, List, [], ◌∷◌, arith, if◌then◌else◌, ◌==◌, ◌&&◌}
use wrk.Conn.{
  Connection, Thread, Call, close_fd, delete_file_event, create_file_event, sock_close, both,
  on_connected,
}
use wrk.Socket.{Attempt, count_connect, connect_socket, reconnect_socket}

-- How often a descriptor is closed by the calls.
abbrev pub closes : ℕ → List Call → ℕ
closes fd [] = 0
closes fd (call ∷ calls) =
    let rest = closes fd calls in
    elim call [ close_fd k ↦ if k == fd then suc rest else rest | _ ↦ rest ]

-- The attempt gives a connection that the event loop watches.
abbrev pub succeeds : Attempt → Bool
succeeds a = a.connects && a.accepted

module _ {H F : Type 0} where
  -- Reconnecting first stops the watching of the old descriptor and closes it; only then comes the attempt,
  -- whose descriptor may have the same number. If the attempt succeeds, the connection has the new
  -- descriptor, which is watched and not closed, and no error is counted; otherwise the connection keeps
  -- the number of the old one, the new descriptor is closed exactly once, and one connect error is counted.
  pub reconnect_lem :
      (a : Attempt) (t : Thread H F) (c : Connection F)
      → let out = reconnect_socket a t c in
        (tried : List Call) × (out.calls
          ≡ delete_file_event c.fd both ∷ sock_close ∷ close_fd c.fd ∷ tried)
        × (succeeds a ≡ true
            → (out.conn.fd ≡ a.fd)
              × (tried ≡ create_file_event a.fd both on_connected ∷ [])
              × (closes a.fd tried ≡ 0)
              × (out.thread ≡ t))
        × (succeeds a ≡ false
            → (out.conn.fd ≡ c.fd)
              × (closes a.fd tried ≡ 1)
              × (out.thread ≡ record t { errors = count_connect t.errors }))
  unfolding reconnect_socket connect_socket
  reconnect_lem a t c = ((connect_socket a t c).calls, refl, (λ e. ground arith), λ e. ground arith)
