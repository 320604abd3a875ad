-- ===== src/Net/Tests.antt =====
-- The theorem on the socket functions at concrete answers.
use wrk.Base.{ℕ, ◌-◌, ◌^◌, ◌<◌, ◌≤◌, ◌≡◌, ◌≢◌, ◌⊎◌, ◌↔◌, inl, true, some, arith}
use wrk.Conn.{ok, retry}
use wrk.Net.{sock_read, sock_write, want_read, other, ssl_read, ssl_write}
use wrk.Net.Refine.{transfer_lem}

-- Five bytes of a plain socket, and over TLS none yet.
transfer_lem_example :
    ((sock_read 5 ≡ (ok, 5)) ↔ (5 < 2 ^ 63))
    × ((sock_read 5).0 ≢ retry)
    × ((sock_write 5 true ≡ (ok, some 5)) ↔ (5 < 2 ^ 63))
    × (((sock_write 5 true).0 ≡ retry) ↔ ((5 ≡ 2 ^ 64 - 1) × (true ≡ true)))
    × ((ssl_read 0 want_read ≡ (ok, some 0)) ↔ ((0 < 0) × (0 < 2 ^ 31)))
    × (((ssl_read 0 want_read).0 ≡ retry)
        ↔ (((◌≡◌ {A = ℕ} 0 0) ⊎ (2 ^ 31 ≤ 0)) × (want_read ≢ other)))
    × (ssl_write 0 want_read ≡ ssl_read 0 want_read)
transfer_lem_example = transfer_lem 5 0 true want_read (inl (omega arith))
