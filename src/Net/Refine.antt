-- ===== src/Net/Refine.antt =====
-- What the statuses of the socket functions say.
use wrk.Base.{ℕ, ◌-◌, ◌^◌, ◌<◌, ◌≤◌, ◌≡◌, ◌≢◌, ◌⊎◌, ◌↔◌, refl, Bool, true, false, some, arith}
use wrk.Conn.{ok, retry}
use wrk.Net.{
  sock_read, sock_write, SslError, want_read, want_write, other, ssl_status, ssl_read, ssl_write,
}

-- Of a plain socket, by what the system returns: a number that is not negative, or -1. A read or a
-- write is OK exactly for the number, which is then the number of bytes, 0 at the end of the stream
-- included; only a write is to be tried again, exactly for -1 with EAGAIN.
plain_lem :
    (r : ℕ) (again : Bool)
    → (r < 2 ^ 63) ⊎ (r ≡ 2 ^ 64 - 1)
    → ((sock_read r ≡ (ok, r)) ↔ (r < 2 ^ 63))
      × ((sock_read r).0 ≢ retry)
      × ((sock_write r again ≡ (ok, some r)) ↔ (r < 2 ^ 63))
      × (((sock_write r again).0 ≡ retry) ↔ ((r ≡ 2 ^ 64 - 1) × (again ≡ true)))
unfolding sock_read sock_write
plain_lem r true h = (
  (λ e. ground arith, λ l. ground arith),
  (λ e. ground arith),
  (λ e. ground arith, λ l. ground arith),
  (λ e. ground arith, λ l. ground arith),
)
plain_lem r false h = (
  (λ e. ground arith, λ l. ground arith),
  (λ e. ground arith),
  (λ e. ground arith, λ l. ground arith),
  (λ e. ground arith, λ l. ground arith),
)

-- The statuses of a call over TLS that was not completed.
ssl_status_lem :
    (reason : SslError)
    → (ssl_status reason ≢ ok) × ((ssl_status reason ≡ retry) ↔ (reason ≢ other))
ssl_status_lem want_read = ((λ e. ground arith), (λ e. λ d. ground arith, λ e. refl))
ssl_status_lem want_write = ((λ e. ground arith), (λ e. λ d. ground arith, λ e. refl))
ssl_status_lem other = ((λ e. ground arith), (λ e. ground arith, λ e. absurd (e refl)))

-- Over TLS, where a call returns an int.
ssl_lem :
    (r : ℕ) (reason : SslError)
    → ((ssl_read r reason ≡ (ok, some r)) ↔ ((0 < r) × (r < 2 ^ 31)))
      × (((ssl_read r reason).0 ≡ retry) ↔ (((r ≡ 0) ⊎ (2 ^ 31 ≤ r)) × (reason ≢ other)))
      × (ssl_write r reason ≡ ssl_read r reason)
unfolding ssl_read ssl_write
ssl_lem r reason =
    let (not_ok, again) = ssl_status_lem reason in
    ((λ e. ground arith, λ l. ground arith), (λ e. ground arith, λ l. ground arith), refl)

-- Reading and writing, of a plain socket for a `ssize_t` that is not negative or -1, and over TLS for any
-- `int`. A plain read is OK, with the number of bytes, exactly if that is not negative, 0 at the end of
-- the stream included, and is never to be tried again; a plain write is OK in the same case, and
-- is to be tried again exactly for -1 with EAGAIN. Over TLS both are OK, with the number of bytes,
-- exactly if that is positive, and are to be tried again exactly for another number with one of the two
-- reasons to wait.
pub transfer_lem :
    (r q : ℕ) (again : Bool) (reason : SslError)
    → (r < 2 ^ 63) ⊎ (r ≡ 2 ^ 64 - 1)
    → ((sock_read r ≡ (ok, r)) ↔ (r < 2 ^ 63))
      × ((sock_read r).0 ≢ retry)
      × ((sock_write r again ≡ (ok, some r)) ↔ (r < 2 ^ 63))
      × (((sock_write r again).0 ≡ retry) ↔ ((r ≡ 2 ^ 64 - 1) × (again ≡ true)))
      × ((ssl_read q reason ≡ (ok, some q)) ↔ ((0 < q) × (q < 2 ^ 31)))
      × (((ssl_read q reason).0 ≡ retry) ↔ (((q ≡ 0) ⊎ (2 ^ 31 ≤ q)) × (reason ≢ other)))
      × (ssl_write q reason ≡ ssl_read q reason)
transfer_lem r q again reason h =
    let (a, b, c, d) = plain_lem r again h in
    let (e, f, g) = ssl_lem q reason in (a, b, c, d, e, f, g)
