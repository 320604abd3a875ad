-- ===== src/Net.antt =====
-- The status that the socket functions give: src/net.c for a plain socket, and src/ssl.c over TLS.
pub mod Refine
pub mod Tests
use wrk.Base.{
  ℕ, zero, suc, ◌+◌, ◌-◌, ◌*◌, ◌^◌, ◌<◌, ◌≤◌, ◌%◌, ◌/◌, ◌≡◌, ◌≢◌, ◌↔◌, ◌⊎◌, inl, inr, refl, ap, ◌∙◌,
  sym, Bool, true, false, not, Option, none, some, List, [], ◌∷◌, ◌++◌, arith, All, length, sum,
  map, take, drop, get_elem?, set, sub64, add64, mul64, add32, if◌then◌else◌, leb, ltb, ◌==◌, ◌&&◌,
  ◌||◌, Bool-cases, Option-cases, length-append,
}
use wrk.Conn.{Status, ok, error, retry}

-- `r == -1` for an ssize_t, by its 64-bit pattern.
abbrev pub minus_one : ℕ
minus_one = 2 ^ 64 - 1

abbrev pub sock_connect : Status
sock_connect = ok

abbrev pub sock_close : Status
sock_close = ok

-- `r` is what `read` returns: the status, and `*n`, which is `r` converted to size_t.
unfoldable pub sock_read : ℕ → Status × ℕ
sock_read r = (if ltb r (2 ^ 63) then ok else error, r)

-- `r` is what `write` returns, and `again` whether `errno` is EAGAIN then; `none` leaves `*n` as it
-- was.
unfoldable pub sock_write : ℕ → Bool → Status × Option ℕ
sock_write r again =
    if r == minus_one then ((if again then retry else error), none) else (ok, some r)

-- `rc` and `n` are what `ioctl` returns for FIONREAD and stores, both by their 32-bit patterns; the
-- `int` is converted to size_t.
unfoldable pub sock_readable : ℕ → ℕ → ℕ
sock_readable rc n =
    if rc == 2 ^ 32 - 1 then 0 else (if ltb n (2 ^ 31) then n else n + (2 ^ 64 - 2 ^ 32))

-- What `SSL_get_error` says of a call.
pub data SslError : Type 0 where
  want_read want_write other : SslError

abbrev pub ssl_status : SslError → Status
ssl_status want_read = retry
ssl_status want_write = retry
ssl_status other = error

-- `r <= 0` for an `int`, by its 32-bit pattern.
abbrev pub not_positive : ℕ → Bool
not_positive r = r == 0 || leb (2 ^ 31) r

-- `r` is what `SSL_connect` returns, and `reason` what `SSL_get_error` says of it then.
unfoldable pub ssl_connect : ℕ → SslError → Status
ssl_connect r reason = if r == 1 then ok else ssl_status reason

abbrev pub ssl_close : Status
ssl_close = ok

-- `r` is what `SSL_read` returns; `none` leaves `*n` as it was.
unfoldable pub ssl_read : ℕ → SslError → Status × Option ℕ
ssl_read r reason = if not_positive r then (ssl_status reason, none) else (ok, some r)

-- `r` is what `SSL_write` returns.
unfoldable pub ssl_write : ℕ → SslError → Status × Option ℕ
ssl_write r reason = if not_positive r then (ssl_status reason, none) else (ok, some r)

-- `pending` is what `SSL_pending` returns, by its 32-bit pattern, converted to size_t.
unfoldable pub ssl_readable : ℕ → ℕ
ssl_readable pending = if ltb pending (2 ^ 31) then pending else pending + (2 ^ 64 - 2 ^ 32)

-- The callback for the locks of OpenSSL; `locking` is `mode & CRYPTO_LOCK`, and a lock is `true` while
-- it is held. `none` is a lock that is not there, or a wait for one that is held.
unfoldable pub ssl_lock : Bool → ℕ → List Bool → Option (List Bool)
ssl_lock locking n locks = elim (get_elem? locks n) [
  | none ↦ none
  | some held ↦ if locking && held then none else some (set locks n locking)
]
