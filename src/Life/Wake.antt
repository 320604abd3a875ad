-- ===== src/Life/Wake.antt =====
-- A request that is put off is sent: the timer of `delay_request` and the handler that follows it.
use wrk.Base.{ℕ, suc, ◌*◌, ◌^◌, ◌≤◌, ◌<◌, ◌≡◌, ◌≢◌, [], ◌∷◌, arith}
use wrk.Float.{Float}
use wrk.Conn.{
  Config, Connection, Thread, create_file_event, delete_file_event, create_time_event, writable,
  on_writeable, delay_proc, again, no_more,
}
use wrk.Pace.{due, whole_ms, usec_to_next_send, delay_request}
use wrk.Writer.{WriteInput, begin_batch, write_some, socket_writeable}
use wrk.Life.Wait.{
  longest_wait, earliest, stays_due, pace_keeps, delay_lem, Waiting, first_wait, wait_on,
}

module _ (H : Type 0) {F : Type 0} ⦃fl : Float F⦄ (cfg : Config) (rate : F) where
  -- A connection that catches up at `rate`, has put off a request and waits: the timer has fired `n`
  -- times since, the clock was read last at `clock`, and the timer was then asked for `ms`.
  pub data Asleep : ℕ → ℕ → ℕ → Connection F → Type 0 where
    put_off :
        (i : WriteInput) (fd ms : ℕ) (t : Thread H F) (c : Connection F)
        → i.now < 2 ^ 53
        → c.complete < 2 ^ 64
        → c.catch_up_throughput ≡ rate
        → (usec_to_next_send i.now c).0 ≤ longest_wait
        → (socket_writeable cfg i fd t c).calls
          ≡ delete_file_event fd writable ∷ create_time_event ms delay_proc ∷ []
        → Asleep 0 i.now ms (socket_writeable cfg i fd t c).conn
    put_off_again :
        {n clock ms : ℕ} {c : Connection F} (now ms' : ℕ)
        → Asleep n clock ms c
        → earliest clock ms ≤ now
        → now < 2 ^ 53
        → (delay_request now c).0 ≡ again ms'
        → Asleep (suc n) now ms' (delay_request now c).1

module _ {H F : Type 0} ⦃fl : Float F⦄ (cfg : Config) where
  -- The handler puts a request off only if none is half written.
  put_off_lem :
      (i : WriteInput) (fd ms : ℕ) (t : Thread H F) (c : Connection F)
      → (socket_writeable cfg i fd t c).calls
        ≡ delete_file_event fd writable ∷ create_time_event ms delay_proc ∷ []
      → let (usec, c') = usec_to_next_send i.now c in
        (c.written ≡ 0)
        × (usec ≢ 0)
        × (ms ≡ whole_ms fl usec)
        × ((socket_writeable cfg i fd t c).conn ≡ c')
  unfolding socket_writeable write_some
  put_off_lem i fd ms t c e = ground arith

  -- A connection with nothing half written sends once a request is due.
  sends :
      (i : WriteInput) (fd : ℕ) (t : Thread H F) (c : Connection F)
      → c.written ≡ 0
      → (usec_to_next_send i.now c).0 ≡ 0
      → socket_writeable cfg i fd t c
        ≡ write_some i fd t (begin_batch cfg i (usec_to_next_send i.now c).1)
  unfolding socket_writeable
  sends i fd t c none_written z = ground arith

module _ {H F : Type 0} ⦃fl : Float F⦄ (range : (x : F) → fl.to_u64 x < 2 ^ 64)
    (enough : (usec : ℕ) → usec ≤ longest_wait → usec ≤ 1000 * whole_ms fl usec) (cfg : Config)
    (rate : F) (exact : (t : ℕ) → t < 2 ^ 53 → due t 0 rate ≡ t) where
  Asleep-Waiting :
      {n clock ms : ℕ} {c : Connection F}
      → Asleep H cfg rate n clock ms c
      → Waiting rate n clock ms c
  Asleep-Waiting (put_off i fd ms t c small count same short e) =
      let (none_written, more, asked, left) = put_off_lem cfg i fd ms t c e in
      rw (left, asked)
        (first_wait range enough rate exact i.now c none_written small count same more short)
  Asleep-Waiting (put_off_again {c = c'} now ms' w l small e) =
      let (on, few, last) = wait_on range enough rate exact now (Asleep-Waiting w) l small in
      let (left, over, watch, asks) = delay_lem now c' in
      let (more, asked) = asks ms' e in rw (left, asked) (on more)

  pub woken :
      {n clock ms : ℕ} {c : Connection F} (now : ℕ) (i : WriteInput) (fd : ℕ) (t : Thread H F)
      → Asleep H cfg rate n clock ms c
      → earliest clock ms ≤ now
      → now ≤ i.now
      → i.now < 2 ^ 53
      → let (answer, c', calls) = delay_request now c in
        (n ≤ 2)
        × (2 ≤ n → answer ≡ no_more)
        × (answer ≡ no_more
            → (calls ≡ create_file_event c.fd writable on_writeable ∷ [])
              × (socket_writeable cfg i fd t c'
                  ≡ write_some i fd t (begin_batch cfg i (usec_to_next_send i.now c').1)))
  woken {c = c} now i fd t w l later small =
      let waiting = Asleep-Waiting w in
      let (on, few, last) = wait_on range enough rate exact now waiting l (omega arith) in
      let (left, over, watch, asks) = delay_lem now c in
      let none_written = pace_keeps now c in
      let none_half : (delay_request now c).1.written ≡ 0 = ground arith in
      (
        few,
        λ h. over.0 (last h),
        λ e. (
          watch (over.1 e),
          sends cfg i fd t (delay_request now c).1 none_half
              (rw left (stays_due range now i.now c later (omega arith) (over.1 e))),
        ),
      )
