-- ===== src/Main/Sums.antt =====
-- What the sums over the threads are.
use wrk.Base.{ℕ, ◌+◌, ◌^◌, ◌<◌, ◌%◌, ◌≡◌, refl, List, [], ◌∷◌, arith, sum, map}
use wrk.Hdr.{Hdr}
use wrk.Conn.{Thread}
use wrk.Main.{no_errors, Totals, add_thread, add_threads, totals}

module _ {H F : Type 0} where
  abbrev pub total : (Thread H F → ℕ) → List (Thread H F) → ℕ
  total f ts = sum (map f ts)

module _ {H F : Type 0} ⦃hdr : Hdr H⦄ where
  -- The histograms of the threads, added one after the other.
  abbrev pub merged : (Thread H F → H) → H → List (Thread H F) → H
  merged f h [] = h
  merged f h (t ∷ ts) = merged f (hdr.add h (f t)) ts

  -- The sums from given ones on.
  pub record IsSum (s : Totals H) (ts : List (Thread H F)) (r : Totals H) : Type 0 where
    pub complete : r.complete ≡ (s.complete + total (λ t. t.complete) ts) % 2 ^ 64
    pub bytes : r.bytes ≡ (s.bytes + total (λ t. t.bytes) ts) % 2 ^ 64
    pub connect : r.errors.connect ≡ (s.errors.connect + total (λ t. t.errors.connect) ts) % 2 ^ 32
    pub read : r.errors.read ≡ (s.errors.read + total (λ t. t.errors.read) ts) % 2 ^ 32
    pub write : r.errors.write ≡ (s.errors.write + total (λ t. t.errors.write) ts) % 2 ^ 32
    pub status : r.errors.status ≡ (s.errors.status + total (λ t. t.errors.status) ts) % 2 ^ 32
    pub timeout : r.errors.timeout ≡ (s.errors.timeout + total (λ t. t.errors.timeout) ts) % 2 ^ 32
    pub latency : r.latency_histogram ≡ merged (λ t. t.latency_histogram) s.latency_histogram ts
    pub u_latency :
        r.u_latency_histogram ≡ merged (λ t. t.u_latency_histogram) s.u_latency_histogram ts

module _ {H : Type 0} where
  record IsWords (s : Totals H) : Type 0 where
    complete : s.complete < 2 ^ 64
    bytes : s.bytes < 2 ^ 64
    connect : s.errors.connect < 2 ^ 32
    read : s.errors.read < 2 ^ 32
    write : s.errors.write < 2 ^ 32
    status : s.errors.status < 2 ^ 32
    timeout : s.errors.timeout < 2 ^ 32

module _ {H F : Type 0} ⦃hdr : Hdr H⦄ where
  add_threads_lem :
      (s : Totals H) (ts : List (Thread H F)) → IsWords s → IsSum s ts (add_threads s ts)
  unfolding add_threads
  add_threads_lem s [] w = record {
    complete = omega (arith, w.complete);
    bytes = omega (arith, w.bytes);
    connect = omega (arith, w.connect);
    read = omega (arith, w.read);
    write = omega (arith, w.write);
    status = omega (arith, w.status);
    timeout = omega (arith, w.timeout);
    latency = refl;
    u_latency = refl;
  }
  add_threads_lem s (t ∷ ts) w =
      let words : IsWords (add_thread s t) = ground arith in
      let sums = add_threads_lem (add_thread s t) ts words in
      record {
        complete = omega (arith, sums.complete);
        bytes = omega (arith, sums.bytes);
        connect = omega (arith, sums.connect);
        read = omega (arith, sums.read);
        write = omega (arith, sums.write);
        status = omega (arith, sums.status);
        timeout = omega (arith, sums.timeout);
        latency = sums.latency;
        u_latency = sums.u_latency;
      }

  -- The counts of the report are the sums of the threads' counts, as 64-bit words for the responses and
  -- the bytes and as 32-bit words for each kind of error, and its two histograms are those of the threads,
  -- added in order to an empty one.
  pub totals_lem :
      (ts : List (Thread H F))
      → IsSum
          (record {
            complete = 0;
            bytes = 0;
            errors = no_errors;
            latency_histogram = hdr.empty_histogram;
            u_latency_histogram = hdr.empty_histogram;
          })
          ts
          (totals ts)
  unfolding totals
  totals_lem ts = add_threads_lem _ ts (ground arith)
