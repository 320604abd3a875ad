-- ===== src/Response/Batch.antt =====
-- The responses to one batch of requests.
use wrk.Base.{
  ℕ, suc, ◌+◌, ◌%◌, ◌^◌, ◌<◌, ◌≡◌, refl, Bool, true, false, Option, none, some, List, [], ◌∷◌, ◌++◌,
  arith, if◌then◌else◌, add64, sub64, All, length, map,
}
use wrk.Float.{Float}
use wrk.Hdr.{Hdr}
use wrk.Capture.{deliver}
use wrk.Conn.{Config, Connection, Thread, parser_init, Out}
use wrk.Response.{
  ResponseInput, count_response, expected_latency, settle, record_latencies, response_complete,
  account,
}

-- The test goes on, the server keeps the connection, and the script does not read responses.
abbrev pub IsPlain : ℕ → ResponseInput → Type 0
IsPlain stop_at i = (i.now < stop_at) × (i.keep_alive ≡ true)

module _ {H F : Type 0} ⦃fl : Float F⦄ ⦃hdr : Hdr H⦄ (cfg : Config) where
  -- Responses that come in one after the other on a connection.
  unfoldable pub responses : List ResponseInput → Thread H F → Connection F → Option (Out H F)
  responses [] t c = some (record { thread = t; conn = c; calls = [] })
  responses (i ∷ is) t c = elim (response_complete cfg i t c) [
    | none ↦ none
    | some out ↦ elim (responses is out.thread out.conn) [
      | none ↦ none
      | some last ↦ some (record last { calls = out.calls ++ last.calls })
    ]
  ]

  plain_response :
      (i : ResponseInput) (t : Thread H F) (c : Connection F)
      → IsPlain t.stop_at i
      → c.capture.headers.length ≡ 0
      → let (c', watch) = settle c in
        response_complete cfg i t c
        ≡ some (record {
          thread = record_latencies cfg i.now (count_response i.status t) c';
          conn = c';
          calls = watch ++ parser_init ∷ [];
        })
  unfolding response_complete count_response account deliver
  plain_response i t c p h = ground arith

-- What a histogram holds after the latencies of one batch: each of them, or the last alone.
module _ {H : Type 0} ⦃hdr : Hdr H⦄ where
  abbrev pub recorded : Bool → H → List ℕ → H
  recorded each h [] = h
  recorded each h (x ∷ []) = hdr.record_value h x
  recorded each h (x ∷ y ∷ xs) = recorded each (if each then hdr.record_value h x else h) (y ∷ xs)

-- A response that is not the last of its batch.
abbrev settled : {F : Type 0} → ℕ → Connection F → Connection F
settled left c = record c {
  complete = add64 c.complete 1;
  latest_should_send_time = 0;
  latest_expected_start = 0;
  pending = left;
}

module _ {H F : Type 0} ⦃fl : Float F⦄ ⦃hdr : Hdr H⦄ (cfg : Config) where
  -- The outcome of the responses `is` of a batch.
  pub record IsBatch (is : List ResponseInput) (t : Thread H F) (c : Connection F) (out : Out H F)
      : Type 0 where
    pub idle : (out.conn.has_pending ≡ false) × (out.conn.pending ≡ 0)
    pub counted : out.conn.complete ≡ (c.complete + length is) % 2 ^ 64
    pub thread_counted : out.thread.complete ≡ (t.complete + length is) % 2 ^ 64
    pub requests_counted : out.thread.requests ≡ (t.requests + length is) % 2 ^ 64
    pub expected :
        out.thread.latency_histogram
        ≡ recorded cfg.record_all_responses t.latency_histogram
            (map (λ i. expected_latency i.now c) is)
    pub actual :
        out.thread.u_latency_histogram
        ≡ recorded cfg.record_all_responses t.u_latency_histogram
            (map (λ i. sub64 i.now c.actual_latency_start) is)

  abbrev noted : ResponseInput → Thread H F → Connection F → Thread H F
  noted i t c = record (count_response i.status t) {
    latency_histogram =
        if cfg.record_all_responses
        then hdr.record_value t.latency_histogram (expected_latency i.now c)
        else t.latency_histogram;
    u_latency_histogram =
        if cfg.record_all_responses
        then hdr.record_value t.u_latency_histogram (sub64 i.now c.actual_latency_start)
        else t.u_latency_histogram;
  }

  more_to_come :
      (n : ℕ) (i : ResponseInput) (t : Thread H F) (c : Connection F)
      → IsPlain t.stop_at i
      → c.capture.headers.length ≡ 0
      → c.has_pending ≡ true
      → c.pending ≡ suc (suc n)
      → c.pending < 2 ^ 64
      → response_complete cfg i t c
        ≡ some (record { thread = noted i t c; conn = settled (suc n) c; calls = parser_init ∷ [] })
  unfolding settle record_latencies count_response
  more_to_come n i t c p h b k small = ground (arith, plain_response cfg i t c p h)

  last_of-IsBatch :
      (i : ResponseInput) (t : Thread H F) (c : Connection F)
      → IsPlain t.stop_at i
      → c.capture.headers.length ≡ 0
      → c.pending ≡ 1
      → (out : Out H F) × (response_complete cfg i t c ≡ some out) × IsBatch (i ∷ []) t c out
  unfolding settle record_latencies count_response
  last_of-IsBatch i t c p h k =
      let (c', watch) = settle c in
      (
        record {
          thread = record_latencies cfg i.now (count_response i.status t) c';
          conn = c';
          calls = watch ++ parser_init ∷ [];
        },
        plain_response cfg i t c p h,
        ground arith,
      )

  -- As many responses as are pending, while the test goes on, the server keeps the connection and
  -- the script does not read responses: all of them are handled; the connection is then idle; each
  -- response is counted once by the connection and the thread; and each histogram gets the
  -- latencies of all the responses, or with -B that of the last alone, measured from the planned
  -- start of the batch and from its actual start.
  pub batch_lem :
      (stop_at : ℕ) (i : ResponseInput) (is : List ResponseInput) (t : Thread H F)
      (c : Connection F)
      → t.stop_at ≡ stop_at
      → IsPlain stop_at i
      → All (IsPlain stop_at) is
      → c.capture.headers.length ≡ 0
      → c.has_pending ≡ true
      → c.pending ≡ suc (length is)
      → c.pending < 2 ^ 64
      → (out : Out H F) × (responses cfg (i ∷ is) t c ≡ some out) × IsBatch (i ∷ is) t c out
  unfolding responses count_response
  batch_lem stop_at i [] t c s p ps h b k small =
      let (out, e, batch) = last_of-IsBatch i t c (rw s p) h k in
      (
        record out { calls = out.calls ++ [] },
        ground arith,
        record {
          idle = batch.idle;
          counted = batch.counted;
          thread_counted = batch.thread_counted;
          requests_counted = batch.requests_counted;
          expected = batch.expected;
          actual = batch.actual;
        },
      )
  batch_lem stop_at i (j ∷ is) t c s p (q, qs) h b k small =
      let n = length is in
      let (out, e, batch) =
        batch_lem stop_at j is (noted i t c) (settled (suc n) c) s q qs h b refl (omega arith) in
      let first = more_to_come n i t c (rw s p) h b k small in
      (
        record out { calls = parser_init ∷ out.calls },
        ground arith,
        record {
          idle = batch.idle;
          counted = omega (arith, batch.counted);
          thread_counted = omega (arith, batch.thread_counted);
          requests_counted = omega (arith, batch.requests_counted);
          expected = batch.expected;
          actual = batch.actual;
        },
      )
