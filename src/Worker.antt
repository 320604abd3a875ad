-- ===== src/Worker.antt =====
-- The start of a thread: `thread_main` of src/wrk.c up to `aeMain`.
pub mod Start
pub mod Tests
use wrk.Base.{
  ℕ, zero, suc, ◌+◌, ◌-◌, ◌*◌, ◌^◌, ◌<◌, ◌≤◌, ◌%◌, ◌/◌, ◌≡◌, ◌≢◌, ◌↔◌, ◌⊎◌, inl, inr, refl, ap, ◌∙◌,
  sym, Bool, true, false, Option, none, some, List, [], ◌∷◌, ◌++◌, arith, All, length, sum, map,
  sub64, add64, mul64, add32, if◌then◌else◌, leb, ltb, ◌==◌, ◌&&◌, ◌||◌, Bool-cases, length-append,
}
use wrk.Float.{Float}
use wrk.Hdr.{Hdr}
use wrk.Capture.{Capture, field, null_buffer}
use wrk.Conn.{
  Config, Connection, Thread, Call, create_time_event, initial_connect, calibrate_proc,
  timeout_proc,
}
use wrk.Timer.{calibrate_delay_ms, timeout_interval_ms}

-- What `script_request` gives, and the clock before the loop.
pub record StartInput : Type 0 where
  pub script_text : List ℕ
  pub now : ℕ

module _ {H F : Type 0} ⦃fl : Float F⦄ where
  -- The rate of one connection, in requests per microsecond.
  abbrev pub connection_rate : Thread H F → F
  connection_rate t = fl.fdiv (fl.fdiv t.throughput (fl.of_u64 1_000_000)) (fl.of_u64 t.connections)

module _ {F : Type 0} ⦃fl : Float F⦄ where
  -- A connection as `zcalloc` and the loop over the connections leave it.
  abbrev pub new_connection : ℕ → List ℕ → F → Connection F
  new_connection i request throughput = record {
    capture = record { state = field; headers = null_buffer; body = null_buffer };
    fd = 0;
    id = i;
    throughput = throughput;
    catch_up_throughput = fl.fmul throughput (fl.of_u64 2);
    complete = 0;
    complete_at_last_batch_start = 0;
    catch_up_start_time = 0;
    complete_at_catch_up_start = 0;
    thread_start = 0;
    start = 0;
    request = request;
    length = length request;
    written = 0;
    pending = 0;
    actual_latency_start = 0;
    has_pending = false;
    caught_up = true;
    latest_should_send_time = 0;
    latest_expected_start = 0;
    latest_connect = 0;
    latest_write = 0;
  }

  -- The loop, for the `n` connections from `i` on.
  unfoldable pub new_connections : ℕ → ℕ → List ℕ → F → List (Connection F) × List Call
  new_connections zero i request throughput = ([], [])
  new_connections (suc n) i request throughput =
      let (cs, calls) = new_connections n (i + 1) request throughput in
      (
        new_connection i request throughput ∷ cs,
        create_time_event (i * 5) (initial_connect i) ∷ calls,
      )

module _ {H F : Type 0} ⦃fl : Float F⦄ ⦃hdr : Hdr H⦄ where
  unfoldable pub thread_main :
      Config → StartInput → Thread H F → Thread H F × List (Connection F) × List Call
  thread_main cfg i t =
      let request = if cfg.dynamic then [] else i.script_text in
      let (cs, connects) = new_connections t.connections 0 request (connection_rate t) in
      (
        record t {
          latency_histogram = hdr.empty_histogram;
          u_latency_histogram = hdr.empty_histogram;
          start = i.now;
        },
        cs,
        connects
            ++ create_time_event (calibrate_delay_ms + t.connections * 5) calibrate_proc
              ∷ create_time_event (timeout_interval_ms + t.connections * 5) timeout_proc
              ∷ [],
      )
