-- ===== src/Loop/Tests.antt =====
-- The theorems on the event loop of a thread at a concrete run.
use wrk.Base.{
  All, ℕ, ◌+◌, ◌^◌, ◌≤◌, ◌<◌, ◌≡◌, ◌⊎◌, ◌||◌, refl, true, false, List, [], ◌∷◌, arith, get_or,
}
use wrk.Float.Ratio.{Ratio, ratio_float, ratio_range}
use wrk.Stats.Tests.{list_hdr, list_report}
use wrk.Conn.{Config, Connection, ok}
use wrk.Args.{default_config}
use wrk.Pace.{due, usec_to_next_send, begin_catch_up}
use wrk.Socket.{Attempt, connect_socket, delayed_initial_connect, socket_connected}
use wrk.Writer.{WriteInput, begin_batch, write_some, socket_writeable}
use wrk.Timer.{check_timeouts}
use wrk.Worker.{StartInput, new_connection, new_connections, thread_main}
use wrk.Life.{at, connected, write}
use wrk.Loop.{
  stops, Loop, connections, state, after, interrupt, started_loop, opened, handled, checked,
  interrupted, Reach, here, next,
}
use wrk.Loop.Sound.{rate_of, IsSound, Reach-IsSound}
use wrk.Main.{totals}
use wrk.Loop.Totals.{threads, all_completed, reported_lem}
use wrk.Loop.Stop.{first_check, stop_cause, stop_in_time, interrupt_lem}

-- One thread, two connections, 1000 requests a second on each.
abbrev small_config : Config
small_config = record default_config { threads = 1; connections = 2; rate = 2000; pipeline = 1 }

abbrev start_input : StartInput
start_input = record { script_text = 71 ∷ 69 ∷ 84 ∷ []; now = 10000 }

abbrev attempt : Attempt
attempt = record { fd = 6; connects = true; now = 10050; accepted = true }

abbrev begun : Loop (List ℕ) Ratio
begun = started_loop small_config start_input 30_000_000

abbrev first_connection : Loop (List ℕ) Ratio → Connection Ratio
first_connection w =
    get_or (connections w) 0 (new_connection 0 [] (rate_of ratio_float small_config))

-- The first connection is opened, and then connected.
abbrev with_open : Loop (List ℕ) Ratio
with_open =
    let out = (delayed_initial_connect 10050 attempt begun.thread (first_connection begun)).1 in
    after begun 0 (at 10050 out) out.calls

abbrev with_connected : Loop (List ℕ) Ratio
with_connected =
    let out = socket_connected ok attempt 6 with_open.thread (first_connection with_open) in
    after with_open 0 (at 10050 out) out.calls

abbrev first_write : WriteInput
first_write = record {
  now = 10060;
  write_time = 10060;
  start_time = 10061;
  script_text = [];
  result = ok;
  count = 3;
  attempt = attempt;
}

-- Its first request is sent.
abbrev with_request : Loop (List ℕ) Ratio
with_request =
    let out =
      socket_writeable small_config first_write 6 with_connected.thread
        (first_connection with_connected) in
    after with_connected 0 (at 10061 out) out.calls

run_to_request : Reach small_config begun with_request
unfolding started_loop thread_main new_connections delayed_initial_connect connect_socket
    socket_connected
run_to_request =
    next
      (next
        (next here
          (opened begun 0 (first_connection begun) 10050 attempt refl (omega arith) (omega arith)))
        (handled with_open 0 (first_connection with_open) refl (omega arith)
          (connected (state with_open (first_connection with_open)) ok attempt 6)))
      (handled with_connected 0 (first_connection with_connected) refl (omega arith) (
        write (state with_connected (first_connection with_connected)) first_write 6 (omega arith)
          (omega arith) (omega arith) (omega arith)))

soon : (t : ℕ) → t < 2 ^ 53 → due t 0 (rate_of ratio_float small_config) ≤ t
soon t small = omega arith

request_lem :
    ((first_connection with_request).pending ≡ 1)
    × (with_request.stopped ≡ false)
    × (with_request.thread.complete ≡ 0)
unfolding started_loop thread_main new_connections delayed_initial_connect connect_socket
    socket_connected socket_writeable usec_to_next_send begin_catch_up write_some begin_batch
request_lem = (refl, refl, refl)

Reach-IsSound_example : IsSound small_config (rate_of ratio_float small_config) with_request
Reach-IsSound_example =
    Reach-IsSound ratio_range small_config start_input 30_000_000 soon (omega arith) run_to_request

-- The test is interrupted, and the timer of the checks fires.
abbrev with_stop : Loop (List ℕ) Ratio
with_stop =
    let w = interrupt with_request in
    let (answer, t, calls) = check_timeouts small_config true 2_020_000 (connections w) w.thread in
    record w {
      clock = 2_020_000;
      thread = t;
      stopped = w.stopped || stops calls;
      check_due = 2_020_000 + 2_000_000;
    }

run_to_stop : Reach small_config begun with_stop
unfolding interrupt started_loop thread_main new_connections
run_to_stop =
    next (next run_to_request (interrupted with_request))
      (checked (interrupt with_request) 2_020_000 (omega arith))

is_stopped : with_stop.stopped ≡ true
unfolding interrupt check_timeouts
is_stopped = ground arith

stop_cause_example :
    (with_stop.stop ≡ true) ⊎ (30_000_000 ≤ with_stop.clock) ⊎ (with_stop.asked ≡ true)
stop_cause_example =
    stop_cause ratio_range small_config start_input 30_000_000 run_to_stop is_stopped

not_late : with_request.clock ≤ with_request.check_due + 5
unfolding started_loop thread_main
not_late = omega arith

stop_in_time_example :
    (with_request.clock ≤ first_check small_config start_input + 5)
    ⊎ (with_request.clock < 30_000_000 + 2_000_000 + 5)
stop_in_time_example =
    stop_in_time ratio_range small_config start_input 30_000_000 5 run_to_request request_lem.1
      not_late

abbrev with_interrupt : Loop (List ℕ) Ratio
with_interrupt = interrupt with_request

interrupted_not_stopped : with_interrupt.stopped ≡ false
unfolding interrupt
interrupted_not_stopped = request_lem.1

interrupted_not_late : with_interrupt.clock ≤ with_interrupt.check_due + 5
unfolding interrupt
interrupted_not_late = not_late

interrupt_lem_example :
    (with_interrupt.clock ≤ first_check small_config start_input + 5)
    ⊎ (with_interrupt.clock ≤ with_request.clock + 2_000_000 + 5)
interrupt_lem_example =
    interrupt_lem ratio_range small_config start_input 30_000_000 5 run_to_request here
      interrupted_not_stopped interrupted_not_late

-- Two threads that have both come as far.
abbrev two_threads : List (Loop (List ℕ) Ratio)
two_threads = with_request ∷ with_request ∷ []

abbrev two_starts : List StartInput
two_starts = start_input ∷ start_input ∷ []

reported_lem_example :
    let reported = (totals (threads two_threads)).complete in
    (all_completed two_threads ≤ reported)
    × (All (λ (w : Loop (List ℕ) Ratio). w.clock < w.thread.stop_at) two_threads
        → reported ≡ all_completed two_threads)
reported_lem_example =
    reported_lem ratio_range small_config 30_000_000 soon two_starts two_threads (omega arith)
      (run_to_request, (run_to_request, tt)) (omega (arith, request_lem.2))
