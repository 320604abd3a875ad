-- ===== src/Worker/Tests.antt =====
-- The theorem on the start of a thread at a concrete one.
use wrk.Base.{◌≡◌, [], ◌∷◌, ◌++◌, arith, All, length}
use wrk.Float.Ratio.{ratio, ratio_float}
use wrk.Stats.Tests.{list_hdr}
use wrk.Conn.{create_time_event, calibrate_proc, timeout_proc}
use wrk.Args.{default_config}
use wrk.Timer.Tests.{test_thread}
use wrk.Worker.{thread_main}
use wrk.Worker.Start.{AreReady, IsBefore, staggered, thread_main_lem}

thread_main_lem_example :
    let (t', cs, calls) =
      thread_main default_config (record { script_text = 71 ∷ []; now = 100 }) test_thread in
    let rate = ratio 2000 2_000_000 in
    (length cs ≡ 2)
    × AreReady 0 rate cs
    × (calls
        ≡ staggered 2 0
          ++ create_time_event 10010 calibrate_proc ∷ create_time_event 2010 timeout_proc ∷ [])
    × All (IsBefore 10010) (staggered 2 0)
thread_main_lem_example =
    thread_main_lem default_config (record { script_text = 71 ∷ []; now = 100 }) test_thread
      (omega arith)
