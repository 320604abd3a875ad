-- ===== src/Conn.antt =====
-- The state of src/wrk.h: a connection, a thread, and the configuration of src/wrk.c. What a handler
-- does to the outside is a list of calls, in order; what it reads from outside is an argument.
use wrk.Base.{ℕ, Bool, Option, List}
use wrk.Stats.{Errors}
use wrk.Capture.{Capture, ScriptCall}

-- `struct config`, without the text of the script's path and the SSL context.
pub record Config : Type 0 where
  pub threads : ℕ
  pub connections : ℕ
  pub duration : ℕ
  pub timeout : ℕ
  pub pipeline : ℕ
  pub rate : ℕ
  pub delay_ms : ℕ
  pub latency : Bool
  pub u_latency : Bool
  pub dynamic : Bool
  pub record_all_responses : Bool
  pub script : Option (List ℕ)

-- `connection`. `capture` is its `state`, `headers` and `body`; the parser and the SSL object are
-- those of the libraries, and `buf` holds what the parser has already consumed.
pub record Connection (F : Type 0) : Type 0 where
  pub capture : Capture
  pub fd : ℕ
  pub id : ℕ
  pub throughput : F
  pub catch_up_throughput : F
  pub complete : ℕ
  pub complete_at_last_batch_start : ℕ
  pub catch_up_start_time : ℕ
  pub complete_at_catch_up_start : ℕ
  pub thread_start : ℕ
  pub start : ℕ
  pub request : List ℕ
  pub length : ℕ
  pub written : ℕ
  pub pending : ℕ
  pub actual_latency_start : ℕ
  pub has_pending : Bool
  pub caught_up : Bool
  pub latest_should_send_time : ℕ
  pub latest_expected_start : ℕ
  pub latest_connect : ℕ
  pub latest_write : ℕ

-- `thread`, without its handles. Its connections `cs` are passed beside it.
pub record Thread (H F : Type 0) : Type 0 where
  pub connections : ℕ
  pub interval : ℕ
  pub stop_at : ℕ
  pub complete : ℕ
  pub requests : ℕ
  pub bytes : ℕ
  pub start : ℕ
  pub throughput : F
  pub mean : ℕ
  pub latency_histogram : H
  pub u_latency_histogram : H
  pub errors : Errors

-- AE_READABLE and AE_WRITABLE.
pub data Interest : Type 0 where
  readable writable both : Interest

pub data FileProc : Type 0 where
  on_connected on_readable on_writeable : FileProc

pub data TimeProc : Type 0 where
  initial_connect : ℕ → TimeProc  -- of the connection with this id
  calibrate_proc sample_proc timeout_proc delay_proc : TimeProc

-- The calls that change something outside the connection and the thread.
pub data Call : Type 0 where
  create_file_event : ℕ → Interest → FileProc → Call
  delete_file_event : ℕ → Interest → Call
  create_time_event : ℕ → TimeProc → Call
  stop_loop : Call
  sock_write : List ℕ → Call
  sock_close : Call
  close_fd : ℕ → Call
  parser_init : Call
  call_script : ScriptCall → Call

-- What a timer's procedure returns: the delay until it runs again, or AE_NOMORE.
pub data Next : Type 0 where
  again : ℕ → Next
  no_more : Next

-- `status` of src/net.h.
pub data Status : Type 0 where
  ok error retry : Status

-- The outcome of a handler.
pub record Out (H F : Type 0) : Type 0 where
  pub thread : Thread H F
  pub conn : Connection F
  pub calls : List Call
