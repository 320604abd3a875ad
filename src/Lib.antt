-- ===== src/Lib.antt =====
-- wrk2: an HTTP load generator that sends at a constant rate and measures latencies from the time
-- when each request was due.
--
-- `main` (src/wrk.c) reads the arguments, checks the script's request, starts the threads and, when
-- they have ended, adds up what they counted. Each thread opens its connections and runs an event
-- loop; the handlers of the loop work on one connection and its thread. A connection is paced by a
-- plan: its n-th request is due n / rate after its start, and a connection that is behind catches up
-- at twice the rate. What a response brings is collected in buffers for the script and recorded in
-- histograms; `src/stats.c` and `src/units.c` serve the report.
--
-- Files:
--   Base and its children: shared names, lists, slices, machine words.
--   Float: `double` and `long double` as an interface; Float.Ratio runs it on exact fractions.
--   Hdr: the interface of src/hdr_histogram.c.
--   Stats: src/stats.c, `errors` and `stats` of src/stats.h. Window is the ring of samples, Rand
--     `rand64` and `stats_sample`, Order `stats_compare`, Report the figures, Totals their theorems,
--     Access what the script reads (`script_stats_get`, `script_stats_len` of src/script.c).
--   Units: src/units.c; Scan and Scale are its two directions.
--   Capture: `buffer_append`, `buffer_reset`, `buffer_pushlstring` and `script_response` of
--     src/script.c with the callbacks `header_field`, `header_value` and `response_body` of src/wrk.c.
--   Url: `script_parse_url` and `push_url_part` of src/script.c, `copy_url_part` of src/wrk.c.
--   Net: src/net.c and src/ssl.c; Refine is what their statuses say.
--   Verify: `script_verify_request` of src/script.c.
--   Lua: the C interface of Lua as its manual describes it, a stack of values with the operations
--     that src/script.c uses (Api). What Lua keeps and runs is the interface `Heap`, what is relied on
--     of its tables is `HeapLaws`; Sample is a small heap to run the definitions.
--   Script: `set_fields` and the checks for a function. Script.Report: `script_summary`,
--     `script_errors`, `script_done`; Calls and Done are what the script is given. Script.Copy:
--     `script_copy_value`. Script.Thread: `script_thread_*`. Script.Address: `script_addr_*`,
--     `script_wrk_*`. Script.Create: `script_create`. Script.Request: `script_resolve`,
--     `script_init`, `script_request`.
--   Print: `print_stats` and what it calls in src/wrk.c, `aprintf` of src/aprintf.c. Columns is the
--     layout, Sorted the percentiles of sorted samples.
--   Conn: `thread` and `connection` of src/wrk.h, `config` of src/wrk.c, `status` of src/net.h.
--   Args: `parse_args`. Main: `main`, with its start and `ssl_init` of src/ssl.c in Setup. Worker:
--     `thread_main`. Main.Report is the text of the report, Printed that it can be printed.
--   Pace: `usec_to_next_send`, `delay_request`.
--   Socket: `connect_socket`, `reconnect_socket`, `delayed_initial_connect`, `socket_connected`.
--   Writer: `socket_writeable`; Writes is its runs one after the other. Reader: `socket_readable`; Counts
--     is what its callbacks leave alone. Response: `response_complete`.
--   Timer: `calibrate`, `check_timeouts`, `sample_rate`; Sample is the time between two samples.
--   Life: the handlers as steps on one connection, and what every sequence of steps keeps: the
--     plan (Plan), the rate (Rate); Wait and Wake are about a request that is put off. Times and Moves
--     say what a handler can change of the times and counts of a batch.
--   Loop: the event loop of a thread, all its connections and timers, from `thread_main` on, with the
--     handler of SIGINT. Sound is what every run keeps, Stop when the loop ends, Totals what the
--     report counts of the runs of all threads; Quiet, Count, Timers and Slots are their lemmas, and
--     Project says that a run of a thread is a run of each connection.
-- The children named Tests hold runs of the definitions and the theorems at concrete inputs.
--
-- A handler is a function from the connection, its thread and what it reads from outside (clocks,
-- what the system and the libraries answer) to the new connection and thread and the list of calls
-- that it makes, in order. `socket_readable` has the state of the parser besides, and runs the callbacks
-- that the parser makes; Capture.Table is the table of headers that the script is given. A Boolean or a word of C is a Bool or a native number with its
-- wrap-around written out. `none` stands for an access outside an array or an allocation.
--
-- Fuel: `grow` (the loop of `buffer_append`) has one more than the size that is needed, and each turn
-- adds 1024; `header_pairs` has the length of its text, and each turn takes a byte at least;
-- `rand64` and `socket_readable` end with the first draw, or turn, that does not repeat, as
-- their theorems say; `script_copy_value` goes one level down for each turn and each table, and its
-- theorems say how much is enough.
--
-- The event loop is not in the model: its order of the handlers is left open, so a run is any
-- sequence of steps in which the clock does not go back. A script stops the loop at the end of the
-- handler that runs it (`thread_stop`); what else a script does to the program is not followed. A timer is relied on to fire no earlier than
-- asked for in whole milliseconds; that it fires at all is not, and where a theorem says that
-- something happens in time it does so up to the lag of the timer.
--
-- A Lua state is its stack, top first, and its heap. `fault` is the use of a place of the stack that
-- holds no value, or no table where Lua does not check, which Lua leaves undefined.
--
-- Not modelled: the copies of other projects (src/ae*.c, src/http_parser.c, src/hdr_histogram.c,
-- src/tinymt64.c, src/zmalloc.c, deps/luajit), which are arguments or interfaces; the digits that
-- `printf` gives a number, the text of `usage`, and the memory behind addresses.
-- Metatables of tables, by which a script could change what an assignment does, are left out. A
-- thread's Lua state is taken to be another than the one that calls its methods. Allocation is
-- taken to succeed, but in `aprintf` and `ssl_init`.
pub mod Base
pub mod Float
pub mod Hdr
pub mod Stats
pub mod Capture
pub mod Conn
pub mod Pace
pub mod Socket
pub mod Writer
pub mod Reader
pub mod Response
pub mod Timer
pub mod Life
pub mod Loop
pub mod Units
pub mod Args
pub mod Worker
pub mod Verify
pub mod Main
pub mod Url
pub mod Net
pub mod Lua
pub mod Script
pub mod Print
