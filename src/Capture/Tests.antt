-- ===== src/Capture/Tests.antt =====
-- Runs of the collection of a response, and the theorems at concrete buffers.
use wrk.Base.{ℕ, ◌≡◌, refl, some, List, [], ◌∷◌, ◌++◌, arith}
use wrk.Capture.{Buffer, null_buffer, grow, buffer_append, Capture, field, deliver}
use wrk.Capture.Parse.{Header}
use wrk.Capture.Events.{Pieces, callbacks, all_events, each, on_body, wholes}
use wrk.Capture.Table.{lookup, last_of}
use wrk.Capture.Deliver.{deliver_collected}

abbrev held : Buffer
held = record { length = 1024; written = 65 ∷ 66 ∷ [] }

append_run :
    buffer_append held (67 ∷ []) ≡ some (record { length = 1024; written = 65 ∷ 66 ∷ 67 ∷ [] })
unfolding buffer_append grow
append_run = refl

-- "A: b" and "C: "
abbrev two_headers : List Header
two_headers = (65 ∷ [], 98 ∷ []) ∷ (67 ∷ [], []) ∷ []

abbrev idle : Capture
idle = record { state = field; headers = null_buffer; body = null_buffer }

-- The first name comes in two pieces.
abbrev first : Pieces
first = record { name = 65 ∷ []; more_name = (66 ∷ []) ∷ []; text = 98 ∷ []; more_text = [] }

abbrev second : Pieces
second = record { name = 67 ∷ []; more_name = []; text = 99 ∷ []; more_text = (100 ∷ []) ∷ [] }

deliver_collected_example :
    (c' c'' : Capture) × (table : List Header) × (callbacks idle
        (all_events (first ∷ second ∷ []) ++ each on_body ((1 ∷ []) ∷ (2 ∷ []) ∷ []))
      ≡ some c')
    × (deliver 200 4 c'
        ≡ some
            (some (record { status = 200; headers = table; text = 1 ∷ 2 ∷ []; conn_id = 4 }), c''))
    × ((name : List ℕ) → lookup name table ≡ last_of name (wholes (first ∷ second ∷ [])))
    × (c''.state ≡ field)
    × (c''.headers.written ≡ [])
    × (c''.body.written ≡ [])
deliver_collected_example =
    deliver_collected idle first (second ∷ []) ((1 ∷ []) ∷ (2 ∷ []) ∷ []) 200 4 refl refl refl
      (omega arith) (omega arith) (ground arith) (omega arith) (omega arith)

-- After a response with headers, one without.
abbrev used : Capture
used = record idle { headers = record { length = 1024; written = [] } }
