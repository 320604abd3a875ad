-- ===== src/Script/Tests.antt =====
-- The theorems on the script at concrete states.
use wrk.Base.{
  ℕ, ◌+◌, ◌^◌, ◌<◌, ◌≡◌, ◌≢◌, ◌↔◌, ◌⊎◌, inl, inr, refl, ap, true, false, Option, none, some, List,
  [], ◌∷◌, arith, length, codes,
}
use wrk.Float.Ratio.{Ratio, ratio, ratio_float}
use wrk.Stats.{Errors}
use wrk.Lua.{
  Addr, stats_box, thread_box, Value, nil, boolean, number, string, table, function, userdata,
  Machine, in_call, Result, ok, raised, fault,
}
use wrk.Lua.Api.{is_closure}
use wrk.Lua.Sample.{World, sample_heap, sample_laws, sample_live, Place-discrete}
use wrk.Script.Report.{report_to_script}
use wrk.Script.Calls.{called}
use wrk.Script.Done.{IsReport, report_to_script_lem}
use wrk.Script.Copy.{Both, script_copy_value}
use wrk.Script.Copy.Flat.{copy_table}
use wrk.Script.Copy.Nested.{copy_nested}
use wrk.Script.Thread.{Peer, set_peer, script_thread_set, script_thread_get}
use wrk.Script.Thread.Share.{get_frame, set_frame, set_get}
use wrk.Script.Address.{returns, exits, script_wrk_lookup, HasAddrs, script_wrk_lookup_lem}
use wrk.Script.Request.{script_request, requested, script_request_lem, script_init}
use wrk.Script.Request.Init.{call_init, with_thread, script_init_lem}
use wrk.Url.{UrlParts, lua_nil, lua_string, push_url_part, field_bytes, slice}
use wrk.Script.Fields.{HasFields}
use wrk.Script.Create.Module.{load_file, module_fields, script_create_lem}
use wrk.Script.Create.{path_of, script_create, header_of}
use wrk.Script.Create.Headers.{HasNoColon, header_text, with_headers, header_of_lem}

abbrev V : Type 0
V = Value Ratio

-- Table 1 is `{a = true}`, table 2 holds table 3, which is empty.
abbrev world : World
world = record {
  writes = ((1, string (codes "a")), boolean true) ∷ [];
  globals =
      (codes "wrk", table 4)
      ∷ (codes "done", function 5)
      ∷ (codes "request", function 6)
      ∷ (codes "t", table 1)
      ∷ [];
  links =
      ((1, nil), (string (codes "a"), boolean true))
      ∷ ((2, nil), (string (codes "b"), table 3))
      ∷ [];
  next_id = 10;
}

abbrev machine : List V → Machine World Ratio
machine st = record { stack = st; heap = world }

abbrev peers : ℕ → Peer World Ratio
peers t = record { machine = machine []; addr = none; is_stopped = false }

abbrev counts : Errors
counts = record { connect = 1; read = 2; write = 3; status = 4; timeout = 5 }

report_to_script_lem_example :
    (w' : World) × (t u u' : ℕ) × (report_to_script 7 8 9 counts 20 21 (machine [])
      ≡ called [] (function 5) (
          sample_heap.call w'
            (function 5)
            (table t ∷ userdata u (stats_box 20) ∷ userdata u' (stats_box 21) ∷ [])))
    × IsReport sample_heap w' t 7 8 9 counts
unfolding sample_heap
report_to_script_lem_example =
    report_to_script_lem sample_heap sample_laws world 7 8 9 20 21 counts refl

copy_table_example :
    script_copy_value 3 1 (record { src = machine (table 1 ∷ []); dst = machine [] })
    ≡ ok (
      tt,
      record {
        src = machine [];
        dst = record {
          stack = table 10 ∷ [];
          heap = record world {
            writes = ((10, boolean true), string (codes "a")) ∷ world.writes;
            next_id = 11;
          };
        };
      },
    )
unfolding sample_heap Place-discrete
copy_table_example =
    copy_table 3 1 ((string (codes "a"), boolean true) ∷ []) [] world (machine []) (refl, refl)
      ((refl, refl, refl), tt) (omega arith)

copy_nested_example :
    script_copy_value 6 1 (record { src = machine (table 2 ∷ []); dst = machine [] }) ≡ fault
unfolding sample_heap Place-discrete
copy_nested_example =
    copy_nested 6 2 3 (string (codes "b")) [] world (machine []) refl refl refl refl (omega arith)

set_get_example :
    (peers' : ℕ → Peer World Ratio) × (script_thread_set 1
        (record { lua = machine (set_frame 7 0 (codes "n") (boolean true)); peers = peers })
      ≡ ok
          (tt, record { lua = machine (set_frame 7 0 (codes "n") (boolean true)); peers = peers' }))
    × ((peers' 0).machine.stack ≡ [])
    × ((u : ℕ) → u ≢ 0 → peers' u ≡ peers u)
    × (script_thread_get 1 (record { lua = machine (get_frame 8 0 (codes "n")); peers = peers' })
        ≡ ok (
          tt,
          record {
            lua = machine (boolean true ∷ get_frame 8 0 (codes "n"));
            peers = set_peer peers' 0 (peers' 0);
          },
        ))
set_get_example = set_get sample_laws 0 0 7 8 0 (codes "n") (boolean true) world world peers refl

abbrev two_addrs : List Addr
two_addrs =
    record { family = 2; socktype = 1; protocol = 6; bytes = 127 ∷ 1 ∷ [] }
    ∷ record { family = 10; socktype = 1; protocol = 6; bytes = 1 ∷ [] }
    ∷ []

exact_ratio :
    (i j : ℕ) → i < 2 ^ 53 → j < 2 ^ 53 → i ≢ j → ratio_float.of_i64 i ≢ ratio_float.of_i64 j
exact_ratio i j hi hj apart e = apart (ap (λ (x : Ratio). x.num) e)

script_wrk_lookup_lem_example :
    let resolve : Option (List ℕ) → Option (List ℕ) → ℕ ⊎ List Addr =
      λ host service. inr two_addrs in
    let s = machine (string (codes "80") ∷ string (codes "a") ∷ []) in
    ((rc : ℕ)
      → ◌≡◌ {A = ℕ ⊎ List Addr} (inr two_addrs) (inl rc)
      → script_wrk_lookup resolve s ≡ ok (exits 1, s))
    × ((addrs : List Addr)
        → ◌≡◌ {A = ℕ ⊎ List Addr} (inr two_addrs) (inr addrs)
        → 1 + length addrs < 2 ^ 31
        → (w' : World) × (script_wrk_lookup resolve s
            ≡ ok (
              returns,
              record { stack = table (sample_heap.new_table world).0 ∷ s.stack; heap = w' },
            ))
          × HasAddrs sample_heap w' (sample_heap.new_table world).0 addrs 1)
script_wrk_lookup_lem_example =
    script_wrk_lookup_lem ratio_float sample_heap sample_laws exact_ratio
      (λ host service. inr two_addrs) (codes "a") (codes "80") [] world

script_request_lem_example :
    let f = sample_heap.global world (codes "request") in
    let f' = sample_heap.get world 4 (string (codes "request")) in
    let args : List V = number (ratio 3 1) ∷ [] in
    (is_closure f ≡ true
      → script_request 3 (machine []) ≡ requested [] f (sample_heap.call world f args))
    × (is_closure f ≡ false
        → script_request 3 (machine []) ≡ requested [] f' (sample_heap.call world f' args))
unfolding sample_heap
script_request_lem_example = script_request_lem 3 4 [] world refl

script_init_lem_example :
    let (u, w1) = with_thread sample_heap world 0 in
    let w3 = sample_heap.put w1 4 (string (codes "thread")) (userdata u (thread_box 0)) in
    let f = sample_heap.get world 4 (string (codes "setup")) in
    script_init (λ m. m) 0 (codes "url" ∷ []) (record { src = machine []; dst = machine [] })
    ≡ elim (sample_heap.call w1 f (userdata u (thread_box 0) ∷ []))
        as (λ (r : Option (List V × World)). Result Ratio (Unit {0} × Both World Ratio)) [
          | none ↦ raised (in_call f)
          | some (results, w2) ↦
              call_init sample_heap (record { stack = []; heap = w2 }) [] w3 4 (codes "url" ∷ [])
        ]
unfolding sample_heap
script_init_lem_example =
    script_init_lem (λ m. m) 0 4 4 (codes "url" ∷ []) [] [] world world refl refl (λ m. refl)

header_of_lem_example :
    header_of (codes "Host: a:1") ≡ some (codes "Host", codes "a:1")
    ↔ (HasNoColon (codes "Host") × (codes "Host: a:1" ≡ header_text (codes "Host") (codes "a:1")))
header_of_lem_example = header_of_lem (codes "Host: a:1") (codes "Host") (codes "a:1")

-- The same with a module at table 4 and its headers at table 5; the URL is "http://a".
abbrev module_world : World
module_world = record world { writes = ((4, string (codes "headers")), table 5) ∷ [] }

abbrev http_parts : UrlParts
http_parts = record { field_set = 3; field_data = (0, 4) ∷ (7, 1) ∷ [] }

script_create_lem_example :
    (m : World) × ((k : V) → sample_heap.get m 5 k ≡ sample_heap.get module_world 5 k)
    × HasFields sample_heap
        (with_headers {F = Ratio} sample_heap m 5 (codes "A: b" ∷ []))
        4
        (module_fields (lua_string (codes "http")) (lua_string (codes "a")) lua_nil (codes "/"))
    × (script_create {F = Ratio} none
          (λ url. http_parts)
          (codes "http://a")
          (codes "A: b" ∷ [])
          (record { stack = []; heap = module_world })
        ≡ load_file {F = Ratio} none (record {
          stack = [];
          heap = with_headers {F = Ratio} sample_heap m 5 (codes "A: b" ∷ []);
        }))
unfolding sample_heap Place-discrete push_url_part field_bytes slice path_of
script_create_lem_example =
    script_create_lem sample_heap sample_laws none (λ url. http_parts) (codes "http://a")
      (codes "A: b" ∷ []) module_world 4 5 (lua_string (codes "http")) (lua_string (codes "a"))
      lua_nil (codes "/") refl refl (sample_live module_world 4 (omega arith))
      (sample_live module_world 5 (omega arith)) (λ e. ground arith) refl refl refl refl refl refl
      refl
