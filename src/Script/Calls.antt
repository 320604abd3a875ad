-- ===== src/Script/Calls.antt =====
-- The calls at the end of a test, one after the other: what they leave on the stack and in the heap.
use wrk.Base.{ℕ, ◌≡◌, refl, ◌∙◌, true, Option, none, some, List, [], ◌∷◌, arith, codes}
use wrk.Float.{Float}
use wrk.Stats.{Errors}
use wrk.Lua.{
  stats_box, Value, string, table, userdata, Heap, Machine, in_call, Result, ok, raised, ◌>>◌,
}
use wrk.Lua.Api.{setfield, from_base, is_closure}
use wrk.Lua.Seq.{bind_ok}
use wrk.Script.{set_fields, script_is_function, script_has_done}
use wrk.Script.Fields.{put_fields, set_fields_lem}
use wrk.Script.Report.{
  summary_fields, error_fields, script_summary, script_errors, script_done, report_to_script,
}

module _ {W F : Type 0} ⦃fl : Float F⦄ (heap : Heap W F) where
  -- The heap after `script_errors`, with the summary in table `t`.
  abbrev pub with_errors : W → ℕ → Errors → W
  with_errors w t e =
      let (t', w1) = heap.new_table w in
      heap.put (put_fields heap w1 t' (error_fields e)) t (string (codes "errors")) (table t')

  -- The heap with a userdata for a pointer to statistics, and its reference.
  abbrev pub with_stats : W → ℕ → ℕ × W
  with_stats w pointer =
      let (u, w1) = heap.new_userdata w (stats_box pointer) in
      (u, heap.set_metatable w1 u (heap.registry w1 (codes "wrk.stats")))

module _ {W F : Type 0} where
  -- How a call of the script ends, with the stack as it was before.
  abbrev pub called :
      List (Value F) → Value F → Option (List (Value F) × W) → Result F (Unit {0} × Machine W F)
  called st f none = raised (in_call f)
  called st f (some (results, w)) = ok (tt, record { stack = st; heap = w })

module _ {W F : Type 0} ⦃fl : Float F⦄ ⦃heap : Heap W F⦄ where
  summary_lem :
      (w : W) (duration requests bytes : ℕ)
      → let (t, w1) = heap.new_table w in
        script_summary {F = F} duration requests bytes (record { stack = []; heap = w })
        ≡ ok (
          tt,
          record {
            stack = table t ∷ [];
            heap = put_fields heap w1 t (summary_fields duration requests bytes);
          },
        )
  unfolding script_summary
  summary_lem w duration requests bytes =
      let (t, w1) = heap.new_table w in
      set_fields_lem (from_base 1) t (summary_fields duration requests bytes) (table t ∷ []) w1
        (λ v. refl)

  errors_lem :
      (w : W) (t : ℕ) (e : Errors)
      → script_errors {F = F} e (record { stack = table t ∷ []; heap = w })
        ≡ ok (tt, record { stack = table t ∷ []; heap = with_errors heap w t e })
  unfolding script_errors
  errors_lem w t e =
      let (t', w1) = heap.new_table w in
      bind_ok (set_fields (from_base 2) (error_fields e))
        (λ _. setfield (from_base 1) (codes "errors"))
        (record { stack = table t' ∷ table t ∷ []; heap = w1 })
        (set_fields_lem (from_base 2) t' (error_fields e) (table t' ∷ table t ∷ []) w1 (λ v. refl))

  pub done_lem :
      (w : W) (t latency requests : ℕ)
      → let (u, w1) = with_stats heap w latency in
        let (u', w2) = with_stats heap w1 requests in
        let f = heap.global w (codes "done") in
        script_done {F = F} latency requests (record { stack = table t ∷ []; heap = w })
        ≡ called [] f (
            heap.call w2 f
              (table t ∷ userdata u (stats_box latency) ∷ userdata u' (stats_box requests) ∷ []))
  unfolding script_done
  done_lem w t latency requests = ground arith

  -- From an empty stack.
  pub report_run :
      (w : W) (duration complete bytes latency requests : ℕ) (e : Errors)
      → is_closure (heap.global w (codes "done")) ≡ true
      → let (t, w1) = heap.new_table w in
        let w2 = put_fields heap w1 t (summary_fields duration complete bytes) in
        report_to_script {F = F} duration complete bytes e latency requests
          (record { stack = []; heap = w })
        ≡ script_done latency requests
            (record { stack = table t ∷ []; heap = with_errors heap w2 t e })
  unfolding report_to_script script_has_done script_is_function
  report_run w duration complete bytes latency requests e h =
      let (t, w1) = heap.new_table w in
      let w2 = put_fields heap w1 t (summary_fields duration complete bytes) in
      let s : Machine W F = record { stack = []; heap = w } in
      let s1 : Machine W F = record { stack = table t ∷ []; heap = w2 } in
      rw h (
        bind_ok (script_summary duration complete bytes)
          (λ _. script_errors e >> script_done latency requests) s
          (summary_lem w duration complete bytes)
        ∙ bind_ok (script_errors e) (λ _. script_done latency requests) s1 (errors_lem w2 t e))
