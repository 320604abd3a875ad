-- ===== src/Script/Done.antt =====
-- What the script's `done` is given.
use Prim.Native.String.{String}
use mathlib.Core.Path.{subst}
use wrk.Base.{ℕ, ◌≡◌, ◌≢◌, refl, ap, sym, ◌∙◌, true, List, [], ◌∷◌, codes, same_bytes}
use wrk.Float.{Float}
use wrk.Stats.{Errors}
use wrk.Lua.{stats_box, Value, number, string, table, userdata, Heap}
use wrk.Lua.Api.{is_closure}
use wrk.Lua.Laws.{HeapLaws}
use wrk.Script.{field_value}
use wrk.Script.Fields.{
  put_fields, HasFields, AreDistinct, NotAmong, put_fields-HasFields, put_fields-other,
  put_fields-Live, HasFields-kept, global-put_fields, HasFields-put,
}
use wrk.Script.Report.{summary_fields, error_fields, report_to_script}
use wrk.Script.Calls.{with_errors, with_stats, called, done_lem, report_run}

summary-AreDistinct :
    (duration complete bytes : ℕ)
    → AreDistinct (summary_fields duration complete bytes)
      × NotAmong (codes "errors") (summary_fields duration complete bytes)
unfolding same_bytes
summary-AreDistinct duration complete bytes =
    (((refl, (refl, tt)), ((refl, tt), (tt, tt))), (refl, (refl, (refl, tt))))

errors-AreDistinct : (e : Errors) → AreDistinct (error_fields e)
unfolding same_bytes
errors-AreDistinct e = (
  (refl, (refl, (refl, (refl, tt)))),
  ((refl, (refl, (refl, tt))), ((refl, (refl, tt)), ((refl, tt), (tt, tt)))),
)

module _ {W F : Type 0} ⦃fl : Float F⦄ (heap : Heap W F) where
  -- A field of a table is a number.
  abbrev pub IsNumber : W → ℕ → String → ℕ → Type 0
  IsNumber w t name n = heap.get w t (string (codes name)) ≡ number (fl.of_i64 n)

  -- What the script finds in table `t` at the call of `done`.
  pub record IsReport (w : W) (t duration complete bytes : ℕ) (e : Errors) : Type 0 where
    pub has_duration : IsNumber w t "duration" duration
    pub has_requests : IsNumber w t "requests" complete
    pub has_bytes : IsNumber w t "bytes" bytes
    pub errors_at : ℕ
    pub has_errors : heap.get w t (string (codes "errors")) ≡ table errors_at
    pub has_connect : IsNumber w errors_at "connect" e.connect
    pub has_read : IsNumber w errors_at "read" e.read
    pub has_write : IsNumber w errors_at "write" e.write
    pub has_status : IsNumber w errors_at "status" e.status
    pub has_timeout : IsNumber w errors_at "timeout" e.timeout

  -- The same by the lists of fields.
  record HasReport (w : W) (t duration complete bytes : ℕ) (e : Errors) : Type 0 where
    pub summary : HasFields heap w t (summary_fields duration complete bytes)
    pub errors :
        (t' : ℕ) × (heap.get w t (string (codes "errors")) ≡ table t')
        × HasFields heap w t' (error_fields e)

module _ {W F : Type 0} ⦃fl : Float F⦄ (heap : Heap W F) (laws : HeapLaws W F ⦃heap = heap⦄) where
  with_errors-HasReport :
      (w : W) (duration complete bytes : ℕ) (e : Errors)
      → let (t, w1) = heap.new_table w in
        HasReport heap
          (with_errors heap (put_fields heap w1 t (summary_fields duration complete bytes)) t e)
          t
          duration
          complete
          bytes
          e
  with_errors-HasReport w duration complete bytes e =
      let fields = summary_fields duration complete bytes in
      let (t, w1) = heap.new_table w in
      let w2 = put_fields heap w1 t fields in
      let (t', w3) = heap.new_table w2 in
      let w4 = put_fields heap w3 t' (error_fields e) in
      let live : laws.Live w2 t = put_fields-Live heap laws w1 t t fields (laws.new-Live w) in
      let apart : t' ≢ t =
        λ same. laws.new-fresh w2 (subst (λ k. laws.Live w2 k) (sym same) live) in
      let first : HasFields heap w2 t fields =
        put_fields-HasFields heap laws w1 t fields
          (summary-AreDistinct duration complete bytes).0 in
      let kept : HasFields heap w4 t fields =
        HasFields-kept heap laws w2 w4 t fields
          (λ k.
            put_fields-other heap laws w3 t' t (error_fields e) k apart
            ∙ laws.get-new_table w2 t k live)
          first in
      let errors : HasFields heap w4 t' (error_fields e) =
        put_fields-HasFields heap laws w3 t' (error_fields e) (errors-AreDistinct e) in
      record {
        summary =
            HasFields-put heap laws w4 t fields (codes "errors") (table t')
              (summary-AreDistinct duration complete bytes).1 kept;
        errors = (
          t',
          laws.get-put_self w4 t (string (codes "errors")) (table t'),
          HasFields-kept heap laws w4 (heap.put w4 t (string (codes "errors")) (table t')) t'
              (error_fields e)
              (λ k.
                laws.get-put_table w4 t t' (string (codes "errors")) k (table t')
                  (λ same. apart (sym same)))
              errors,
        );
      }

  HasReport-kept :
      (w w' : W) (t duration complete bytes : ℕ) (e : Errors)
      → ((t' : ℕ) (k : Value F) → heap.get w' t' k ≡ heap.get w t' k)
      → HasReport heap w t duration complete bytes e
      → HasReport heap w' t duration complete bytes e
  HasReport-kept w w' t duration complete bytes e same r =
      let (t', at_errors, fields) = r.errors in
      record {
        summary =
            HasFields-kept heap laws w w' t (summary_fields duration complete bytes) (same t)
              r.summary;
        errors = (
          t',
          same t (string (codes "errors")) ∙ at_errors,
          HasFields-kept heap laws w w' t' (error_fields e) (same t') fields,
        );
      }

  HasReport-IsReport :
      (w : W) (t duration complete bytes : ℕ) (e : Errors)
      → HasReport heap w t duration complete bytes e
      → IsReport heap w t duration complete bytes e
  unfolding field_value
  HasReport-IsReport w t duration complete bytes e r =
      let (d, (q, (b, u))) = r.summary in
      let (t', at_errors, (c, (rd, (wr, (st, (ti, u')))))) = r.errors in
      record {
        has_duration = d;
        has_requests = q;
        has_bytes = b;
        errors_at = t';
        has_errors = at_errors;
        has_connect = c;
        has_read = rd;
        has_write = wr;
        has_status = st;
        has_timeout = ti;
      }

  with_stats-get :
      (w : W) (pointer t : ℕ) (k : Value F)
      → heap.get (with_stats heap w pointer).1 t k ≡ heap.get w t k
  with_stats-get w pointer t k =
      let (u, w1) = heap.new_userdata w (stats_box pointer) in
      laws.get-set_metatable w1 u t (heap.registry w1 (codes "wrk.stats")) k
      ∙ laws.get-new_userdata w (stats_box pointer) t k

  -- From an empty stack, a script that has a function `done` is called exactly once, with three arguments: a
  -- table, and the statistics of the latencies and of the requests. At the call the table has the
  -- duration, the requests and the bytes, and under "errors" a table that has the five
  -- counts of errors. If the call returns, the stack is empty again; if it raises an error, that is passed on.
  pub report_to_script_lem :
      (w : W) (duration complete bytes latency requests : ℕ) (e : Errors)
      → is_closure (heap.global w (codes "done")) ≡ true
      → (w' : W) × (t u u' : ℕ) × (report_to_script ⦃heap = heap⦄ duration complete bytes e latency
            requests
            (record { stack = []; heap = w })
          ≡ called [] (heap.global w (codes "done")) (
              heap.call w'
                (heap.global w (codes "done"))
                (table t ∷ userdata u (stats_box latency) ∷ userdata u' (stats_box requests) ∷ [])))
        × IsReport heap w' t duration complete bytes e
  report_to_script_lem w duration complete bytes latency requests e h =
      let fields = summary_fields duration complete bytes in
      let (t, w1) = heap.new_table w in
      let w2 = put_fields heap w1 t fields in
      let w3 = with_errors heap w2 t e in
      let (u, w4) = with_stats heap w3 latency in
      let (u', w5) = with_stats heap w4 requests in
      let f = heap.global w (codes "done") in
      let same : heap.global w3 (codes "done") ≡ f =
        laws.global-put _ (codes "done") t (string (codes "errors")) _
        ∙ global-put_fields heap laws _ _ (error_fields e) (codes "done")
        ∙ laws.global-new_table w2 (codes "done")
        ∙ global-put_fields heap laws w1 t fields (codes "done")
        ∙ laws.global-new_table w (codes "done") in
      let args : List (Value F) =
        table t ∷ userdata u (stats_box latency) ∷ userdata u' (stats_box requests) ∷ [] in
      (
        w5,
        t,
        u,
        u',
        report_run ⦃heap = heap⦄ w duration complete bytes latency requests e h
            ∙ done_lem ⦃heap = heap⦄ w3 t latency requests
            ∙ ap (λ (g : Value F). called [] g (heap.call w5 g args)) same,
        HasReport-IsReport w5 t duration complete bytes e (
            HasReport-kept w3 w5 t duration complete bytes e
              (λ t' k. with_stats-get w4 requests t' k ∙ with_stats-get w3 latency t' k)
              (with_errors-HasReport w duration complete bytes e)),
      )
