-- ===== src/Script/Report.antt =====
-- The end of a test: `script_summary`, `script_errors` and `script_done` of src/script.c.
use wrk.Base.{ℕ, List, [], ◌∷◌, if◌then◌else◌, codes}
use wrk.Float.{Float}
use wrk.Stats.{Errors}
use wrk.Lua.{stats_box, Heap, M, pure, ◌>>=◌, ◌>>◌}
use wrk.Lua.Api.{
  push, pop, value_at, getglobal, newtable, setfield, call, newuserdata, getmetatable, setmetatable,
  from_base,
}
use wrk.Script.{word, TableField, set_fields, script_has_done}

abbrev pub summary_fields : ℕ → ℕ → ℕ → List TableField
summary_fields duration requests bytes =
    record { name = codes "duration"; value = word duration }
    ∷ record { name = codes "requests"; value = word requests }
    ∷ record { name = codes "bytes"; value = word bytes }
    ∷ []

abbrev pub error_fields : Errors → List TableField
error_fields e =
    record { name = codes "connect"; value = word e.connect }
    ∷ record { name = codes "read"; value = word e.read }
    ∷ record { name = codes "write"; value = word e.write }
    ∷ record { name = codes "status"; value = word e.status }
    ∷ record { name = codes "timeout"; value = word e.timeout }
    ∷ []

module _ {W F : Type 0} ⦃fl : Float F⦄ ⦃heap : Heap W F⦄ where
  unfoldable pub script_summary : ℕ → ℕ → ℕ → M W F (Unit {0})
  script_summary duration requests bytes = do
    newtable
    set_fields (from_base 1) (summary_fields duration requests bytes)

  unfoldable pub script_errors : Errors → M W F (Unit {0})
  script_errors e = do
    newtable
    set_fields (from_base 2) (error_fields e)
    setfield (from_base 1) (codes "errors")

module _ {W F : Type 0} ⦃heap : Heap W F⦄ where
  -- `latency` and `requests` are the pointers to the two statistics.
  unfoldable pub script_done : ℕ → ℕ → M W F (Unit {0})
  script_done latency requests = do
    getglobal (codes "done")
    v ← value_at (from_base 1)
    push v
    newuserdata (stats_box latency)
    getmetatable (codes "wrk.stats")
    setmetatable (from_base 4)
    newuserdata (stats_box requests)
    getmetatable (codes "wrk.stats")
    setmetatable (from_base 5)
    call 3 0
    pop 1

module _ {W F : Type 0} ⦃fl : Float F⦄ ⦃heap : Heap W F⦄ where
  -- The end of `main`.
  unfoldable pub report_to_script : ℕ → ℕ → ℕ → Errors → ℕ → ℕ → M W F (Unit {0})
  unfolding script_summary script_errors script_done
  report_to_script duration complete bytes e latency requests = do
    has_done ← script_has_done
    if has_done
        then (do
          script_summary duration complete bytes
          script_errors e
          script_done latency requests)
        else pure tt
