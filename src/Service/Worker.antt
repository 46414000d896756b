-- ===== src/Service/Worker.antt =====
-- `TaskWorker` of src/task_queue.py and the draining loop of its `LocalTaskRunner`. The analysis that
-- a task runs (`run_default_analysis_job` of src/service_worker.py) enters as an interface.
pub mod Round
pub mod Draining
use team_c_edr.Base.{ℕ, zero, suc, String, Option, none, some, List, ◌≡◌, ◌==◌, if◌then◌else◌}
use team_c_edr.Json.{Value, Items, Fields, get, as_obj, as_arr, objects, str, field, end}
use team_c_edr.Service.{
  succeeded, QueuedTask, Db, Fault, value_error, Result, ok, err, Mint, TaskStatus,
}
use team_c_edr.Service.Tasks.{Pick}
use team_c_edr.Service.Tasks.Store

-- The analysis of a batch: the id of the saved run, or the exception. It writes runs and outbox rows
-- and leaves the task table alone.
pub record AnalysisJob : Type 0 where
  pub run : Mint → List Fields → Fields → Db → Result String × Db
  pub text : Fault → String
  pub keeps_tasks :
      (m : Mint) (events : List Fields) (input_meta : Fields) (db : Db)
      → (run m events input_meta db).1.tasks ≡ db.tasks

-- The clock and the new ids of one round.
pub record Clock : Type 0 where
  pub claimed_at : String
  pub job : Mint
  pub finish : Mint

module _ (job : AnalysisJob) (pick : Pick) where
  -- The call of the analysis in `_run_task`, behind the test of the payload.
  unfoldable pub run_payload : Mint → Fields → Db → Result String × Db
  run_payload m payload db = elim (as_arr (get "events" payload)) [
    | none ↦ (err (value_error "analysis task payload must include events and input_meta"), db)
    | some events ↦ elim (as_obj (get "input_meta" payload)) [
      | none ↦ (err (value_error "analysis task payload must include events and input_meta"), db)
      | some input_meta ↦ job.run m (objects events) input_meta db
    ]
  ]

  -- The `except` clause of `_run_task`.
  unfoldable pub or_fail : Clock → String → Result (Unit {0}) × Db → Result (Unit {0}) × Db
  or_fail c id (ok u, db) = (ok u, db)
  or_fail c id (err e, db) = Store.fail c.finish id (job.text e) db

  unfoldable pub complete_run : Clock → String → Result String × Db → Result (Unit {0}) × Db
  complete_run c id (ok run_id, db) =
      Store.complete c.finish id succeeded (field "run_id" (str run_id) end) db
  complete_run c id (err e, db) = (err e, db)

  unfoldable pub run_task : Clock → QueuedTask → Db → Result (Unit {0}) × Db
  unfolding run_payload or_fail complete_run
  run_task c task db =
      or_fail c task.task_id (complete_run c task.task_id (run_payload c.job task.payload db))

  abbrev pub counted : Result (Unit {0}) × Db → Result ℕ × Db
  counted (ok u, db) = (ok 1, db)
  counted (err e, db) = (err e, db)

  abbrev pub run_claimed : Clock → Option QueuedTask × Db → Result ℕ × Db
  run_claimed c (none, db) = (ok 0, db)
  run_claimed c (some task, db) = counted (run_task c task db)

  unfoldable pub drain_once : Clock → Db → Result ℕ × Db
  unfolding run_task
  drain_once c db = run_claimed c (Store.claim_next pick c.claimed_at db)

  -- The loop of `_drain_queue`, a round of the clock for each; `none` means that the fuel ran out.
  unfoldable pub drain_queue : ℕ → (ℕ → Clock) → Db → Option (Result (Unit {0})) × Db
  drain_queue zero clock db = (none, db)
  drain_queue (suc fuel) clock db =
      let rest : Db → Option (Result (Unit {0})) × Db = drain_queue fuel (λ n. clock (suc n)) in
      elim (drain_once (clock 0) db).0 [
        | err e ↦ (some (err e), (drain_once (clock 0) db).1)
        | ok processed ↦
            if processed == 0
            then (some (ok tt), (drain_once (clock 0) db).1)
            else rest (drain_once (clock 0) db).1
      ]
