-- ===== src/Service/Jobs/Celery.antt =====
-- `CeleryTaskQueue.enqueue_analysis_job` of src/task_queue.py and `run_analysis_task` of
-- src/celery_tasks.py. The Celery broker enters as the call that publishes a task; the analysis, as
-- for the other worker, as an interface.
pub mod Outcomes
pub mod Enqueue
use team_c_edr.Base.{
  String, Bool, true, false, not, Option, none, some, List, ◌≡◌, str_eq, if◌then◌else◌,
}
use team_c_edr.Json.{Value, Fields, field, end, str, obj, arr, from_objects}
use team_c_edr.Service.{
  pending, succeeded, QueuedTask, Db, Fault, Result, ok, err, Mint, status_value,
}
use team_c_edr.Service.Jobs.Store

-- `task_sender(events, input_meta, job_id)`: the id that the broker gives, or an exception.
abbrev pub Sender : Type 0
Sender = List Fields → Fields → String → Result String

-- The analysis of a batch: the id of the saved run, or the exception. It writes runs and outbox rows
-- and leaves the job table alone.
pub record AnalysisJob : Type 0 where
  pub run : Mint → List Fields → Fields → Db → Result String × Db
  pub text : Fault → String
  pub keeps_jobs :
      (m : Mint) (events : List Fields) (input_meta : Fields) (db : Db)
      → (run m events input_meta db).1.jobs ≡ db.jobs

abbrev published_task : String → List Fields → Fields → QueuedTask
published_task task_id events input_meta = record {
  task_id = task_id;
  task_type = "analysis";
  status = pending;
  payload = field "events" (arr (from_objects events)) (field "input_meta" (obj input_meta) end);
  result = none;
  error = none;
}

abbrev answered : QueuedTask → Result (Unit {0}) × Db → Result QueuedTask × Db
answered task (ok u, db) = (ok task, db)
answered task (err e, db) = (err e, db)

abbrev published :
    Mint → String → List Fields → Fields → Result String → Db → Result QueuedTask × Db
published m job_id events input_meta (err e) db = (err e, db)
published m job_id events input_meta (ok task_id) db =
    let task = published_task task_id events input_meta in
    if str_eq task_id job_id
    then (ok task, db)
    else answered task (Store.set_task_id m job_id task_id db)

abbrev created :
    Sender → Mint → String → List Fields → Fields → Result (Unit {0}) × Db → Result QueuedTask × Db
created send m job_id events input_meta (err e, db) = (err e, db)
created send m job_id events input_meta (ok u, db) =
    published m job_id events input_meta (send events input_meta job_id) db

-- With a store: the job is recorded before it is published.
unfoldable pub enqueue_analysis_job :
    Sender → Mint → Mint → List Fields → Fields → Db → Result QueuedTask × Db
unfolding from_objects
enqueue_analysis_job send m m' events input_meta db =
    created send m' m.id events input_meta (Store.create m m.id m.id input_meta db)

abbrev raised_again : Fault → Result (Unit {0}) × Db → Result Fields × Db
raised_again e (ok u, db) = (err e, db)
raised_again e (err e', db) = (err e', db)

module _ (job : AnalysisJob) where
  -- `except Exception`: the job is marked as failed and the exception goes on. A failure of the
  -- marking takes its place.
  abbrev pub mark_failed : Mint → Option String → Fault → Db → Result Fields × Db
  mark_failed m none e db = (err e, db)
  mark_failed m (some job_id) e db = raised_again e (Store.fail m job_id (job.text e) db)

  abbrev pub start_if : Mint → Option String → Db → Result (Unit {0}) × Db
  start_if m none db = (ok tt, db)
  start_if m (some job_id) db = Store.start m job_id db

  abbrev pub complete_if : Mint → Option String → String → Db → Result (Unit {0}) × Db
  complete_if m none run_id db = (ok tt, db)
  complete_if m (some job_id) run_id db = Store.complete m job_id run_id db

  abbrev pub finish : Mint → Option String → String → Result (Unit {0}) × Db → Result Fields × Db
  finish m job_id run_id (ok u, db) =
      (ok (field "status" (str (status_value succeeded)) (field "run_id" (str run_id) end)), db)
  finish m job_id run_id (err e, db) = mark_failed m job_id e db

  abbrev pub after_run : Mint → Option String → Result String × Db → Result Fields × Db
  after_run m job_id (err e, db) = mark_failed m job_id e db
  after_run m job_id (ok run_id, db) = finish m job_id run_id (complete_if m job_id run_id db)

  abbrev pub after_start :
      Mint
      → Mint
      → List Fields
      → Fields
      → Option String
      → Result (Unit {0}) × Db
      → Result Fields × Db
  after_start m_run m_end events input_meta job_id (err e, db) = mark_failed m_end job_id e db
  after_start m_run m_end events input_meta job_id (ok u, db) =
      after_run m_end job_id (job.run m_run events input_meta db)

  -- `store.initialize()` is taken to succeed; opening and closing the store leaves the tables alone.
  unfoldable pub run_analysis_task :
      Mint → Mint → Mint → List Fields → Fields → Option String → Db → Result Fields × Db
  unfolding status_value
  run_analysis_task m_start m_run m_end events input_meta job_id db =
      after_start m_run m_end events input_meta job_id (start_if m_start job_id db)
