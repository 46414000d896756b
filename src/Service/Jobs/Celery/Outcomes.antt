-- ===== src/Service/Jobs/Celery/Outcomes.antt =====
-- What has become of a job when `run_analysis_task` of src/celery_tasks.py ends, and what
-- `enqueue_analysis_job` of src/task_queue.py leaves behind.
use team_c_edr.Base.{
  any, Bool, String, none, some, List, ◌≡◌, refl, arith, str_eq, eq_refl, if◌then◌else◌, true,
}
use team_c_edr.Json.{Fields}
use team_c_edr.Service.{
  running, succeeded, failed, AnalysisJobRow, Db, Fault, key_error, Result, ok, err, Mint,
  add_outbox,
}
use team_c_edr.Service.Rows.{RunRow, RunTables}
use team_c_edr.Service.Table.{find, update, find-update}
use team_c_edr.Service.Jobs.{
  job_key, started, completed, stopped, start_analysis_job, complete_analysis_job,
  fail_analysis_job, require_analysis_job_row, has_run,
}
use team_c_edr.Service.Jobs.Store
use team_c_edr.Service.Jobs.Celery.{AnalysisJob, run_analysis_task}

abbrev runs_have : String → RunTables → Bool
runs_have run_id t = any (λ (r : RunRow). str_eq r.run_id run_id) t.runs

-- A call that returned, and updated one row of the job table.
pub record Wrote (id : String) (f : AnalysisJobRow → AnalysisJobRow) (before : Db)
    (x : Result (Unit {0}) × Db) : Type 0 where
  pub after : Db
  pub returned : x ≡ (ok tt, after)
  pub jobs : after.jobs ≡ update job_key id f before.jobs
  pub runs : after.runs ≡ before.runs

module _ (m : Mint) (id : String) (db : Db) (r : AnalysisJobRow)
    (found : find job_key id db.jobs ≡ some r) where
  pub start-Wrote : Wrote id (started m.now running) db (Store.start m id db)
  unfolding Store.start
  start-Wrote =
      rw (start_analysis_job, require_analysis_job_row, found)
        (record { after = _; returned = refl; jobs = refl; runs = refl })

  pub complete-Wrote :
      (run_id : String)
      → has_run run_id db ≡ true
      → Wrote id (completed m.now succeeded run_id) db (Store.complete m id run_id db)
  unfolding Store.complete add_outbox
  complete-Wrote run_id saved =
      rw (complete_analysis_job, require_analysis_job_row, found, saved)
        (record { after = _; returned = refl; jobs = refl; runs = refl })

start_unknown :
    (m : Mint) (id : String) (db : Db)
    → find job_key id db.jobs ≡ none
    → Store.start m id db ≡ (err (key_error id), db)
unfolding Store.start
start_unknown m id db missing = rw (start_analysis_job, require_analysis_job_row, missing) refl

fail_unknown :
    (m : Mint) (id : String) (db : Db) (error : String)
    → find job_key id db.jobs ≡ none
    → Store.fail m id error db ≡ (err (key_error id), db)
unfolding Store.fail
fail_unknown m id db error missing = rw (fail_analysis_job, require_analysis_job_row, missing) refl

-- The row with key `id` became `r'`, the others are as before.
pub record Became (id : String) (before after : List AnalysisJobRow) (r' : AnalysisJobRow)
    : Type 0 where
  pub rows :
      (j : String) → find job_key j after ≡ (if str_eq id j then some r' else find job_key j before)

-- How a job with the row `r` ends: with a result that names the saved run, or with an exception that
-- is recorded in the row.
pub data Ended (job : AnalysisJob) (m_start m_end : Mint) (id : String) (before : Db)
    (r : AnalysisJobRow) : Result Fields × Db → Type 0 where
  completed_with :
      (run_id : String) (payload : Fields) (after : Db)
      → has_run run_id after ≡ true
      → Became id before.jobs after.jobs
          (completed m_end.now succeeded run_id (started m_start.now running r))
      → Ended job m_start m_end id before r (ok payload, after)
  failed_with :
      (e : Fault) (after : Db)
      → Became id before.jobs after.jobs
          (stopped m_end.now failed (job.text e) (started m_start.now running r))
      → Ended job m_start m_end id before r (err e, after)

pub twice-Became :
    (id : String) (f g : AnalysisJobRow → AnalysisJobRow) (rows mid after : List AnalysisJobRow)
    (r : AnalysisJobRow)
    → ((x : AnalysisJobRow) → job_key (f x) ≡ job_key x)
    → ((x : AnalysisJobRow) → job_key (g x) ≡ job_key x)
    → find job_key id rows ≡ some r
    → mid ≡ update job_key id f rows
    → after ≡ update job_key id g mid
    → Became id rows after (g (f r))
twice-Became id f g rows mid after r kf kg found e e' = record {
  rows = λ j.
      rw (e', e)
        (ground (
          arith,
          found,
          eq_refl id,
          find-update job_key id j g (update job_key id f rows) kg,
          find-update job_key id j f rows kf,
          find-update job_key id id f rows kf,
        ));
}

-- A Celery task whose job is not recorded raises a `KeyError` before the analysis runs, and changes
-- no table.
pub run_analysis_task_unknown :
    (job : AnalysisJob) (m_start m_run m_end : Mint) (events : List Fields) (input_meta : Fields)
    (id : String) (db : Db)
    → find job_key id db.jobs ≡ none
    → run_analysis_task job m_start m_run m_end events input_meta (some id) db
      ≡ (err (key_error id), db)
unfolding run_analysis_task
run_analysis_task_unknown job m_start m_run m_end events input_meta id db missing =
    rw
      (
        start_unknown m_start id db missing,
        fail_unknown m_end id db (job.text (key_error id)) missing,
      )
      refl
