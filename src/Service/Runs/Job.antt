-- ===== src/Service/Runs/Job.antt =====
-- `run_default_analysis_job` of src/service_worker.py, which fills the interface of the two workers: the
-- analysis up to the payload is a parameter, saving the payload is `save_run_result`.
use team_c_edr.Base.{String, List, ◌≡◌, refl, inl, inr}
use team_c_edr.Json.{Fields, field, end, str}
use team_c_edr.Service.{
  AnalysisJobRow, Db, Fault, Result, ok, err, Mint, add_outbox, succeeded, running,
}
use team_c_edr.Service.Jobs.{started, completed}
use team_c_edr.Service.Jobs.Celery
use team_c_edr.Service.Jobs.Celery.Outcomes.{Became}
use team_c_edr.Service.Worker
use team_c_edr.Service.Runs.Store.{RunMint, save_run_result}
use team_c_edr.Service.Runs.Store.Saving.{with_rows, save_run_result_atomic}

module _ (analyse : List Fields → Fields → Result Fields) (text : Fault → String)
    (mint : Mint → RunMint) where
  abbrev save_made : Mint → Result Fields → Db → Result String × Db
  save_made m (err e) db = (err e, db)
  save_made m (ok payload) db = save_run_result (mint m) payload db

  unfoldable pub run_default_analysis_job : Mint → List Fields → Fields → Db → Result String × Db
  run_default_analysis_job m events input_meta db = save_made m (analyse events input_meta) db

  save_made_keeps :
      (m : Mint) (made : Result Fields) (db : Db)
      → ((save_made m made db).1.jobs ≡ db.jobs) × ((save_made m made db).1.tasks ≡ db.tasks)
  unfolding add_outbox
  save_made_keeps m (err e) db = (refl, refl)
  save_made_keeps m (ok payload) db = elim (save_run_result_atomic (mint m) payload db) [
    | inl saved ↦ rw saved (refl, refl)
    | inr (e, raised) ↦ rw raised (refl, refl)
  ]

  pub run_keeps :
      (m : Mint) (events : List Fields) (input_meta : Fields) (db : Db)
      → ((run_default_analysis_job m events input_meta db).1.jobs ≡ db.jobs)
        × ((run_default_analysis_job m events input_meta db).1.tasks ≡ db.tasks)
  unfolding run_default_analysis_job
  run_keeps m events input_meta db = save_made_keeps m (analyse events input_meta) db

  -- The analysis of the Celery worker, and of the worker of the task queue.
  abbrev pub celery_job : Celery.AnalysisJob
  celery_job = record {
    run = run_default_analysis_job;
    text = text;
    keeps_jobs = λ m events input_meta db. (run_keeps m events input_meta db).0;
  }

  abbrev pub worker_job : Worker.AnalysisJob
  worker_job = record {
    run = run_default_analysis_job;
    text = text;
    keeps_tasks = λ m events input_meta db. (run_keeps m events input_meta db).1;
  }

  -- A job that ends well: the task returns the run id, the job is succeeded with it, and the tables of
  -- the runs have got the rows of the payload.
  pub record EndsSaved (m_start m_run m_end : Mint) (id : String) (db : Db) (r : AnalysisJobRow)
      (payload : Fields) (x : Result Fields × Db) : Type 0 where
    pub after : Db
    pub returned : x ≡ (
      ok (field "status" (str "succeeded") (field "run_id" (str (mint m_run).run_id) end)),
      after,
    )
    pub jobs :
        Became id db.jobs after.jobs
          (completed m_end.now succeeded (mint m_run).run_id (started m_start.now running r))
    pub runs : after.runs ≡ with_rows (mint m_run) payload db.runs
