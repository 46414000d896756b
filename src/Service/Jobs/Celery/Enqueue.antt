-- ===== src/Service/Jobs/Celery/Enqueue.antt =====
-- What `CeleryTaskQueue.enqueue_analysis_job` of src/task_queue.py leaves in the job table.
use team_c_edr.Base.{false, String, none, some, List, [], ◌∷◌, ◌++◌, ◌≡◌, refl, arith, eq_refl}
use team_c_edr.Json.{Fields, field, end, obj}
use team_c_edr.Service.{pending, QueuedTask, AnalysisJobRow, Db, Result, ok, Mint, add_outbox}
use team_c_edr.Service.Table.{find, find-append}
use team_c_edr.Service.Tasks.{task_key, task_by_id}
use team_c_edr.Service.Jobs.{
  job_key, new_job, has_task_id, create_analysis_job, analysis_job_by_task_id, queued_analysis_job,
}
use team_c_edr.Service.Jobs.Store
use team_c_edr.Service.Jobs.Celery.{Sender, enqueue_analysis_job}

-- A call that returned, and added one row to the job table.
record Created (row : AnalysisJobRow) (before : Db) (x : Result (Unit {0}) × Db) : Type 0 where
  after : Db
  returned : x ≡ (ok tt, after)
  jobs : after.jobs ≡ before.jobs ++ (row ∷ [])
  tasks : after.tasks ≡ before.tasks

create-Created :
    (m : Mint) (id celery_task_id : String) (input_meta : Fields) (db : Db)
    → find job_key id db.jobs ≡ none
    → has_task_id celery_task_id db.jobs ≡ false
    → Created
        (new_job m id celery_task_id input_meta pending)
        db
        (Store.create m id celery_task_id input_meta db)
unfolding Store.create add_outbox
create-Created m id celery_task_id input_meta db fresh unused =
    rw (create_analysis_job, fresh, unused)
      (record { after = _; returned = refl; jobs = refl; tasks = refl })

found_new :
    (rows : List AnalysisJobRow) (row : AnalysisJobRow)
    → find job_key row.job_id rows ≡ none
    → find job_key row.job_id (rows ++ (row ∷ [])) ≡ some row
found_new rows row fresh =
    ground (arith, fresh, find-append job_key row.job_id rows row, eq_refl row.job_id)

module _ (send : Sender) (m m' : Mint) (events : List Fields) (input_meta : Fields) (db : Db)
    (fresh : find job_key m.id db.jobs ≡ none) (unused : has_task_id m.id db.jobs ≡ false) where
  -- A job that the broker took under its own id can be asked for under the id that was returned: it
  -- is pending, without result and error. The job's id is new to the job table, as a job's
  -- id and as a task id, and no task has it.
  pub get_task-enqueue_analysis_job :
      find task_key m.id db.tasks ≡ none
      → send events input_meta m.id ≡ ok m.id
      → let (o, after) = enqueue_analysis_job send m m' events input_meta db in
        (task : QueuedTask) × (o ≡ ok task)
        × (task.status ≡ pending)
        × (Store.get_task after task.task_id
            ≡ ok (record task { payload = field "input_meta" (obj input_meta) end }))
  unfolding enqueue_analysis_job Store.get_task
  get_task-enqueue_analysis_job no_task sent =
      let w = create-Created m m.id m.id input_meta db fresh unused in
      rw (w.returned, sent, eq_refl m.id)
        (
          _,
          refl,
          refl,
          rw
              (
                Store.get_task,
                task_by_id,
                w.tasks,
                no_task,
                analysis_job_by_task_id,
                w.jobs,
                found_new db.jobs (new_job m m.id m.id input_meta pending) fresh,
              )
              (unfold queued_analysis_job in refl),
        )
