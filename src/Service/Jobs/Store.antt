-- ===== src/Service/Jobs/Store.antt =====
-- The job methods of `ServiceStore` (src/service_store.py), each one transaction, and `get_task`.
use team_c_edr.Base.{String, none, some}
use team_c_edr.Json.{Fields}
use team_c_edr.Service.{
  pending, running, succeeded, failed, QueuedTask, Db, key_error, Result, ok, err, transact, Mint,
}
use team_c_edr.Service.Tasks.{task_by_id}
use team_c_edr.Service.Jobs.{
  create_analysis_job, set_analysis_job_task_id, start_analysis_job, complete_analysis_job,
  fail_analysis_job, analysis_job_by_task_id,
}

unfoldable pub create : Mint → String → String → Fields → Db → Result (Unit {0}) × Db
unfolding create_analysis_job
create m job_id celery_task_id input_meta db =
    transact db (create_analysis_job m job_id celery_task_id input_meta pending db)

unfoldable pub set_task_id : Mint → String → String → Db → Result (Unit {0}) × Db
unfolding set_analysis_job_task_id
set_task_id m job_id celery_task_id db =
    transact db (set_analysis_job_task_id m job_id celery_task_id db)

unfoldable pub start : Mint → String → Db → Result (Unit {0}) × Db
unfolding start_analysis_job
start m job_id db = transact db (start_analysis_job m job_id running db)

unfoldable pub complete : Mint → String → String → Db → Result (Unit {0}) × Db
unfolding complete_analysis_job
complete m job_id run_id db = transact db (complete_analysis_job m job_id run_id succeeded db)

unfoldable pub fail : Mint → String → String → Db → Result (Unit {0}) × Db
unfolding fail_analysis_job
fail m job_id error db = transact db (fail_analysis_job m job_id error failed db)

-- A task row comes before a job.
unfoldable pub get_task : Db → String → Result QueuedTask
unfolding task_by_id analysis_job_by_task_id
get_task db task_id = elim (task_by_id db task_id) [
  | some task ↦ ok task
  | none ↦ elim (analysis_job_by_task_id db task_id) [
    | some task ↦ ok task
    | none ↦ err (key_error task_id)
  ]
]
