-- ===== src/Tests/Jobs.antt =====
-- Celery jobs: one that runs, one that is unknown, one whose publishing fails.
use team_c_edr.Base.{some, [], ◌∷◌, ◌≡◌, refl}
use team_c_edr.Json.{Fields, field, end, str, obj}
use team_c_edr.Service.{
  pending, QueuedTask, AnalysisJobRow, Db, key_error, other_error, ok, err, Mint,
}
use team_c_edr.Service.Table.{find}
use team_c_edr.Tests.Database.{no_runs}
use team_c_edr.Service.Jobs.{new_job}
use team_c_edr.Service.Jobs.Store
use team_c_edr.Service.Jobs.Celery.{Sender, AnalysisJob, enqueue_analysis_job, run_analysis_task}
use team_c_edr.Service.Jobs.Celery.Outcomes.{run_analysis_task_unknown}
use team_c_edr.Service.Jobs.Celery.Enqueue.{get_task-enqueue_analysis_job}

abbrev mint : Mint
mint = record { id = "job-1"; now = "2026-07-03"; outbox_id = "out-1"; outbox_now = "2026-07-03" }

abbrev input_meta : Fields
input_meta = field "tenant_id" (str "lab") end

abbrev empty : Db
empty = record { tasks = []; jobs = []; outbox = []; runs = no_runs }

abbrev recorded : AnalysisJobRow
recorded = new_job mint "job-1" "job-1" input_meta pending

abbrev one_job : Db
one_job = record { tasks = []; jobs = recorded ∷ []; outbox = []; runs = no_runs }

-- An analysis that finds no valid event.
abbrev failing_job : AnalysisJob
failing_job = record {
  run = λ m events meta db. (err (other_error "NO_VALID_EVENTS"), db);
  text = λ e. "NO_VALID_EVENTS";
  keeps_jobs = λ m events meta db. refl;
}

abbrev refusing : Sender
refusing events meta id = err (other_error "broker down")

abbrev accepting : Sender
accepting events meta id = ok id

run_analysis_task_unknown_example :
    run_analysis_task failing_job mint mint mint [] input_meta (some "job-2") one_job
    ≡ (err (key_error "job-2"), one_job)
unfolding find
run_analysis_task_unknown_example =
    run_analysis_task_unknown failing_job mint mint mint [] input_meta "job-2" one_job refl

get_task-enqueue_analysis_job_example :
    let (o, after) = enqueue_analysis_job accepting mint mint [] input_meta empty in
    (task : QueuedTask) × (o ≡ ok task)
    × (task.status ≡ pending)
    × (Store.get_task after task.task_id
        ≡ ok (record task { payload = field "input_meta" (obj input_meta) end }))
unfolding find
get_task-enqueue_analysis_job_example =
    get_task-enqueue_analysis_job accepting mint mint [] input_meta empty refl refl refl refl
