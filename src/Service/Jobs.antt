-- ===== src/Service/Jobs.antt =====
-- src/service_analysis_jobs.py and the job methods of `ServiceStore` (src/service_store.py): the
-- durable record of an analysis that a Celery worker runs.
pub mod Store
pub mod Celery
use team_c_edr.Base.{
  String, Option, none, some, List, [], ◌∷◌, ◌++◌, str_or, str_eq, first, Bool, if◌then◌else◌, any,
  ◌&&◌, not,
}
use team_c_edr.Json.{Value, str, Fields, field, end, get}
use team_c_edr.Service.{
  TaskStatus, status_value, QueuedTask, AnalysisJobRow, OutboxRecord, Db, key_error,
  integrity_error, Result, ok, err, ◌>>=◌, Mint, add_outbox, text_value,
}
use team_c_edr.Service.Rows.{RunRow}
use team_c_edr.Service.Table.{find, update}

abbrev pub job_key : AnalysisJobRow → String
job_key r = r.job_id

abbrev queued_record : String → String → TaskStatus → OutboxRecord
queued_record job_id celery_task_id status = record {
  event_type = "analysis_job.queued";
  aggregate_type = "analysis_job";
  aggregate_id = job_id;
  payload = field "task_id" (str celery_task_id) (field "status" (str (status_value status)) end);
}

-- `text_value(input_meta.get(k)) or "unknown"`
abbrev meta_field : Fields → String → String
meta_field input_meta k = str_or (text_value (get k input_meta)) "unknown"

abbrev pub new_job : Mint → String → String → Fields → TaskStatus → AnalysisJobRow
new_job m job_id celery_task_id input_meta status = record {
  job_id = job_id;
  celery_task_id = celery_task_id;
  status = status;
  created_at = m.now;
  updated_at = m.now;
  started_at = none;
  completed_at = none;
  run_id = none;
  customer_id = meta_field input_meta "customer_id";
  tenant_id = meta_field input_meta "tenant_id";
  agent_version = meta_field input_meta "agent_version";
  payload_version = meta_field input_meta "payload_version";
  input_meta = input_meta;
  result = none;
  error = none;
}

-- A row has that `celery_task_id`: the column is unique.
abbrev pub has_task_id : String → List AnalysisJobRow → Bool
has_task_id celery_task_id jobs =
    any (λ (r : AnalysisJobRow). str_eq r.celery_task_id celery_task_id) jobs

-- The foreign key of `run_id`.
abbrev pub has_run : String → Db → Bool
has_run run_id db = any (λ (r : RunRow). str_eq r.run_id run_id) db.runs.runs

-- The insert fails on a key that is there, and on a `celery_task_id` that is there.
unfoldable pub create_analysis_job :
    Mint → String → String → Fields → TaskStatus → Db → Result (Unit {0} × Db)
unfolding add_outbox
create_analysis_job m job_id celery_task_id input_meta status db =
    elim (find job_key job_id db.jobs) [
      | some old ↦ err (integrity_error job_id)
      | none ↦
          if has_task_id celery_task_id db.jobs
          then err (integrity_error celery_task_id)
          else ok (
            tt,
            add_outbox m (queued_record job_id celery_task_id status) (record db {
              jobs = db.jobs ++ (new_job m job_id celery_task_id input_meta status ∷ []);
            }),
          )
    ]

unfoldable pub require_analysis_job_row : Db → String → Result AnalysisJobRow
require_analysis_job_row db job_id = elim (find job_key job_id db.jobs) [
  | none ↦ err (key_error job_id)
  | some r ↦ ok r
]

-- The assignments to the columns of one row.
abbrev write : String → (AnalysisJobRow → AnalysisJobRow) → Db → Db
write job_id f db = record db { jobs = update job_key job_id f db.jobs }

abbrev pub retitled : String → String → AnalysisJobRow → AnalysisJobRow
retitled now celery_task_id r = record r { celery_task_id = celery_task_id; updated_at = now }

-- Another row has that `celery_task_id`.
abbrev pub taken_by_other : String → String → List AnalysisJobRow → Bool
taken_by_other job_id celery_task_id jobs =
    any
      (λ (r : AnalysisJobRow).
        str_eq r.celery_task_id celery_task_id && not (str_eq r.job_id job_id))
      jobs

unfoldable pub set_analysis_job_task_id : Mint → String → String → Db → Result (Unit {0} × Db)
unfolding require_analysis_job_row
set_analysis_job_task_id m job_id celery_task_id db = do
  row ← require_analysis_job_row db job_id
  if taken_by_other job_id celery_task_id db.jobs
      then err (integrity_error celery_task_id)
      else ok (tt, write job_id (retitled m.now celery_task_id) db)

abbrev pub started : String → TaskStatus → AnalysisJobRow → AnalysisJobRow
started now status r = record r { status = status; started_at = some now; updated_at = now }

unfoldable pub start_analysis_job : Mint → String → TaskStatus → Db → Result (Unit {0} × Db)
unfolding require_analysis_job_row
start_analysis_job m job_id status db = do
  row ← require_analysis_job_row db job_id
  ok (tt, write job_id (started m.now status) db)

abbrev pub completed : String → TaskStatus → String → AnalysisJobRow → AnalysisJobRow
completed now status run_id r = record r {
  status = status;
  run_id = some run_id;
  completed_at = some now;
  updated_at = now;
  result = some (field "run_id" (str run_id) end);
  error = none;
}

unfoldable pub complete_analysis_job :
    Mint → String → String → TaskStatus → Db → Result (Unit {0} × Db)
unfolding require_analysis_job_row add_outbox
complete_analysis_job m job_id run_id status db = do
  row ← require_analysis_job_row db job_id
  if has_run run_id db
      then ok (
        tt,
        add_outbox m
            (record {
              event_type = "analysis_job.completed";
              aggregate_type = "analysis_job";
              aggregate_id = job_id;
              payload =
                  field "task_id" (str row.celery_task_id)
                    (field "status" (str (status_value status)) (field "run_id" (str run_id) end));
            })
            (write job_id (completed m.now status run_id) db),
      )
      else err (integrity_error run_id)

abbrev pub stopped : String → TaskStatus → String → AnalysisJobRow → AnalysisJobRow
stopped now status error r = record r {
  status = status;
  completed_at = some now;
  updated_at = now;
  result = none;
  error = some error;
}

unfoldable pub fail_analysis_job : Mint → String → String → TaskStatus → Db → Result (Unit {0} × Db)
unfolding require_analysis_job_row add_outbox
fail_analysis_job m job_id error status db = do
  row ← require_analysis_job_row db job_id
  ok (
    tt,
    add_outbox m
        (record {
          event_type = "analysis_job.failed";
          aggregate_type = "analysis_job";
          aggregate_id = job_id;
          payload =
              field "task_id" (str row.celery_task_id)
                (field "status" (str (status_value status)) end);
        })
        (write job_id (stopped m.now status error) db),
  )

-- `_analysis_job_state` with `_queued_analysis_job` of service_store.py.
unfoldable pub queued_analysis_job : AnalysisJobRow → QueuedTask
queued_analysis_job r = record {
  task_id = r.celery_task_id;
  task_type = "analysis";
  status = r.status;
  payload = field "input_meta" (Value.obj r.input_meta) end;
  result = r.result;
  error = r.error;
}

-- By the primary key, else by `celery_task_id`, which is unique.
unfoldable pub analysis_job_by_task_id : Db → String → Option QueuedTask
unfolding queued_analysis_job
analysis_job_by_task_id db task_id = elim (find job_key task_id db.jobs) [
  | some r ↦ some (queued_analysis_job r)
  | none ↦ elim (first (λ r. str_eq r.celery_task_id task_id) db.jobs) [
    | some r ↦ some (queued_analysis_job r)
    | none ↦ none
  ]
]
