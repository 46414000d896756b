-- ===== src/Service.antt =====
-- The rows of src/service_models.py that the task and job operations read and write, the statuses and
-- tasks of src/service_store.py, and the transactions of `ServiceStore`. A JSON column is carried as
-- the object that its text decodes to. A status column holds a `TaskStatus`: all writers pass one.
pub mod Rows
pub mod Table
pub mod Tasks
pub mod Worker
pub mod Runner
pub mod Jobs
pub mod Runs
use team_c_edr.Base.{String, Option, none, some, List, [], ◌∷◌, ◌++◌, str_or}
use team_c_edr.Service.Rows.{RunTables}
use team_c_edr.Json.{Value, str, Fields, field, end}

pub data TaskStatus : Type 0 where
  pending running succeeded failed : TaskStatus

-- `TaskStatus.value`
unfoldable pub status_value : TaskStatus → String
status_value pending = "pending"
status_value running = "running"
status_value succeeded = "succeeded"
status_value failed = "failed"

-- The `QueuedTask` of service_store.py; `TaskState` of service_tasks.py has the same fields.
pub record QueuedTask : Type 0 where
  pub task_id : String
  pub task_type : String
  pub status : TaskStatus
  pub payload : Fields
  pub result : Option Fields
  pub error : Option String

pub record TaskRow : Type 0 where
  pub task_id : String
  pub task_type : String
  pub status : TaskStatus
  pub created_at : String
  pub updated_at : String
  pub payload : Fields
  pub result : Option Fields
  pub error : Option String

pub record AnalysisJobRow : Type 0 where
  pub job_id : String
  pub celery_task_id : String
  pub status : TaskStatus
  pub created_at : String
  pub updated_at : String
  pub started_at : Option String
  pub completed_at : Option String
  pub run_id : Option String
  pub customer_id : String
  pub tenant_id : String
  pub agent_version : String
  pub payload_version : String
  pub input_meta : Fields
  pub result : Option Fields
  pub error : Option String

pub record OutboxRecord : Type 0 where
  pub event_type : String
  pub aggregate_type : String
  pub aggregate_id : String
  pub payload : Fields

pub record OutboxEventRow : Type 0 where
  pub outbox_id : String
  pub record_of : OutboxRecord
  pub status : String
  pub created_at : String

-- The tables; `runs` are those of the saved runs.
pub record Db : Type 0 where
  pub tasks : List TaskRow
  pub jobs : List AnalysisJobRow
  pub outbox : List OutboxEventRow
  pub runs : RunTables

pub data Fault : Type 0 where
  key_error : String → Fault
  integrity_error : String → Fault
  value_error : String → Fault
  other_error : String → Fault

-- An operation on the tables returns a value or raises.
pub data Result {ℓ} (V : Type ℓ) : Type ℓ where
  err : (fault : Fault) → Result V
  ok : (value : V) → Result V

infixl 10 ◌>>=◌
abbrev pub ◌>>=◌ {ℓ κ} : {V : Type ℓ} {W : Type κ} → Result V → (V → Result W) → Result W
err fault >>= next = err fault
ok value >>= next = next value

-- `with session.begin()`: an exception rolls the tables back.
abbrev pub transact {ℓ} : {A : Type ℓ} → Db → Result (A × Db) → Result A × Db
transact db (ok (a, db')) = (ok a, db')
transact db (err e) = (err e, db)

-- What `new_id` and `now_iso` give to one operation.
pub record Mint : Type 0 where
  pub id : String
  pub now : String
  pub outbox_id : String
  pub outbox_now : String

-- `outbox_row`
unfoldable pub outbox_row : Mint → OutboxRecord → OutboxEventRow
outbox_row m r = record {
  outbox_id = m.outbox_id;
  record_of = r;
  status = "pending";
  created_at = m.outbox_now;
}

-- `session.add(outbox_row(...))`
unfoldable pub add_outbox : Mint → OutboxRecord → Db → Db
unfolding outbox_row
add_outbox m r db = record db { outbox = db.outbox ++ (outbox_row m r ∷ []) }

-- `text_value`
abbrev pub text_value : Value → String
text_value (str s) = s
text_value v = ""
