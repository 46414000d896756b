-- ===== src/Service/Tasks.antt =====
-- src/service_tasks.py and the task methods of `ServiceStore` (src/service_store.py): the queue of
-- persisted tasks with its outbox rows. Which row the database returns for
-- `where(status == pending).order_by(created_at).limit(1)` is a parameter.
pub mod Store
use team_c_edr.Base.{
  String, Bool, true, false, Option, none, some, List, [], ◌∷◌, ◌++◌, ◌≡◌, In, str_lt,
}
use team_c_edr.Json.{Value, str, Fields, field, end}
use team_c_edr.Service.{
  TaskStatus, pending, running, succeeded, failed, status_value, QueuedTask, TaskRow, OutboxRecord,
  Db, key_error, integrity_error, Result, ok, err, ◌>>=◌, transact, Mint, add_outbox,
}
use team_c_edr.Service.Table.{find, update}

abbrev pub task_key : TaskRow → String
task_key r = r.task_id

abbrev pub is_pending : TaskRow → Bool
is_pending r = elim r.status [ pending ↦ true | _ ↦ false ]

-- The database's answer to the query of `claim_next_task`.
abbrev pub Pick : Type 0
Pick = List TaskRow → Option TaskRow

-- What SQL promises of that answer: a pending row of the table with the least `created_at`, and no
-- row only if there is no pending one. Which of several equally old rows comes is left open.
pub record IsOldestPending (pick : Pick) : Type 0 where
  pub stands : (rows : List TaskRow) (r : TaskRow) → pick rows ≡ some r → In r rows
  pub waits : (rows : List TaskRow) (r : TaskRow) → pick rows ≡ some r → is_pending r ≡ true
  pub oldest :
      (rows : List TaskRow) (r x : TaskRow)
      → pick rows ≡ some r
      → In x rows
      → is_pending x ≡ true
      → str_lt x.created_at r.created_at ≡ false
  pub complete :
      (rows : List TaskRow) (x : TaskRow) → pick rows ≡ none → In x rows → is_pending x ≡ false

-- `_task_state`
unfoldable pub task_state : TaskRow → TaskStatus → QueuedTask
task_state r status = record {
  task_id = r.task_id;
  task_type = r.task_type;
  status = status;
  payload = r.payload;
  result = r.result;
  error = r.error;
}

abbrev pub enqueued_record : String → String → OutboxRecord
enqueued_record id task_type = record {
  event_type = "task.enqueued";
  aggregate_type = "task";
  aggregate_id = id;
  payload = field "task_id" (str id) (field "task_type" (str task_type) end);
}

abbrev pub finished_record : String → String → TaskStatus → OutboxRecord
finished_record event_type id status = record {
  event_type = event_type;
  aggregate_type = "task";
  aggregate_id = id;
  payload = field "task_id" (str id) (field "status" (str (status_value status)) end);
}

-- The insert fails on a key that is there.
unfoldable pub add_task : TaskRow → Db → Result Db
add_task r db = elim (find task_key r.task_id db.tasks) [
  | none ↦ ok (record db { tasks = db.tasks ++ (r ∷ []) })
  | some old ↦ err (integrity_error r.task_id)
]

abbrev pub new_row : Mint → String → Fields → TaskStatus → TaskRow
new_row m task_type payload status = record {
  task_id = m.id;
  task_type = task_type;
  status = status;
  created_at = m.now;
  updated_at = m.now;
  payload = payload;
  result = none;
  error = none;
}

unfoldable pub enqueue_task : Mint → String → Fields → TaskStatus → Db → Result (QueuedTask × Db)
unfolding add_task task_state add_outbox
enqueue_task m task_type payload status db = do
  let row = new_row m task_type payload status
  db' ← add_task row db
  ok (task_state row status, add_outbox m (enqueued_record m.id task_type) db')

abbrev pub claim_row : String → TaskStatus → TaskRow → TaskRow
claim_row now status r = record r { status = status; updated_at = now }

unfoldable pub claim_next_task : Pick → String → TaskStatus → Db → Option QueuedTask × Db
unfolding task_state
claim_next_task pick now running_status db = elim (pick db.tasks) [
  | none ↦ (none, db)
  | some r ↦ (
    some (task_state r running_status),
    record db { tasks = update task_key r.task_id (claim_row now running_status) db.tasks },
  )
]

unfoldable pub require_task_row : Db → String → Result TaskRow
require_task_row db id = elim (find task_key id db.tasks) [
  | none ↦ err (key_error id)
  | some r ↦ ok r
]

abbrev pub finish_row : String → TaskStatus → Option Fields → Option String → TaskRow → TaskRow
finish_row now status result error r = record r {
  status = status;
  updated_at = now;
  result = result;
  error = error;
}

unfoldable pub complete_task : Mint → String → TaskStatus → Fields → Db → Result (Unit {0} × Db)
unfolding require_task_row add_outbox
complete_task m id status result db = do
  row ← require_task_row db id
  let db' : Db = record db {
    tasks = update task_key id (finish_row m.now status (some result) none) db.tasks;
  }
  ok (tt, add_outbox m (finished_record "task.completed" id status) db')

unfoldable pub fail_task : Mint → String → TaskStatus → String → Db → Result (Unit {0} × Db)
unfolding require_task_row add_outbox
fail_task m id status error db = do
  row ← require_task_row db id
  let db' : Db = record db {
    tasks = update task_key id (finish_row m.now status none (some error)) db.tasks;
  }
  ok (tt, add_outbox m (finished_record "task.failed" id status) db')

unfoldable pub task_by_id : Db → String → Option QueuedTask
unfolding task_state
task_by_id db id = elim (find task_key id db.tasks) [
  | none ↦ none
  | some r ↦ some (task_state r r.status)
]
