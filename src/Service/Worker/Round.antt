-- ===== src/Service/Worker/Round.antt =====
-- What one round of `TaskWorker` (src/task_queue.py) does to the task table.

use team_c_edr.Base.{
  ℕ, ◌+◌, String, true, false, some, List, [], ◌∷◌, ◌≡◌, refl, ◌⊎◌, inl, inr, arith, In, count_if,
  if◌then◌else◌, str_eq, Option-cases, ◌∷◌, here, there, eq_refl,
}
use team_c_edr.Json.{Fields, as_arr, field, get, str, as_obj, end, objects}
use team_c_edr.Service.{
  running, succeeded, failed, QueuedTask, TaskRow, Db, Result, ok, err, Mint, add_outbox,
}
use team_c_edr.Service.Table.{
  find, update, find-update, count-update, IsKeyed, IsKeyed-find, update-IsKeyed,
}
use team_c_edr.Service.Tasks.{
  Pick, IsOldestPending, task_key, is_pending, task_state, claim_row, claim_next_task,
  complete_task, fail_task, require_task_row,
}
use team_c_edr.Service.Tasks.Store
use team_c_edr.Service.Worker.{
  AnalysisJob, Clock, run_payload, or_fail, complete_run, run_task, drain_once, run_claimed,
  counted,
}

abbrev pub IsFinished : TaskRow → Type 0
IsFinished r = (r.status ≡ succeeded) ⊎ (r.status ≡ failed)

abbrev pub pending_count : List TaskRow → ℕ
pending_count rows = count_if is_pending rows

-- The row `r` with key `id` was replaced by the finished row `r'`; the others are as before.
pub record Finished (id : String) (before after : List TaskRow) : Type 0 where
  pub r : TaskRow
  pub r' : TaskRow
  pub found : find task_key id before ≡ some r
  pub finished : IsFinished r'
  pub others :
      (j : String)
      → find task_key j after ≡ (if str_eq id j then some r' else find task_key j before)
  pub keyed : IsKeyed task_key after
  pub count : pending_count after + (if is_pending r then 1 else 0) ≡ pending_count before

update-Finished :
    (id : String) (f : TaskRow → TaskRow) (rows : List TaskRow) (r : TaskRow)
    → ((x : TaskRow) → task_key (f x) ≡ task_key x)
    → IsFinished (f r)
    → IsKeyed task_key rows
    → find task_key id rows ≡ some r
    → Finished id rows (update task_key id f rows)
update-Finished id f rows r keeps done keyed found = record {
  r = r;
  r' = f r;
  found = found;
  finished = done;
  others = λ j. rw (find-update task_key id j f rows keeps, found);
  keyed = update-IsKeyed task_key id f rows keeps keyed;
  count = ground (arith, count-update task_key is_pending id f rows r found, done);
}

module _ (m : Mint) (id : String) (db : Db) (r : TaskRow) (keyed : IsKeyed task_key db.tasks)
    (found : find task_key id db.tasks ≡ some r) where
  complete-Finished :
      (result : Fields)
      → ((Store.complete m id succeeded result db).0 ≡ ok tt)
        × Finished id db.tasks (Store.complete m id succeeded result db).1.tasks
  unfolding Store.complete
  complete-Finished result =
      rw (complete_task, require_task_row, found)
        (
          refl,
          unfold add_outbox in update-Finished id _ db.tasks r (λ x. refl) (inl refl) keyed found,
        )

  fail-Finished :
      (error : String)
      → ((Store.fail m id error db).0 ≡ ok tt)
        × Finished id db.tasks (Store.fail m id error db).1.tasks
  unfolding Store.fail
  fail-Finished error =
      rw (fail_task, require_task_row, found)
        (
          refl,
          unfold add_outbox in update-Finished id _ db.tasks r (λ x. refl) (inr refl) keyed found,
        )

module _ (job : AnalysisJob) (pick : Pick) where
  run_payload-tasks :
      (m : Mint) (payload : Fields) (db : Db)
      → (run_payload job pick m payload db).1.tasks ≡ db.tasks
  unfolding run_payload
  run_payload-tasks m payload db = elim (Option-cases (as_arr (get "events" payload))) [
    | inl e ↦ rw (e, run_payload)
    | inr (events, e) ↦ elim (Option-cases (as_obj (get "input_meta" payload))) [
      | inl o ↦ rw (run_payload, e, o)
      | inr (input_meta, o) ↦
          rw (run_payload, e, o) (job.keeps_tasks m (objects events) input_meta db)
    ]
  ]

  or_fail-ok :
      (c : Clock) (id : String) (y : Result (Unit {0}) × Db)
      → y.0 ≡ ok tt
      → or_fail job pick c id y ≡ y
  unfolding or_fail
  or_fail-ok c id (ok tt, db) h = refl
  or_fail-ok c id (err e, db) h = cc

  finish-Finished :
      (c : Clock) (id : String) (x : Result String × Db) (r : TaskRow)
      → IsKeyed task_key x.1.tasks
      → find task_key id x.1.tasks ≡ some r
      → let y = or_fail job pick c id (complete_run job pick c id x) in
        (y.0 ≡ ok tt) × Finished id x.1.tasks y.1.tasks
  unfolding or_fail complete_run
  finish-Finished c id (ok run_id, db) r keyed found =
      let result = field "run_id" (str run_id) end in
      let done = complete-Finished c.finish id db r keyed found result in
      rw (or_fail-ok c id (Store.complete c.finish id succeeded result db) done.0) done
  finish-Finished c id (err e, db) r keyed found = fail-Finished c.finish id db r keyed found _

  run_task-Finished :
      (c : Clock) (task : QueuedTask) (db : Db) (r : TaskRow)
      → IsKeyed task_key db.tasks
      → find task_key task.task_id db.tasks ≡ some r
      → ((run_task job pick c task db).0 ≡ ok tt)
        × Finished task.task_id db.tasks (run_task job pick c task db).1.tasks
  unfolding run_task
  run_task-Finished c task db r keyed found =
      let same = run_payload-tasks c.job task.payload db in
      let y =
        finish-Finished c task.task_id (run_payload job pick c.job task.payload db) r
          (rw same keyed) (rw same found) in
      (y.0, rw same at y.1)

  -- A round either finds no pending task and changes nothing, or it ends without an exception, having
  -- taken the oldest pending task and left it succeeded or failed.
  pub data Drained (db : Db) : Result ℕ × Db → Type 0 where
    idle : pending_count db.tasks ≡ 0 → Drained db (ok 0, db)
    worked :
        (id : String) (r : TaskRow) {after : Db}
        → pick db.tasks ≡ some r
        → r.task_id ≡ id
        → is_pending r ≡ true
        → find task_key id db.tasks ≡ some r
        → Finished id db.tasks after.tasks
        → Drained db (ok 1, after)

  module _ (sql : IsOldestPending pick) where
    none_pending :
        (rows : List TaskRow)
        → ((x : TaskRow) → In x rows → is_pending x ≡ false)
        → pending_count rows ≡ 0
    none_pending [] h = refl
    none_pending (x ∷ rows) h = ground (arith, h x here, none_pending rows (λ y m. h y (there m)))

    claimed_then-Finished :
        (id now : String) (rows after : List TaskRow) (r : TaskRow)
        → r.task_id ≡ id
        → is_pending r ≡ true
        → IsKeyed task_key rows
        → find task_key id rows ≡ some r
        → Finished id (update task_key id (claim_row now running) rows) after
        → Finished id rows after
    claimed_then-Finished id now rows after r same waiting keyed found done = record {
      r = r;
      r' = done.r';
      found = found;
      finished = done.finished;
      others = λ j. ground (
        arith,
        done.others j,
        find-update task_key id j (claim_row now running) rows (λ x. refl),
        found,
      );
      keyed = done.keyed;
      count = ground (
        arith,
        done.count,
        done.found,
        waiting,
        found,
        eq_refl id,
        find-update task_key id id (claim_row now running) rows (λ x. refl),
        count-update task_key is_pending id (claim_row now running) rows r found,
      );
    }

    counted-Drained :
        (db : Db) (y : Result (Unit {0}) × Db) (r : TaskRow)
        → pick db.tasks ≡ some r
        → is_pending r ≡ true
        → y.0 ≡ ok tt
        → find task_key r.task_id db.tasks ≡ some r
        → Finished r.task_id db.tasks y.1.tasks
        → Drained db (counted job pick y)
    counted-Drained db (ok tt, after) r e waiting h found done =
        worked r.task_id r e refl waiting found done
    counted-Drained db (err x, after) r e waiting h found done = cc

    claimed-Drained :
        (c : Clock) (db : Db) (r : TaskRow)
        → IsKeyed task_key db.tasks
        → pick db.tasks ≡ some r
        → Drained db (
            run_claimed job pick c (
              some (task_state r running),
              record db {
                tasks = update task_key r.task_id (claim_row c.claimed_at running) db.tasks;
              },
            ))
    claimed-Drained c db r keyed e =
        let found = IsKeyed-find task_key db.tasks r keyed (sql.stands db.tasks r e) in
        let rows = update task_key r.task_id (claim_row c.claimed_at running) db.tasks in
        let db' : Db = record db { tasks = rows } in
        let found_claimed : find task_key r.task_id rows ≡ some (claim_row c.claimed_at running r) =
          ground (
            arith,
            found,
            eq_refl r.task_id,
            find-update task_key r.task_id r.task_id (claim_row c.claimed_at running) db.tasks
                (λ x. refl),
          ) in
        let y =
          run_task-Finished c (task_state r running) db' (claim_row c.claimed_at running r)
            (update-IsKeyed task_key r.task_id (claim_row c.claimed_at running) db.tasks (λ x. refl)
              keyed)
            (unfold task_state in found_claimed) in
        counted-Drained db (run_task job pick c (task_state r running) db') r e
          (sql.waits db.tasks r e) y.0 found
          (claimed_then-Finished r.task_id c.claimed_at db.tasks _ r refl (sql.waits db.tasks r e)
            keyed found (unfold task_state in y.1))

    -- One round of the worker, over a task table with distinct keys and a database that keeps SQL's
    -- promises: either no task is pending and nothing changes, or the round ends without an exception
    -- and the oldest pending task is succeeded or failed, every other row is as before, and one task
    -- less is pending.
    pub drain_once-Drained :
        (c : Clock) (db : Db) → IsKeyed task_key db.tasks → Drained db (drain_once job pick c db)
    unfolding drain_once Store.claim_next
    drain_once-Drained c db keyed = elim (Option-cases (pick db.tasks)) [
      | inl e ↦
          rw (claim_next_task, e)
            (idle (none_pending db.tasks (λ x m. sql.complete db.tasks x e m)))
      | inr (r, e) ↦ rw (claim_next_task, e) (claimed-Drained c db r keyed e)
    ]
