-- ===== src/Tests/Tasks.antt =====
-- A queue of three tasks, drained by the worker, and a runner whose threads interleave.
use team_c_edr.Base.{none, [], ◌∷◌, ◌≡◌, ◌≤◌, ◌+◌, ◌⊎◌, true, false, refl, arith, String}
use team_c_edr.Json.{Fields, field, end, arr, obj, nil}
use team_c_edr.Service.{pending, succeeded, TaskRow, Db, ok, Mint, TaskStatus}
use team_c_edr.Service.Table.{find, IsKeyed}
use team_c_edr.Service.Tasks.{task_key}
use team_c_edr.Service.Worker.{AnalysisJob, Clock, drain_once, drain_queue}
use team_c_edr.Service.Worker.Round.{Drained, drain_once-Drained}
use team_c_edr.Service.Worker.Draining.{Drains, drain_queue_complete}
use team_c_edr.Service.Runner.{
  Runner, idle_runner, Reach, start, next, insert, spawn, acquire, IsQuiet, drainers_exclusive,
  tasks_stranded,
}
use team_c_edr.Tests.Database.{no_runs, sorted_pick, sorted_pick-IsOldestPending}

abbrev good_payload : Fields
good_payload = field "events" (arr nil) (field "input_meta" (obj end) end)

abbrev row : String → String → Fields → TaskStatus → TaskRow
row id created_at payload status = record {
  task_id = id;
  task_type = "analysis";
  status = status;
  created_at = created_at;
  updated_at = created_at;
  payload = payload;
  result = none;
  error = none;
}

-- The second task is the oldest pending one and has no payload.
abbrev queue : Db
queue = record {
  tasks =
      row "task-2" "2026-07-02" good_payload pending
      ∷ row "task-1" "2026-07-01" end pending
      ∷ row "task-0" "2026-06-30" good_payload succeeded
      ∷ [];
  jobs = [];
  outbox = [];
  runs = no_runs;
}

abbrev with_run : String → Db → Db
with_run id db = record db {
  runs = record db.runs {
    runs =
        record {
          run_id = id;
          generated_at = "2026-07-03";
          status = "completed";
          decision = "allow";
          customer_id = "acme";
          tenant_id = "lab";
          payload = end;
        }
        ∷ db.runs.runs;
  };
}

-- An analysis that saves one run.
abbrev job : AnalysisJob
job = record {
  run = λ m events input_meta db. (ok "run-1", with_run "run-1" db);
  text = λ e. "failed";
  keeps_tasks = λ m events input_meta db. refl;
}

abbrev mint : Mint
mint = record { id = "new"; now = "2026-07-03"; outbox_id = "out-1"; outbox_now = "2026-07-03" }

abbrev clock : Clock
clock = record { claimed_at = "2026-07-03"; job = mint; finish = mint }

queue-IsKeyed : IsKeyed task_key queue.tasks
unfolding find
queue-IsKeyed = (refl, (refl, (refl, tt)))

drain_once-Drained_example : Drained job sorted_pick queue (drain_once job sorted_pick clock queue)
drain_once-Drained_example =
    drain_once-Drained job sorted_pick sorted_pick-IsOldestPending clock queue queue-IsKeyed

drain_queue_complete_example : Drains queue (drain_queue job sorted_pick 3 (λ n. clock) queue)
drain_queue_complete_example =
    drain_queue_complete job sorted_pick sorted_pick-IsOldestPending 3 (λ n. clock) queue
      queue-IsKeyed (omega arith)

-- A thread that drains while another caller has inserted its row.
abbrev busy : Runner
busy = record { pending = 2; announced = 1; starting = 0; draining = 1; leaving = 0; locked = true }

busy-Reach : Reach idle_runner busy
busy-Reach = next (next (next (next start insert) (spawn 0 refl)) (acquire 0 refl refl)) insert

drainers_exclusive_example :
    (busy.draining + busy.leaving ≤ 1) × ((busy.locked ≡ true) ⊎ (busy.draining + busy.leaving ≡ 0))
drainers_exclusive_example = drainers_exclusive busy busy-Reach

tasks_stranded_example :
    (s : Runner) × Reach idle_runner s × IsQuiet s × (s.pending ≡ 2) × (s.locked ≡ false)
tasks_stranded_example = tasks_stranded 2
