-- ===== src/Service/Tasks/Store.antt =====
-- The task methods of `ServiceStore` (src/service_store.py), each one transaction.
use team_c_edr.Base.{String, Option}
use team_c_edr.Json.{Fields}
use team_c_edr.Service.{
  TaskStatus, pending, running, failed, QueuedTask, Db, Result, transact, Mint,
}
use team_c_edr.Service.Tasks.{Pick, enqueue_task, claim_next_task, complete_task, fail_task}

unfoldable pub enqueue : Mint → String → Fields → Db → Result QueuedTask × Db
unfolding enqueue_task
enqueue m task_type payload db = transact db (enqueue_task m task_type payload pending db)

unfoldable pub claim_next : Pick → String → Db → Option QueuedTask × Db
unfolding claim_next_task
claim_next pick now db = claim_next_task pick now running db

unfoldable pub complete : Mint → String → TaskStatus → Fields → Db → Result (Unit {0}) × Db
unfolding complete_task
complete m id status result db = transact db (complete_task m id status result db)

unfoldable pub fail : Mint → String → String → Db → Result (Unit {0}) × Db
unfolding fail_task
fail m id error db = transact db (fail_task m id failed error db)
