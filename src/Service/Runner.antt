-- ===== src/Service/Runner.antt =====
-- `LocalTaskRunner` of src/task_queue.py with its threads: `enqueue_analysis_job` inserts a row and
-- starts a thread, `_drain_queue` returns at once if another thread holds the lock, and otherwise
-- drains until it finds no pending task and gives the lock back. Threads at the same place are alike,
-- so a state counts them; the steps of the threads interleave freely.
use team_c_edr.Base.{
  ℕ, zero, suc, ◌+◌, ◌≤◌, Bool, true, false, ◌≡◌, refl, arith, ◌⊎◌, if◌then◌else◌,
}

pub record Runner : Type 0 where
  pub pending : ℕ  -- rows with status pending
  pub announced : ℕ  -- callers that have inserted their row and not yet started their thread
  pub starting : ℕ  -- threads before `acquire`
  pub draining : ℕ  -- threads in the `while` loop
  pub leaving : ℕ  -- threads that have seen 0 and not yet released the lock
  pub locked : Bool

abbrev pub idle_runner : Runner
idle_runner = record {
  pending = 0;
  announced = 0;
  starting = 0;
  draining = 0;
  leaving = 0;
  locked = false;
}

pub data Step (s : Runner) : Runner → Type 0 where
  -- `enqueue_task`
  insert : Step s (record s { pending = suc s.pending; announced = suc s.announced })
  -- `Thread(...).start()`
  spawn :
      (n : ℕ) → s.announced ≡ suc n → Step s (record s { announced = n; starting = suc s.starting })
  -- `acquire(blocking=False)` returns true
  acquire :
      (n : ℕ)
      → s.starting ≡ suc n
      → s.locked ≡ false
      → Step s (record s { starting = n; draining = suc s.draining; locked = true })
  -- `acquire(blocking=False)` returns false, and the thread returns
  give_up : (n : ℕ) → s.starting ≡ suc n → s.locked ≡ true → Step s (record s { starting = n })
  -- `drain_once()` claims and runs a task
  work : (n p : ℕ) → s.draining ≡ suc n → s.pending ≡ suc p → Step s (record s { pending = p })
  -- `drain_once()` returns 0
  found_none :
      (n : ℕ)
      → s.draining ≡ suc n
      → s.pending ≡ 0
      → Step s (record s { draining = n; leaving = suc s.leaving })
  -- `drain_once()` raises, and the `finally` clause follows
  raise : (n : ℕ) → s.draining ≡ suc n → Step s (record s { draining = n; leaving = suc s.leaving })
  -- `release()`
  release : (n : ℕ) → s.leaving ≡ suc n → Step s (record s { leaving = n; locked = false })

pub data Reach (s : Runner) : Runner → Type 0 where
  start : Reach s s
  next : {t u : Runner} → Reach s t → Step t u → Reach s u

-- The lock is held exactly while one thread drains or leaves.
pub record IsExclusive (s : Runner) : Type 0 where
  pub holders : s.draining + s.leaving ≡ (if s.locked then 1 else 0)

Step-IsExclusive : {s t : Runner} → Step s t → IsExclusive s → IsExclusive t
Step-IsExclusive insert h = ground arith
Step-IsExclusive (spawn n a) h = ground arith
Step-IsExclusive (acquire n a b) h = ground arith
Step-IsExclusive (give_up n a b) h = ground arith
Step-IsExclusive (work n p a b) h = ground arith
Step-IsExclusive (found_none n a b) h = ground arith
Step-IsExclusive (raise n a) h = ground arith
Step-IsExclusive (release n a) h = ground arith

Reach-IsExclusive : {s t : Runner} → Reach s t → IsExclusive s → IsExclusive t
Reach-IsExclusive start h = h
Reach-IsExclusive (next r st) h = Step-IsExclusive st (Reach-IsExclusive r h)

-- In every state that the runner reaches, under any interleaving, at most one thread drains the queue
-- or is about to release the lock, and the lock is held exactly while there is one.
pub drainers_exclusive :
    (s : Runner)
    → Reach idle_runner s
    → (s.draining + s.leaving ≤ 1) × ((s.locked ≡ true) ⊎ (s.draining + s.leaving ≡ 0))
drainers_exclusive s r = ground (arith, Reach-IsExclusive r (record { holders = refl }))

-- No thread runs and none will start by itself.
pub record IsQuiet (s : Runner) : Type 0 where
  pub no_caller : s.announced ≡ 0
  pub no_thread : s.starting + s.draining + s.leaving ≡ 0

-- A thread has seen an empty queue and holds the lock; then `k` tasks arrive.
abbrev leaving_with : ℕ → Runner
leaving_with k = record {
  pending = k;
  announced = 0;
  starting = 0;
  draining = 0;
  leaving = 1;
  locked = true;
}

Reach-leaving_with : (k : ℕ) → Reach idle_runner (leaving_with k)
Reach-leaving_with zero =
    next
      (next (next (next (next start insert) (spawn 0 refl)) (acquire 0 refl refl))
        (work 0 0 refl refl))
      (found_none 0 refl refl)
Reach-leaving_with (suc k) =
    next (next (next (Reach-leaving_with k) insert) (spawn 0 refl)) (give_up 0 refl refl)

-- Wake-ups can be lost: for every `k` the runner reaches a state in which `k` tasks are pending, the
-- lock is free and no thread runs or is about to start.
pub tasks_stranded :
    (k : ℕ) → (s : Runner) × Reach idle_runner s × IsQuiet s × (s.pending ≡ k) × (s.locked ≡ false)
tasks_stranded k = (
  record (leaving_with k) { leaving = 0; locked = false },
  next (Reach-leaving_with k) (release 0 refl),
  record { no_caller = refl; no_thread = refl },
  refl,
  refl,
)
