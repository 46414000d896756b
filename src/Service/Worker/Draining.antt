-- ===== src/Service/Worker/Draining.antt =====
-- What the loop of `_drain_queue` (src/task_queue.py) reaches.
use mathlib.Core.Option.{some-injective}
use team_c_edr.Base.{
  ℕ, zero, suc, ◌<◌, String, true, Option, some, ◌≡◌, refl, ◌⊎◌, inl, inr, arith, ◌==◌,
  if◌then◌else◌, str_eq, eq_iff, Bool-cases, subst, sym, ◌∙◌, ap,
}
use team_c_edr.Service.{TaskRow, Db, Result, ok, err}
use team_c_edr.Service.Table.{find, IsKeyed}
use team_c_edr.Service.Tasks.{Pick, IsOldestPending, task_key, is_pending}
use team_c_edr.Service.Worker.Round.{
  IsFinished, pending_count, Drained, idle, worked, drain_once-Drained,
}
use team_c_edr.Service.Worker.{AnalysisJob, Clock, drain_once, drain_queue}

-- What draining may do to a row: nothing, or finish a pending one.
abbrev pub Advances : TaskRow → TaskRow → Type 0
Advances r r' = (r ≡ r') ⊎ ((is_pending r ≡ true) × IsFinished r')

Advances-trans : (r s t : TaskRow) → Advances r s → Advances s t → Advances r t
Advances-trans r s t a b = ground arith

-- What the draining loop, started at `db`, comes to.
pub record Drains (db : Db) (y : Option (Result (Unit {0})) × Db) : Type 0 where
  pub ended : y.0 ≡ some (ok tt)
  pub empty : pending_count y.1.tasks ≡ 0
  pub rows :
      (id : String) (r : TaskRow)
      → find task_key id db.tasks ≡ some r
      → (r' : TaskRow) × (find task_key id y.1.tasks ≡ some r') × Advances r r'

module _ (job : AnalysisJob) (pick : Pick) (sql : IsOldestPending pick) where
  -- A row that is there when the loop starts: after a round it is the same, or it was pending and
  -- is now finished.
  round-Advances :
      (db : Db) (x : Result ℕ × Db) (id : String) (r : TaskRow)
      → Drained job pick db x
      → find task_key id db.tasks ≡ some r
      → (r' : TaskRow) × (find task_key id x.1.tasks ≡ some r') × Advances r r'
  round-Advances db x id r (idle h) found = (r, found, inl refl)
  round-Advances db x id r (worked k s e same waiting at_k done) found =
      elim (Bool-cases (str_eq k id)) [
        | inl same_key ↦
            let k_id = (eq_iff k id).0 same_key in
            (
              done.r',
              rw (done.others id, same_key) refl,
              inr (
                subst (λ r. is_pending r ≡ true)
                    (some-injective s r
                      (sym at_k ∙ ap (λ j. find task_key j db.tasks) k_id ∙ found))
                    waiting,
                done.finished,
              ),
            )
        | inr elsewhere ↦ (r, rw (done.others id, elsewhere) found, inl refl)
      ]

  drain_step :
      (fuel : ℕ) (clock : ℕ → Clock) (db : Db) (x : Result ℕ × Db)
      → IsKeyed task_key db.tasks
      → pending_count db.tasks < suc fuel
      → Drained job pick db x
      → ((after : Db)
          → IsKeyed task_key after.tasks
          → pending_count after.tasks < fuel
          → Drains after (drain_queue job pick fuel (λ n. clock (suc n)) after))
      → Drains db (elim x.0 [
        | err e ↦ (some (err e), x.1)
        | ok processed ↦
            if processed == 0
            then (some (ok tt), x.1)
            else drain_queue job pick fuel (λ n. clock (suc n)) x.1
      ])
  drain_step fuel clock db x keyed h (idle z) ih = record {
    ended = refl;
    empty = z;
    rows = λ id r found. (r, found, inl refl);
  }
  drain_step fuel clock db x keyed h (worked k s {after = after} e same waiting at_k done) ih =
      let later = ih after done.keyed (ground (arith, done.count, done.found, waiting, at_k)) in
      record {
        ended = later.ended;
        empty = later.empty;
        rows = λ id r found.
            let (r1, found1, a1) =
              round-Advances db (ok 1, after) id r (worked k s e same waiting at_k done) found in
            let (r2, found2, a2) = later.rows id r1 found1 in
            (r2, found2, Advances-trans r r1 r2 a1 a2);
      }

  -- With more fuel than there are pending tasks, over a task table with distinct keys and a database
  -- that keeps SQL's promises, the draining loop ends without an exception. Then no task is pending,
  -- and each row that was there at the start is as it was, or was pending and is now succeeded or
  -- failed.
  pub drain_queue_complete :
      (fuel : ℕ) (clock : ℕ → Clock) (db : Db)
      → IsKeyed task_key db.tasks
      → pending_count db.tasks < fuel
      → Drains db (drain_queue job pick fuel clock db)
  unfolding drain_queue
  drain_queue_complete zero clock db keyed h = absurd (omega arith)
  drain_queue_complete (suc fuel) clock db keyed h =
      drain_step fuel clock db (drain_once job pick (clock 0) db) keyed h
        (drain_once-Drained job pick sql (clock 0) db keyed)
        (λ after. drain_queue_complete fuel (λ n. clock (suc n)) after)
