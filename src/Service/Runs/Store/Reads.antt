-- ===== src/Service/Runs/Store/Reads.antt =====
-- `get_latest_run` and the counts of `ServiceStore` (src/service_store.py, src/service_store_counts.py).
use team_c_edr.Base.{
  ℕ, String, Bool, true, ◌&&◌, ◌||◌, Option, none, some, List, [], ◌∷◌, ◌++◌, ◌≡◌, refl, length,
  str_eq, str_lt, if◌then◌else◌, All,
}
use team_c_edr.Json.{Fields}
use team_c_edr.Service.{Db, add_outbox}
use team_c_edr.Service.Rows.{RunRow}
use team_c_edr.Service.Runs.Store.{RunMint, run_row, save_run_result}
use team_c_edr.Service.Runs.Store.Fitting.{NewRun}
use team_c_edr.Service.Runs.Store.Saving.{DistinctIds, with_run, save_run_result-saves}

-- `r` stands before `s` by `desc(generated_at), desc(run_id)`.
abbrev pub is_later : RunRow → RunRow → Bool
is_later r s =
    str_lt s.generated_at r.generated_at
    || (str_eq s.generated_at r.generated_at && str_lt s.run_id r.run_id)

unfoldable pub latest_of : List RunRow → Option RunRow
latest_of [] = none
latest_of (r ∷ rows) = elim (latest_of rows) [
  | none ↦ some r
  | some s ↦ some (if is_later s r then s else r)
]

unfoldable pub get_latest_run : Db → Option Fields
unfolding latest_of
get_latest_run db = elim (latest_of db.runs.runs) [ none ↦ none | some r ↦ some r.payload ]

-- `count_rows`; `none` is an `UnsupportedTableError`.
unfoldable pub count_rows : Db → String → Option ℕ
count_rows db table =
    if str_eq table "runs"
    then some (length db.runs.runs)
    else if str_eq table "events"
    then some (length db.runs.events)
    else if str_eq table "alerts"
    then some (length db.runs.alerts)
    else if str_eq table "incidents"
    then some (length db.runs.incidents)
    else if str_eq table "alert_events"
    then some (length db.runs.alert_events)
    else if str_eq table "incident_alerts"
    then some (length db.runs.incident_alerts)
    else if str_eq table "dlq_events"
    then some (length db.runs.dlq_events)
    else if str_eq table "tasks"
    then some (length db.tasks)
    else if str_eq table "outbox_events"
    then some (length db.outbox)
    else none

-- A row at the end that is later than all others is found.
latest_of-snoc :
    (rows : List RunRow) (r : RunRow)
    → All (λ s. is_later r s ≡ true) rows
    → latest_of (rows ++ (r ∷ [])) ≡ some r
unfolding latest_of
latest_of-snoc [] r h = refl
latest_of-snoc (s ∷ rows) r h = rw (latest_of-snoc rows r h.1, h.0) refl

all_later :
    (rows : List RunRow) (r : RunRow)
    → All (λ (s : RunRow). str_lt s.generated_at r.generated_at ≡ true) rows
    → All (λ s. is_later r s ≡ true) rows
all_later [] r h = tt
all_later (s ∷ rows) r h = (rw h.0 refl, all_later rows r h.1)

latest_payload :
    (db : Db) (r : RunRow) → latest_of db.runs.runs ≡ some r → get_latest_run db ≡ some r.payload
unfolding get_latest_run
latest_payload db r h = rw (get_latest_run, h) refl

-- A result that was just saved is what `get_latest_run` gives back, the whole payload as it was saved.
-- The run id is new to the tables, the events, the alerts and the incidents of the result have
-- different ids, and the other runs were generated earlier.
pub get_latest_run-save_run_result :
    (m : RunMint) (payload : Fields) (db : Db)
    → NewRun m.run_id db.runs
    → DistinctIds m payload
    → All
        (λ (s : RunRow). str_lt s.generated_at (run_row m payload).generated_at ≡ true)
        db.runs.runs
    → get_latest_run (save_run_result m payload db).1 ≡ some payload
unfolding add_outbox run_row
get_latest_run-save_run_result m payload db new ids earlier =
    rw (save_run_result-saves m payload db new ids) (
      latest_payload (with_run m payload db) (run_row m payload) (
        latest_of-snoc db.runs.runs (run_row m payload)
          (all_later db.runs.runs (run_row m payload) earlier)))
