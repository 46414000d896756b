-- ===== src/Tests/Runs.antt =====
-- A result with two events, an alert and an incident of them, saved beside another run.
use team_c_edr.Base.{some, [], ◌∷◌, ◌≡◌, refl, ◌⊎◌, String, ◌<>◌, show, List}
use team_c_edr.Json.{get, Fields, field, end, str, arr, obj, cons, nil}
use team_c_edr.Service.{AnalysisJobRow, Mint, Result, pending, Db, Fault, ok, err}
use team_c_edr.Service.Runs.Pairs.{alert_event_rows}
use team_c_edr.Service.Runs.{event_rows, alert_rows, incident_rows}
use team_c_edr.Service.Runs.Store.{RunMint, run_row, save_run_result}
use team_c_edr.Service.Runs.Store.Fitting.{NewRun}
use team_c_edr.Service.Runs.Store.Saving.{
  DistinctIds, with_run, save_run_result-saves, save_run_result_atomic,
}
use team_c_edr.Service.Runs.Store.Reads.{get_latest_run, get_latest_run-save_run_result}
use team_c_edr.Service.Jobs.{new_job}
use team_c_edr.Tests.Database.{no_runs}

abbrev event : String → Fields
event id = field "event_id" (str id) (field "host_id" (str "mac-1") end)

abbrev payload : Fields
payload = field "status" (str "completed") (
    field "events" (arr (cons (obj (event "evt-1")) (cons (obj (event "evt-2")) nil))) (
      field "alerts"
        (arr (
          cons
            (obj (
              field "alert_id" (str "alert-001")
                (field "event_ids" (arr (cons (str "evt-9") (cons (str "evt-2") nil))) end)))
            nil))
        (field "incidents"
          (arr (
            cons
              (obj (
                field "incident_id" (str "inc-001") (
                  field "alert_ids" (arr (cons (str "alert-001") (cons (str "alert-009") nil)))
                    end)))
              nil))
          (field "dlq_events" (arr (cons (obj end) (cons (obj end) nil))) end))))

abbrev mint : String → RunMint
mint run_id = record {
  run_id = run_id;
  now = "2026-07-03";
  event_ids = λ i. "event-" <> show i;
  alert_ids = λ i. "alert-" <> show i;
  incident_ids = λ i. "incident-" <> show i;
  outbox = record {
    id = run_id;
    now = "2026-07-03";
    outbox_id = "out-1";
    outbox_now = "2026-07-03";
  };
}

abbrev other_run : Db
other_run = record {
  tasks = [];
  jobs = [];
  outbox = [];
  runs = record no_runs { runs = run_row (record (mint "run-0") { now = "2026-07-02" }) end ∷ [] };
}

-- Only the event of the result is linked.
links :
    alert_event_rows "run-1" payload
    ≡ (record { run_id = "run-1"; alert_id = "alert-001"; event_id = "evt-2" } ∷ [])
unfolding alert_event_rows get
links = refl

payload-DistinctIds : DistinctIds (mint "run-1") payload
unfolding event_rows alert_rows incident_rows get
payload-DistinctIds = record {
  events = ((refl, tt), (tt, tt));
  alerts = (tt, tt);
  incidents = (tt, tt);
}

run-1-NewRun : NewRun "run-1" other_run.runs
unfolding run_row
run-1-NewRun = record {
  runs = (refl, tt);
  events = tt;
  alerts = tt;
  incidents = tt;
  alert_events = tt;
  incident_alerts = tt;
  dlq_events = tt;
}

save_run_result-saves_example :
    save_run_result (mint "run-1") payload other_run
    ≡ (ok "run-1", with_run (mint "run-1") payload other_run)
save_run_result-saves_example =
    save_run_result-saves (mint "run-1") payload other_run run-1-NewRun payload-DistinctIds

save_run_result_atomic_example :
    (save_run_result (mint "run-0") payload other_run
      ≡ (ok "run-0", with_run (mint "run-0") payload other_run))
    ⊎ ((e : Fault) × (save_run_result (mint "run-0") payload other_run ≡ (err e, other_run)))
save_run_result_atomic_example = save_run_result_atomic (mint "run-0") payload other_run

get_latest_run-save_run_result_example :
    get_latest_run (save_run_result (mint "run-1") payload other_run).1 ≡ some payload
unfolding run_row get
get_latest_run-save_run_result_example =
    get_latest_run-save_run_result (mint "run-1") payload other_run run-1-NewRun payload-DistinctIds
      (refl, tt)

abbrev task_mint : Mint
task_mint = record {
  id = "job-1";
  now = "2026-07-03";
  outbox_id = "out-2";
  outbox_now = "2026-07-03";
}

abbrev recorded : AnalysisJobRow
recorded = new_job task_mint "job-1" "job-1" end pending

abbrev queued : Db
queued = record other_run { jobs = recorded ∷ [] }

abbrev analyse : List Fields → Fields → Result Fields
analyse events input_meta = ok payload

abbrev fault_text : Fault → String
fault_text e = "failed"

abbrev run_mint : Mint → RunMint
run_mint m = mint "run-1"
