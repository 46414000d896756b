-- ===== src/Service/Runs/Store.antt =====
-- `save_run_result` of `ServiceStore` (src/service_store.py): one transaction that inserts the rows of
-- a result, each table with its primary key and foreign keys (src/service_models.py). A failing
-- constraint raises and rolls all back.
pub mod Known
pub mod Links
pub mod Inserts
pub mod Keys
pub mod Fitting
pub mod Saving
pub mod Reads
use team_c_edr.Base.{
  String, Bool, true, false, ◌&&◌, Option, none, some, List, [], ◌∷◌, ◌++◌, any, str_eq, str_or,
  if◌then◌else◌,
}
use team_c_edr.Json.{str, Fields, field, end}
use team_c_edr.Service.{
  Db, integrity_error, Result, ok, err, ◌>>=◌, transact, Mint, OutboxRecord, add_outbox,
}
use team_c_edr.Service.Rows.{
  RunRow, EventRow, AlertRow, IncidentRow, DlqEventRow, AlertEventRow, IncidentAlertRow, RunTables,
}
use team_c_edr.Service.Runs.Ids.{text_at, customer_of, tenant_of}
use team_c_edr.Service.Runs.Pairs.{alert_event_rows, incident_alert_rows}
use team_c_edr.Service.Runs.{NewIds, event_rows, alert_rows, incident_rows, dlq_rows}

-- The inserts of one table: `same` compares primary keys, `valid` tests the foreign keys.
unfoldable pub insert_all {ℓ} :
    {R : Type ℓ} → String → (R → R → Bool) → (R → Bool) → List R → List R → Result (List R)
insert_all table same valid [] rows = ok rows
insert_all table same valid (r ∷ rs) rows =
    let rest = insert_all table same valid rs (rows ++ (r ∷ [])) in
    if any (λ x. same x r) rows
    then err (integrity_error table)
    else if valid r
    then rest
    else err (integrity_error table)

-- A row with that run and that id is there.
abbrev pub known {ℓ} : {R : Type ℓ} → (R → String) → (R → String) → String → String → List R → Bool
known run id a x rows = any (λ r. str_eq (run r) a && str_eq (id r) x) rows

abbrev pub known_run : String → List RunRow → Bool
known_run a rows = any (λ (r : RunRow). str_eq r.run_id a) rows

abbrev pub known_event : String → String → List EventRow → Bool
known_event a x rows = known (λ (r : EventRow). r.run_id) (λ (r : EventRow). r.event_id) a x rows

abbrev pub known_alert : String → String → List AlertRow → Bool
known_alert a x rows = known (λ (r : AlertRow). r.run_id) (λ (r : AlertRow). r.alert_id) a x rows

abbrev pub known_incident : String → String → List IncidentRow → Bool
known_incident a x rows =
    known (λ (r : IncidentRow). r.run_id) (λ (r : IncidentRow). r.incident_id) a x rows

-- A foreign key that may be null.
abbrev pub none_or : (String → Bool) → Option String → Bool
none_or p none = true
none_or p (some x) = p x

abbrev pub same_run : RunRow → RunRow → Bool
same_run r s = str_eq r.run_id s.run_id

abbrev pub same_event : EventRow → EventRow → Bool
same_event r s = str_eq r.run_id s.run_id && str_eq r.event_id s.event_id

abbrev pub same_alert : AlertRow → AlertRow → Bool
same_alert r s = str_eq r.run_id s.run_id && str_eq r.alert_id s.alert_id

abbrev pub same_incident : IncidentRow → IncidentRow → Bool
same_incident r s = str_eq r.run_id s.run_id && str_eq r.incident_id s.incident_id

abbrev pub same_dlq : DlqEventRow → DlqEventRow → Bool
same_dlq r s = str_eq r.run_id s.run_id && str_eq r.dlq_id s.dlq_id

abbrev pub same_alert_event : AlertEventRow → AlertEventRow → Bool
same_alert_event r s =
    str_eq r.run_id s.run_id && (str_eq r.alert_id s.alert_id && str_eq r.event_id s.event_id)

abbrev pub same_incident_alert : IncidentAlertRow → IncidentAlertRow → Bool
same_incident_alert r s =
    str_eq r.run_id s.run_id && (str_eq r.incident_id s.incident_id && str_eq r.alert_id s.alert_id)

abbrev pub valid_event : List RunRow → EventRow → Bool
valid_event runs r = known_run r.run_id runs

abbrev pub valid_alert : List RunRow → List EventRow → AlertRow → Bool
valid_alert runs events r =
    known_run r.run_id runs && none_or (λ x. known_event r.run_id x events) r.primary_event_id

abbrev pub valid_incident : List RunRow → List AlertRow → IncidentRow → Bool
valid_incident runs alerts r =
    known_run r.run_id runs && none_or (λ x. known_alert r.run_id x alerts) r.primary_alert_id

abbrev pub valid_alert_event : List AlertRow → List EventRow → AlertEventRow → Bool
valid_alert_event alerts events r =
    known_alert r.run_id r.alert_id alerts && known_event r.run_id r.event_id events

abbrev pub valid_incident_alert : List IncidentRow → List AlertRow → IncidentAlertRow → Bool
valid_incident_alert incidents alerts r =
    known_incident r.run_id r.incident_id incidents && known_alert r.run_id r.alert_id alerts

abbrev pub valid_dlq : List RunRow → DlqEventRow → Bool
valid_dlq runs r = known_run r.run_id runs

-- The clock and the new ids of one save.
pub record RunMint : Type 0 where
  pub run_id : String
  pub now : String
  pub event_ids : NewIds
  pub alert_ids : NewIds
  pub incident_ids : NewIds
  pub outbox : Mint

unfoldable pub run_row : RunMint → Fields → RunRow
unfolding customer_of tenant_of
run_row m payload = record {
  run_id = m.run_id;
  generated_at = str_or (text_at "generated_at" payload) m.now;
  status = str_or (text_at "status" payload) "unknown";
  decision = str_or (text_at "decision" payload) "unknown";
  customer_id = customer_of payload;
  tenant_id = tenant_of payload;
  payload = payload;
}

unfoldable pub saved_record : String → Fields → OutboxRecord
saved_record run_id payload = record {
  event_type = "analysis.run_saved";
  aggregate_type = "run";
  aggregate_id = run_id;
  payload = field "run_id" (str run_id) (
      field "status" (str (str_or (text_at "status" payload) "unknown"))
        (field "decision" (str (str_or (text_at "decision" payload) "unknown")) end));
}

-- The inserts of the run tables, in the order of the flushes.
unfoldable pub save_rows : RunMint → Fields → RunTables → Result RunTables
unfolding insert_all run_row event_rows alert_rows incident_rows alert_event_rows
    incident_alert_rows dlq_rows
save_rows m payload t = do
  runs ← insert_all "runs" same_run (λ r. true) (run_row m payload ∷ []) t.runs
  events ←
      insert_all "events" same_event (valid_event runs) (event_rows m.event_ids m.run_id payload)
        t.events
  alerts ←
      insert_all "alerts" same_alert (valid_alert runs events)
        (alert_rows m.alert_ids m.run_id payload) t.alerts
  incidents ←
      insert_all "incidents" same_incident (valid_incident runs alerts)
        (incident_rows m.incident_ids m.run_id payload) t.incidents
  alert_events ←
      insert_all "alert_events" same_alert_event (valid_alert_event alerts events)
        (alert_event_rows m.run_id payload) t.alert_events
  incident_alerts ←
      insert_all "incident_alerts" same_incident_alert (valid_incident_alert incidents alerts)
        (incident_alert_rows m.run_id payload) t.incident_alerts
  dlq_events ←
      insert_all "dlq_events" same_dlq (valid_dlq runs) (dlq_rows m.run_id payload) t.dlq_events
  ok (record {
    runs = runs;
    events = events;
    alerts = alerts;
    incidents = incidents;
    alert_events = alert_events;
    incident_alerts = incident_alerts;
    dlq_events = dlq_events;
  })

unfoldable pub save_run : RunMint → Fields → Db → Result (String × Db)
unfolding save_rows saved_record add_outbox
save_run m payload db = do
  tables ← save_rows m payload db.runs
  let db' : Db = record db { runs = tables }
  ok (m.run_id, add_outbox m.outbox (saved_record m.run_id payload) db')

unfoldable pub save_run_result : RunMint → Fields → Db → Result String × Db
unfolding save_run
save_run_result m payload db = transact db (save_run m payload db)
