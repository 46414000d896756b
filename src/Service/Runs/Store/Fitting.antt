-- ===== src/Service/Runs/Store/Fitting.antt =====
-- The rows of a result fit behind the tables of the other runs: their keys are new and apart, and
-- their foreign keys are there.

use team_c_edr.Base.{
  String, true, false, [], ◌∷◌, ◌++◌, ◌≡◌, refl, All, All_every, All_mono, All-map, Apart,
  Apart-map, str_eq, str_mem, eq_refl, any_miss,
}
use team_c_edr.Service.Runs.Store.Keys.{numbered-All, numbered-known, none_or-NamesKnown, dlq-Apart}
use team_c_edr.Json.{Fields, get}
use team_c_edr.Service.Rows.{
  RunRow, EventRow, AlertRow, IncidentRow, DlqEventRow, AlertEventRow, IncidentAlertRow, RunTables,
}
use team_c_edr.Service.Runs.Ids.{json_list, ids_at, event_id_set}
use team_c_edr.Service.Runs.Pairs.{alert_event_rows, incident_alert_rows}
use team_c_edr.Service.Runs.{
  event_row, alert_row, incident_row, dlq_row, event_rows, alert_rows, incident_rows, dlq_rows,
}
use team_c_edr.Service.Runs.Store.{
  RunMint, run_row, known_run, known_event, known_alert, known_incident, same_run, same_event,
  same_alert, same_incident, same_dlq, same_alert_event, same_incident_alert, valid_event,
  valid_alert, valid_incident, valid_alert_event, valid_incident_alert, valid_dlq,
}
use team_c_edr.Service.Runs.Store.Inserts.{Fits, any_other, any_later}
use team_c_edr.Service.Runs.Store.Known.{primary_event_id-NamesKnown, primary_alert_id-NamesKnown}
use team_c_edr.Service.Runs.Store.Links.{
  same_pair, alert_event_pairs-WellLinked, incident_alert_pairs-WellLinked,
}

-- No row of the tables is of that run.
pub record NewRun (run_id : String) (t : RunTables) : Type 0 where
  pub runs : All (λ (r : RunRow). str_eq r.run_id run_id ≡ false) t.runs
  pub events : All (λ (r : EventRow). str_eq r.run_id run_id ≡ false) t.events
  pub alerts : All (λ (r : AlertRow). str_eq r.run_id run_id ≡ false) t.alerts
  pub incidents : All (λ (r : IncidentRow). str_eq r.run_id run_id ≡ false) t.incidents
  pub alert_events : All (λ (r : AlertEventRow). str_eq r.run_id run_id ≡ false) t.alert_events
  pub incident_alerts :
      All (λ (r : IncidentAlertRow). str_eq r.run_id run_id ≡ false) t.incident_alerts
  pub dlq_events : All (λ (r : DlqEventRow). str_eq r.run_id run_id ≡ false) t.dlq_events

module _ (m : RunMint) (payload : Fields) (t : RunTables) (new : NewRun m.run_id t) where
  pub run-Fits : Fits same_run (λ r. true) (run_row m payload ∷ []) t.runs
  unfolding run_row
  run-Fits = record {
    apart = (tt, tt);
    new = (any_miss (λ (r : RunRow). str_eq r.run_id m.run_id) t.runs new.runs, tt);
    linked = (refl, tt);
  }

  pub run_known : known_run m.run_id (t.runs ++ (run_row m payload ∷ [])) ≡ true
  unfolding run_row
  run_known =
      any_later (λ (r : RunRow). str_eq r.run_id m.run_id) t.runs (run_row m payload ∷ [])
        (rw (eq_refl m.run_id) refl)

  pub event-Fits :
      Apart same_event (event_rows m.event_ids m.run_id payload)
      → Fits same_event
          (valid_event (t.runs ++ (run_row m payload ∷ [])))
          (event_rows m.event_ids m.run_id payload)
          t.events
  unfolding event_rows event_row
  event-Fits apart = record {
    apart = apart;
    new =
        numbered-All _ _
          (λ j d. any_other (λ (r : EventRow). r.run_id) _ m.run_id t.events new.events) 0 _;
    linked = numbered-All _ _ (λ j d. run_known) 0 _;
  }

  event_known :
      (x : String)
      → str_mem x (event_id_set payload) ≡ true
      → known_event m.run_id x (t.events ++ event_rows m.event_ids m.run_id payload) ≡ true
  unfolding event_rows event_row event_id_set
  event_known x h = any_later _ t.events _ (
      numbered-known _ _ "event_id" x (json_list (get "events" payload))
        (λ j d e given. rw (eq_refl m.run_id, e, given, eq_refl x) refl) h)

  alert_known :
      (x : String)
      → str_mem x (ids_at "alert_id" (json_list (get "alerts" payload))) ≡ true
      → known_alert m.run_id x (t.alerts ++ alert_rows m.alert_ids m.run_id payload) ≡ true
  unfolding alert_rows alert_row
  alert_known x h = any_later _ t.alerts _ (
      numbered-known _ _ "alert_id" x (json_list (get "alerts" payload))
        (λ j d e given. rw (eq_refl m.run_id, e, given, eq_refl x) refl) h)

  incident_known :
      (x : String)
      → str_mem x (ids_at "incident_id" (json_list (get "incidents" payload))) ≡ true
      → known_incident m.run_id x (t.incidents ++ incident_rows m.incident_ids m.run_id payload)
        ≡ true
  unfolding incident_rows incident_row
  incident_known x h = any_later _ t.incidents _ (
      numbered-known _ _ "incident_id" x (json_list (get "incidents" payload))
        (λ j d e given. rw (eq_refl m.run_id, e, given, eq_refl x) refl) h)

  pub alert-Fits :
      Apart same_alert (alert_rows m.alert_ids m.run_id payload)
      → Fits same_alert
          (valid_alert
            (t.runs ++ (run_row m payload ∷ []))
            (t.events ++ event_rows m.event_ids m.run_id payload))
          (alert_rows m.alert_ids m.run_id payload)
          t.alerts
  unfolding alert_rows alert_row
  alert-Fits apart = record {
    apart = apart;
    new =
        numbered-All _ _
          (λ j d. any_other (λ (r : AlertRow). r.run_id) _ m.run_id t.alerts new.alerts) 0 _;
    linked =
        numbered-All _ _
          (λ j d. rw run_known (
            none_or-NamesKnown _ (event_id_set payload) event_known _
              (primary_event_id-NamesKnown d (event_id_set payload))))
          0 _;
  }

  pub incident-Fits :
      Apart same_incident (incident_rows m.incident_ids m.run_id payload)
      → Fits same_incident
          (valid_incident
            (t.runs ++ (run_row m payload ∷ []))
            (t.alerts ++ alert_rows m.alert_ids m.run_id payload))
          (incident_rows m.incident_ids m.run_id payload)
          t.incidents
  unfolding incident_rows incident_row
  incident-Fits apart = record {
    apart = apart;
    new =
        numbered-All _ _
          (λ j d. any_other (λ (r : IncidentRow). r.run_id) _ m.run_id t.incidents new.incidents) 0
          _;
    linked =
        numbered-All _ _
          (λ j d. rw run_known (
            none_or-NamesKnown _ (ids_at "alert_id" (json_list (get "alerts" payload))) alert_known
              _ (primary_alert_id-NamesKnown d (json_list (get "alerts" payload)))))
          0 _;
  }

  pub alert_event-Fits :
      Fits same_alert_event
        (valid_alert_event
          (t.alerts ++ alert_rows m.alert_ids m.run_id payload)
          (t.events ++ event_rows m.event_ids m.run_id payload))
        (alert_event_rows m.run_id payload)
        t.alert_events
  unfolding alert_event_rows
  alert_event-Fits =
      let w = alert_event_pairs-WellLinked payload in
      record {
        apart = Apart-map same_pair _ _ (λ p q h. rw (eq_refl m.run_id) h) _ w.apart;
        new = All-map _ _ _ (
            All_every _
              (λ p.
                any_other (λ (r : AlertEventRow). r.run_id) _ m.run_id t.alert_events
                  new.alert_events)
              _);
        linked =
            All-map _ _ _
              (All_mono _ _ (λ p h. rw (alert_known _ h.0, event_known _ h.1) refl) _ w.linked);
      }

  pub incident_alert-Fits :
      Fits same_incident_alert
        (valid_incident_alert
          (t.incidents ++ incident_rows m.incident_ids m.run_id payload)
          (t.alerts ++ alert_rows m.alert_ids m.run_id payload))
        (incident_alert_rows m.run_id payload)
        t.incident_alerts
  unfolding incident_alert_rows
  incident_alert-Fits =
      let w = incident_alert_pairs-WellLinked payload in
      record {
        apart = Apart-map same_pair _ _ (λ p q h. rw (eq_refl m.run_id) h) _ w.apart;
        new = All-map _ _ _ (
            All_every _
              (λ p.
                any_other (λ (r : IncidentAlertRow). r.run_id) _ m.run_id t.incident_alerts
                  new.incident_alerts)
              _);
        linked =
            All-map _ _ _
              (All_mono _ _ (λ p h. rw (incident_known _ h.0, alert_known _ h.1) refl) _ w.linked);
      }

  pub dlq-Fits :
      Fits same_dlq
        (valid_dlq (t.runs ++ (run_row m payload ∷ [])))
        (dlq_rows m.run_id payload)
        t.dlq_events
  unfolding dlq_rows dlq_row
  dlq-Fits = record {
    apart = dlq-Apart m.run_id 1 (json_list (get "dlq_events" payload));
    new =
        numbered-All _ _
          (λ j d. any_other (λ (r : DlqEventRow). r.run_id) _ m.run_id t.dlq_events new.dlq_events)
          1 _;
    linked = numbered-All _ _ (λ j d. run_known) 1 _;
  }
