-- ===== src/Service/Runs/Store/Saving.antt =====
-- What `save_run_result` leaves in the tables.
use team_c_edr.Base.{true, ◌⊎◌, inl, inr, [], ◌∷◌, ◌++◌, ◌≡◌, refl, Apart}
use team_c_edr.Json.{Fields}
use team_c_edr.Service.{Db, Fault, ok, err, add_outbox}
use team_c_edr.Service.Rows.{RunTables}
use team_c_edr.Service.Runs.Pairs.{alert_event_rows, incident_alert_rows}
use team_c_edr.Service.Runs.{event_rows, alert_rows, incident_rows, dlq_rows}
use team_c_edr.Service.Runs.Store.{
  valid_event, valid_alert, valid_incident, valid_alert_event, valid_incident_alert, valid_dlq,
  RunMint, run_row, same_event, same_alert, same_incident, save_rows, save_run, save_run_result,
  saved_record, same_run, valid_event, valid_alert, valid_incident, same_alert_event,
  valid_alert_event, same_incident_alert, valid_incident_alert, same_dlq, valid_dlq,
}
use team_c_edr.Service.Runs.Store.Inserts.{insert_all-Fits, ReturnsOrRaises, insert_then}
use team_c_edr.Service.Runs.Store.Fitting.{
  NewRun, run-Fits, event-Fits, alert-Fits, incident-Fits, alert_event-Fits, incident_alert-Fits,
  dlq-Fits,
}

-- The tables with the rows of the result behind those of the other runs.
abbrev pub with_rows : RunMint → Fields → RunTables → RunTables
with_rows m payload t = record {
  runs = t.runs ++ (run_row m payload ∷ []);
  events = t.events ++ event_rows m.event_ids m.run_id payload;
  alerts = t.alerts ++ alert_rows m.alert_ids m.run_id payload;
  incidents = t.incidents ++ incident_rows m.incident_ids m.run_id payload;
  alert_events = t.alert_events ++ alert_event_rows m.run_id payload;
  incident_alerts = t.incident_alerts ++ incident_alert_rows m.run_id payload;
  dlq_events = t.dlq_events ++ dlq_rows m.run_id payload;
}

-- The whole run is in the tables, and an outbox record tells of it.
abbrev pub with_run : RunMint → Fields → Db → Db
with_run m payload db =
    add_outbox m.outbox (saved_record m.run_id payload)
      (record db { runs = with_rows m payload db.runs })

-- The events, the alerts and the incidents of a result have different ids.
pub record DistinctIds (m : RunMint) (payload : Fields) : Type 0 where
  pub events : Apart same_event (event_rows m.event_ids m.run_id payload)
  pub alerts : Apart same_alert (alert_rows m.alert_ids m.run_id payload)
  pub incidents : Apart same_incident (incident_rows m.incident_ids m.run_id payload)

-- A result is saved whole under the new run id: the seven tables get its rows behind those they have
-- and the outbox a record of it, and no foreign key fails, whatever ids the result's alerts and
-- incidents name. The run id is new to the tables, and the result's events, alerts and incidents have
-- different ids.
pub save_run_result-saves :
    (m : RunMint) (payload : Fields) (db : Db)
    → NewRun m.run_id db.runs
    → DistinctIds m payload
    → save_run_result m payload db ≡ (ok m.run_id, with_run m payload db)
unfolding save_run_result save_run save_rows
save_run_result-saves m payload db new ids =
    rw
      (
        insert_all-Fits "runs" _ _ _ _ (run-Fits m payload db.runs new),
        insert_all-Fits "events" _ _ _ _ (event-Fits m payload db.runs new ids.events),
        insert_all-Fits "alerts" _ _ _ _ (alert-Fits m payload db.runs new ids.alerts),
        insert_all-Fits "incidents" _ _ _ _ (incident-Fits m payload db.runs new ids.incidents),
        insert_all-Fits "alert_events" _ _ _ _ (alert_event-Fits m payload db.runs new),
        insert_all-Fits "incident_alerts" _ _ _ _ (incident_alert-Fits m payload db.runs new),
        insert_all-Fits "dlq_events" _ _ _ _ (dlq-Fits m payload db.runs new),
      )
      refl

save_rows-ReturnsOrRaises :
    (m : RunMint) (payload : Fields) (t : RunTables)
    → ReturnsOrRaises (with_rows m payload t) (save_rows m payload t)
unfolding save_rows
save_rows-ReturnsOrRaises m payload t =
    let u : RunTables = with_rows m payload t in
    insert_then "runs" same_run (λ r. true) (run_row m payload ∷ []) t.runs _ u
      (insert_then "events" same_event (valid_event u.runs)
        (event_rows m.event_ids m.run_id payload) t.events _ u
        (insert_then "alerts" same_alert (valid_alert u.runs u.events)
          (alert_rows m.alert_ids m.run_id payload) t.alerts _ u
          (insert_then "incidents" same_incident (valid_incident u.runs u.alerts)
            (incident_rows m.incident_ids m.run_id payload) t.incidents _ u
            (insert_then "alert_events" same_alert_event (valid_alert_event u.alerts u.events)
              (alert_event_rows m.run_id payload) t.alert_events _ u
              (insert_then "incident_alerts" same_incident_alert
                (valid_incident_alert u.incidents u.alerts) (incident_alert_rows m.run_id payload)
                t.incident_alerts _ u
                (insert_then "dlq_events" same_dlq (valid_dlq u.runs) (dlq_rows m.run_id payload)
                  t.dlq_events _ u (inl refl)))))))

-- Saving is all or nothing, whatever the result and the tables hold: either the run id is returned
-- and every row of the result is in the tables, with the outbox record, or an exception is raised and
-- the database is as before.
pub save_run_result_atomic :
    (m : RunMint) (payload : Fields) (db : Db)
    → (save_run_result m payload db ≡ (ok m.run_id, with_run m payload db))
      ⊎ ((e : Fault) × (save_run_result m payload db ≡ (err e, db)))
unfolding save_run_result save_run
save_run_result_atomic m payload db = elim (save_rows-ReturnsOrRaises m payload db.runs) [
  | inl saved ↦ inl (rw saved refl)
  | inr (e, raised) ↦ inr (e, rw raised refl)
]
