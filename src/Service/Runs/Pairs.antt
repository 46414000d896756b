-- ===== src/Service/Runs/Pairs.antt =====
-- The link tables of src/service_store_rows.py: `alert_event_rows` and `incident_alert_rows`.
use team_c_edr.Base.{
  String, Bool, ◌&&◌, List, [], ◌∷◌, ◌++◌, any, map, select, str_eq, str_mem, if◌then◌else◌,
}
use team_c_edr.Json.{Fields, get}
use team_c_edr.Service.Rows.{AlertEventRow, IncidentAlertRow}
use team_c_edr.Service.Runs.Ids.{
  alert_event_ids, event_id_set, incident_alert_ids, json_list, text_at,
}

-- `(x, y) in seen`
abbrev pub pair_mem : String × String → List (String × String) → Bool
pair_mem p seen = any (λ (q : String × String). str_eq q.0 p.0 && str_eq q.1 p.1) seen

-- The inner loop of the link tables: each pair once, in the order of its first occurrence.
unfoldable pub add_pairs : String → List String → List (String × String) → List (String × String)
add_pairs x [] rows = rows
add_pairs x (y ∷ ys) rows =
    add_pairs x ys (if pair_mem (x, y) rows then rows else rows ++ ((x, y) ∷ []))

-- The outer loop: `key` is the id of an object, `others` what it is linked to.
unfoldable pub link :
    (Fields → String)
    → (Fields → List String)
    → List Fields
    → List (String × String)
    → List (String × String)
unfolding add_pairs
link key others [] rows = rows
link key others (d ∷ ds) rows =
    link key others ds (if str_eq (key d) "" then rows else add_pairs (key d) (others d) rows)

-- The pairs of `alert_event_rows`: an event outside the run is passed over.
unfoldable pub alert_event_pairs : Fields → List (String × String)
unfolding link event_id_set alert_event_ids json_list
alert_event_pairs payload =
    link (text_at "alert_id")
      (λ alert. select (λ e. str_mem e (event_id_set payload)) (alert_event_ids alert))
      (json_list (get "alerts" payload)) []

unfoldable pub alert_event_rows : String → Fields → List AlertEventRow
unfolding alert_event_pairs
alert_event_rows run_id payload =
    map (λ (p : String × String). record { run_id = run_id; alert_id = p.0; event_id = p.1 })
      (alert_event_pairs payload)

unfoldable pub incident_alert_pairs : Fields → List (String × String)
unfolding link incident_alert_ids json_list
incident_alert_pairs payload =
    link (text_at "incident_id")
      (λ incident. incident_alert_ids incident (json_list (get "alerts" payload)))
      (json_list (get "incidents" payload)) []

unfoldable pub incident_alert_rows : String → Fields → List IncidentAlertRow
unfolding incident_alert_pairs
incident_alert_rows run_id payload =
    map (λ (p : String × String). record { run_id = run_id; incident_id = p.0; alert_id = p.1 })
      (incident_alert_pairs payload)
