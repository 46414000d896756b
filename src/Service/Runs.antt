-- ===== src/Service/Runs.antt =====
-- src/service_store_rows.py: the rows that a result's payload becomes, with the payload helpers of
-- src/service_store_payloads.py. The ids that `new_id` would give to rows without one are parameters.
pub mod Ids
pub mod Pairs
pub mod Store
pub mod Job
use team_c_edr.Base.{
  ℕ, zero, suc, String, ◌<>◌, Bool, true, false, not, ◌&&◌, ◌||◌, Option, none, some, List, [], ◌∷◌,
  ◌++◌, any, map, select, str_eq, str_mem, str_or, show, show_padded, if◌then◌else◌,
}
use team_c_edr.Base.Int.{ℤ, pos, negsuc}
use team_c_edr.Json.{
  Value, null, bool, int, float, str, arr, obj, opaque, Items, nil, cons, Fields, end, get, as_obj,
  as_arr, objects,
}
use team_c_edr.Service.{text_value}
use team_c_edr.Service.Rows.{
  EventRow, AlertRow, IncidentRow, DlqEventRow, AlertEventRow, IncidentAlertRow,
}
use team_c_edr.Service.Runs.Ids.{
  customer_of, event_id_set, int_text, int_value, json_list, primary_alert_id, primary_event_id,
  tenant_of, text_at,
}

-- `_event_row`
unfoldable pub event_row : String → String → String → String → Fields → EventRow
event_row run_id new_id customer tenant event = record {
  run_id = run_id;
  event_id = str_or (text_at "event_id" event) new_id;
  customer_id = customer;
  tenant_id = tenant;
  event_type = str_or (text_at "event_type" event) "unknown";
  host_id = str_or (text_at "host_id" event) "unknown";
  event_time = text_at "event_time" event;
  process_name = str_or (text_at "process_name" event) "-";
  destination = str_or (text_at "domain" event) (str_or (text_at "dst_ip" event) "-");
  payload = event;
}

-- `_alert_row`
unfoldable pub alert_row : String → String → String → String → Option String → Fields → AlertRow
unfolding int_value
alert_row run_id new_id customer tenant primary alert = record {
  run_id = run_id;
  alert_id = str_or (text_at "alert_id" alert) new_id;
  customer_id = customer;
  tenant_id = tenant;
  primary_event_id = primary;
  rule_id = str_or (text_at "rule_id" alert) "unknown";
  severity = str_or (text_at "severity" alert) "info";
  risk_score = int_value (get "risk_score" alert);
  host_id = str_or (text_at "host_id" alert) "unknown";
  event_time = text_at "event_time" alert;
  payload = alert;
}

-- `_incident_row`
unfoldable pub incident_row :
    String → String → String → String → Option String → Fields → IncidentRow
unfolding int_value
incident_row run_id new_id customer tenant primary incident = record {
  run_id = run_id;
  incident_id = str_or (text_at "incident_id" incident) new_id;
  customer_id = customer;
  tenant_id = tenant;
  primary_alert_id = primary;
  severity = str_or (text_at "severity" incident) "info";
  risk_score = int_value (get "risk_score" incident);
  host_display_name =
      str_or (text_at "host_display_name" incident) (str_or (text_at "host_id" incident) "unknown");
  payload = incident;
}

-- `_dlq_row`
unfoldable pub dlq_row : String → ℕ → Fields → DlqEventRow
unfolding show_padded int_text
dlq_row run_id index event = record {
  run_id = run_id;
  dlq_id = run_id <> ("-dlq-" <> show_padded index);
  event_id = str_or (text_at "event_id" event) ("index-" <> int_text (get "index" event));
  error_code = str_or (text_at "code" event) "UNKNOWN_SCHEMA_ERROR";
  payload = event;
}

-- A comprehension over rows numbered from `i` on.
unfoldable pub numbered {ℓ} : {R : Type ℓ} → (ℕ → Fields → R) → ℕ → List Fields → List R
numbered f i [] = []
numbered f i (d ∷ ds) = f i d ∷ numbered f (suc i) ds

-- What `new_id` would give to the rows without an id.
abbrev pub NewIds : Type 0
NewIds = ℕ → String

unfoldable pub event_rows : NewIds → String → Fields → List EventRow
unfolding numbered event_row json_list customer_of tenant_of
event_rows ids run_id payload =
    numbered (λ i d. event_row run_id (ids i) (customer_of payload) (tenant_of payload) d) 0
      (json_list (get "events" payload))

unfoldable pub alert_rows : NewIds → String → Fields → List AlertRow
unfolding numbered alert_row json_list customer_of tenant_of primary_event_id event_id_set
alert_rows ids run_id payload =
    numbered
      (λ i d.
        alert_row run_id (ids i) (customer_of payload) (tenant_of payload)
          (primary_event_id d (event_id_set payload)) d)
      0 (json_list (get "alerts" payload))

unfoldable pub incident_rows : NewIds → String → Fields → List IncidentRow
unfolding numbered incident_row json_list customer_of tenant_of primary_alert_id
incident_rows ids run_id payload =
    numbered
      (λ i d.
        incident_row run_id (ids i) (customer_of payload) (tenant_of payload)
          (primary_alert_id d (json_list (get "alerts" payload))) d)
      0 (json_list (get "incidents" payload))

unfoldable pub dlq_rows : String → Fields → List DlqEventRow
unfolding numbered dlq_row json_list
dlq_rows run_id payload = numbered (dlq_row run_id) 1 (json_list (get "dlq_events" payload))
