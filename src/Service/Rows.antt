-- ===== src/Service/Rows.antt =====
-- The tables of a saved run in src/service_models.py. A JSON column is carried as the object that its
-- text decodes to; the lengths of the columns are not checked.
use team_c_edr.Base.{String, Option, List}
use team_c_edr.Base.Int.{ℤ}
use team_c_edr.Json.{Fields}

pub record RunRow : Type 0 where
  pub run_id : String
  pub generated_at : String
  pub status : String
  pub decision : String
  pub customer_id : String
  pub tenant_id : String
  pub payload : Fields

pub record EventRow : Type 0 where
  pub run_id : String
  pub event_id : String
  pub customer_id : String
  pub tenant_id : String
  pub event_type : String
  pub host_id : String
  pub event_time : String
  pub process_name : String
  pub destination : String
  pub payload : Fields

pub record AlertRow : Type 0 where
  pub run_id : String
  pub alert_id : String
  pub customer_id : String
  pub tenant_id : String
  pub primary_event_id : Option String
  pub rule_id : String
  pub severity : String
  pub risk_score : ℤ
  pub host_id : String
  pub event_time : String
  pub payload : Fields

pub record IncidentRow : Type 0 where
  pub run_id : String
  pub incident_id : String
  pub customer_id : String
  pub tenant_id : String
  pub primary_alert_id : Option String
  pub severity : String
  pub risk_score : ℤ
  pub host_display_name : String
  pub payload : Fields

pub record DlqEventRow : Type 0 where
  pub run_id : String
  pub dlq_id : String
  pub event_id : String
  pub error_code : String
  pub payload : Fields

pub record AlertEventRow : Type 0 where
  pub run_id : String
  pub alert_id : String
  pub event_id : String

pub record IncidentAlertRow : Type 0 where
  pub run_id : String
  pub incident_id : String
  pub alert_id : String

pub record RunTables : Type 0 where
  pub runs : List RunRow
  pub events : List EventRow
  pub alerts : List AlertRow
  pub incidents : List IncidentRow
  pub alert_events : List AlertEventRow
  pub incident_alerts : List IncidentAlertRow
  pub dlq_events : List DlqEventRow
