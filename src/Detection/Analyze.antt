-- ===== src/Detection/Analyze.antt =====
-- `_detect_alerts` and `analyze_events` of src/detection_engine.py. The SIEM view
-- (src/siem_analyzer.py), the clock and the constant texts of the result are left out.
pub mod Promises
use team_c_edr.Base.{ℕ, suc, Bool, true, false, List, [], ◌∷◌, ◌++◌, length, count_if, String}
use team_c_edr.Json.{Value, Fields, get}
use team_c_edr.Python.{Runtime, Result, ok, err, ◌>>=◌, no_valid_events}
use team_c_edr.Detection.Alerts.{Tactic, Alert, number_alerts}
use team_c_edr.Detection.Signatures.{SignatureDb}
use team_c_edr.Detection.Validate.{Split, DlqEvent, PrivacyAction, validate_and_sanitize}
use team_c_edr.Detection.Detect.{type_in, event_alerts}
use team_c_edr.Detection.Timeline.{sort_valid}
use team_c_edr.Detection.Beaconing.{detect_beaconing}
use team_c_edr.Detection.Incidents.{Incident, build_incidents}
use team_c_edr.Detection.Risk.{
  EndpointRisk, build_endpoint_risk, highest_risk_score, EdrState, edr_state, Decision, decision,
  is_critical,
}
use team_c_edr.Detection.Views.{
  Counter, build_mitre_distribution, top_suspicious_domains, top_suspicious_ips, event_summaries,
  build_process_trees,
}

-- `summary`
pub record Summary : Type 0 where
  pub input_event_count : ℕ
  pub valid_event_count : ℕ
  pub dlq_event_count : ℕ
  pub privacy_mask_action_count : ℕ
  pub alert_count : ℕ
  pub incident_count : ℕ
  pub critical_endpoint_count : ℕ
  pub highest_risk_score : ℕ
  pub flow_event_count : ℕ
  pub l7_event_count : ℕ
  pub decryption_event_count : ℕ

pub record Detection : Type 0 where
  pub summary : Summary
  pub signature_db_version : String
  pub edr_state : EdrState
  pub events : List Fields
  pub alerts : List Alert
  pub incidents : List Incident
  pub endpoint_risk : List EndpointRisk
  pub mitre_distribution : List (Tactic × ℕ)
  pub top_suspicious_domains : Counter
  pub top_suspicious_ips : Counter
  pub process_trees : List Fields
  pub dlq_events : List DlqEvent
  pub privacy_actions : List PrivacyAction
  pub decision : Decision

-- `sum(1 for item in valid_events if item["event_type"] in ts)`
unfoldable pub count_type : List String → List Fields → ℕ
unfolding type_in
count_type ts events = count_if (λ event. type_in (get "event_type" event) ts) events

module _ (rt : Runtime) where
  unfoldable pub all_event_alerts : SignatureDb → List Fields → Result (List Alert)
  unfolding event_alerts
  all_event_alerts db [] = ok []
  all_event_alerts db (event ∷ events) = do
    found ← event_alerts rt db event
    rest ← all_event_alerts db events
    ok (found ++ rest)

  unfoldable pub detect_alerts : SignatureDb → List Fields → Result (List Alert)
  unfolding all_event_alerts detect_beaconing number_alerts
  detect_alerts db events = do
    found ← all_event_alerts db events
    beacons ← detect_beaconing rt events
    ok (number_alerts 1 (found ++ beacons))

  -- The part of `analyze_events` after the test of `valid_events`.
  unfoldable pub analyze_valid : SignatureDb → ℕ → Split → Result Detection
  unfolding sort_valid detect_alerts build_incidents build_endpoint_risk edr_state event_summaries
      build_mitre_distribution top_suspicious_domains top_suspicious_ips build_process_trees
      decision count_type
  analyze_valid db input_count split = do
    events ← sort_valid rt split.valid_events
    alerts ← detect_alerts db events
    incidents ← build_incidents rt events alerts
    rows ← build_endpoint_risk rt events alerts incidents
    summaries ← event_summaries rt events
    domains ← top_suspicious_domains rt events alerts
    ips ← top_suspicious_ips rt events alerts
    ok (record {
      summary = record {
        input_event_count = input_count;
        valid_event_count = length events;
        dlq_event_count = length split.dlq_events;
        privacy_mask_action_count = length split.privacy_actions;
        alert_count = length alerts;
        incident_count = length incidents;
        critical_endpoint_count = count_if (λ (r : EndpointRisk). is_critical r.risk_severity) rows;
        highest_risk_score = highest_risk_score rows;
        flow_event_count = count_type ("flow_summary" ∷ []) events;
        l7_event_count = count_type ("http_request" ∷ "application_action" ∷ []) events;
        decryption_event_count = count_type ("decryption_event" ∷ []) events;
      };
      signature_db_version = db.version;
      edr_state = edr_state rows;
      events = summaries;
      alerts = alerts;
      incidents = incidents;
      endpoint_risk = rows;
      mitre_distribution = build_mitre_distribution alerts incidents;
      top_suspicious_domains = domains;
      top_suspicious_ips = ips;
      process_trees = build_process_trees events;
      dlq_events = split.dlq_events;
      privacy_actions = split.privacy_actions;
      decision = decision rows incidents split.dlq_events;
    })

  abbrev pub analyze_split : SignatureDb → ℕ → Split → List Fields → Result Detection
  analyze_split db n split [] = err no_valid_events
  analyze_split db n split (event ∷ events) = analyze_valid db n split

  unfoldable pub analyze_events : SignatureDb → List Fields → Result Detection
  unfolding validate_and_sanitize analyze_valid
  analyze_events db raw_events = do
    split ← validate_and_sanitize rt raw_events
    analyze_split db (length raw_events) split split.valid_events
