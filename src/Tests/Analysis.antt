-- ===== src/Tests/Analysis.antt =====
-- An attack on one host, from the download to the transfer, through the whole analysis.
use team_c_edr.Base.{
  ℕ, ◌*◌, ◌≤◌, String, true, Option, none, some, List, [], ◌∷◌, ◌≡◌, refl, ◌↔◌, All, any, length,
  str_eq, if◌then◌else◌, ◌*◌, map,
}
use team_c_edr.Base.Int.{pos}
use team_c_edr.Json.{str, int, Fields, field, end, get}
use team_c_edr.Python.{Runtime, DateTime, Result, ok, err}
use team_c_edr.Detection.Alerts.{r001, r004, r005, Alert, severity, Rule}
use team_c_edr.Detection.Beaconing.{detect_beaconing}
use team_c_edr.Detection.Beaconing.Regular.{IsBeacon, detect_beaconing-IsBeacon}
use team_c_edr.Detection.Incidents.{Incident, build_incidents}
use team_c_edr.Detection.Incidents.Chains.{IsChain, build_incidents-IsChain}
use team_c_edr.Detection.Risk.{EndpointRisk, build_endpoint_risk, red, edr_state, is_critical}
use team_c_edr.Detection.Risk.Bounds.{IsRow, build_endpoint_risk-IsRow, edr_state-red}
use team_c_edr.Detection.Analyze.{Detection, detect_alerts, analyze_events}
use team_c_edr.Detection.Analyze.Promises.{IsConsistent, analyze_events-IsConsistent}
use team_c_edr.Predictor.{score_of}
use team_c_edr.Response.{Action, build_response_plan}
use team_c_edr.Response.Counts.{total, build_response_plan_covers}
use team_c_edr.Predictor.Scores.{score_of-cons}
use team_c_edr.Base.{sort_by}
use team_c_edr.Json.{has_key}
use team_c_edr.Python.{key_mem}
use team_c_edr.Detection.Privacy.{is_sensitive, sanitize_event}
use team_c_edr.Detection.Validate.{
  missing, missing_errors, is_supported, type_errors, parses, time_errors, schema_errors,
  file_event, seen_after,
}
use team_c_edr.Json.{truthy}
use team_c_edr.Python.{hash_key, key_eq}
use team_c_edr.Detection.Rules.{event_domain, parse_time}
use team_c_edr.Detection.Signatures.{load_signature_db}
use team_c_edr.Detection.Rules.Network.{
  maybe_add_domain_alert, maybe_add_large_outbound_alert, maybe_add_rare_asn_alert,
  maybe_add_shell_network_alert, maybe_add_vpn_abnormal_alert,
}
use team_c_edr.Detection.Rules.Content.{
  maybe_add_download_alert, maybe_add_hash_signature_alert, maybe_add_unsigned_execution_alert,
}
use team_c_edr.Detection.Detect.{rule_calls}
use team_c_edr.Detection.Timeline.{ordered, sort_keys}
use team_c_edr.Tests.Detection.{rt as plain_rt, db}

abbrev minute : String → Option ℕ
minute s =
    if str_eq s "10:00"
    then some 0
    else if str_eq s "10:01"
    then some 1
    else if str_eq s "10:02"
    then some 2
    else if str_eq s "10:03"
    then some 3
    else if str_eq s "10:04"
    then some 4
    else none

abbrev parse : String → Option DateTime
parse s = elim (minute s) [
  | none ↦ none
  | some n ↦ some (record { aware = true; instant = n * 60_000_000; hour = 10 })
]

abbrev rt : Runtime
rt = record plain_rt { from_isoformat = parse }

abbrev event : String → String → String → Fields → Fields
event id time event_type rest = field "event_id" (str id) (
    field "event_time" (str time) (
      field "received_time" (str time) (
        field "host_id" (str "endpoint-01") (
          field "event_type" (str event_type)
            (field "source" (str "agent") (field "payload_version" (str "1.1") rest))))))

abbrev beat : String → String → ℕ → Fields
beat id time bytes =
    event id time "network_connection"
      (field "dst_ip" (str "203.0.113.77") (field "bytes_out" (int (pos bytes)) end))

abbrev attack : List Fields
attack =
    event "d" "10:00" "file_download" (field "hash_sha256" (str "h1") end)
    ∷ event "x" "10:01" "process_start" (field "hash_sha256" (str "h1") end)
    ∷ beat "n4" "10:04" 60_000_000
    ∷ beat "n1" "10:01" 10
    ∷ beat "n2" "10:02" 10
    ∷ beat "n3" "10:03" 10
    ∷ []

abbrev list_of {ℓ} : {A : Type ℓ} → Result (List A) → List A
list_of (ok xs) = xs
list_of (err e) = []

abbrev beacons : List Alert
beacons = list_of (detect_beaconing rt attack)

abbrev alerts : List Alert
alerts = list_of (detect_alerts rt db attack)

abbrev incidents : List Incident
incidents = list_of (build_incidents rt attack alerts)

abbrev rows : List EndpointRisk
rows = list_of (build_endpoint_risk rt attack alerts incidents)

-- The runs return: one beacon, one incident, one row.
attack_runs :
    (detect_beaconing rt attack ≡ ok beacons)
    × (length beacons ≡ 1)
    × (build_incidents rt attack alerts ≡ ok incidents)
    × (length incidents ≡ 1)
    × (build_endpoint_risk rt attack alerts incidents ≡ ok rows)
    × ((d : Detection) × (analyze_events rt db attack ≡ ok d))
unfolding analyze_events detect_beaconing build_incidents build_endpoint_risk detect_alerts get
    event_domain hash_key key_eq parse_time sort_by rule_calls maybe_add_domain_alert
    load_signature_db maybe_add_download_alert maybe_add_hash_signature_alert
    maybe_add_unsigned_execution_alert maybe_add_large_outbound_alert maybe_add_rare_asn_alert
    maybe_add_shell_network_alert maybe_add_vpn_abnormal_alert sort_keys truthy schema_errors
    sanitize_event is_sensitive type_errors file_event missing_errors missing has_key key_mem
    is_supported time_errors parses seen_after ordered
attack_runs = (refl, refl, refl, refl, refl, (_, refl))

attack_bounded : All (λ (i : Incident). i.risk_score ≤ 100) incidents
attack_bounded =
    bounded incidents (build_incidents-IsChain rt alerts attack incidents attack_runs.2)
  where
    bounded :
        (is : List Incident)
        → All (IsChain alerts) is
        → All (λ (i : Incident). i.risk_score ≤ 100) is
    bounded [] h = tt
    bounded (i ∷ is) h = (h.0.most, bounded is h.1)

attack_labels :
    (some_rows : List EndpointRisk)
    → All (IsRow alerts incidents) some_rows
    → All (λ (r : EndpointRisk). r.risk_severity ≡ severity r.risk_score) some_rows
attack_labels [] h = tt
attack_labels (r ∷ rs) h = (h.0.label, attack_labels rs h.1)

detect_beaconing-IsBeacon_example : All IsBeacon beacons
detect_beaconing-IsBeacon_example = detect_beaconing-IsBeacon rt attack beacons attack_runs.0

build_incidents-IsChain_example : All (IsChain alerts) incidents
build_incidents-IsChain_example = build_incidents-IsChain rt alerts attack incidents attack_runs.2

edr_state-red_example :
    (edr_state rows ≡ red) ↔ (any (λ (r : EndpointRisk). is_critical r.risk_severity) rows ≡ true)
edr_state-red_example = edr_state-red rows (
    attack_labels rows
      (build_endpoint_risk-IsRow rt alerts incidents attack_bounded attack rows attack_runs.4))

analyze_events-IsConsistent_example : IsConsistent rt attack attack_runs.5.0
analyze_events-IsConsistent_example =
    analyze_events-IsConsistent rt db attack attack_runs.5.0 attack_runs.5.1

score_of-cons_example :
    (score_of (r001 ∷ r004 ∷ []) 1 ≤ score_of (r005 ∷ r001 ∷ r004 ∷ []) 1)
    × (score_of (r001 ∷ r004 ∷ []) 1 ≤ score_of (r001 ∷ r004 ∷ []) 2)
score_of-cons_example = score_of-cons r005 (r001 ∷ r004 ∷ []) 1

build_response_plan_covers_example :
    let plan = build_response_plan "dry-run" alerts in
    (map {B = String × Rule} (λ (x : Action). (x.alert_id, x.rule)) plan.actions
      ≡ map {B = String × Rule} (λ (a : Alert). (a.alert_id, a.rule)) alerts)
    × (total plan.by_action_type ≡ plan.action_count)
build_response_plan_covers_example = build_response_plan_covers "dry-run" alerts
