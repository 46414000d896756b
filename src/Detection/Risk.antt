-- ===== src/Detection/Risk.antt =====
-- `_build_endpoint_risk`, `_edr_state`, `_build_mitre_distribution` and `_decision` of
-- src/detection_engine.py: the risk of each host and of the fleet.
pub mod Bounds
use team_c_edr.Base.{
  ℕ, suc, ◌+◌, min, max, String, Bool, true, false, not, ◌&&◌, ◌||◌, Option, none, some, List, [],
  ◌∷◌, ◌++◌, ltb, leb, ◌==◌, length, take, select, count_if, sum_of, max_of, any, map, sort_by,
  str_lt, if◌then◌else◌,
}
use team_c_edr.Json.{Value, Fields, get}
use team_c_edr.Python.{Runtime, Result, ok, err, ◌>>=◌, Key, hash_key, key_eq, key_mem}
use team_c_edr.Service.{text_value}
use team_c_edr.Detection.Alerts.{
  Rule, Tactic, reconnaissance, resource_development, initial_access, execution, persistence,
  privilege_escalation, defense_evasion, credential_access, discovery, lateral_movement, collection,
  command_and_control, exfiltration, impact, Severity, critical, severity, Alert, display_host,
}
use team_c_edr.Detection.Timeline.{key_less, sort_keys}
use team_c_edr.Detection.Incidents.{Incident, HostEvents, events_by_host, alerts_of_host, rule_eq}

pub record EndpointRisk : Type 0 where
  pub host_key : Key
  pub host_id : Value
  pub host_display_name : Value
  pub risk_score : ℕ
  pub risk_severity : Severity
  pub alert_count : ℕ
  pub incident_count : ℕ
  pub top_rules : List Rule
  pub last_event_time : String

-- `incident_bonus.get(host_id, 0)`: the last incident of a host counts.
unfoldable pub incident_bonus : Key → List Incident → ℕ
incident_bonus k [] = 0
incident_bonus k (i ∷ is) =
    let later = incident_bonus k is in
    if key_eq i.host_key k && not (any (λ (j : Incident). key_eq j.host_key k) is)
    then i.risk_score
    else later

-- The keys of a `Counter`, in the order of their first occurrence.
unfoldable pub distinct_rules : List Rule → List Rule → List Rule
unfolding rule_eq
distinct_rules seen [] = []
distinct_rules seen (r ∷ rs) =
    let skip = distinct_rules seen rs in
    let keep = distinct_rules (r ∷ seen) rs in if any (rule_eq r) seen then skip else r ∷ keep

abbrev pub occurrences : List Rule → Rule → ℕ
occurrences rs r = count_if (rule_eq r) rs

-- `[rule_id for rule_id, _ in Counter(...).most_common(4)]`
unfoldable pub top_rules : List Rule → List Rule
unfolding distinct_rules rule_eq
top_rules rs =
    take 4 (sort_by (λ r q. ltb (occurrences rs q) (occurrences rs r)) (distinct_rules [] rs))

-- `max(event["event_time"] for ...)`: the times are texts, since they were parsed.
unfoldable pub last_event_time : String → List Fields → String
last_event_time best [] = best
last_event_time best (event ∷ events) =
    let t = text_value (get "event_time" event) in
    let newer = last_event_time t events in
    let older = last_event_time best events in if str_lt best t then newer else older

unfoldable pub find_host : Key → List HostEvents → Option HostEvents
find_host k [] = none
find_host k (h ∷ hs) = if key_eq h.host k then some h else find_host k hs

-- The row of one host.
unfoldable pub risk_row : List Alert → List Incident → HostEvents → Result EndpointRisk
unfolding alerts_of_host incident_bonus top_rules last_event_time severity display_host
risk_row alerts incidents h = do
  let host_alerts = alerts_of_host h.host alerts
  let base_score = min 100 (sum_of (λ (a : Alert). a.risk_score) host_alerts)
  let risk_score = max base_score (incident_bonus h.host incidents)
  display ← display_host h.host_id
  ok (record {
    host_key = h.host;
    host_id = h.host_id;
    host_display_name = display;
    risk_score = risk_score;
    risk_severity = severity risk_score;
    alert_count = length host_alerts;
    incident_count = count_if (λ (i : Incident). key_eq i.host_key h.host) incidents;
    top_rules = top_rules (map (λ (a : Alert). a.rule) host_alerts);
    last_event_time = last_event_time "" h.events;
  })

-- The loop over `hosts`.
unfoldable pub risk_rows :
    List Alert → List Incident → List HostEvents → List Key → Result (List EndpointRisk)
unfolding find_host risk_row
risk_rows alerts incidents hosts [] = ok []
risk_rows alerts incidents hosts (k ∷ ks) = do
  let rest = risk_rows alerts incidents hosts ks
  elim (find_host k hosts) [
    | none ↦ rest
    | some h ↦ do row ← risk_row alerts incidents h; rows ← rest; ok (row ∷ rows)
  ]

-- `(-risk_score, host_id)`
unfoldable pub riskier : Runtime → EndpointRisk → EndpointRisk → Bool
unfolding key_less
riskier rt x y =
    if x.risk_score == y.risk_score
    then key_less rt x.host_key y.host_key
    else ltb y.risk_score x.risk_score

-- A row needs the hash of the host, which `events_by_host` computes.
unfoldable pub build_endpoint_risk :
    Runtime → List Fields → List Alert → List Incident → Result (List EndpointRisk)
unfolding events_by_host risk_rows riskier
build_endpoint_risk rt events alerts incidents = do
  hosts ← events_by_host events []
  keys ← sort_keys rt (map (λ (h : HostEvents). h.host) hosts)
  rows ← risk_rows alerts incidents hosts keys
  ok (sort_by (riskier rt) rows)

pub data EdrState : Type 0 where
  red yellow green : EdrState

-- `highest_risk_score` and `state` of `_edr_state`
abbrev pub highest_risk_score : List EndpointRisk → ℕ
highest_risk_score rows = max_of (λ (r : EndpointRisk). r.risk_score) rows

unfoldable pub edr_state : List EndpointRisk → EdrState
edr_state rows =
    if leb 80 (highest_risk_score rows)
    then red
    else if leb 50 (highest_risk_score rows)
    then yellow
    else green

pub data Decision : Type 0 where
  needs_security_review needs_schema_review no_high_risk_signal_in_sample : Decision

abbrev pub is_critical : Severity → Bool
is_critical s = elim s [ critical ↦ true | _ ↦ false ]

abbrev pub is_empty {ℓ} : {A : Type ℓ} → List A → Bool
is_empty [] = true
is_empty (x ∷ xs) = false

-- `_decision`
unfoldable pub decision {ℓ} : {A : Type ℓ} → List EndpointRisk → List Incident → List A → Decision
decision rows incidents dlq_events =
    if any (λ (r : EndpointRisk). is_critical r.risk_severity) rows || not (is_empty incidents)
    then needs_security_review
    else if not (is_empty dlq_events)
    then needs_schema_review
    else no_high_risk_signal_in_sample
