-- ===== src/Detection/Incidents.antt =====
-- `_build_incidents`, `_find_related_execution` and `_find_alert` of src/detection_engine.py: a
-- download, its execution, a beacon and a large transfer on one host make an incident.
pub mod Chains
use team_c_edr.Base.{
  ℕ, suc, ◌+◌, ◌*◌, ◌/◌, min, String, ◌<>◌, Bool, true, false, not, ◌&&◌, ◌||◌, Option, none, some,
  List, [], ◌∷◌, ◌++◌, ltb, length, select, first, sum_of, map, any, str_eq, show_padded,
  if◌then◌else◌,
}
use team_c_edr.Json.{Value, str, Fields, get, truthy}
use team_c_edr.Python.{Runtime, DateTime, Result, ok, err, ◌>>=◌, type_error, Key, hash_key, key_eq}
use team_c_edr.Detection.Alerts.{
  Rule, r001, r002, r003, r004, r005, r006, r007, r008, r009, r010, r011, r012, r013, Tactic,
  initial_access, execution, command_and_control, exfiltration, Severity, severity, Review,
  needs_security_review, Alert, display_host, has_host,
}
use team_c_edr.Detection.Rules.{get_default, text_of, parse_time}
use team_c_edr.Detection.Detect.{type_in}
use team_c_edr.Detection.Timeline.{Timed, time_of, sort_by_time}

pub data Stage : Type 0 where
  unknown_file_download unsigned_process_execution : Stage
  periodic_external_connection large_outbound_transfer : Stage

-- An entry of `detected_sequence`.
pub record Detected : Type 0 where
  pub stage : Stage
  pub event_ids : List Value
  pub summary : String

pub record Incident : Type 0 where
  pub incident_id : String
  pub host_id : Value
  pub host_key : Key
  pub host_display_name : Value
  pub risk_score : ℕ
  pub incident_severity : Severity
  pub primary_category : String
  pub detected_sequence : List Detected
  pub mitre_mapping : List Tactic
  pub evidence : List String
  pub decision : Review

-- The events of a host, under its hash key and its first `host_id`.
pub record HostEvents : Type 0 where
  pub host : Key
  pub host_id : Value
  pub events : List Fields

-- `events_by_host[...].append(event)`
unfoldable pub add_host_event : Key → Fields → List HostEvents → List HostEvents
add_host_event k event [] =
    record { host = k; host_id = get "host_id" event; events = event ∷ [] } ∷ []
add_host_event k event (h ∷ hs) =
    if key_eq h.host k
    then record h { events = h.events ++ (event ∷ []) } ∷ hs
    else h ∷ add_host_event k event hs

unfoldable pub events_by_host : List Fields → List HostEvents → Result (List HostEvents)
unfolding add_host_event
events_by_host [] hosts = ok hosts
events_by_host (event ∷ events) hosts = do
  k ← hash_key (get "host_id" event)
  events_by_host events (add_host_event k event hosts)

-- `alerts_by_host[host_id]`
unfoldable pub alerts_of_host : Key → List Alert → List Alert
unfolding has_host
alerts_of_host k alerts = select (has_host k) alerts

-- `alerts_by_host[alert["host_id"]].append(alert)` for each alert: the keys, or the exception of the
-- loop. The lists that it makes are `alerts_of_host`.
unfoldable pub hash_hosts : List Alert → Result (List Key)
hash_hosts [] = ok []
hash_hosts (a ∷ alerts) = do k ← hash_key a.host_id; ks ← hash_hosts alerts; ok (k ∷ ks)

unfoldable pub rule_eq : Rule → Rule → Bool
rule_eq r001 r001 = true
rule_eq r002 r002 = true
rule_eq r003 r003 = true
rule_eq r004 r004 = true
rule_eq r005 r005 = true
rule_eq r006 r006 = true
rule_eq r007 r007 = true
rule_eq r008 r008 = true
rule_eq r009 r009 = true
rule_eq r010 r010 = true
rule_eq r011 r011 = true
rule_eq r012 r012 = true
rule_eq r013 r013 = true
rule_eq r q = false

unfoldable pub find_alert : List Alert → Rule → Option Alert
unfolding rule_eq
find_alert alerts rule = first (λ a. rule_eq a.rule rule) alerts

abbrev pub incident_rules : List Rule
incident_rules = r001 ∷ r002 ∷ r003 ∷ r004 ∷ r005 ∷ r006 ∷ r008 ∷ []

unfoldable pub is_incident_alert : Alert → Bool
unfolding rule_eq
is_incident_alert a = any (rule_eq a.rule) incident_rules

-- `delta < 0 or delta > 900`; the difference of an aware and a naive time raises.
unfoldable pub follows : DateTime → DateTime → Result Bool
follows t download_time =
    if (t.aware && download_time.aware) || (not t.aware && not download_time.aware)
    then ok (
        not (
          ltb t.instant download_time.instant
          || ltb (download_time.instant + 900 * 1_000_000) t.instant))
    else err type_error

module _ (rt : Runtime) where
  -- `same_hash or same_path`
  unfoldable pub is_same_file : Value → String → Fields → Bool
  unfolding text_of
  is_same_file hash_value file_path event =
      (truthy hash_value && rt.equals (get "hash_sha256" event) hash_value)
      || (not (str_eq file_path "")
          && str_eq (rt.lower (text_of rt ("process_path" ∷ []) event)) file_path)

  unfoldable pub find_execution : DateTime → Value → String → List Fields → Result (Option Fields)
  unfolding type_in follows is_same_file parse_time
  find_execution download_time hash_value file_path [] = ok none
  find_execution download_time hash_value file_path (event ∷ events) =
      let rest = find_execution download_time hash_value file_path events in
      if type_in (get "event_type" event) ("process_start" ∷ [])
      then (do
        t ← parse_time rt (get "event_time" event)
        soon ← follows t download_time
        if soon && is_same_file hash_value file_path event then ok (some event) else rest)
      else rest

  unfoldable pub find_related_execution : Fields → List Fields → Result (Option Fields)
  unfolding find_execution
  find_related_execution download events = do
    download_time ← parse_time rt (get "event_time" download)
    find_execution download_time (get "hash_sha256" download)
        (rt.lower (text_of rt ("file_path" ∷ []) download)) events

  abbrev shown : String → String → Fields → String
  shown k d event = rt.to_str (get_default k (str d) event)

  unfoldable pub incident :
      ℕ → HostEvents → List Alert → Fields → Fields → Alert → Alert → Result Incident
  unfolding is_incident_alert show_padded severity get_default display_host
  incident n h host_alerts download exec beacon_alert outbound_alert = do
    let total = sum_of (λ (a : Alert). a.risk_score) (select is_incident_alert host_alerts)
    let risk_score = min 100 (52 + total / 4)
    display ← display_host h.host_id
    ok (record {
      incident_id = "incident-" <> show_padded (suc n);
      host_id = h.host_id;
      host_key = h.host;
      host_display_name = display;
      risk_score = risk_score;
      incident_severity = severity risk_score;
      primary_category = "suspicious_download_to_c2_sequence";
      detected_sequence =
          record {
            stage = unknown_file_download;
            event_ids = get "event_id" download ∷ [];
            summary =
                shown "file_name" "file" download
                <> (" downloaded from " <> shown "source_domain" "unknown domain" download);
          }
          ∷ record {
            stage = unsigned_process_execution;
            event_ids = get "event_id" exec ∷ [];
            summary =
                shown "process_name" "process" exec
                <> (" started by " <> shown "parent_process" "unknown parent" exec);
          }
          ∷ record {
            stage = periodic_external_connection;
            event_ids = beacon_alert.event_ids;
            summary = beacon_alert.title;
          }
          ∷ record {
            stage = large_outbound_transfer;
            event_ids = outbound_alert.event_ids;
            summary = outbound_alert.title;
          }
          ∷ [];
      mitre_mapping = initial_access ∷ execution ∷ command_and_control ∷ exfiltration ∷ [];
      evidence =
          "downloaded file was not trusted" ∷ "parent process was browser"
          ∷ "destination matched suspicious domain or IP evidence"
          ∷ "connection interval was regular" ∷ "large outbound transfer occurred after execution"
          ∷ [];
      decision = needs_security_review;
    })

  -- The three conditions for one download.
  unfoldable pub chain :
      Option Fields → Option Alert → Option Alert → Option (Fields × (Alert × Alert))
  chain (some exec) (some beacon_alert) (some outbound_alert) =
      some (exec, (beacon_alert, outbound_alert))
  chain e b o = none

  -- The loop over the downloads of a host, `n` incidents before it; the first match ends it.
  unfoldable pub host_incident :
      ℕ → HostEvents → List Fields → List Alert → List Fields → Result (List Incident)
  unfolding find_related_execution find_alert incident chain
  host_incident n h events host_alerts [] = ok []
  host_incident n h events host_alerts (download ∷ downloads) = do
    found ← find_related_execution download events
    let rest = host_incident n h events host_alerts downloads
    elim (chain found (find_alert host_alerts r004) (find_alert host_alerts r005)) [
      | none ↦ rest
      | some (exec, (beacon_alert, outbound_alert)) ↦ do
        made ← incident n h host_alerts download exec beacon_alert outbound_alert
        ok (made ∷ [])
    ]

  -- The body of the loop over the hosts, `n` incidents before it.
  unfoldable pub incidents_of_host : ℕ → List Alert → HostEvents → Result (List Incident)
  unfolding host_incident alerts_of_host sort_by_time type_in
  incidents_of_host n alerts h = do
    sorted ← sort_by_time rt h.events
    let events = map (λ (e : Timed). e.1) sorted
    let downloads = select (λ event. type_in (get "event_type" event) ("file_download" ∷ [])) events
    host_incident n h events (alerts_of_host h.host alerts) downloads

  unfoldable pub host_incidents : ℕ → List Alert → List HostEvents → Result (List Incident)
  unfolding incidents_of_host
  host_incidents n alerts [] = ok []
  host_incidents n alerts (h ∷ hs) = do
    made ← incidents_of_host n alerts h
    rest ← host_incidents (n + length made) alerts hs
    ok (made ++ rest)

  unfoldable pub build_incidents : List Fields → List Alert → Result (List Incident)
  unfolding events_by_host hash_hosts host_incidents
  build_incidents events alerts = do
    hosts ← events_by_host events []
    hashed ← hash_hosts alerts
    host_incidents 0 alerts hosts
