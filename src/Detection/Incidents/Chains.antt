-- ===== src/Detection/Incidents/Chains.antt =====
-- What an incident of src/detection_engine.py rests on, and the bounds of its score.
use team_c_edr.Base.{
  ℕ, ◌+◌, ◌≤◌, true, some, List, [], ◌∷◌, ◌≡◌, refl, inl, inr, arith, In, All, All-append,
  Option-cases, select-In, first-In, select, length, map,
}
use team_c_edr.Json.{Value, Fields, get}
use team_c_edr.Python.{Runtime, ok, >>=-eq-ok, ok-injective, Key}
use team_c_edr.Detection.Alerts.{Alert, r004, r005, severity, display_host, Rule, has_host}
use team_c_edr.Detection.Timeline.{sort_by_time}
use team_c_edr.Detection.Incidents.{
  Detected, Incident, HostEvents, events_by_host, alerts_of_host, rule_eq, find_alert,
  find_related_execution, incident, chain, host_incident, incidents_of_host, host_incidents,
  build_incidents, hash_hosts,
}

abbrev stage_events : Incident → List (List Value)
stage_events i = map (λ (d : Detected). d.event_ids) i.detected_sequence

-- The incident names the events of a download and an execution, then those of an R004 alert and of an
-- R005 alert of its host, and its score is bounded.
pub record IsChain (alerts : List Alert) (i : Incident) : Type 0 where
  pub beacon : Alert
  pub beacon_raised : In beacon alerts
  pub beacon_host : has_host i.host_key beacon ≡ true
  pub beacon_rule : rule_eq beacon.rule r004 ≡ true
  pub outbound : Alert
  pub outbound_raised : In outbound alerts
  pub outbound_host : has_host i.host_key outbound ≡ true
  pub outbound_rule : rule_eq outbound.rule r005 ≡ true
  pub download : Fields
  pub exec : Fields
  pub stages :
      stage_events i
      ≡ (get "event_id" download ∷ [])
        ∷ (get "event_id" exec ∷ [])
        ∷ beacon.event_ids
        ∷ outbound.event_ids
        ∷ []
  pub least : 52 ≤ i.risk_score
  pub most : i.risk_score ≤ 100
  pub label : i.incident_severity ≡ severity i.risk_score

host_alert :
    (k : Key) (alerts : List Alert) (r : Rule) (a : Alert)
    → find_alert (alerts_of_host k alerts) r ≡ some a
    → In a alerts × (has_host k a ≡ true) × (rule_eq a.rule r ≡ true)
unfolding find_alert alerts_of_host
host_alert k alerts r a h =
    let (m, p) = first-In (λ x. rule_eq x.rule r) (select (has_host k) alerts) a h in
    let (n, q) = select-In (has_host k) alerts m in (n, q, p)

module _ (rt : Runtime) (alerts : List Alert) where
  incident-IsChain :
      (n : ℕ) (h : HostEvents) (download exec : Fields) (b o : Alert) (i : Incident)
      → find_alert (alerts_of_host h.host alerts) r004 ≡ some b
      → find_alert (alerts_of_host h.host alerts) r005 ≡ some o
      → incident rt n h (alerts_of_host h.host alerts) download exec b o ≡ ok i
      → IsChain alerts i
  unfolding incident
  incident-IsChain n h download exec b o i eb eo e =
      let (d, e1, e2) = >>=-eq-ok (display_host h.host_id) _ e in
      let (b1, b2, b3) = host_alert h.host alerts r004 b eb in
      let (o1, o2, o3) = host_alert h.host alerts r005 o eo in
      rw (← ok-injective e2) (record {
        beacon = b;
        beacon_raised = b1;
        beacon_host = b2;
        beacon_rule = b3;
        outbound = o;
        outbound_raised = o1;
        outbound_host = o2;
        outbound_rule = o3;
        download = download;
        exec = exec;
        stages = refl;
        least = omega arith;
        most = omega arith;
        label = refl;
      })

  host_incident-IsChain :
      (n : ℕ) (h : HostEvents) (events downloads : List Fields) (made : List Incident)
      → host_incident rt n h events (alerts_of_host h.host alerts) downloads ≡ ok made
      → All (IsChain alerts) made
  unfolding host_incident chain
  host_incident-IsChain n h events [] made e = rw (← ok-injective e) tt
  host_incident-IsChain n h events (download ∷ downloads) made e =
      let (found, e1, e2) = >>=-eq-ok (find_related_execution rt download events) _ e in
      elim (Option-cases found) [
        | inl none_found ↦ host_incident-IsChain n h events downloads made (rw none_found at e2)
        | inr (exec, ef) ↦ elim (Option-cases (find_alert (alerts_of_host h.host alerts) r004)) [
          | inl no_beacon ↦
              host_incident-IsChain n h events downloads made (rw (ef, no_beacon) at e2)
          | inr (b, eb) ↦ elim (Option-cases (find_alert (alerts_of_host h.host alerts) r005)) [
            | inl no_outbound ↦
                host_incident-IsChain n h events downloads made (rw (ef, eb, no_outbound) at e2)
            | inr (o, eo) ↦
                let e3 = rw (ef, eb, eo) at e2 in
                let (i, e4, e5) =
                  >>=-eq-ok (incident rt n h (alerts_of_host h.host alerts) download exec b o) _
                    e3 in
                let e6 : i ∷ [] ≡ made = ok-injective e5 in
                rw (← e6) (incident-IsChain n h download exec b o i eb eo e4, tt)
          ]
        ]
      ]

  incidents_of_host-IsChain :
      (n : ℕ) (h : HostEvents) (made : List Incident)
      → incidents_of_host rt n alerts h ≡ ok made
      → All (IsChain alerts) made
  unfolding incidents_of_host
  incidents_of_host-IsChain n h made e =
      let (sorted, e1, e2) = >>=-eq-ok (sort_by_time rt h.events) _ e in
      host_incident-IsChain n h _ _ made e2

  host_incidents-IsChain :
      (n : ℕ) (hosts : List HostEvents) (made : List Incident)
      → host_incidents rt n alerts hosts ≡ ok made
      → All (IsChain alerts) made
  unfolding host_incidents
  host_incidents-IsChain n [] made e = rw (← ok-injective e) tt
  host_incidents-IsChain n (h ∷ hosts) made e =
      let (xs, e1, h1) = >>=-eq-ok (incidents_of_host rt n alerts h) _ e in
      let (ys, e2, h2) = >>=-eq-ok (host_incidents rt (n + length xs) alerts hosts) _ h1 in
      rw (← ok-injective h2) (
        All-append (IsChain alerts) xs ys (incidents_of_host-IsChain n h xs e1)
          (host_incidents-IsChain (n + length xs) hosts ys e2))

  -- Every incident rests on an R004 alert and an R005 alert of its own host, whose events its third
  -- and fourth stage name. Its score is at least 52 and at most 100, and its severity is the one of
  -- that score.
  pub build_incidents-IsChain :
      (events : List Fields) (made : List Incident)
      → build_incidents rt events alerts ≡ ok made
      → All (IsChain alerts) made
  unfolding build_incidents
  build_incidents-IsChain events made e =
      let (hosts, e1, e2) = >>=-eq-ok (events_by_host events []) _ e in
      let (hashed, e3, e4) = >>=-eq-ok (hash_hosts alerts) _ e2 in
      host_incidents-IsChain 0 hosts made e4
