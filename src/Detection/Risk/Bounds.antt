-- ===== src/Detection/Risk/Bounds.antt =====
-- The bounds of the risk scores of src/detection_engine.py, and the fleet's state.
use team_c_edr.Base.{
  ℕ, ◌≤◌, min, true, List, [], ◌∷◌, ◌≡◌, refl, ◌↔◌, inl, inr, arith, In, here, there, All, All-In,
  Option-cases, leb, any, sum_of, length, map, sort_by-In, sort_by,
}
use team_c_edr.Json.{Fields}
use team_c_edr.Python.{Runtime, ok, >>=-eq-ok, ok-injective, Key}
use team_c_edr.Detection.Alerts.{Alert, severity, display_host}
use team_c_edr.Detection.Incidents.{Incident, HostEvents, events_by_host, alerts_of_host}
use team_c_edr.Detection.Timeline.{sort_keys}
use team_c_edr.Detection.Risk.{
  EndpointRisk, incident_bonus, find_host, risk_row, risk_rows, riskier, build_endpoint_risk, red,
  highest_risk_score, edr_state, is_critical,
}

-- What a row says of its host.
pub record IsRow (alerts : List Alert) (incidents : List Incident) (r : EndpointRisk) : Type 0 where
  pub most : r.risk_score ≤ 100
  pub least :
      min 100 (sum_of (λ (a : Alert). a.risk_score) (alerts_of_host r.host_key alerts))
      ≤ r.risk_score
  pub raised : incident_bonus r.host_key incidents ≤ r.risk_score
  pub label : r.risk_severity ≡ severity r.risk_score
  pub alerts_counted : r.alert_count ≡ length (alerts_of_host r.host_key alerts)

All-of {ℓ κ} : {A : Type ℓ} (P : A → Type κ) (xs : List A) → ((x : A) → In x xs → P x) → All P xs
All-of P [] h = tt
All-of P (x ∷ xs) h = (h x here, All-of P xs (λ y m. h y (there m)))

incident_bonus-bound :
    (k : Key) (incidents : List Incident)
    → All (λ (i : Incident). i.risk_score ≤ 100) incidents
    → incident_bonus k incidents ≤ 100
unfolding incident_bonus
incident_bonus-bound k [] h = omega arith
incident_bonus-bound k (i ∷ is) h = ground (arith, incident_bonus-bound k is h.1, h.0)

module _ (rt : Runtime) (alerts : List Alert) (incidents : List Incident)
    (bounded : All (λ (i : Incident). i.risk_score ≤ 100) incidents) where
  risk_row-IsRow :
      (h : HostEvents) (r : EndpointRisk)
      → risk_row alerts incidents h ≡ ok r
      → IsRow alerts incidents r
  unfolding risk_row
  risk_row-IsRow h r e =
      let (d, e1, e2) = >>=-eq-ok (display_host h.host_id) _ e in
      rw (← ok-injective e2) (record {
        most = omega (arith, incident_bonus-bound h.host incidents bounded);
        least = omega arith;
        raised = omega arith;
        label = refl;
        alerts_counted = refl;
      })

  risk_rows-IsRow :
      (hosts : List HostEvents) (ks : List Key) (rows : List EndpointRisk)
      → risk_rows alerts incidents hosts ks ≡ ok rows
      → All (IsRow alerts incidents) rows
  unfolding risk_rows
  risk_rows-IsRow hosts [] rows e = rw (← ok-injective e) tt
  risk_rows-IsRow hosts (k ∷ ks) rows e = elim (Option-cases (find_host k hosts)) [
    | inl gone ↦ risk_rows-IsRow hosts ks rows (rw (risk_rows, gone) at e)
    | inr (h, found) ↦
        let (row, e1, h1) =
          >>=-eq-ok (risk_row alerts incidents h) _ (rw (risk_rows, found) at e) in
        let (rest, e2, h2) = >>=-eq-ok (risk_rows alerts incidents hosts ks) _ h1 in
        let e3 : row ∷ rest ≡ rows = ok-injective h2 in
        rw (← e3) (risk_row-IsRow h row e1, risk_rows-IsRow hosts ks rest e2)
  ]

  pub build_endpoint_risk-IsRow :
      (events : List Fields) (rows : List EndpointRisk)
      → build_endpoint_risk rt events alerts incidents ≡ ok rows
      → All (IsRow alerts incidents) rows
  unfolding build_endpoint_risk
  build_endpoint_risk-IsRow events rows e =
      let (hosts, e1, h1) = >>=-eq-ok (events_by_host events []) _ e in
      let (ks, e2, h2) = >>=-eq-ok (sort_keys rt (map (λ (h : HostEvents). h.host) hosts)) _ h1 in
      let (unsorted, e3, h3) = >>=-eq-ok (risk_rows alerts incidents hosts ks) _ h2 in
      let e4 : sort_by (riskier rt) unsorted ≡ rows = ok-injective h3 in
      let all_rows = risk_rows-IsRow hosts ks unsorted e3 in
      rw (← e4) (
        All-of (IsRow alerts incidents) (sort_by (riskier rt) unsorted) (λ r m.
          All-In (IsRow alerts incidents) unsorted all_rows (sort_by-In (riskier rt) unsorted m)))

pub highest_risk_score-bound :
    (n : ℕ) (rows : List EndpointRisk)
    → All (λ (r : EndpointRisk). r.risk_score ≤ n) rows
    → highest_risk_score rows ≤ n
highest_risk_score-bound n [] h = omega arith
highest_risk_score-bound n (r ∷ rows) h = omega (arith, highest_risk_score-bound n rows h.1, h.0)

-- A score is critical from 80 on.
severity_critical : (s : ℕ) → is_critical (severity s) ≡ leb 80 s
unfolding severity
severity_critical s = ground arith

highest_critical :
    (rows : List EndpointRisk)
    → All (λ (r : EndpointRisk). r.risk_severity ≡ severity r.risk_score) rows
    → leb 80 (highest_risk_score rows)
      ≡ any (λ (r : EndpointRisk). is_critical r.risk_severity) rows
highest_critical [] h = refl
highest_critical (r ∷ rows) h =
    rw (h.0, severity_critical r.risk_score) (ground (arith, highest_critical rows h.1))

-- The fleet is RED exactly if a row of the table is critical, where each row's severity is the one of
-- its score.
pub edr_state-red :
    (rows : List EndpointRisk)
    → All (λ (r : EndpointRisk). r.risk_severity ≡ severity r.risk_score) rows
    → (edr_state rows ≡ red) ↔ (any (λ (r : EndpointRisk). is_critical r.risk_severity) rows ≡ true)
unfolding edr_state
edr_state-red rows h = ground (arith, highest_critical rows h)
