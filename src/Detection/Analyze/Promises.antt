-- ===== src/Detection/Analyze/Promises.antt =====
-- What the result of `analyze_events` (src/detection_engine.py) promises to the reports, the
-- dashboard and the response engine.
use team_c_edr.Base.{
  suc, ◌+◌, ◌≤◌, ◌<◌, true, false, ◌&&◌, List, [], ◌∷◌, ◌≡◌, refl, ap, ◌∙◌, ◌↔◌, arith, All,
  Bool-cases, length, length-map, length-sort_by, any, map, sort_by, inl, inr,
}
use team_c_edr.Json.{Fields, get}
use team_c_edr.Python.{Runtime, ok, >>=-eq-ok, ok-injective, hash_key}
use team_c_edr.Detection.Alerts.{severity}
use team_c_edr.Detection.Signatures.{SignatureDb}
use team_c_edr.Detection.Validate.{Split, validate_and_sanitize}
use team_c_edr.Detection.Validate.Laws.{Sorted, validate_and_sanitize-Sorted}
use team_c_edr.Detection.Timeline.{
  Timed, Entry, read_entries, read_times, comparable, same_time_ordered, before, sort_valid,
}
use team_c_edr.Detection.Beaconing.Regular.{length-read_times}
use team_c_edr.Detection.Incidents.{Incident, build_incidents}
use team_c_edr.Detection.Incidents.Chains.{IsChain, build_incidents-IsChain}
use team_c_edr.Detection.Risk.{
  EndpointRisk, build_endpoint_risk, red, needs_security_review, decision, is_critical, is_empty,
}
use team_c_edr.Detection.Risk.Bounds.{
  IsRow, build_endpoint_risk-IsRow, highest_risk_score-bound, edr_state-red,
}
use team_c_edr.Detection.Views.{event_summaries, top_suspicious_domains, top_suspicious_ips}
use team_c_edr.Detection.Analyze.{
  Detection, detect_alerts, analyze_valid, analyze_split, analyze_events,
}

All-map {ℓ κ μ} :
    {A : Type ℓ} (P : A → Type κ) (Q : A → Type μ) (xs : List A)
    → ((x : A) → P x → Q x)
    → All P xs
    → All Q xs
All-map P Q [] f h = tt
All-map P Q (x ∷ xs) f h = (f x h.0, All-map P Q xs f h.1)

module _ (rt : Runtime) where
  length-read_entries :
      (ts : List Timed) (es : List Entry) → read_entries rt ts ≡ ok es → length es ≡ length ts
  unfolding read_entries
  length-read_entries [] es e = rw (← ok-injective e) refl
  length-read_entries (t ∷ ts) es e =
      let (k, e1, h1) = >>=-eq-ok (hash_key (get "event_id" t.1)) _ e in
      let (rest, e2, h2) = >>=-eq-ok (read_entries rt ts) _ h1 in
      let e3 : (t, k) ∷ rest ≡ es = ok-injective h2 in
      rw (← e3) (ap suc (length-read_entries ts rest e2))

  length-sort_valid :
      (events sorted : List Fields)
      → sort_valid rt events ≡ ok sorted
      → length sorted ≡ length events
  unfolding sort_valid
  length-sort_valid events sorted e =
      let (ts, e1, h1) = >>=-eq-ok (read_times rt events) _ e in
      let (es, e2, h2) = >>=-eq-ok (read_entries rt ts) _ h1 in
      elim (Bool-cases (comparable ts && same_time_ordered es)) [
        | inl alike ↦
            let e3 : map (λ (x : Entry). x.0.1) (sort_by (before rt) es) ≡ sorted =
              ok-injective (rw alike at h2) in
            rw (← e3) (
              length-map _ (sort_by (before rt) es)
              ∙ length-sort_by (before rt) es
              ∙ length-read_entries ts es e2
              ∙ length-read_times rt events ts e1)
        | inr mixed ↦ cc (rw mixed at h2)
      ]

  -- The promises of a result for `raw_events`.
  pub record IsConsistent (raw_events : List Fields) (d : Detection) : Type 0 where
    pub all_counted : d.summary.valid_event_count + d.summary.dlq_event_count ≡ length raw_events
    pub some_valid : 0 < d.summary.valid_event_count
    pub alerts_counted : d.summary.alert_count ≡ length d.alerts
    pub chains : All (IsChain d.alerts) d.incidents
    pub rows : All (IsRow d.alerts d.incidents) d.endpoint_risk
    pub highest : d.summary.highest_risk_score ≤ 100
    pub red_iff :
        (d.edr_state ≡ red)
        ↔ (any (λ (r : EndpointRisk). is_critical r.risk_severity) d.endpoint_risk ≡ true)
    pub red_reviewed : d.edr_state ≡ red → d.decision ≡ needs_security_review
    pub incident_reviewed : is_empty d.incidents ≡ false → d.decision ≡ needs_security_review

  reviewed_red {ℓ} :
      {A : Type ℓ} (rows : List EndpointRisk) (incidents : List Incident) (dlq : List A)
      → any (λ (r : EndpointRisk). is_critical r.risk_severity) rows ≡ true
      → decision rows incidents dlq ≡ needs_security_review
  unfolding decision
  reviewed_red rows incidents dlq h = ground arith

  reviewed_incident {ℓ} :
      {A : Type ℓ} (rows : List EndpointRisk) (incidents : List Incident) (dlq : List A)
      → is_empty incidents ≡ false
      → decision rows incidents dlq ≡ needs_security_review
  unfolding decision
  reviewed_incident rows incidents dlq h = ground arith

  analyze_valid-IsConsistent :
      (db : SignatureDb) (raws : List Fields) (split : Split) (d : Detection)
      → Sorted rt 0 raws [] split
      → 0 < length split.valid_events
      → analyze_valid rt db (length raws) split ≡ ok d
      → IsConsistent raws d
  unfolding analyze_valid
  analyze_valid-IsConsistent db raws split d sorted some_valid e =
      let (events, e1, h1) = >>=-eq-ok (sort_valid rt split.valid_events) _ e in
      let (alerts, e2, h2) = >>=-eq-ok (detect_alerts rt db events) _ h1 in
      let (incidents, e3, h3) = >>=-eq-ok (build_incidents rt events alerts) _ h2 in
      let (rows, e4, h4) = >>=-eq-ok (build_endpoint_risk rt events alerts incidents) _ h3 in
      let (summaries, e5, h5) = >>=-eq-ok (event_summaries rt events) _ h4 in
      let (domains, e6, h6) = >>=-eq-ok (top_suspicious_domains rt events alerts) _ h5 in
      let (ips, e7, h7) = >>=-eq-ok (top_suspicious_ips rt events alerts) _ h6 in
      let same = length-sort_valid split.valid_events events e1 in
      let chains = build_incidents-IsChain rt alerts events incidents e3 in
      let all_rows =
        build_endpoint_risk-IsRow rt alerts incidents
          (All-map (IsChain alerts) (λ (i : Incident). i.risk_score ≤ 100) incidents (λ i c. c.most)
            chains)
          events rows e4 in
      let labels =
        All-map (IsRow alerts incidents)
          (λ (r : EndpointRisk). r.risk_severity ≡ severity r.risk_score) rows (λ r x. x.label)
          all_rows in
      let red_rows = edr_state-red rows labels in
      rw (← ok-injective h7) (record {
        all_counted = rw same sorted.counted;
        some_valid = rw same some_valid;
        alerts_counted = refl;
        chains = chains;
        rows = all_rows;
        highest = highest_risk_score-bound 100 rows (
            All-map (IsRow alerts incidents) (λ (r : EndpointRisk). r.risk_score ≤ 100) rows
              (λ r x. x.most) all_rows);
        red_iff = red_rows;
        red_reviewed = λ is_red. reviewed_red rows incidents split.dlq_events (red_rows.0 is_red);
        incident_reviewed = reviewed_incident rows incidents split.dlq_events;
      })

  split_case :
      (db : SignatureDb) (raws : List Fields) (split : Split) (d : Detection) (valid : List Fields)
      → valid ≡ split.valid_events
      → Sorted rt 0 raws [] split
      → analyze_split rt db (length raws) split valid ≡ ok d
      → IsConsistent raws d
  split_case db raws split d [] same sorted e = cc
  split_case db raws split d (event ∷ events) same sorted e =
      analyze_valid-IsConsistent db raws split d sorted (rw (← same) (omega arith)) e

  -- A result counts every raw event as valid or as a dead letter, with at least one valid; its
  -- incidents rest on alerts of the result and its endpoint rows on its alerts and incidents; no score
  -- is above 100; it is RED exactly if a row is critical; and a RED result, or one with an incident,
  -- asks for a security review.
  pub analyze_events-IsConsistent :
      (db : SignatureDb) (raw_events : List Fields) (d : Detection)
      → analyze_events rt db raw_events ≡ ok d
      → IsConsistent raw_events d
  unfolding analyze_events
  analyze_events-IsConsistent db raw_events d e =
      let (split, e1, e2) = >>=-eq-ok (validate_and_sanitize rt raw_events) _ e in
      split_case db raw_events split d split.valid_events refl
        (validate_and_sanitize-Sorted rt raw_events split e1) e2
