-- ===== src/Detection/Views.antt =====
-- The tables of the result of src/detection_engine.py: `_build_mitre_distribution`,
-- `_top_suspicious_domains`, `_top_suspicious_ips`, `_build_process_trees` and `_event_summary`.
use team_c_edr.Base.{
  ℕ, ◌+◌, String, Bool, true, false, none, some, List, [], ◌∷◌, ◌++◌, ltb, take, count_if, sum_of,
  map, select, sort_by, str_eq, if◌then◌else◌,
}
use team_c_edr.Json.{Value, null, str, Fields, field, end, get, lookup, or_else}
use team_c_edr.Python.{Runtime, Result, ok, ◌>>=◌, Key, hash_key, key_mem}
use team_c_edr.Detection.Alerts.{
  Tactic, reconnaissance, resource_development, initial_access, execution, persistence,
  privilege_escalation, defense_evasion, credential_access, discovery, lateral_movement, collection,
  command_and_control, exfiltration, impact, Alert, display_host,
}
use team_c_edr.Detection.Rules.{text_of, event_domain}
use team_c_edr.Detection.Detect.{type_in}
use team_c_edr.Detection.Incidents.{Incident}

-- `MITRE_TACTIC_ORDER` of src/config.py
abbrev pub mitre_tactic_order : List Tactic
mitre_tactic_order =
    reconnaissance ∷ resource_development ∷ initial_access ∷ execution ∷ persistence
    ∷ privilege_escalation ∷ defense_evasion ∷ credential_access ∷ discovery ∷ lateral_movement
    ∷ collection ∷ command_and_control ∷ exfiltration ∷ impact ∷ []

unfoldable pub tactic_eq : Tactic → Tactic → Bool
tactic_eq reconnaissance reconnaissance = true
tactic_eq resource_development resource_development = true
tactic_eq initial_access initial_access = true
tactic_eq execution execution = true
tactic_eq persistence persistence = true
tactic_eq privilege_escalation privilege_escalation = true
tactic_eq defense_evasion defense_evasion = true
tactic_eq credential_access credential_access = true
tactic_eq discovery discovery = true
tactic_eq lateral_movement lateral_movement = true
tactic_eq collection collection = true
tactic_eq command_and_control command_and_control = true
tactic_eq exfiltration exfiltration = true
tactic_eq impact impact = true
tactic_eq t u = false

-- `counts[tactic]`
unfoldable pub tactic_count : List Alert → List Incident → Tactic → ℕ
unfolding tactic_eq
tactic_count alerts incidents t =
    sum_of (λ (a : Alert). count_if (tactic_eq t) a.mitre_mapping) alerts
    + sum_of (λ (i : Incident). count_if (tactic_eq t) i.mitre_mapping) incidents

unfoldable pub build_mitre_distribution : List Alert → List Incident → List (Tactic × ℕ)
unfolding tactic_count
build_mitre_distribution alerts incidents =
    map (λ t. (t, tactic_count alerts incidents t))
      (select (λ t. ltb 0 (tactic_count alerts incidents t)) mitre_tactic_order)

-- A `Counter` of texts, in the order of their first occurrence.
abbrev pub Counter : Type 0
Counter = List (String × ℕ)

unfoldable pub count_text : String → Counter → Counter
count_text s [] = (s, 1) ∷ []
count_text s ((t, n) ∷ rest) = if str_eq t s then (t, n + 1) ∷ rest else (t, n) ∷ count_text s rest

-- `counter.most_common(8)`
unfoldable pub most_common_8 : Counter → Counter
most_common_8 counter = take 8 (sort_by (λ x y. ltb (y.1) (x.1)) counter)

unfoldable pub hash_keys : List Value → Result (List Key)
hash_keys [] = ok []
hash_keys (v ∷ vs) = do k ← hash_key v; ks ← hash_keys vs; ok (k ∷ ks)

-- `alerted_event_ids`
unfoldable pub alerted_event_ids : List Alert → Result (List Key)
unfolding hash_keys
alerted_event_ids [] = ok []
alerted_event_ids (a ∷ alerts) = do
  ks ← hash_keys a.event_ids
  rest ← alerted_event_ids alerts
  ok (ks ++ rest)

-- The loop that counts what `text` gives for the events that contributed to alerts.
unfoldable pub count_events :
    (Fields → Result String) → List Key → List Fields → Counter → Result Counter
unfolding count_text
count_events text ids [] counter = ok counter
count_events text ids (event ∷ events) counter = do
  k ← hash_key (get "event_id" event)
  if key_mem k ids
      then (do
        s ← text event
        count_events text ids events (if str_eq s "" then counter else count_text s counter))
      else count_events text ids events counter

module _ (rt : Runtime) where
  unfoldable pub top_suspicious_domains : List Fields → List Alert → Result Counter
  unfolding alerted_event_ids count_events most_common_8
  top_suspicious_domains events alerts = do
    ids ← alerted_event_ids alerts
    counter ← count_events (event_domain rt) ids events []
    ok (most_common_8 counter)

  unfoldable pub top_suspicious_ips : List Fields → List Alert → Result Counter
  unfolding alerted_event_ids count_events most_common_8
  top_suspicious_ips events alerts = do
    ids ← alerted_event_ids alerts
    counter ←
        count_events (λ event. ok (text_of rt ("dst_ip" ∷ "destination_ip" ∷ []) event)) ids events
          []
    ok (most_common_8 counter)

  -- `{key: value for key, value in summary.items() if value is not None}`
  unfoldable pub present : Fields → Fields
  present end = end
  present (field k null d) = present d
  present (field k v d) = field k v (present d)

  -- The copy of `privacy_masked_fields`, where the event has it.
  unfoldable pub masked_fields : Fields → Fields
  masked_fields event = elim (lookup "privacy_masked_fields" event) [
    | none ↦ end
    | some v ↦ field "privacy_masked_fields" v end
  ]

  unfoldable pub event_summary : Fields → Result Fields
  unfolding display_host masked_fields present
  event_summary event = do
    shown ← display_host (get "host_id" event)
    domain ← event_domain rt event
    ok (
        present (
          field "event_id" (get "event_id" event) (
            field "event_time" (get "event_time" event) (
              field "host_id" (get "host_id" event) (
                field "host_display_name" shown (
                  field "event_type" (get "event_type" event) (
                    field "process_name" (get "process_name" event) (
                      field "domain" (str domain) (
                        field "dst_ip" (or_else (get "dst_ip" event) (get "destination_ip" event)) (
                          field "dst_port" (get "dst_port" event) (
                            field "bytes_out" (get "bytes_out" event) (
                              field "method" (get "method" event) (
                                field "url" (or_else (get "url" event) (get "object_url" event)) (
                                  field "app_name"
                                    (or_else (get "app_name" event) (get "app_id" event))
                                    (field "app_action" (get "app_action" event) (
                                      field "decrypted" (get "decrypted" event) (
                                        field "collection_mode" (get "collection_mode" event)
                                          (masked_fields event))))))))))))))))))

  unfoldable pub event_summaries : List Fields → Result (List Fields)
  unfolding event_summary
  event_summaries [] = ok []
  event_summaries (event ∷ events) = do
    row ← event_summary event
    rows ← event_summaries events
    ok (row ∷ rows)

-- `event.get(k, "unknown")`
abbrev pub known : String → Fields → Value
known k event = elim (lookup k event) [ none ↦ str "unknown" | some v ↦ v ]

-- A row of `_build_process_trees`.
unfoldable pub process_row : Fields → Fields
process_row event = field "host_id" (get "host_id" event) (
    field "parent_process" (known "parent_process" event) (
      field "process_name" (known "process_name" event) (
        field "process_path" (known "process_path" event) (
          field "signed" (known "signed" event) (
            field "event_id" (get "event_id" event)
              (field "event_time" (get "event_time" event) end))))))

unfoldable pub build_process_trees : List Fields → List Fields
unfolding process_row type_in
build_process_trees events =
    map process_row
      (select (λ event. type_in (get "event_type" event) ("process_start" ∷ [])) events)
