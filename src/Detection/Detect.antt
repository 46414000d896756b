-- ===== src/Detection/Detect.antt =====
-- The loop body of `_detect_alerts` in src/detection_engine.py: the rules that an event's type selects,
-- in the order in which the source runs them.
pub mod About
pub mod Provenance
use team_c_edr.Base.{String, Bool, true, false, List, [], ◌∷◌, ◌++◌, str_mem, if◌then◌else◌}
use team_c_edr.Json.{Value, str, Fields, get}
use team_c_edr.Python.{Runtime, Result, ok, err, ◌>>=◌, hash_key}
use team_c_edr.Detection.Alerts.{Alert}
use team_c_edr.Detection.Signatures.{SignatureDb}
use team_c_edr.Detection.Rules.Network.{
  maybe_add_domain_alert, maybe_add_large_outbound_alert, maybe_add_rare_asn_alert,
  maybe_add_shell_network_alert, maybe_add_vpn_abnormal_alert,
}
use team_c_edr.Detection.Rules.Content.{
  maybe_add_download_alert, maybe_add_hash_signature_alert, maybe_add_unsigned_execution_alert,
  maybe_add_l7_url_alert, maybe_add_application_action_alert, maybe_add_response_action_alert,
  maybe_add_ai_prediction_alert,
}

-- `event_type in {...}` and `event_type == ...`
unfoldable pub type_in : Value → List String → Bool
type_in (str s) ts = str_mem s ts
type_in v ts = false

-- `if test: ...`
unfoldable pub only : Bool → Result (List Alert) → Result (List Alert)
only test r = if test then r else ok []

-- What the calls append, one after the other; the first exception ends them.
unfoldable pub in_order : List (Result (List Alert)) → Result (List Alert)
in_order [] = ok []
in_order (r ∷ rs) = do alerts ← r; rest ← in_order rs; ok (alerts ++ rest)

-- The calls of the loop body, each under its test of the type.
unfoldable pub rule_calls : Runtime → SignatureDb → Fields → List (Result (List Alert))
unfolding type_in only
rule_calls rt db event =
    let t = get "event_type" event in
    only
      (type_in t (
        "dns_query" ∷ "network_connection" ∷ "file_download" ∷ "http_request" ∷ "application_action"
        ∷ "decryption_event" ∷ []))
      (maybe_add_domain_alert rt db event)
    ∷ only (type_in t ("file_download" ∷ [])) (maybe_add_download_alert rt db event)
    ∷ only (type_in t ("file_download" ∷ [])) (maybe_add_hash_signature_alert rt db event)
    ∷ only (type_in t ("process_start" ∷ [])) (maybe_add_unsigned_execution_alert rt db event)
    ∷ only (type_in t ("process_start" ∷ [])) (maybe_add_hash_signature_alert rt db event)
    ∷ only (type_in t ("network_connection" ∷ "flow_summary" ∷ []))
        (maybe_add_large_outbound_alert rt event)
    ∷ only (type_in t ("network_connection" ∷ "flow_summary" ∷ []))
        (maybe_add_rare_asn_alert rt event)
    ∷ only (type_in t ("network_connection" ∷ "flow_summary" ∷ []))
        (maybe_add_shell_network_alert rt event)
    ∷ only (type_in t ("network_connection" ∷ "flow_summary" ∷ []))
        (maybe_add_vpn_abnormal_alert rt event)
    ∷ only (type_in t ("http_request" ∷ [])) (maybe_add_l7_url_alert rt db event)
    ∷ only (type_in t ("application_action" ∷ [])) (maybe_add_application_action_alert rt db event)
    ∷ only (type_in t ("application_action" ∷ [])) (maybe_add_hash_signature_alert rt db event)
    ∷ only (type_in t ("response_action" ∷ [])) (maybe_add_response_action_alert rt event)
    ∷ only (type_in t ("ai_prediction" ∷ [])) (maybe_add_ai_prediction_alert rt event)
    ∷ []

-- `event_type in {...}` raises for a type without a hash.
unfoldable pub event_alerts : Runtime → SignatureDb → Fields → Result (List Alert)
unfolding in_order
event_alerts rt db event = do
  k ← hash_key (get "event_type" event)
  in_order (rule_calls rt db event)
