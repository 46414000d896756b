-- ===== src/Tests/Detection.antt =====
-- Events through the privacy filter, the schema check and the rules.
use team_c_edr.Base.{
  String, true, false, Option, none, some, List, [], ◌∷◌, ◌≡◌, refl, In, All, str_eq, str_lt, map,
  show, if◌then◌else◌,
}
use team_c_edr.Base.Int.{ℤ, pos}
use team_c_edr.Json.{
  arr, nil, truthy, Value, str, int, Fields, field, end, get, lookup, has_key, set_key,
}
use team_c_edr.Python.{Runtime, DateTime, Result, ok, err, value_error, hash_key}
use team_c_edr.Detection.Privacy.{is_sensitive, removed_sensitive_field, sanitize_event}
use team_c_edr.Detection.Privacy.Masking.{
  sanitize_event-lookup, sanitize_event_safe, sanitize_event_audited,
}
use team_c_edr.Detection.Validate.{Split, validate_and_sanitize}
use team_c_edr.Detection.Validate.Laws.{
  Sorted, IsHashable, validate_and_sanitize-Sorted, validate_and_sanitize-returns,
}
use team_c_edr.Detection.Alerts.{Alert, r001, r005, r007}
use team_c_edr.Detection.Signatures.{SignatureDb, load_signature_db}
use team_c_edr.Detection.Rules.Network.{
  maybe_add_domain_alert, maybe_add_large_outbound_alert, maybe_add_rare_asn_alert,
  maybe_add_shell_network_alert, maybe_add_vpn_abnormal_alert,
}
use team_c_edr.Detection.Detect.{rule_calls, event_alerts}
use team_c_edr.Detection.Detect.About.{IsAbout}
use team_c_edr.Detection.Detect.Provenance.{event_alerts-IsAbout}

abbrev parse : String → Option DateTime
parse s =
    if str_eq s "2026-07-01T03:00:00Z"
    then some (record { aware = true; instant = 1_000_000; hour = 3 })
    else none

abbrev text : Value → String
text (str s) = s
text v = "other"

abbrev number : Value → Result ℤ
number (int z) = ok z
number v = err value_error

abbrev number_text : ℤ → String
number_text (pos n) = show n
number_text z = "negative"

abbrev pub rt : Runtime
rt = record {
  sub_email = λ s. if str_eq s "lee@example.com" then "[redacted-email]" else s;
  sub_phone = λ s. if str_eq s "010-1234-5678" then "[redacted-phone]" else s;
  sub_rrn = λ s. if str_eq s "900101-1234567" then "[redacted-rrn]" else s;
  from_isoformat = parse;
  hostname = λ s. ok s;
  to_str = text;
  to_int = number;
  show_int = number_text;
  show_commas = number_text;
  lower = λ s. s;
  ends_with = λ s t. str_eq s t;
  contains = λ s t. str_eq s t;
  first_twelve = λ s. s;
  equals = λ v w. str_eq (text v) (text w);
  float_less = str_lt;
}

abbrev with_id : String → Fields → Fields
with_id id rest = field "event_id" (str id) (
    field "event_time" (str "2026-07-01T03:00:00Z") (
      field "received_time" (str "2026-07-01T03:00:00Z") (
        field "host_id" (str "endpoint-01") (
          field "event_type" (str "network_connection")
            (field "source" (str "agent") (field "payload_version" (str "1.1") rest))))))

abbrev upload : Fields
upload = with_id "e1" (
    field "bytes_out" (int (pos 60_000_000)) (
      field "process_name" (str "bash") (
        field "dst_ip" (str "203.0.113.77")
          (field "user_name" (str "lee") (field "note" (str "lee@example.com") end)))))

abbrev quiet : Fields
quiet = with_id "e2" end

abbrev pub db : SignatureDb
db = load_signature_db rt (record {
  version = none;
  malicious_domains = none;
  malicious_urls = none;
  malicious_ips = none;
  malware_hashes = none;
  monitored_app_actions = none;
  blocked_categories = none;
})

sanitize_event-lookup_example :
    lookup "note" (sanitize_event rt upload).0 ≡ some (str "[redacted-email]")
unfolding is_sensitive lookup
sanitize_event-lookup_example = sanitize_event-lookup rt "note" upload refl

sanitize_event_safe_example : has_key "user_name" (sanitize_event rt upload).0 ≡ false
unfolding is_sensitive
sanitize_event_safe_example = sanitize_event_safe rt "user_name" upload refl

sanitize_event_audited_example :
    In
      (record { field_name = "user_name"; action = removed_sensitive_field })
      (sanitize_event rt upload).1
unfolding is_sensitive lookup
sanitize_event_audited_example = sanitize_event_audited rt "user_name" (str "lee") upload refl refl

-- The third event repeats an id, the last has no field.
abbrev batch : List Fields
batch = upload ∷ quiet ∷ quiet ∷ end ∷ []

batch-IsHashable :
    All
      (λ raw.
        IsHashable rt (get "event_id" (sanitize_event rt raw).0)
        × IsHashable rt (get "event_type" (sanitize_event rt raw).0))
      batch
unfolding hash_key get sanitize_event set_key is_sensitive
batch-IsHashable = (
  ((_, refl), (_, refl)),
  (((_, refl), (_, refl)), (((_, refl), (_, refl)), (((_, refl), (_, refl)), tt))),
)

validate_and_sanitize-returns_example : (r : Split) × (validate_and_sanitize rt batch ≡ ok r)
validate_and_sanitize-returns_example = validate_and_sanitize-returns rt batch batch-IsHashable

batch_split : (r : Split) × (validate_and_sanitize rt batch ≡ ok r)
batch_split = validate_and_sanitize-returns rt batch batch-IsHashable

validate_and_sanitize-Sorted_example : Sorted rt 0 batch [] batch_split.0
validate_and_sanitize-Sorted_example =
    validate_and_sanitize-Sorted rt batch batch_split.0 batch_split.1

abbrev alerts_of : Result (List Alert) → List Alert
alerts_of (ok found) = found
alerts_of (err e) = []

-- A large upload by a shell to a listed address.
upload_run :
    (event_alerts rt db upload ≡ ok (alerts_of (event_alerts rt db upload)))
    × (map (λ a. a.rule) (alerts_of (event_alerts rt db upload)) ≡ r001 ∷ r005 ∷ r007 ∷ [])
unfolding event_alerts hash_key get rule_calls maybe_add_domain_alert load_signature_db
    maybe_add_large_outbound_alert maybe_add_rare_asn_alert maybe_add_shell_network_alert
    maybe_add_vpn_abnormal_alert
upload_run = (refl, refl)

event_alerts-IsAbout_example : All (IsAbout upload) (alerts_of (event_alerts rt db upload))
event_alerts-IsAbout_example =
    event_alerts-IsAbout rt db upload (alerts_of (event_alerts rt db upload)) upload_run.0

-- A host that is falsy is not looked up, so it needs no hash.
abbrev unhosted : Fields
unhosted = field "event_id" (str "e3") (
    field "event_type" (str "dns_query")
      (field "host_id" (arr nil) (field "query" (str "c2.badbeacon.example") end)))

unhosted_alert :
    map (λ (a : Alert). a.host_display_name) (alerts_of (event_alerts rt db unhosted))
    ≡ str "-" ∷ []
unfolding event_alerts hash_key get rule_calls maybe_add_domain_alert load_signature_db truthy
unhosted_alert = refl
