-- ===== src/Tests/Times.antt =====
-- A batch with an aware and a naive time: its analysis ends with a `TypeError`.
use team_c_edr.Base.{
  String, true, false, Option, none, some, List, [], ◌∷◌, ◌≡◌, refl, str_eq, if◌then◌else◌,
}
use team_c_edr.Json.{str, Fields, field, end, get, has_key, truthy}
use team_c_edr.Python.{Runtime, DateTime, err, type_error, hash_key, key_mem, key_eq}
use team_c_edr.Detection.Privacy.{is_sensitive, sanitize_event}
use team_c_edr.Detection.Validate.{
  validate_and_sanitize, missing, missing_errors, is_supported, type_errors, parses, time_errors,
  schema_errors, file_event, seen_after, audit,
}
use team_c_edr.Detection.Rules.{parse_time}
use team_c_edr.Detection.Timeline.{sort_valid, read_times, read_entries}
use team_c_edr.Detection.Analyze.{analyze_events}
use team_c_edr.Tests.Detection.{rt as plain_rt, db}

abbrev aware_time : DateTime
aware_time = record { aware = true; instant = 1000; hour = 10 }

abbrev naive_time : DateTime
naive_time = record { aware = false; instant = 2000; hour = 10 }

abbrev parse : String → Option DateTime
parse s =
    if str_eq s "10:00Z"
    then some aware_time
    else if str_eq s "10:00"
    then some naive_time
    else none

abbrev rt : Runtime
rt = record plain_rt { from_isoformat = parse }

abbrev event : String → String → Fields
event id time = field "event_id" (str id) (
    field "event_time" (str time) (
      field "received_time" (str time) (
        field "host_id" (str "endpoint-01") (
          field "event_type" (str "dns_query")
            (field "source" (str "agent") (field "payload_version" (str "1.1") end))))))

abbrev batch : List Fields
batch = event "e1" "10:00Z" ∷ event "e2" "10:00" ∷ []

mixed_batch : analyze_events rt db batch ≡ err type_error
unfolding analyze_events validate_and_sanitize sort_valid read_times read_entries get has_key
    hash_key key_mem key_eq is_sensitive sanitize_event missing missing_errors is_supported
    type_errors parses time_errors schema_errors file_event seen_after parse_time truthy audit
mixed_batch = refl
