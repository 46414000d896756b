-- ===== src/Detection/Validate.antt =====
-- `_validate_and_sanitize` and `_schema_errors` of src/detection_engine.py: raw events are sanitized
-- and split into valid ones and dead letters. The text of an error message is left out; an error is
-- its kind and what the message names. `none` is a missing `event_id` in an audit record, for which
-- the source writes "index-" and the index.
pub mod Errors
pub mod Laws
pub mod Schema
use team_c_edr.Base.{
  ℕ, suc, String, Bool, true, false, not, Option, none, some, List, [], ◌∷◌, ◌++◌, str_mem, select,
  if◌then◌else◌,
}
use team_c_edr.Json.{Value, str, Fields, get, lookup, has_key, truthy}
use team_c_edr.Python.{Runtime, Result, ok, err, ◌>>=◌, Key, hash_key, key_mem}
use team_c_edr.Detection.Privacy.{Mask, sanitize_event}

-- `REQUIRED_EVENT_FIELDS` of src/config.py, as `sorted` orders them.
abbrev pub required_event_fields : List String
required_event_fields =
    "event_id" ∷ "event_time" ∷ "event_type" ∷ "host_id" ∷ "payload_version" ∷ "received_time"
    ∷ "source" ∷ []

-- `SUPPORTED_EVENT_TYPES` of src/config.py
abbrev pub supported_event_types : List String
supported_event_types =
    "process_start" ∷ "process_stop" ∷ "file_download" ∷ "dns_query" ∷ "network_connection"
    ∷ "flow_summary" ∷ "vpn_tunnel" ∷ "autorun_entry" ∷ "usb_event" ∷ "http_request"
    ∷ "decryption_event" ∷ "application_action" ∷ "signature_match" ∷ "response_action"
    ∷ "ai_prediction" ∷ "pipeline_delivery" ∷ []

pub data SchemaError : Type 0 where
  missing_fields : List String → SchemaError
  duplicate_id : Value → SchemaError
  unsupported_type : Value → SchemaError
  invalid_datetime : String → SchemaError

pub record DlqEvent : Type 0 where
  pub index : ℕ
  pub event_id : Value
  pub errors : List SchemaError
  pub sanitized_event : Fields

pub record PrivacyAction : Type 0 where
  pub index : ℕ
  pub event_id : Option Value
  pub masks : List Mask

pub record Split : Type 0 where
  pub valid_events : List Fields
  pub dlq_events : List DlqEvent
  pub privacy_actions : List PrivacyAction

unfoldable pub missing : Fields → List String
missing event = select (λ f. not (has_key f event)) required_event_fields

unfoldable pub missing_errors : List String → List SchemaError
missing_errors [] = []
missing_errors (f ∷ fs) = missing_fields (f ∷ fs) ∷ []

-- `v in SUPPORTED_EVENT_TYPES` for a hashable value.
unfoldable pub is_supported : Value → Bool
is_supported (str s) = str_mem s supported_event_types
is_supported v = false

unfoldable pub type_errors : Value → Result (List SchemaError)
type_errors v =
    if truthy v
    then (do k ← hash_key v; ok (if is_supported v then [] else unsupported_type v ∷ []))
    else ok []

module _ (rt : Runtime) where
  unfoldable pub parses : Value → Bool
  parses v = elim (rt.from_isoformat (rt.to_str v)) [ none ↦ false | some t ↦ true ]

  unfoldable pub time_errors : String → Fields → List SchemaError
  time_errors f event =
      if has_key f event then (if parses (get f event) then [] else invalid_datetime f ∷ []) else []

  -- The errors of a sanitized event, and the hash key of its id.
  unfoldable pub schema_errors : Fields → List Key → Result (Key × List SchemaError)
  schema_errors event seen = do
    k ← hash_key (get "event_id" event)
    types ← type_errors (get "event_type" event)
    ok (
      k,
      missing_errors (missing event)
          ++ ((if key_mem k seen then duplicate_id (get "event_id" event) ∷ [] else [])
              ++ (types ++ (time_errors "event_time" event ++ time_errors "received_time" event))),
    )

  unfoldable pub audit : ℕ → Fields → List Mask → List PrivacyAction → List PrivacyAction
  audit i event [] actions = actions
  audit i event (m ∷ ms) actions =
      record { index = i; event_id = lookup "event_id" event; masks = m ∷ ms } ∷ actions

  unfoldable pub file_event : ℕ → Fields → List SchemaError → Split → Split
  file_event i event [] rest = record rest { valid_events = event ∷ rest.valid_events }
  file_event i event (x ∷ xs) rest = record rest {
    dlq_events =
        record {
          index = i;
          event_id = get "event_id" event;
          errors = x ∷ xs;
          sanitized_event = event;
        }
        ∷ rest.dlq_events;
  }

  -- The ids seen after an event: a rejected one adds none.
  unfoldable pub seen_after : Key → List SchemaError → List Key → List Key
  seen_after k [] seen = k ∷ seen
  seen_after k (x ∷ xs) seen = seen

  -- The loop over `enumerate(raw_events)`, from index `i` on.
  unfoldable pub validate_from : ℕ → List Fields → List Key → Result Split
  validate_from i [] seen = ok (record { valid_events = []; dlq_events = []; privacy_actions = [] })
  validate_from i (raw ∷ raws) seen = do
    let event = (sanitize_event rt raw).0
    checked ← schema_errors event seen
    rest ← validate_from (suc i) raws (seen_after checked.0 checked.1 seen)
    let filed = file_event i event checked.1 rest
    ok (record filed {
      privacy_actions = audit i event (sanitize_event rt raw).1 filed.privacy_actions;
    })

  unfoldable pub validate_and_sanitize : List Fields → Result Split
  unfolding validate_from
  validate_and_sanitize raws = validate_from 0 raws []
