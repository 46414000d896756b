-- ===== src/Detection/Rules.antt =====
-- The rules of src/detection_engine.py that look at one event, and the dispatch on its type. Each
-- function gives the alerts that it appends: none or one.
pub mod Network
pub mod Content
use team_c_edr.Base.{
  String, ◌<>◌, Bool, true, false, not, ◌&&◌, ◌||◌, Option, none, some, List, [], ◌∷◌, ◌++◌, str_eq,
  str_mem, str_or, if◌then◌else◌,
}
use team_c_edr.Json.{Value, str, Fields, get, lookup, truthy, or_else}
use team_c_edr.Python.{
  Runtime, Result, ok, err, ◌>>=◌, hash_key, DateTime, attribute_error, value_error,
}
use team_c_edr.Detection.Alerts.{Rule, Alert, alert}

-- `event.get(a) or event.get(b) or ... or ""`
unfoldable pub first_set : List String → Fields → Value
unfolding or_else
first_set [] event = str ""
first_set (k ∷ ks) event = or_else (get k event) (first_set ks event)

-- `event.get(k, d)`
unfoldable pub get_default : String → Value → Fields → Value
get_default k d event = elim (lookup k event) [ none ↦ d | some v ↦ v ]

-- `if test: alerts.append(...)`
unfoldable pub when : Bool → Result Alert → Result (List Alert)
when test made = if test then (do a ← made; ok (a ∷ [])) else ok []

-- An alert about one event, with its host and id.
unfoldable pub event_alert : Rule → Fields → String → List String → Result Alert
unfolding alert
event_alert rule event title evidence =
    alert rule (get "host_id" event) (get "event_id" event ∷ []) title evidence event none

module _ (rt : Runtime) where
  -- `str(event.get(a) or event.get(b) or ... or "")`
  unfoldable pub text_of : List String → Fields → String
  unfolding first_set
  text_of ks event = rt.to_str (first_set ks event)

  -- `event.get(k, "unknown")` in an f-string
  unfoldable pub shown_or_unknown : String → Fields → String
  unfolding get_default
  shown_or_unknown k event = rt.to_str (get_default k (str "unknown") event)

  -- `_event_domain`
  unfoldable pub event_domain : Fields → Result String
  unfolding text_of
  event_domain event =
      let direct =
        rt.lower (text_of ("query" ∷ "dst_domain" ∷ "source_domain" ∷ "sni" ∷ []) event) in
      let url = text_of ("url" ∷ "object_url" ∷ []) event in
      if not (str_eq direct "")
      then ok direct
      else if not (str_eq url "")
      then (do host ← rt.hostname url; ok (rt.lower host))
      else ok ""

  -- `_parse_time`: a value that is no text has no `replace`.
  unfoldable pub parse_time : Value → Result DateTime
  parse_time v = elim v [
    | str s ↦ elim (rt.from_isoformat s) [ none ↦ err value_error | some t ↦ ok t ]
    | _ ↦ err attribute_error
  ]

  -- `_event_domain(event) or event.get("dst_ip", "unknown")`
  unfoldable pub destination_of : Fields → Result String
  unfolding event_domain
  destination_of event = do
    domain ← event_domain event
    ok (str_or domain (shown_or_unknown "dst_ip" event))
