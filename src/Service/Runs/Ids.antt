-- ===== src/Service/Runs/Ids.antt =====
-- The ids that a result's objects have and name: the helpers of src/service_store_rows.py, with the
-- payload helpers of src/service_store_payloads.py.
use team_c_edr.Base.{
  suc, String, ◌<>◌, Bool, true, false, not, ◌&&◌, ◌||◌, Option, none, some, List, [], ◌∷◌, ◌++◌,
  any, map, select, str_eq, str_mem, str_or, show, if◌then◌else◌,
}
use team_c_edr.Base.Int.{ℤ, pos, negsuc}
use team_c_edr.Json.{
  Value, bool, int, str, Items, nil, cons, Fields, end, get, as_obj, as_arr, objects,
}
use team_c_edr.Service.{text_value}

-- `json_list`
unfoldable pub json_list : Value → List Fields
unfolding objects
json_list v = elim (as_arr v) [ none ↦ [] | some vs ↦ objects vs ]

-- `int_value`; a Boolean is an integer.
unfoldable pub int_value : Value → ℤ
int_value (int z) = z
int_value (bool b) = pos (if b then 1 else 0)
int_value v = pos 0

unfoldable pub show_int : ℤ → String
unfolding show
show_int (pos n) = show n
show_int (negsuc n) = "-" <> show (suc n)

-- `f"{int_value(v)}"`
unfoldable pub int_text : Value → String
unfolding show_int
int_text (int z) = show_int z
int_text (bool true) = "True"
int_text (bool false) = "False"
int_text v = "0"

-- `_text_list`
unfoldable pub item_texts : Items → List String
item_texts nil = []
item_texts (cons (str s) vs) = if str_eq s "" then item_texts vs else s ∷ item_texts vs
item_texts (cons v vs) = item_texts vs

unfoldable pub text_list : Value → List String
unfolding item_texts
text_list v = elim (as_arr v) [ none ↦ [] | some vs ↦ item_texts vs ]

-- `text_value(d.get(k))`
abbrev pub text_at : String → Fields → String
text_at k d = text_value (get k d)

-- `_tenant_payload`
unfoldable pub tenant_payload : Fields → Fields
tenant_payload payload = elim (as_obj (get "telemetry_metadata" payload)) [
  | some d ↦ d
  | none ↦ elim (as_obj (get "input" payload)) [
    | some d ↦ d
    | none ↦ elim (as_obj (get "siem_analysis" payload)) [
      | none ↦ end
      | some siem ↦ elim (as_obj (get "telemetry_metadata" siem)) [ none ↦ end | some d ↦ d ]
    ]
  ]
]

-- `tenant_fields`
unfoldable pub customer_of : Fields → String
unfolding tenant_payload
customer_of payload = str_or (text_at "customer_id" (tenant_payload payload)) "unknown"

unfoldable pub tenant_of : Fields → String
unfolding tenant_payload
tenant_of payload = str_or (text_at "tenant_id" (tenant_payload payload)) "unknown"

-- The ids of the objects of a list that have one: `_event_id_set`, and the keys of `alert_by_id`.
unfoldable pub ids_at : String → List Fields → List String
ids_at k ds = select (λ s. not (str_eq s "")) (map (text_at k) ds)

unfoldable pub event_id_set : Fields → List String
unfolding json_list ids_at
event_id_set payload = ids_at "event_id" (json_list (get "events" payload))

-- `_alert_event_ids`
unfoldable pub alert_event_ids : Fields → List String
unfolding text_list
alert_event_ids alert = text_list (get "event_ids" alert)

-- `next((x for x in xs if x in valid), None)`
unfoldable pub first_of : List String → List String → Option String
first_of [] valid = none
first_of (x ∷ xs) valid = if str_mem x valid then some x else first_of xs valid

-- `_primary_event_id`
unfoldable pub primary_event_id : Fields → List String → Option String
unfolding alert_event_ids first_of
primary_event_id alert valid = first_of (alert_event_ids alert) valid

-- `_incident_event_ids`
unfoldable pub stage_event_ids : List Fields → List String
unfolding text_list
stage_event_ids [] = []
stage_event_ids (stage ∷ stages) =
    let own = text_at "event_id" stage in
    (if str_eq own "" then [] else own ∷ [])
    ++ (text_list (get "event_ids" stage) ++ stage_event_ids stages)

unfoldable pub incident_event_ids : Fields → List String
unfolding json_list stage_event_ids
incident_event_ids incident = stage_event_ids (json_list (get "detected_sequence" incident))

-- The alerts of the incident's host that share an event with it.
unfoldable pub shares_event : String → List String → Fields → Bool
unfolding alert_event_ids
shares_event host ids alert =
    not (str_eq (text_at "alert_id" alert) "")
    && ((str_eq host "" || str_eq (text_at "host_id" alert) host)
        && any (λ e. str_mem e ids) (alert_event_ids alert))

unfoldable pub related_alert_ids : String → List String → List Fields → List String
unfolding shares_event
related_alert_ids host ids alerts = map (text_at "alert_id") (select (shares_event host ids) alerts)

-- `explicit_alert_ids`
unfoldable pub explicit_alert_ids : Fields → List String → List String
unfolding text_list
explicit_alert_ids incident known =
    let listed = select (λ a. str_mem a known) (text_list (get "alert_ids" incident)) in
    let primary = text_at "primary_alert_id" incident in
    if not (str_eq primary "") && (str_mem primary known && not (str_mem primary listed))
    then listed ++ (primary ∷ [])
    else listed

abbrev pub or_related : List String → List String → List String
or_related [] related = related
or_related (a ∷ as') related = a ∷ as'

-- `_incident_alert_ids`. Without an event id, no alert shares one.
unfoldable pub incident_alert_ids : Fields → List Fields → List String
unfolding explicit_alert_ids related_alert_ids incident_event_ids ids_at
incident_alert_ids incident alerts =
    or_related (explicit_alert_ids incident (ids_at "alert_id" alerts))
      (related_alert_ids (text_at "host_id" incident) (incident_event_ids incident) alerts)

abbrev pub head_text : List String → Option String
head_text [] = none
head_text (s ∷ ss) = some s

-- `_primary_alert_id`
unfoldable pub primary_alert_id : Fields → List Fields → Option String
unfolding incident_alert_ids
primary_alert_id incident alerts = head_text (incident_alert_ids incident alerts)
