-- ===== src/Inspector.antt =====
-- `events_from_l7_records` of src/l7_inspector.py: the records of an inspection proxy as events. The
-- records are dictionaries; the clock, `urlparse` and the arithmetic of `datetime` are parameters.
pub mod Contract
use team_c_edr.Base.{
  ℕ, suc, String, ◌<>◌, Bool, true, false, Option, none, some, List, [], ◌∷◌, str_eq, str_or,
  show_padded, if◌then◌else◌, ◌||◌,
}
use team_c_edr.Base.Int.{ℤ, pos}
use team_c_edr.Json.{Value, null, bool, int, str, Fields, field, end, get, or_else, truthy}
use team_c_edr.Python.{Runtime, DateTime, Result, ok, err, ◌>>=◌}
use team_c_edr.Detection.Rules.{get_default, text_of}

-- What `urlparse` gives: an absent host name is the empty text, an absent port is `None`, and reading
-- the port can raise.
pub record Url : Type 0 where
  pub path : String
  pub hostname : String
  pub scheme : String
  pub port : Result Value

pub record Proxy : Type 0 where
  pub urlparse : String → Result Url
  -- `s.upper()`
  pub upper : String → String
  -- `base_time + timedelta(seconds=index)`
  pub fallback : ℕ → DateTime
  -- `t + timedelta(seconds=1)`, or its exception
  pub second_later : DateTime → Result DateTime
  -- `t.isoformat()`
  pub isoformat : DateTime → String

-- The three kinds of records that are mapped.
pub data RecordKind : Type 0 where
  http tls application : RecordKind

unfoldable pub record_kind : String → Option RecordKind
record_kind t =
    if str_eq t "http" || str_eq t "http_request"
    then some http
    else if str_eq t "tls" || str_eq t "decryption_event"
    then some tls
    else if str_eq t "application" || str_eq t "application_action"
    then some application
    else none

abbrev or_parsed : Option DateTime → DateTime → DateTime
or_parsed none t = t
or_parsed (some s) t = s

module _ (rt : Runtime) (proxy : Proxy) where
  -- `_time`
  unfoldable pub record_time : Value → DateTime → DateTime
  record_time value fallback =
      if truthy value then or_parsed (rt.from_isoformat (rt.to_str value)) fallback else fallback

  -- `str(record.get(a) or record.get(b) or text)`
  unfoldable pub text_or_default : Value → Value → String → String
  unfolding or_else
  text_or_default a b text = rt.to_str (or_else a (or_else b (str text)))

  -- `{**common, "event_type": event_type, **rest}`
  unfoldable pub with_common : ℕ → String → Fields → DateTime → DateTime → String → Fields → Fields
  unfolding or_else text_or_default show_padded
  with_common index default_host record' event_time received event_type rest =
      field "event_id"
        (str (rt.to_str (or_else (get "event_id" record') (str ("l7-" <> show_padded index)))))
        (field "event_time" (str (proxy.isoformat event_time)) (
          field "received_time" (str (proxy.isoformat received)) (
            field "host_id" (str (rt.to_str (or_else (get "host_id" record') (str default_host)))) (
              field "source"
                (str (rt.to_str (or_else (get "source" record') (str "l7_inspection_proxy"))))
                (field "payload_version" (str "v1") (
                  field "process_name"
                    (str
                      (text_or_default (get "process_name" record') (get "app" record') "unknown"))
                    (field "collection_mode" (str "decrypted_l7_metadata")
                      (field "event_type" (str event_type) rest))))))))

  -- `int(record.get("dst_port") or parsed.port or default)`
  unfoldable pub port_of : Fields → Url → Result ℤ
  unfolding or_else
  port_of record' url =
      if truthy (get "dst_port" record') then rt.to_int (get "dst_port" record') else (do
        port ← url.port
        rt.to_int (or_else port (int (pos (if str_eq url.scheme "https" then 443 else 80)))))

  -- `bool(record.get("decrypted", True))`
  unfoldable pub is_decrypted : Fields → Bool
  unfolding get_default
  is_decrypted record' = truthy (get_default "decrypted" (bool true) record')

  -- `record.get(a) or record.get(b) or text`
  abbrev or_text : String → String → String → Fields → Value
  or_text a b text record' = or_else (get a record') (or_else (get b record') (str text))

  unfoldable pub http_fields : Fields → Result Fields
  unfolding port_of is_decrypted get_default or_else
  http_fields record' = do
    let shown : String = rt.to_str (or_else (get "url" record') (str ""))
    url ← proxy.urlparse shown
    port ← port_of record' url
    ok (
        field "method" (str (proxy.upper (rt.to_str (or_else (get "method" record') (str "GET")))))
          (field "url" (str shown) (
            field "url_path" (str (str_or url.path "/")) (
              field "dst_domain"
                (str (rt.lower (rt.to_str (or_else (get "dst_domain" record') (str url.hostname)))))
                (field "dst_ip" (get_default "dst_ip" (str "") record') (
                  field "dst_port" (int port) (
                    field "protocol" (str (str_or url.scheme "https")) (
                      field "app_id" (or_text "app_id" "app" "browser" record') (
                        field "url_category" (get_default "url_category" (str "unknown") record')
                          (field "decrypted" (bool (is_decrypted record')) end))))))))))

  unfoldable pub tls_fields : Fields → Result Fields
  unfolding get_default or_else text_or_default
  tls_fields record' = do
    port ← rt.to_int (or_else (get "dst_port" record') (int (pos 443)))
    ok (
        field "sni"
          (str (rt.lower (text_or_default (get "sni" record') (get "dst_domain" record') "")))
          (field "dst_domain"
            (str (rt.lower (text_or_default (get "dst_domain" record') (get "sni" record') "")))
            (field "dst_port" (int port) (
              field "tls_version" (get_default "tls_version" (str "TLS1.3") record') (
                field "decryption_policy"
                  (get_default "decryption_policy" (str "inspect-known-risk") record')
                  (field "decryption_result"
                    (get_default "decryption_result" (str "decrypted") record')
                    (field "proxy_mode" (get_default "proxy_mode" (str "explicit_proxy") record') (
                      field "certificate_issuer"
                        (get_default "certificate_issuer" (str "PoC Local CA") record') end))))))))

  unfoldable pub application_fields : Fields → Result Fields
  unfolding get_default or_else text_or_default is_decrypted
  application_fields record' = do
    let shown : String = text_or_default (get "url" record') (get "object_url" record') ""
    url ← proxy.urlparse shown
    ok (
        field "app_name" (or_text "app_name" "app" "unknown" record') (
          field "app_action" (or_text "app_action" "action" "unknown" record') (
            field "object_url" (str shown) (
              field "dst_domain"
                (str (rt.lower (rt.to_str (or_else (get "dst_domain" record') (str url.hostname)))))
                (field "attachment_name" (get_default "attachment_name" (str "") record') (
                  field "attachment_hash" (get_default "attachment_hash" (str "") record') (
                    field "message_content" (get_default "message_content" (str "") record')
                      (field "decrypted" (bool (is_decrypted record')) end))))))))

  abbrev type_of : RecordKind → String
  type_of http = "http_request"
  type_of tls = "decryption_event"
  type_of application = "application_action"

  abbrev fields_of : RecordKind → Fields → Result Fields
  fields_of http record' = http_fields record'
  fields_of tls record' = tls_fields record'
  fields_of application record' = application_fields record'

  -- The event of a record, if its type is known. The common part is made first.
  unfoldable pub record_event : ℕ → String → Fields → Result (Option Fields)
  unfolding record_kind text_or_default record_time with_common http_fields tls_fields
      application_fields
  record_event index default_host record' = do
    let kind : Option RecordKind =
        record_kind
          (text_or_default (get "record_type" record') (get "type" record') "http_request")
    let event_time : DateTime = record_time (get "event_time" record') (proxy.fallback index)
    received ← proxy.second_later event_time
    elim kind [
      | none ↦ ok none
      | some k ↦ (do
        rest ← fields_of k record'
        ok (some (with_common index default_host record' event_time received (type_of k) rest)))
    ]

  abbrev add_made : Option Fields → List Fields → List Fields
  add_made none events = events
  add_made (some event) events = event ∷ events

  -- The records are numbered from `index` on.
  unfoldable pub records_from : ℕ → String → List Fields → Result (List Fields)
  unfolding record_event
  records_from index default_host [] = ok []
  records_from index default_host (record' ∷ records) = do
    made ← record_event index default_host record'
    events ← records_from (suc index) default_host records
    ok (add_made made events)

  unfoldable pub events_from_l7_records : String → List Fields → Result (List Fields)
  unfolding records_from
  events_from_l7_records default_host records = records_from 1 default_host records
