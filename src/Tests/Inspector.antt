-- ===== src/Tests/Inspector.antt =====
-- An HTTP record without an id, a TLS record, and a record of another type.
use team_c_edr.Base.{true, [], ◌∷◌, ◌≡◌, refl, List, All}
use team_c_edr.Base.Int.{pos}
use team_c_edr.Json.{Fields, Value, null, field, end, str, int, get, or_else, truthy}
use team_c_edr.Python.{DateTime, ok}
use team_c_edr.Detection.Rules.{get_default}
use team_c_edr.Detection.Validate.{parses}
use team_c_edr.Detection.Validate.Schema.{MeetsSchema}
use team_c_edr.Inspector.{Proxy, with_common, record_kind, events_from_l7_records}
use team_c_edr.Inspector.Contract.{events_from_l7_records-MeetsSchema}
use team_c_edr.Tests.Detection.{rt}

abbrev noon : DateTime
noon = record { aware = true; instant = 0; hour = 12 }

abbrev proxy : Proxy
proxy = record {
  urlparse = λ s.
      ok (record { path = "/login"; hostname = "bad.example"; scheme = "https"; port = ok null });
  upper = λ s. s;
  fallback = λ i. noon;
  second_later = λ t. ok t;
  isoformat = λ t. "2026-07-01T03:00:00Z";
}

abbrev records : List Fields
records =
    field "url" (str "https://bad.example/login") end
    ∷ field "record_type" (str "tls") (field "sni" (str "bad.example") end)
    ∷ field "record_type" (str "dns") end
    ∷ []

abbrev http_rest : Fields
http_rest = field "method" (str "GET") (
    field "url" (str "https://bad.example/login") (
      field "url_path" (str "/login") (
        field "dst_domain" (str "bad.example") (
          field "dst_ip" (str "") (
            field "dst_port" (int (pos 443)) (
              field "protocol" (str "https") (
                field "app_id" (str "browser") (
                  field "url_category" (str "unknown")
                    (field "decrypted" (Value.bool true) end)))))))))

abbrev tls_rest : Fields
tls_rest = field "sni" (str "bad.example") (
    field "dst_domain" (str "bad.example") (
      field "dst_port" (int (pos 443)) (
        field "tls_version" (str "TLS1.3") (
          field "decryption_policy" (str "inspect-known-risk") (
            field "decryption_result" (str "decrypted") (
              field "proxy_mode" (str "explicit_proxy")
                (field "certificate_issuer" (str "PoC Local CA") end)))))))

abbrev mapped : List Fields
mapped =
    with_common rt proxy 1 "l7-endpoint" (field "url" (str "https://bad.example/login") end) noon
      noon "http_request" http_rest
    ∷ with_common rt proxy 2 "l7-endpoint"
        (field "record_type" (str "tls") (field "sni" (str "bad.example") end)) noon noon
        "decryption_event" tls_rest
    ∷ []

records_run : events_from_l7_records rt proxy "l7-endpoint" records ≡ ok mapped
unfolding events_from_l7_records get or_else truthy get_default record_kind
records_run = refl

iso_parses : (t : DateTime) → parses rt (str (proxy.isoformat t)) ≡ true
unfolding parses
iso_parses t = refl

events_from_l7_records-MeetsSchema_example : All (MeetsSchema rt) mapped
events_from_l7_records-MeetsSchema_example =
    events_from_l7_records-MeetsSchema rt proxy iso_parses "l7-endpoint" records mapped records_run
