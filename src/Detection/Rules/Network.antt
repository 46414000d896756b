-- ===== src/Detection/Rules/Network.antt =====
-- Rules R001 and R005 to R008 of src/detection_engine.py: destinations, transfers, shells and VPN.
use team_c_edr.Base.{
  if◌then◌else◌, String, ◌<>◌, Bool, false, not, ◌&&◌, ◌||◌, List, [], ◌∷◌, str_eq, str_mem, str_or,
  leb, ltb, ℕ,
}
use team_c_edr.Base.Int.{ℤ, at_least}
use team_c_edr.Json.{Value, bool, int, Fields, get, or_else}
use team_c_edr.Python.{Runtime, Result, ok, ◌>>=◌}
use team_c_edr.Detection.Alerts.{Alert, r001, r005, r006, r007, r008}
use team_c_edr.Detection.Signatures.{SignatureDb}
use team_c_edr.Detection.Rules.{
  when, text_of, shown_or_unknown, event_domain, parse_time, destination_of, event_alert,
}

-- `TRUSTED_ASNS`, `SHELL_PROCESSES` and `LARGE_OUTBOUND_BYTES` of src/config.py
abbrev pub trusted_asns : List String
trusted_asns = "AS15169" ∷ "AS8075" ∷ "AS16509" ∷ "AS13335" ∷ []

abbrev pub shell_processes : List String
shell_processes = "powershell.exe" ∷ "pwsh.exe" ∷ "cmd.exe" ∷ "bash" ∷ "sh" ∷ "zsh" ∷ []

abbrev pub large_outbound_bytes : ℕ
large_outbound_bytes = 50_000_000

-- `event.get("vpn_active") is True`
abbrev pub is_true : Value → Bool
is_true (bool b) = b
is_true v = false

-- `event.get(a) or event.get(b) or ... or 0`
unfoldable pub int_source : List String → Fields → Value
unfolding or_else
int_source [] event = int (ℤ.pos 0)
int_source (k ∷ ks) event = or_else (get k event) (int_source ks event)

module _ (rt : Runtime) where
  -- `int(event.get(a) or event.get(b) or ... or 0)`
  unfoldable pub int_of : List String → Fields → Result ℤ
  unfolding int_source
  int_of ks event = rt.to_int (int_source ks event)

  -- `_is_off_hours`
  unfoldable pub is_off_hours : Value → Result Bool
  unfolding parse_time
  is_off_hours v = do t ← parse_time rt v; ok (ltb t.hour 7 || leb 20 t.hour)

  unfoldable pub maybe_add_domain_alert : SignatureDb → Fields → Result (List Alert)
  unfolding text_of when event_alert event_domain
  maybe_add_domain_alert db event = do
    domain ← event_domain rt event
    let ip = text_of rt ("dst_ip" ∷ "destination_ip" ∷ []) event
    let named = str_or domain ip
    when (str_mem domain db.malicious_domains || str_mem ip db.malicious_ips) (
        event_alert r001 event ("Known malicious destination observed: " <> named) (
          ("destination matched signature set: " <> named)
          ∷ ("source event type: " <> rt.to_str (get "event_type" event))
          ∷ []))

  unfoldable pub maybe_add_large_outbound_alert : Fields → Result (List Alert)
  unfolding int_of when event_alert destination_of shown_or_unknown
  maybe_add_large_outbound_alert event = do
    bytes_out ← int_of ("bytes_out" ∷ "byte_count_out" ∷ []) event
    when (at_least large_outbound_bytes bytes_out) (do
      destination ← destination_of rt event
      event_alert r005 event ("Large outbound transfer: " <> (rt.show_commas bytes_out <> " bytes"))
          (("bytes_out=" <> rt.show_int bytes_out)
            ∷ ("process_name=" <> shown_or_unknown rt "process_name" event)
            ∷ ("destination=" <> destination)
            ∷ []))

  -- The time is read only where the ASN asks for it.
  unfoldable pub rare_at_night : String → Fields → Result Bool
  unfolding is_off_hours
  rare_at_night asn event =
      if not (str_eq asn "") && not (str_mem asn trusted_asns)
      then is_off_hours (get "event_time" event)
      else ok false

  unfoldable pub maybe_add_rare_asn_alert : Fields → Result (List Alert)
  unfolding rare_at_night text_of when event_alert destination_of
  maybe_add_rare_asn_alert event = do
    let asn = text_of rt ("destination_asn" ∷ []) event
    rare ← rare_at_night asn event
    when rare (do
      destination ← destination_of rt event
      event_alert r006 event ("Rare ASN connection outside work hours: " <> asn) (
          ("destination_asn=" <> asn)
          ∷ "event_time is outside 07:00-20:00"
          ∷ ("destination=" <> destination)
          ∷ []))

  unfoldable pub maybe_add_shell_network_alert : Fields → Result (List Alert)
  unfolding text_of when event_alert destination_of
  maybe_add_shell_network_alert event =
      let process_name = rt.lower (text_of rt ("process_name" ∷ []) event) in
      when (str_mem process_name shell_processes) (do
        destination ← destination_of rt event
        event_alert r007 event ("Shell process made outbound connection: " <> process_name) (
            ("process_name=" <> process_name)
            ∷ ("destination=" <> destination)
            ∷ "shell network activity often needs analyst review"
            ∷ []))

  unfoldable pub maybe_add_vpn_abnormal_alert : Fields → Result (List Alert)
  unfolding int_of text_of when event_alert shown_or_unknown
  maybe_add_vpn_abnormal_alert event = do
    bytes_out ← int_of ("bytes_out" ∷ []) event
    let rare_asn = not (str_mem (text_of rt ("destination_asn" ∷ []) event) trusted_asns)
    when (is_true (get "vpn_active" event) && (at_least large_outbound_bytes bytes_out || rare_asn))
        (event_alert r008 event "VPN session with abnormal external transfer" (
          "vpn_active=true"
          ∷ ("bytes_out=" <> rt.show_int bytes_out)
          ∷ ("destination_asn=" <> shown_or_unknown rt "destination_asn" event)
          ∷ []))
