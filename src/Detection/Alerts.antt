-- ===== src/Detection/Alerts.antt =====
-- Rule metadata and alerts of src/detection_engine.py, the scores and labels that it derives from
-- them, and `display_host` of src/siem_analyzer.py.
use team_c_edr.Base.{
  ℕ, suc, String, ◌<>◌, Option, List, [], ◌∷◌, leb, str_eq, show_padded, if◌then◌else◌, Bool, false,
}
use team_c_edr.Json.{Value, str, Fields, get, truthy}
use team_c_edr.Python.{Result, ok, ◌>>=◌, Key, text_key, hash_key, key_eq, err}

pub data Rule : Type 0 where
  r001 r002 r003 r004 r005 r006 r007 r008 r009 r010 r011 r012 r013 : Rule

pub data Tactic : Type 0 where
  reconnaissance resource_development initial_access execution persistence : Tactic
  privilege_escalation defense_evasion credential_access discovery : Tactic
  lateral_movement collection command_and_control exfiltration impact : Tactic

-- `RULES[...]["name"]`
unfoldable pub rule_name : Rule → String
rule_name r001 = "known malicious domain access"
rule_name r002 = "suspicious executable downloaded from browser"
rule_name r003 = "unsigned executable started from Downloads"
rule_name r004 = "periodic external connection"
rule_name r005 = "large outbound transfer"
rule_name r006 = "rare ASN connection outside work hours"
rule_name r007 = "shell process creates network connection"
rule_name r008 = "VPN tunnel plus abnormal transfer"
rule_name r009 = "decrypted L7 malicious URL access"
rule_name r010 = "risky application action with malicious URL"
rule_name r011 = "known malware hash signature match"
rule_name r012 = "response action generated for high-risk detection"
rule_name r013 = "AI predicted high-risk host trajectory"

-- `RULES[...]["base_score"]`
unfoldable pub base_score : Rule → ℕ
base_score r001 = 34
base_score r002 = 28
base_score r003 = 30
base_score r004 = 36
base_score r005 = 35
base_score r006 = 22
base_score r007 = 26
base_score r008 = 32
base_score r009 = 38
base_score r010 = 34
base_score r011 = 42
base_score r012 = 20
base_score r013 = 33

-- `RULES[...]["mitre"]`
unfoldable pub mitre : Rule → List Tactic
mitre r001 = initial_access ∷ []
mitre r002 = initial_access ∷ []
mitre r003 = execution ∷ []
mitre r004 = command_and_control ∷ []
mitre r005 = exfiltration ∷ []
mitre r006 = command_and_control ∷ []
mitre r007 = execution ∷ command_and_control ∷ []
mitre r008 = exfiltration ∷ []
mitre r009 = initial_access ∷ command_and_control ∷ []
mitre r010 = collection ∷ exfiltration ∷ []
mitre r011 = execution ∷ defense_evasion ∷ []
mitre r012 = impact ∷ []
mitre r013 = command_and_control ∷ exfiltration ∷ []

pub data Severity : Type 0 where
  critical warning suspicious info : Severity

-- `_severity`
unfoldable pub severity : ℕ → Severity
severity score =
    if leb 80 score
    then critical
    else if leb 60 score
    then warning
    else if leb 30 score
    then suspicious
    else info

pub data Review : Type 0 where
  needs_security_review needs_review : Review

-- The payload of `_alert`. `interval` is the `extra` of a beaconing alert, its interval and its event
-- count. The alert's id and severity are set last.
pub record Alert : Type 0 where
  pub rule : Rule
  pub host_id : Value
  pub host_display_name : Value
  pub event_ids : List Value
  pub event_time : Value
  pub title : String
  pub risk_score : ℕ
  pub mitre_mapping : List Tactic
  pub evidence : List String
  pub decision : Review
  pub interval : Option (ℕ × ℕ)
  pub alert_id : String
  pub alert_severity : Severity

-- `HOST_DISPLAY_NAMES` of src/config.py
abbrev display_name : Key → Value → Value
display_name (text_key h) v =
    if str_eq h "endpoint-01"
    then str "황건하-PC"
    else if str_eq h "endpoint-02"
    then str "박소연-Laptop"
    else if str_eq h "endpoint-03"
    then str "이혜령-Workstation"
    else if str_eq h "endpoint-04"
    then str "이주호-Desktop"
    else if str_eq h "endpoint-05"
    then str "이주호-Lab"
    else if str_eq h "endpoint-l7"
    then str "이주호-L7-Proxy"
    else v
display_name k v = v

unfoldable pub display_host : Value → Result Value
display_host v = if truthy v then (do k ← hash_key v; ok (display_name k v)) else ok (str "-")

-- `_alert`: a host that is not falsy is hashed, when `display_host` looks it up.
unfoldable pub alert :
    Rule → Value → List Value → String → List String → Fields → Option (ℕ × ℕ) → Result Alert
unfolding display_host severity base_score mitre
alert rule host_id event_ids title evidence event extra = do
  shown ← display_host host_id
  ok (record {
    rule = rule;
    host_id = host_id;
    host_display_name = shown;
    event_ids = event_ids;
    event_time = get "event_time" event;
    title = title;
    risk_score = base_score rule;
    mitre_mapping = mitre rule;
    evidence = evidence;
    decision = if leb 30 (base_score rule) then needs_security_review else needs_review;
    interval = extra;
    alert_id = "";
    alert_severity = severity (base_score rule);
  })

-- `alert["host_id"] == host_id`, for a host with this hash key: a value without a hash is none that
-- has one.
unfoldable pub has_host : Key → Alert → Bool
has_host k a = elim (hash_key a.host_id) [ ok j ↦ key_eq j k | err e ↦ false ]

-- The loop that numbers the alerts from `i` on and labels them.
unfoldable pub number_alerts : ℕ → List Alert → List Alert
unfolding show_padded severity
number_alerts i [] = []
number_alerts i (a ∷ rest) =
    record a { alert_id = "alert-" <> show_padded i; alert_severity = severity a.risk_score }
    ∷ number_alerts (suc i) rest
