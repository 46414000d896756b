-- ===== src/Response.antt =====
-- `build_response_plan` of src/response_engine.py, for alerts as the detector writes them. The clock,
-- the descriptions and the note are left out.
pub mod Counts
use team_c_edr.Base.{
  ℕ, suc, String, ◌<>◌, List, [], ◌∷◌, length, take, map, sort_by, ltb, str_eq, show_padded,
  if◌then◌else◌,
}
use team_c_edr.Json.{Value}
use team_c_edr.Detection.Alerts.{
  Rule, r001, r002, r003, r004, r005, r006, r007, r008, r009, r010, r011, r012, r013, Alert,
}
use team_c_edr.Detection.Views.{Counter, count_text}

-- `ACTION_BY_RULE`, which has every rule of the detector
unfoldable pub action_by_rule : Rule → String
action_by_rule r001 = "block_destination"
action_by_rule r002 = "quarantine_download"
action_by_rule r003 = "kill_and_quarantine_process"
action_by_rule r004 = "contain_host_for_c2_review"
action_by_rule r005 = "rate_limit_or_block_transfer"
action_by_rule r006 = "review_rare_asn"
action_by_rule r007 = "review_shell_network"
action_by_rule r008 = "review_vpn_exfiltration"
action_by_rule r009 = "block_url"
action_by_rule r010 = "block_app_url_and_notify"
action_by_rule r011 = "quarantine_hash"
action_by_rule r012 = "confirm_response_applied"
action_by_rule r013 = "escalate_predicted_risk"

pub data ActionStatus : Type 0 where
  planned waiting : ActionStatus

pub record Action : Type 0 where
  pub action_id : String
  pub mode : String
  pub status : ActionStatus
  pub host_id : Value
  pub rule : Rule
  pub alert_id : String
  pub action_type : String
  pub evidence : List String

pub record ResponsePlan : Type 0 where
  pub mode : String
  pub action_count : ℕ
  pub by_action_type : Counter
  pub actions : List Action

-- The entry for one alert; `waiting` is the status "queued".
unfoldable pub action_of : String → ℕ → Alert → Action
unfolding action_by_rule show_padded
action_of mode n a = record {
  action_id = "response-" <> show_padded n;
  mode = mode;
  status = if str_eq mode "dry-run" then planned else waiting;
  host_id = a.host_id;
  rule = a.rule;
  alert_id = a.alert_id;
  action_type = action_by_rule a.rule;
  evidence = take 3 a.evidence;
}

-- The loop over the alerts, with `n` for the next id.
unfoldable pub actions_from : String → ℕ → List Alert → List Action
unfolding action_of
actions_from mode n [] = []
actions_from mode n (a ∷ alerts) = action_of mode n a ∷ actions_from mode (suc n) alerts

-- `Counter(...)` of the types.
unfoldable pub count_types : List Action → Counter → Counter
unfolding count_text
count_types [] counter = counter
count_types (a ∷ actions) counter = count_types actions (count_text a.action_type counter)

unfoldable pub build_response_plan : String → List Alert → ResponsePlan
unfolding actions_from count_types sort_by
build_response_plan mode alerts =
    let actions = actions_from mode 1 alerts in
    record {
      mode = mode;
      action_count = length actions;
      by_action_type = sort_by (λ x y. ltb y.1 x.1) (count_types actions []);
      actions = actions;
    }
