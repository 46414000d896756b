-- ===== src/Predictor.antt =====
-- src/ai_predictor.py and src/response_engine.py: what is derived from the alerts of a result, read as
-- the detector writes them, with texts as host ids. The clock and the constant texts are left out; a
-- confidence is carried in hundredths, before the cap.
pub mod Scores
use team_c_edr.Base.{
  ℕ, suc, ◌+◌, ◌*◌, ◌≤◌, min, String, ◌<>◌, Bool, true, false, ◌&&◌, ◌||◌, Option, none, some, List,
  [], ◌∷◌, ◌++◌, ltb, leb, ◌==◌, length, take, all, any, count_if, select, map, sort_by, str_eq,
  str_lt, show_padded, if◌then◌else◌,
}
use team_c_edr.Detection.Alerts.{
  Rule, r001, r002, r003, r004, r005, r006, r007, r008, r009, r010, r011, r012, r013, Alert,
}
use team_c_edr.Detection.Incidents.{Incident, rule_eq}

-- `HIGH_VALUE_RULES`
abbrev pub high_value_rules : List Rule
high_value_rules = r004 ∷ r005 ∷ r008 ∷ r009 ∷ r010 ∷ r011 ∷ []

-- `rule in rules`
unfoldable pub has_rule : List Rule → Rule → Bool
unfolding rule_eq
has_rule rules r = any (rule_eq r) rules

-- `{...}.issubset(rules)`
abbrev pub has_all : List Rule → List Rule → Bool
has_all wanted rules = all (has_rule rules) wanted

-- `_chain_bonus`
unfoldable pub chain_bonus : List Rule → ℕ
unfolding has_rule
chain_bonus rules =
    (if has_all (r001 ∷ r002 ∷ r003 ∷ r004 ∷ []) rules then 16 else 0)
    + ((if has_all (r004 ∷ r005 ∷ []) rules then 14 else 0)
        + (if has_all (r009 ∷ r011 ∷ []) rules then 10 else 0))

pub data Label : Type 0 where
  critical high medium low : Label

-- `_label`
unfoldable pub label : ℕ → Label
label score =
    if leb 85 score
    then critical
    else if leb 65 score
    then high
    else if leb 40 score
    then medium
    else low

pub data Reason : Type 0 where
  beaconing_and_transfer l7_inspection malware_hash weak_signals : Reason

-- `_reason`
unfoldable pub reason_of : List Rule → Reason
unfolding has_rule
reason_of rules =
    if has_all (r004 ∷ r005 ∷ []) rules
    then beaconing_and_transfer
    else if has_rule rules r009 || has_rule rules r010
    then l7_inspection
    else if has_rule rules r011
    then malware_hash
    else weak_signals

-- The number of different rules among the alerts, `len(rules & wanted)`.
abbrev pub count_rules : List Rule → List Rule → ℕ
count_rules wanted rules = count_if (has_rule rules) wanted

-- The score of a host from its alerts' rules and the number of its incidents.
unfoldable pub score_of : List Rule → ℕ → ℕ
unfolding chain_bonus
score_of rules incidents = min 100 (
    12
    + length rules * 7
    + count_rules high_value_rules rules * 13
    + incidents * 18
    + chain_bonus rules)
