-- ===== src/Response/Counts.antt =====
-- The numbers of a response plan (src/response_engine.py).
use team_c_edr.Base.{
  ℕ, suc, ◌+◌, String, Bool, List, [], ◌∷◌, ◌≡◌, refl, arith, ◌∙◌, length, sum_of, map, sort_by,
  insert_by, Bool-cases, inl, inr,
}
use team_c_edr.Detection.Alerts.{Alert, Rule}
use team_c_edr.Detection.Views.{Counter, count_text}
use team_c_edr.Response.{Action, action_of, actions_from, count_types, build_response_plan}

abbrev pub total : Counter → ℕ
total counter = sum_of (λ (x : String × ℕ). x.1) counter

total-count_text : (s : String) (c : Counter) → total (count_text s c) ≡ suc (total c)
unfolding count_text
total-count_text s [] = refl
total-count_text s ((t, n) ∷ c) = ground (arith, total-count_text s c)

total-count_types :
    (actions : List Action) (c : Counter) → total (count_types actions c) ≡ length actions + total c
unfolding count_types
total-count_types [] c = omega arith
total-count_types (a ∷ actions) c = omega (
  arith,
  total-count_types actions (count_text a.action_type c),
  total-count_text a.action_type c,
)

module _ (lt : String × ℕ → String × ℕ → Bool) where
  total-insert_by : (x : String × ℕ) (c : Counter) → total (insert_by lt x c) ≡ x.1 + total c
  unfolding insert_by
  total-insert_by x [] = refl
  total-insert_by x (y ∷ c) = elim (Bool-cases (lt y x)) [
    | inl after ↦ rw after (omega (arith, total-insert_by x c))
    | inr before ↦ rw before refl
  ]

  total-sort_by : (c : Counter) → total (sort_by lt c) ≡ total c
  unfolding sort_by
  total-sort_by [] = refl
  total-sort_by (x ∷ c) = omega (arith, total-insert_by x (sort_by lt c), total-sort_by c)

rules_of_actions :
    (mode : String) (n : ℕ) (alerts : List Alert)
    → map {B = String × Rule} (λ (x : Action). (x.alert_id, x.rule)) (actions_from mode n alerts)
      ≡ map {B = String × Rule} (λ (a : Alert). (a.alert_id, a.rule)) alerts
unfolding actions_from action_of
rules_of_actions mode n [] = refl
rules_of_actions mode n (a ∷ alerts) = rw (rules_of_actions mode (suc n) alerts) refl

-- A response plan has one action for each alert, in the alerts' order and with their ids and rules,
-- and its counts by type add up to the number of its actions.
pub build_response_plan_covers :
    (mode : String) (alerts : List Alert)
    → let plan = build_response_plan mode alerts in
      (map {B = String × Rule} (λ (x : Action). (x.alert_id, x.rule)) plan.actions
        ≡ map {B = String × Rule} (λ (a : Alert). (a.alert_id, a.rule)) alerts)
      × (total plan.by_action_type ≡ plan.action_count)
unfolding build_response_plan
build_response_plan_covers mode alerts = (
  rules_of_actions mode 1 alerts,
  total-sort_by _ (count_types (actions_from mode 1 alerts) [])
      ∙ total-count_types (actions_from mode 1 alerts) []
      ∙ omega arith,
)
