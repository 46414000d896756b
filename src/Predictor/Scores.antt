-- ===== src/Predictor/Scores.antt =====
-- The scores of src/ai_predictor.py: their bounds, and what another alert does to them.
use team_c_edr.Base.{ℕ, suc, ◌≤◌, true, List, [], ◌∷◌, ◌≡◌, refl, arith, if◌then◌else◌}
use team_c_edr.Detection.Alerts.{Rule, r001, r002, r003, r004, r005, r009, r011}
use team_c_edr.Predictor.{high_value_rules, has_rule, has_all, chain_bonus, count_rules, score_of}

module _ (r : Rule) (rules : List Rule) where
  has_rule-cons : (q : Rule) → has_rule rules q ≡ true → has_rule (r ∷ rules) q ≡ true
  unfolding has_rule
  has_rule-cons q h = ground arith

  has_all-cons :
      (wanted : List Rule) → has_all wanted rules ≡ true → has_all wanted (r ∷ rules) ≡ true
  has_all-cons [] h = refl
  has_all-cons (q ∷ wanted) h = ground (arith, has_rule-cons q, has_all-cons wanted)

  count_rules-cons :
      (wanted : List Rule) → count_rules wanted rules ≤ count_rules wanted (r ∷ rules)
  count_rules-cons [] = omega arith
  count_rules-cons (q ∷ wanted) = ground (arith, has_rule-cons q, count_rules-cons wanted)

  bonus-cons :
      (wanted : List Rule) (n : ℕ)
      → (if has_all wanted rules then n else 0) ≤ (if has_all wanted (r ∷ rules) then n else 0)
  bonus-cons wanted n = ground (arith, has_all-cons wanted)

  chain_bonus-cons : chain_bonus rules ≤ chain_bonus (r ∷ rules)
  unfolding chain_bonus
  chain_bonus-cons = omega (
    arith,
    bonus-cons (r001 ∷ r002 ∷ r003 ∷ r004 ∷ []) 16,
    bonus-cons (r004 ∷ r005 ∷ []) 14,
    bonus-cons (r009 ∷ r011 ∷ []) 10,
  )

-- Another alert, or another incident, on a host never lowers the host's score.
pub score_of-cons :
    (r : Rule) (rules : List Rule) (n : ℕ)
    → (score_of rules n ≤ score_of (r ∷ rules) n) × (score_of rules n ≤ score_of rules (suc n))
unfolding score_of
score_of-cons r rules n = (
  omega (arith, chain_bonus-cons r rules, count_rules-cons r rules high_value_rules),
  omega arith,
)
