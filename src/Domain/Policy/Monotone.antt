-- ===== src/Domain/Policy/Monotone.antt =====
-- backend/app/domain/policy.py: `evaluate_policy` on inputs of different risk.
use revenue_ai.Base.{◌≤◌, ◌≡◌, arith}
use revenue_ai.Domain.Enums.{allow}
use revenue_ai.Domain.Policy.{PolicyConfig, PolicyEvaluationInput, evaluate_policy}

-- `j` is no safer than `i`: the same case, action and amount, at least as many attempts, days and
-- contacts, and at most as much confidence
pub record Riskier (i j : PolicyEvaluationInput) : Type 0 where
  pub status : j.case_status ≡ i.case_status
  pub action : j.proposed_action ≡ i.proposed_action
  pub amount : j.amount ≡ i.amount
  pub attempts : i.attempt_number ≤ j.attempt_number
  pub days : i.days_since_discovery ≤ j.days_since_discovery
  pub contacts : i.customer_contact_count ≤ j.customer_contact_count
  pub confidence : j.recovery_confidence ≤ i.recovery_confidence

-- What is allowed stays allowed on a safer input: with fewer attempts, days or contacts, or more
-- confidence, an allowed action of the same case, status and amount is allowed too.
pub evaluate_policy-monotone :
    (i j : PolicyEvaluationInput) (config : PolicyConfig)
    → Riskier i j
    → (evaluate_policy j config).decision ≡ allow
    → (evaluate_policy i config).decision ≡ allow
unfolding evaluate_policy
evaluate_policy-monotone i j config r h = ground arith
