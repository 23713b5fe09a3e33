-- ===== src/Evaluation/Safety/Agreement.antt =====
-- evaluation/metrics/safety.py against backend/app/domain/policy.py, which it writes out again.
use revenue_ai.Evaluation.Baseline.{BaselineDecision}
use revenue_ai.Domain.Policy.{
  evaluate_policy, PolicyEvaluationInput, collect_reason_codes, action_not_eligible,
  default_policy_config,
}
use revenue_ai.Evaluation.Safety.{check_case}
use revenue_ai.Evaluation.{SyntheticCaseInput}
use revenue_ai.Base.{◌≤◌, ◌≡◌, ◌↔◌, [], pos, arith}
use revenue_ai.Domain.Enums.{allow, policy_review}

-- a decision as the proposal that the backend would review
unfoldable pub as_policy_input : SyntheticCaseInput → BaselineDecision → PolicyEvaluationInput
as_policy_input i d = record {
  case_status = policy_review;
  proposed_action = d.action;
  attempt_number = i.attempt_number;
  days_since_discovery = i.days_since_first_attempt;
  customer_contact_count = i.previous_contact_count;
  recovery_confidence = d.confidence;
  amount = pos i.amount;
}

-- For an amount between 1 and the ceiling of the default configuration, the safety check of the
-- evaluation finds no violation exactly if the backend's policy engine, with its default
-- configuration, allows the same decision on a case under review.
pub check_case-evaluate_policy :
    (i : SyntheticCaseInput) (d : BaselineDecision)
    → 1 ≤ i.amount
    → i.amount ≤ 10000000
    → (check_case i d ≡ [])
      ↔ ((evaluate_policy (as_policy_input i d) default_policy_config).decision ≡ allow)
unfolding check_case evaluate_policy collect_reason_codes action_not_eligible as_policy_input
    default_policy_config
check_case-evaluate_policy i d positive bounded = ground arith
