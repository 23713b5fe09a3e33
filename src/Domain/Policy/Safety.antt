-- ===== src/Domain/Policy/Safety.antt =====
-- backend/app/domain/policy.py: the reason codes, terminal statuses and the safe fallbacks.
use revenue_ai.Base.{pos, ◌≤ℤ◌, true, ◌≡◌, ◌⊎◌, arith}
use revenue_ai.Domain.Enums.{
  RecoveryCaseStatus, RecoveryAction, allow, block, code_in, max_retries_reached,
  recovery_window_expired, max_contacts_reached, confidence_below_threshold,
  action_not_eligible_for_status, amount_out_of_bounds, terminal_state_protected,
}
use revenue_ai.Domain.StateMachine.{is_terminal}
use revenue_ai.Domain.Policy.{
  PolicyConfig, PolicyEvaluationInput, in_terminal_state, action_not_eligible, retries_reached,
  window_expired, contacts_reached, amount_bad, confidence_low, evaluate_policy,
}

-- each reason code against its rule
pub record Reported (i : PolicyEvaluationInput) (config : PolicyConfig) : Type 0 where
  pub terminal :
      code_in terminal_state_protected (evaluate_policy i config).reason_codes ≡ in_terminal_state i
  pub action :
      code_in action_not_eligible_for_status (evaluate_policy i config).reason_codes
      ≡ action_not_eligible i
  pub retries :
      code_in max_retries_reached (evaluate_policy i config).reason_codes ≡ retries_reached i config
  pub window :
      code_in recovery_window_expired (evaluate_policy i config).reason_codes
      ≡ window_expired i config
  pub contacts :
      code_in max_contacts_reached (evaluate_policy i config).reason_codes
      ≡ contacts_reached i config
  pub amount :
      code_in amount_out_of_bounds (evaluate_policy i config).reason_codes ≡ amount_bad i config
  pub confidence :
      code_in confidence_below_threshold (evaluate_policy i config).reason_codes
      ≡ confidence_low i config

-- For every input and configuration, each reason code is listed exactly if its rule is broken.
pub evaluate_policy-Reported :
    (i : PolicyEvaluationInput) (config : PolicyConfig) → Reported i config
unfolding evaluate_policy
evaluate_policy-Reported i config = ground arith

-- Whatever the configuration, a case in a terminal status is blocked, and the reasons say both that
-- its status is protected and that the action does not fit it.
pub terminal-block :
    (i : PolicyEvaluationInput) (config : PolicyConfig)
    → is_terminal i.case_status ≡ true
    → ((evaluate_policy i config).decision ≡ block)
      × (code_in terminal_state_protected (evaluate_policy i config).reason_codes ≡ true)
      × (code_in action_not_eligible_for_status (evaluate_policy i config).reason_codes ≡ true)
unfolding evaluate_policy is_terminal
terminal-block i config h = ground arith

-- A case under review whose amount is in bounds can always be stopped or escalated: no retry
-- count, age, number of contacts or confidence blocks either.
pub fallback_always_allowed :
    (i : PolicyEvaluationInput) (config : PolicyConfig)
    → i.case_status ≡ RecoveryCaseStatus.policy_review
    → pos 1 ≤ℤ i.amount
    → i.amount ≤ℤ config.max_recovery_amount
    → (i.proposed_action ≡ RecoveryAction.stop) ⊎ (i.proposed_action ≡ RecoveryAction.escalate)
    → (evaluate_policy i config).decision ≡ allow
unfolding evaluate_policy
fallback_always_allowed i config status positive bounded action = ground arith
