-- ===== src/Domain/Policy.antt =====
-- backend/app/domain/policy.py: the deterministic policy engine.
pub mod Rules
pub mod Safety
pub mod Monotone
use revenue_ai.Base.{
  ℕ, ◌*◌, ◌^◌, ℤ, pos, ltb_ℤ, leb_ℤ, ltb, leb, String, Bool, not, ◌&&◌, ◌||◌, List, [], ◌∷◌, ◌++◌,
  if◌then◌else◌,
}
use revenue_ai.Domain.Enums.{
  RecoveryCaseStatus, status_in, terminal_recovery_case_statuses, RecoveryAction, action_in,
  action_eq, PolicyDecisionType, allow, block, PolicyReasonCode, max_retries_reached,
  recovery_window_expired, max_contacts_reached, confidence_below_threshold,
  action_not_eligible_for_status, amount_out_of_bounds, terminal_state_protected,
}

-- `_ACTION_ELIGIBLE_STATUSES`
action_eligible_statuses : RecoveryAction → List RecoveryCaseStatus
action_eligible_statuses RecoveryAction.retry_payment =
    RecoveryCaseStatus.recommended ∷ RecoveryCaseStatus.policy_review ∷ RecoveryCaseStatus.approved
    ∷ []
action_eligible_statuses RecoveryAction.send_payment_link =
    RecoveryCaseStatus.recommended ∷ RecoveryCaseStatus.policy_review ∷ RecoveryCaseStatus.approved
    ∷ []
action_eligible_statuses RecoveryAction.send_reminder =
    RecoveryCaseStatus.recommended ∷ RecoveryCaseStatus.policy_review ∷ RecoveryCaseStatus.approved
    ∷ []
action_eligible_statuses RecoveryAction.escalate =
    RecoveryCaseStatus.diagnosing ∷ RecoveryCaseStatus.recommended
    ∷ RecoveryCaseStatus.policy_review ∷ RecoveryCaseStatus.executing ∷ RecoveryCaseStatus.failed
    ∷ []
action_eligible_statuses RecoveryAction.stop =
    RecoveryCaseStatus.eligible ∷ RecoveryCaseStatus.recommended ∷ RecoveryCaseStatus.policy_review
    ∷ RecoveryCaseStatus.failed ∷ []

-- `_CONTACT_ACTIONS`
abbrev pub contact_actions : List RecoveryAction
contact_actions = RecoveryAction.send_payment_link ∷ RecoveryAction.send_reminder ∷ []

-- `_ACTIVE_RECOVERY_ACTIONS`, which is also `_CONFIDENCE_GATED_ACTIONS`
abbrev pub active_recovery_actions : List RecoveryAction
active_recovery_actions =
    RecoveryAction.retry_payment ∷ RecoveryAction.send_payment_link ∷ RecoveryAction.send_reminder
    ∷ []

-- A confidence is a double between 0 and 1. Each of these is a whole multiple of 2^-1074, and is
-- modelled by that multiple, so its order is that of ℕ.
abbrev pub Confidence : Type 0
Confidence = ℕ

-- The defaults 0.55 and 0.75 are the doubles 4953959590107546 * 2^-53 and 3 * 2^-2.
pub record PolicyConfig : Type 0 where
  pub policy_version : String
  pub max_retry_count : ℕ
  pub max_recovery_window_days : ℕ
  pub max_customer_contacts : ℕ
  pub min_confidence_threshold : Confidence
  pub high_value_amount_threshold : ℤ
  pub high_value_min_confidence_threshold : Confidence
  pub max_recovery_amount : ℤ

unfoldable pub default_policy_config : PolicyConfig
default_policy_config = record {
  policy_version = "v1";
  max_retry_count = 3;
  max_recovery_window_days = 14;
  max_customer_contacts = 2;
  min_confidence_threshold = 4953959590107546 * 2 ^ 1021;
  high_value_amount_threshold = pos 500000;
  high_value_min_confidence_threshold = 3 * 2 ^ 1072;
  max_recovery_amount = pos 10000000;
}

-- The numbers of days is never negative here: a case is not discovered after the present, and a
-- negative number would pass the one test on it as 0 does.
pub record PolicyEvaluationInput : Type 0 where
  pub case_status : RecoveryCaseStatus
  pub proposed_action : RecoveryAction
  pub attempt_number : ℕ
  pub days_since_discovery : ℕ
  pub customer_contact_count : ℕ
  pub recovery_confidence : Confidence
  pub amount : ℤ

pub record PolicyDecision : Type 0 where
  pub decision : PolicyDecisionType
  pub reason_codes : List PolicyReasonCode
  pub policy_version : String

-- `if c: reason_codes.append(code)`
abbrev append_if : Bool → PolicyReasonCode → List PolicyReasonCode → List PolicyReasonCode
append_if c code codes = if c then codes ++ (code ∷ []) else codes

-- the threshold that the amount calls for
abbrev pub confidence_threshold : ℤ → PolicyConfig → Confidence
confidence_threshold amount config =
    if leb_ℤ config.high_value_amount_threshold amount
    then config.high_value_min_confidence_threshold
    else config.min_confidence_threshold

-- the conditions of `evaluate_policy`, in its order
abbrev pub in_terminal_state : PolicyEvaluationInput → Bool
in_terminal_state i = status_in i.case_status terminal_recovery_case_statuses

unfoldable pub action_not_eligible : PolicyEvaluationInput → Bool
unfolding action_eligible_statuses
action_not_eligible i = not (status_in i.case_status (action_eligible_statuses i.proposed_action))

abbrev pub retries_reached : PolicyEvaluationInput → PolicyConfig → Bool
retries_reached i config =
    action_eq i.proposed_action RecoveryAction.retry_payment
    && leb config.max_retry_count i.attempt_number

abbrev pub window_expired : PolicyEvaluationInput → PolicyConfig → Bool
window_expired i config =
    action_in i.proposed_action active_recovery_actions
    && ltb config.max_recovery_window_days i.days_since_discovery

abbrev pub contacts_reached : PolicyEvaluationInput → PolicyConfig → Bool
contacts_reached i config =
    action_in i.proposed_action contact_actions
    && leb config.max_customer_contacts i.customer_contact_count

abbrev pub amount_bad : PolicyEvaluationInput → PolicyConfig → Bool
amount_bad i config = leb_ℤ i.amount (pos 0) || ltb_ℤ config.max_recovery_amount i.amount

abbrev pub confidence_low : PolicyEvaluationInput → PolicyConfig → Bool
confidence_low i config =
    action_in i.proposed_action active_recovery_actions
    && ltb i.recovery_confidence (confidence_threshold i.amount config)

unfoldable pub collect_reason_codes : PolicyEvaluationInput → PolicyConfig → List PolicyReasonCode
collect_reason_codes i config =
    let codes0 = append_if (in_terminal_state i) terminal_state_protected [] in
    let codes1 = append_if (action_not_eligible i) action_not_eligible_for_status codes0 in
    let codes2 = append_if (retries_reached i config) max_retries_reached codes1 in
    let codes3 = append_if (window_expired i config) recovery_window_expired codes2 in
    let codes4 = append_if (contacts_reached i config) max_contacts_reached codes3 in
    let codes5 = append_if (amount_bad i config) amount_out_of_bounds codes4 in
    append_if (confidence_low i config) confidence_below_threshold codes5

-- `BLOCK if reason_codes else ALLOW`
abbrev pub decision_for : List PolicyReasonCode → PolicyDecisionType
decision_for [] = allow
decision_for (code ∷ codes) = block

unfoldable pub evaluate_policy : PolicyEvaluationInput → PolicyConfig → PolicyDecision
unfolding collect_reason_codes action_not_eligible
evaluate_policy i config =
    let codes = collect_reason_codes i config in
    record {
      decision = decision_for codes;
      reason_codes = codes;
      policy_version = config.policy_version;
    }
