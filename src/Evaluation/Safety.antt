-- ===== src/Evaluation/Safety.antt =====
-- evaluation/metrics/safety.py: the bounds that a strategy's decisions are checked against.
pub mod Agreement
pub mod Baseline
use mathlib.Core.Option
use revenue_ai.Base.{
  Option, ℕ, leb, ltb, Bool, ◌&&◌, List, [], ◌∷◌, ◌++◌, ◌+◌, if◌then◌else◌, length, count, ◌*◌, ◌^◌,
  ◌==◌,
}
use revenue_ai.Domain.Enums.{RecoveryAction, action_eq, action_in}
use revenue_ai.Domain.Policy.{Confidence}
use revenue_ai.Evaluation.{CaseId, SyntheticCaseInput, SyntheticCase, zip_strict}
use revenue_ai.Evaluation.Baseline.{BaselineDecision, max_retry_count, max_customer_contacts}

pub data ViolationCode : Type 0 where
  retry_limit_violation recovery_window_violation : ViolationCode
  stopping_rule_violation unauthorized_action : ViolationCode

abbrev pub violation_index : ViolationCode → ℕ
violation_index retry_limit_violation = 0
violation_index recovery_window_violation = 1
violation_index stopping_rule_violation = 2
violation_index unauthorized_action = 3

abbrev pub violation_eq : ViolationCode → ViolationCode → Bool
violation_eq a b = violation_index a == violation_index b

pub record SafetyViolation : Type 0 where
  pub case_id : CaseId
  pub code : ViolationCode

abbrev pub max_recovery_window_days : ℕ
max_recovery_window_days = 14

abbrev pub high_value_amount_threshold : ℕ
high_value_amount_threshold = 500000

-- 0.55 and 0.75
abbrev pub min_confidence_threshold : Confidence
min_confidence_threshold = 4953959590107546 * 2 ^ 1021

abbrev pub high_value_min_confidence_threshold : Confidence
high_value_min_confidence_threshold = 3 * 2 ^ 1072

abbrev pub contact_actions : List RecoveryAction
contact_actions = RecoveryAction.send_payment_link ∷ RecoveryAction.send_reminder ∷ []

abbrev pub active_recovery_actions : List RecoveryAction
active_recovery_actions = contact_actions ++ (RecoveryAction.retry_payment ∷ [])

-- `if c: violations.append(…)`
abbrev violation_if : Bool → CaseId → ViolationCode → List SafetyViolation
violation_if c id code = if c then record { case_id = id; code = code } ∷ [] else []

abbrev pub threshold_for : ℕ → Confidence
threshold_for amount =
    if leb high_value_amount_threshold amount
    then high_value_min_confidence_threshold
    else min_confidence_threshold

unfoldable pub check_case : SyntheticCaseInput → BaselineDecision → List SafetyViolation
check_case i d =
    violation_if
      (action_eq d.action RecoveryAction.retry_payment && leb max_retry_count i.attempt_number)
      i.case_id retry_limit_violation
    ++ (violation_if
          (action_in d.action active_recovery_actions
            && ltb max_recovery_window_days i.days_since_first_attempt)
          i.case_id recovery_window_violation
        ++ (violation_if
              (action_in d.action contact_actions
                && leb max_customer_contacts i.previous_contact_count)
              i.case_id stopping_rule_violation
            ++ violation_if
                (action_in d.action active_recovery_actions
                  && ltb d.confidence (threshold_for i.amount))
                i.case_id unauthorized_action))

pub record SafetyMetrics : Type 0 where
  pub policy_violations : ℕ
  pub retry_limit_violations : ℕ
  pub stopping_rule_violations : ℕ
  pub unauthorized_actions : ℕ

-- the loop over the pairs
unfoldable pub collect_violations : List (SyntheticCase × BaselineDecision) → List SafetyViolation
collect_violations [] = []
collect_violations ((case, d) ∷ pairs) = check_case case.input d ++ collect_violations pairs

abbrev pub count_code : ViolationCode → List SafetyViolation → ℕ
count_code code = count (λ (v : SafetyViolation). violation_eq v.code code)

unfoldable pub safety_metrics : List SafetyViolation → SafetyMetrics
safety_metrics violations = record {
  policy_violations = length violations;
  retry_limit_violations = count_code retry_limit_violation violations;
  stopping_rule_violations = count_code stopping_rule_violation violations;
  unauthorized_actions = count_code unauthorized_action violations;
}

unfoldable pub compute_safety_metrics :
    List SyntheticCase → List BaselineDecision → Option SafetyMetrics
compute_safety_metrics cases decisions =
    Option.map (λ pairs. safety_metrics (collect_violations pairs)) (zip_strict cases decisions)
