-- ===== src/Evaluation/Baseline.antt =====
-- evaluation/baseline/rule_based.py: the rule-based strategy. Python's float arithmetic is not the
-- program's code: its sum, product and `round(x, 2)` are arguments.
use revenue_ai.Base.{ℕ, leb, Bool, true, false, String, if◌then◌else◌, ◌*◌, ◌^◌}
use revenue_ai.Domain.Enums.{RecoveryAction, FailureReason}
use revenue_ai.Domain.Policy.{Confidence}
use revenue_ai.Evaluation.{SyntheticCaseInput}

pub record BaselineDecision : Type 0 where
  pub action : RecoveryAction
  pub confidence : Confidence
  pub rationale : String

-- on floats that are not negative
pub record FloatOps : Type 0 where
  pub add : Confidence → Confidence → Confidence
  pub mul : Confidence → Confidence → Confidence
  pub round2 : Confidence → Confidence

abbrev pub max_retry_count : ℕ
max_retry_count = 3

abbrev pub max_customer_contacts : ℕ
max_customer_contacts = 2

-- the doubles of the literals, as multiples of 2 ^ -1074
abbrev pub float_3 : Confidence
float_3 = 5404319552844595 * 2 ^ 1020

abbrev pub float_4 : Confidence
float_4 = 3602879701896397 * 2 ^ 1021

abbrev pub float_5 : Confidence
float_5 = 2 ^ 1073

abbrev pub float_6 : Confidence
float_6 = 5404319552844595 * 2 ^ 1021

abbrev pub float_85 : Confidence
float_85 = 7656119366529843 * 2 ^ 1021

abbrev pub float_9 : Confidence
float_9 = 8106479329266893 * 2 ^ 1021

abbrev pub float_95 : Confidence
float_95 = 4278419646001971 * 2 ^ 1022

-- `LOW_RECOVERY_LIKELIHOOD_THRESHOLD`
abbrev pub low_recovery_likelihood_threshold : Confidence
low_recovery_likelihood_threshold = float_3

abbrev pub is_temporary : FailureReason → Bool
is_temporary FailureReason.network_error = true
is_temporary FailureReason.gateway_timeout = true
is_temporary FailureReason.provider_error = true
is_temporary _ = false

abbrev pub is_customer_side : FailureReason → Bool
is_customer_side FailureReason.insufficient_funds = true
is_customer_side FailureReason.expired_instrument = true
is_customer_side FailureReason.authentication_failed = true
is_customer_side _ = false

abbrev pub is_unknown : FailureReason → Bool
is_unknown FailureReason.unknown = true
is_unknown _ = false

abbrev pub min : ℕ → ℕ → ℕ
min a b = if leb a b then a else b

abbrev decision : RecoveryAction → Confidence → String → BaselineDecision
decision action confidence rationale = record {
  action = action;
  confidence = confidence;
  rationale = rationale;
}

module _ (float : FloatOps) where
  -- `round(min(cap, base + rate * 0.3), 2)`
  unfoldable pub scaled_confidence : Confidence → Confidence → Confidence → Confidence
  scaled_confidence cap base rate = float.round2 (min cap (float.add base (float.mul rate float_3)))

  abbrev pub decide_by_reason : SyntheticCaseInput → BaselineDecision
  decide_by_reason i =
      if is_unknown i.failure_reason
      then decision RecoveryAction.escalate float_4 "Failure cause unknown; escalate."
      else (if is_temporary i.failure_reason
          then decision RecoveryAction.retry_payment
              (scaled_confidence float_95 float_6 i.customer_payment_history_success_rate)
              "Transient failure."
          else (if is_customer_side i.failure_reason
              then decision RecoveryAction.send_payment_link
                  (scaled_confidence float_9 float_5 i.customer_payment_history_success_rate)
                  "Instrument-side failure."
              else decision RecoveryAction.escalate float_3
                  "Unclassified failure reason; escalate."))

  unfoldable pub decide : SyntheticCaseInput → BaselineDecision
  decide i =
      if leb max_customer_contacts i.previous_contact_count
      then decision RecoveryAction.stop float_9 "Customer contact cap reached."
      else (if leb max_retry_count i.attempt_number
          then (if leb low_recovery_likelihood_threshold i.customer_payment_history_success_rate
              then decision RecoveryAction.escalate float_5
                  "Retry limit reached but recovery signal is non-trivial."
              else decision RecoveryAction.stop float_85
                  "Retry limit reached and recovery likelihood is very low.")
          else decide_by_reason i)
