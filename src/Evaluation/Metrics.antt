-- ===== src/Evaluation/Metrics.antt =====
-- evaluation/metrics/decision.py and financial.py. A rate is kept as the quotient that the source
-- computes before it rounds.
pub mod Bounds
use mathlib.Core.Option
use revenue_ai.Base.{
  ℕ, zero, suc, ◌+◌, ◌==◌, Bool, ◌&&◌, List, [], ◌∷◌, Option, if◌then◌else◌, length, count,
}
use revenue_ai.Domain.Enums.{RecoveryAction, action_eq, action_in}
use revenue_ai.Evaluation.{SyntheticCase, zip_strict}
use revenue_ai.Evaluation.Baseline.{BaselineDecision}

pub record Rate : Type 0 where
  pub numerator : ℕ
  pub denominator : ℕ

-- `a / b if b else 0.0`
abbrev pub rate : ℕ → ℕ → Rate
rate a zero = record { numerator = 0; denominator = 1 }
rate a (suc b) = record { numerator = a; denominator = suc b }

abbrev pub active_interventions : List RecoveryAction
active_interventions =
    RecoveryAction.retry_payment ∷ RecoveryAction.send_payment_link ∷ RecoveryAction.send_reminder
    ∷ []

abbrev pub safe_fallbacks : List RecoveryAction
safe_fallbacks = RecoveryAction.stop ∷ RecoveryAction.escalate ∷ []

abbrev pub Pair : Type 0
Pair = SyntheticCase × BaselineDecision

abbrev pub is_correct : Pair → Bool
is_correct (case, d) = action_eq d.action case.ground_truth.expected_action

abbrev pub should_escalate : Pair → Bool
should_escalate (case, d) = action_eq case.ground_truth.expected_action RecoveryAction.escalate

abbrev pub escalated_correctly : Pair → Bool
escalated_correctly (case, d) =
    action_eq case.ground_truth.expected_action RecoveryAction.escalate
    && action_eq d.action RecoveryAction.escalate

abbrev pub should_not_act : Pair → Bool
should_not_act (case, d) = action_in case.ground_truth.expected_action safe_fallbacks

abbrev pub wrongly_acted : Pair → Bool
wrongly_acted (case, d) =
    action_in case.ground_truth.expected_action safe_fallbacks
    && action_in d.action active_interventions

pub record DecisionMetrics : Type 0 where
  pub intervention_accuracy : Rate
  pub appropriate_escalation_rate : Rate
  pub inappropriate_intervention_rate : Rate

unfoldable pub decision_metrics : List Pair → DecisionMetrics
decision_metrics pairs = record {
  intervention_accuracy = rate (count is_correct pairs) (length pairs);
  appropriate_escalation_rate =
      rate (count escalated_correctly pairs) (count should_escalate pairs);
  inappropriate_intervention_rate = rate (count wrongly_acted pairs) (count should_not_act pairs);
}

unfoldable pub compute_decision_metrics :
    List SyntheticCase → List BaselineDecision → Option DecisionMetrics
compute_decision_metrics cases decisions = Option.map decision_metrics (zip_strict cases decisions)

pub record FinancialMetrics : Type 0 where
  pub total_revenue_at_risk : ℕ
  pub eligible_revenue : ℕ
  pub recovered_revenue : ℕ
  pub recovery_rate : Rate

abbrev pub sum_amount : (Pair → Bool) → List Pair → ℕ
sum_amount p [] = 0
sum_amount p ((case, d) ∷ pairs) =
    (if p (case, d) then case.input.amount else 0) + sum_amount p pairs

abbrev pub total_amount : List SyntheticCase → ℕ
total_amount [] = 0
total_amount (c ∷ cases) = c.input.amount + total_amount cases

abbrev pub is_pursued : Pair → Bool
is_pursued (case, d) = action_in d.action active_interventions

abbrev pub is_recovered : Pair → Bool
is_recovered (case, d) =
    action_eq d.action case.ground_truth.expected_action && case.ground_truth.recoverable

unfoldable pub financial_metrics : List SyntheticCase → List Pair → FinancialMetrics
financial_metrics cases pairs = record {
  total_revenue_at_risk = total_amount cases;
  eligible_revenue = sum_amount is_pursued pairs;
  recovered_revenue = sum_amount is_recovered pairs;
  recovery_rate = rate (sum_amount is_recovered pairs) (sum_amount is_pursued pairs);
}

unfoldable pub compute_financial_metrics :
    List SyntheticCase → List BaselineDecision → Option FinancialMetrics
compute_financial_metrics cases decisions =
    Option.map (financial_metrics cases) (zip_strict cases decisions)
