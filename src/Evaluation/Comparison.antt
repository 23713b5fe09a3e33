-- ===== src/Evaluation/Comparison.antt =====
-- evaluation/run_ai_evaluation.py: the comparison on the held-out cases, up to the writing of the
-- report. Clock readings, sleeps and the printed table are left out.
pub mod Counts
pub mod Report
use mathlib.Core.Option
use Prim.Native.String as Text
use Prim.Native.Char.{code}
use revenue_ai.Base.{
  ℕ, zero, suc, ◌+◌, ◌-◌, ◌*◌, ◌==◌, ltb, ℤ, pos, negsuc, String, str_eq, Bool, true, false, not,
  List, [], ◌∷◌, map, length, count, take, Option, none, some, or_else, if◌then◌else◌,
}
use revenue_ai.Domain.Policy.{Confidence}
use revenue_ai.Ai.{text_prefix}
use revenue_ai.Evaluation.{CaseId, SyntheticCase, SyntheticCaseInput, Dataset}
use revenue_ai.Evaluation.AiStrategy.{AiCallOutcome, Completion, Validation, ask_groq}
use revenue_ai.Evaluation.Baseline.{BaselineDecision, FloatOps, decide}
use revenue_ai.Evaluation.Metrics.{
  DecisionMetrics, FinancialMetrics, compute_decision_metrics, compute_financial_metrics,
}
use revenue_ai.Evaluation.Safety.{SafetyMetrics, compute_safety_metrics}
use revenue_ai.Evaluation.Split.{held_out_split}

pub record StrategyMetrics : Type 0 where
  pub financial : FinancialMetrics
  pub decision : DecisionMetrics
  pub safety : SafetyMetrics

-- `none` is an exception of `zip`.
unfoldable pub strategy_metrics :
    List SyntheticCase → List BaselineDecision → Option StrategyMetrics
strategy_metrics cases decisions = Option.bind (compute_financial_metrics cases decisions) λ f.
    Option.bind (compute_decision_metrics cases decisions) λ d.
      Option.map (λ s. record { financial = f; decision = d; safety = s })
        (compute_safety_metrics cases decisions)

-- `s.split(":", 1)[0]`
abbrev pub before_colon : String → String
before_colon Text.[] = ""
before_colon (Text.◌∷◌ c s) =
    let rest = before_colon s in if code c == b':' then "" else Text.◌∷◌ c rest

abbrev pub failure_tag : AiCallOutcome → String
failure_tag o = text_prefix 40 (before_colon (or_else o.error "unknown"))

-- `reasons[tag] = reasons.get(tag, 0) + 1`
abbrev pub tally : String → List (String × ℕ) → List (String × ℕ)
tally tag [] = (tag, 1) ∷ []
tally tag ((t, n) ∷ reasons) =
    if str_eq t tag then (t, n + 1) ∷ reasons else (t, n) ∷ tally tag reasons

pub record AiOperational : Type 0 where
  pub cases_processed : ℕ
  pub provider_failures : ℕ
  pub failure_reasons : List (String × ℕ)
  pub real_answers : ℕ

-- the loop over the outcomes, in the order of the calls
unfoldable pub tally_failures : List AiCallOutcome → List (String × ℕ) → List (String × ℕ)
tally_failures [] reasons = reasons
tally_failures (o ∷ outcomes) reasons =
    tally_failures outcomes (if o.succeeded then reasons else tally (failure_tag o) reasons)

abbrev pub count_failures : List AiCallOutcome → ℕ
count_failures = count (λ (o : AiCallOutcome). not o.succeeded)

unfoldable pub operational_of : List AiCallOutcome → AiOperational
operational_of outcomes = record {
  cases_processed = length outcomes;
  provider_failures = count_failures outcomes;
  failure_reasons = tally_failures outcomes [];
  real_answers = length outcomes - count_failures outcomes;
}

pub data AiStatus : Type 0 where
  ok skipped_no_credentials unusable_all_calls_failed degraded_majority_calls_failed : AiStatus

-- `failed > len(cases) / 2` is a comparison with the exact half.
unfoldable pub ai_status : ℕ → ℕ → AiStatus
ai_status failed total =
    if failed == total
    then unusable_all_calls_failed
    else (if ltb total (2 * failed) then degraded_majority_calls_failed else ok)

-- `xs[:limit]`
abbrev pub slice_to : {A : Type 0} → ℤ → List A → List A
slice_to (pos n) xs = take n xs
slice_to (negsuc n) xs = take (length xs - suc n) xs

pub record AiSide : Type 0 where
  pub status : AiStatus
  pub metrics : Option StrategyMetrics
  pub operational : Option AiOperational

pub record Comparison : Type 0 where
  pub holdout_size : ℕ
  pub cases_evaluated : ℕ
  pub baseline : StrategyMetrics
  pub ai : AiSide

pub data CompareError : Type 0 where
  bad_fraction no_cases zip_mismatch : CompareError

pub data Compared : Type 0 where
  reported : Comparison → Compared
  failed : CompareError → Compared

module _ (hash_fraction : CaseId → Confidence) (float : FloatOps) (validate : String → Validation)
    (client : SyntheticCaseInput → Completion) where
  abbrev pub outcomes_of : List SyntheticCase → List AiCallOutcome
  outcomes_of = map (λ (c : SyntheticCase). ask_groq validate client c.input)

  abbrev pub ai_decisions : List SyntheticCase → List BaselineDecision
  ai_decisions cases = map (λ (o : AiCallOutcome). o.decision) (outcomes_of cases)

  -- `build_client` raises without a key, before any call.
  unfoldable pub run_ai_side : String → List SyntheticCase → Option AiSide
  run_ai_side api_key cases =
      if str_eq api_key ""
      then some record { status = skipped_no_credentials; metrics = none; operational = none }
      else Option.map
          (λ m. record {
            status = ai_status (count_failures (outcomes_of cases)) (length cases);
            metrics = some m;
            operational = some (operational_of (outcomes_of cases));
          })
          (strategy_metrics cases (ai_decisions cases))

  abbrev pub report_of : ℕ → ℕ → Option StrategyMetrics → Option AiSide → Compared
  report_of holdout total (some b) (some a) =
      reported record { holdout_size = holdout; cases_evaluated = total; baseline = b; ai = a }
  report_of holdout total _ _ = failed zip_mismatch

  abbrev pub compare_cases : String → ℕ → List SyntheticCase → Compared
  compare_cases api_key holdout [] = failed no_cases
  compare_cases api_key holdout (c ∷ cases) =
      report_of holdout (length (c ∷ cases))
        (strategy_metrics (c ∷ cases)
          (map (λ (k : SyntheticCase). decide float k.input) (c ∷ cases)))
        (run_ai_side api_key (c ∷ cases))

  abbrev pub compare_held_out :
      String → ℤ → Option (List SyntheticCase × List SyntheticCase) → Compared
  compare_held_out api_key limit none = failed bad_fraction
  compare_held_out api_key limit (some (development, held_out)) =
      compare_cases api_key (length held_out) (slice_to limit held_out)

  unfoldable pub compare_strategies : Dataset → Confidence → ℤ → String → Compared
  compare_strategies d fraction limit api_key =
      compare_held_out api_key limit (held_out_split hash_fraction d fraction)
