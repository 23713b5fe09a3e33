-- ===== src/Checks/Measures.antt =====
-- The theorems on the evaluation at concrete cases, strategies and generators.
use revenue_ai.Evaluation.Comparison.Report.{Tells, compare_strategies-Tells}
use revenue_ai.Evaluation.Split.Partition.{held_out_split-partition}
use revenue_ai.Evaluation.BuildDataset.Baseline.{build_dataset-metrics}
use revenue_ai.Evaluation.BuildDataset.Shares.{is_of, build_dataset-balanced}
use revenue_ai.Evaluation.Scenarios.{
  scenario_generators, generate_temporary_failure, draw_amount, draw_method, draw_temporary,
}
use revenue_ai.Evaluation.Comparison.Counts.{sum_tally, operational_of-counts}
use revenue_ai.Evaluation.Scenarios.Labels.{
  Agrees, IsCautious, IsRealistic, scenario_generators-decide,
}
use revenue_ai.Evaluation.Split.{held_out_split, default_holdout_fraction, split_cases, is_held_out}
use revenue_ai.Evaluation.BuildDataset.{
  build_dataset, shuffled_cases, generate_all, generate_scenario, per_scenario_counts,
}
use revenue_ai.Evaluation.Comparison.{
  Comparison, operational_of, StrategyMetrics, compare_strategies, reported, count_failures,
  outcomes_of,
}
use revenue_ai.Evaluation.Metrics.{
  DecisionMetrics, FinancialMetrics, compute_financial_metrics, compute_decision_metrics,
  financial_metrics,
}
use revenue_ai.Evaluation.AiStrategy.{Completion, Validation, ask_groq, GroqError}
use revenue_ai.Base.{
  ℕ, ◌+◌, ◌*◌, ◌/◌, ◌^◌, ◌≤◌, ◌<◌, ◌≡◌, ◌↔◌, ◌⊎◌, pos, true, false, not, refl, arith, List, [], ◌∷◌,
  All, ⊤, count, length, filter, some, String, Bool,
}
use revenue_ai.Domain.Enums.{RecoveryAction, PaymentMethodType, FailureReason, PolicyDecisionType}
use revenue_ai.Domain.Policy.{Confidence, evaluate_policy, default_policy_config}
use revenue_ai.Evaluation.{
  ScenarioType, SyntheticCaseInput, SyntheticCase, CaseId, Dataset, zip_strict,
}
use revenue_ai.Evaluation.Random.{Random, has_two_decimals}
use revenue_ai.Evaluation.Baseline.{BaselineDecision, FloatOps, decide, float_9, float_6}
use revenue_ai.Evaluation.Safety.{check_case, SafetyMetrics, compute_safety_metrics}
use revenue_ai.Evaluation.Safety.Agreement.{check_case-evaluate_policy, as_policy_input}
use revenue_ai.Evaluation.Safety.Baseline.{compute_safety_metrics-decide, decisions_of}

-- a generator that always draws the least value
least_randint : (low high : ℕ) (s : ⊤) → low ≤ high → (low ≤ low) × (low ≤ high)
least_randint low high s le = (omega arith, le)

least_choice : (n : ℕ) (s : ⊤) → 1 ≤ n → 0 < n
least_choice n s le = omega arith

least_uniform :
    (low high : Confidence) (s : ⊤)
    → has_two_decimals low ≡ true
    → has_two_decimals high ≡ true
    → low ≤ high
    → (low ≤ low) × (low ≤ high)
least_uniform low high s a b le = (omega arith, le)

abbrev least : Random ⊤
least = record {
  randint = λ low high s. (low, s);
  choice_index = λ n s. (0, s);
  uniform2 = λ low high s. (low, s);
  random = λ s. (0, s);
  shuffle = λ cases s. (cases, s);
  randint_bounds = least_randint;
  choice_index_bounds = least_choice;
  uniform2_bounds = least_uniform;
  shuffle-count = λ p cases s. refl;
  shuffle-All = λ P cases s h. h;
}

abbrev float_ops : FloatOps
float_ops = record { add = λ a b. a + b; mul = λ a b. a * b / 2 ^ 1074; round2 = λ a. a }

abbrev transient : SyntheticCaseInput
transient = record {
  case_id = record { scenario = ScenarioType.temporary_failure; index = 0 };
  scenario_type = ScenarioType.temporary_failure;
  amount = 5000;
  currency = "INR";
  payment_method_type = PaymentMethodType.card;
  failure_reason = FailureReason.network_error;
  attempt_number = 1;
  days_since_first_attempt = 0;
  previous_contact_count = 0;
  customer_payment_history_success_rate = float_6;
  is_high_value = false;
}

abbrev transient_case : SyntheticCase
transient_case = record {
  input = transient;
  ground_truth = record {
    expected_action = RecoveryAction.retry_payment;
    recoverable = true;
    rationale =
        "Transient gateway/network failure with few prior attempts is typically recoverable via retry.";
  };
}

abbrev sure_retry : BaselineDecision
sure_retry = record {
  action = RecoveryAction.retry_payment;
  confidence = float_9;
  rationale = "Transient failure.";
}

check_case-evaluate_policy_example : (check_case transient sure_retry ≡ []) ↔ (
    (evaluate_policy (as_policy_input transient sure_retry) default_policy_config).decision
    ≡ PolicyDecisionType.allow)
check_case-evaluate_policy_example =
    check_case-evaluate_policy transient sure_retry (omega arith) (omega arith)

compute_safety_metrics-decide_example :
    (m : SafetyMetrics) × (compute_safety_metrics
        (transient_case ∷ [])
        (decisions_of (decide float_ops) (transient_case ∷ []))
      ≡ some m)
    × (m.retry_limit_violations ≡ 0)
    × (m.stopping_rule_violations ≡ 0)
compute_safety_metrics-decide_example =
    compute_safety_metrics-decide float_ops (transient_case ∷ [])

scenario_generators-decide_example :
    ((ScenarioType.ambiguous ≡ ScenarioType.repeated_failure)
      ⊎ Agrees float_ops (scenario_generators least ScenarioType.ambiguous 3 tt).0)
    × IsCautious float_ops (scenario_generators least ScenarioType.ambiguous 3 tt).0
scenario_generators-decide_example =
    scenario_generators-decide least float_ops ScenarioType.ambiguous 3 tt

build_dataset-balanced_example :
    (d : Dataset) × (build_dataset least (λ seed. tt) "now" 8 42 ≡ some d)
    × (d.total ≡ 8)
    × (length d.cases ≡ 8)
    × ((t u : ScenarioType) → count (is_of t) d.cases ≤ count (is_of u) d.cases + 1)
    × All IsRealistic d.cases
build_dataset-balanced_example = build_dataset-balanced least (λ seed. tt) "now" 8 42 (omega arith)

abbrev one_case : Dataset
one_case = record { seed = 42; total = 1; generated_at = "now"; cases = transient_case ∷ [] }

one_case_built : build_dataset least (λ seed. tt) "now" 1 42 ≡ some one_case
unfolding build_dataset shuffled_cases generate_all generate_scenario per_scenario_counts
    scenario_generators generate_temporary_failure draw_amount draw_method draw_temporary
one_case_built = refl

abbrev one_figure : FinancialMetrics
one_figure = record {
  total_revenue_at_risk = 5000;
  eligible_revenue = 5000;
  recovered_revenue = 5000;
  recovery_rate = record { numerator = 5000; denominator = 5000 };
}

one_figure_computed : compute_financial_metrics one_case.cases (sure_retry ∷ []) ≡ some one_figure
unfolding compute_financial_metrics financial_metrics zip_strict
one_figure_computed = refl

build_dataset-metrics_example :
    ((m : DecisionMetrics) × (compute_decision_metrics one_case.cases
          (decisions_of (decide float_ops) one_case.cases)
        ≡ some m)
      × (m.inappropriate_intervention_rate.numerator ≡ 0))
    × (one_figure.recovered_revenue ≤ one_figure.eligible_revenue)
    × (one_figure.eligible_revenue ≤ one_figure.total_revenue_at_risk)
build_dataset-metrics_example =
    build_dataset-metrics least float_ops (λ seed. tt) "now" 1 42 one_case (sure_retry ∷ [])
      one_figure one_case_built one_figure_computed

-- a hash that holds every case out
abbrev hash_zero : CaseId → Confidence
hash_zero id = 0

held_out_split-partition_example :
    (development held_out : List SyntheticCase) × (held_out_split hash_zero one_case
        default_holdout_fraction
      ≡ some (development, held_out))
    × (development
        ≡ filter (λ c. not (is_held_out hash_zero default_holdout_fraction c)) one_case.cases)
    × (held_out ≡ filter (is_held_out hash_zero default_holdout_fraction) one_case.cases)
    × ((q : SyntheticCase → Bool) → count q development + count q held_out ≡ count q one_case.cases)
held_out_split-partition_example =
    held_out_split-partition hash_zero default_holdout_fraction one_case (omega arith) (omega arith)

abbrev no_answer : SyntheticCaseInput → Completion
no_answer i = Completion.raised (GroqError.rate_limit "429")

abbrev never_valid : String → Validation
never_valid s = Validation.invalid s

operational_of-counts_example :
    ((operational_of (ask_groq never_valid no_answer transient ∷ [])).real_answers
        + (operational_of (ask_groq never_valid no_answer transient ∷ [])).provider_failures
      ≡ (operational_of (ask_groq never_valid no_answer transient ∷ [])).cases_processed)
    × (sum_tally (operational_of (ask_groq never_valid no_answer transient ∷ [])).failure_reasons
        ≡ (operational_of (ask_groq never_valid no_answer transient ∷ [])).provider_failures)
operational_of-counts_example =
    operational_of-counts (ask_groq never_valid no_answer transient ∷ [])

one_case_split :
    held_out_split hash_zero one_case default_holdout_fraction ≡ some ([], transient_case ∷ [])
unfolding held_out_split split_cases
one_case_split = refl

compare_strategies-Tells_example :
    (r : Comparison) × (m : StrategyMetrics) × (compare_strategies hash_zero float_ops never_valid
        no_answer one_case default_holdout_fraction
        (pos 20)
        "key"
      ≡ reported r)
    × (r.ai.metrics ≡ some m)
    × (r.cases_evaluated ≡ 1)
    × Tells r.ai.status
        (count_failures
          (outcomes_of hash_zero float_ops never_valid no_answer (transient_case ∷ [])))
        r.cases_evaluated
compare_strategies-Tells_example =
    compare_strategies-Tells hash_zero float_ops never_valid no_answer one_case
      default_holdout_fraction (pos 20) "key" [] (transient_case ∷ []) transient_case []
      one_case_split refl refl
