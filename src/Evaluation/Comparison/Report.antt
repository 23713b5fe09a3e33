-- ===== src/Evaluation/Comparison/Report.antt =====
-- evaluation/run_ai_evaluation.py: when a comparison ends with a report, and what its status tells.
use revenue_ai.Evaluation.Comparison.{
  AiStatus, ai_status, compare_strategies, strategy_metrics, StrategyMetrics, run_ai_side,
  unusable_all_calls_failed, ok, slice_to, Comparison, degraded_majority_calls_failed, reported,
  count_failures, outcomes_of, operational_of,
}
use mathlib.Core.Option
use revenue_ai.Base.{
  ◌⊎◌, ℕ, ◌*◌, ◌≤◌, ◌<◌, ◌≡◌, ◌≢◌, refl, arith, ℤ, String, str_eq, false, List, [], ◌∷◌, map,
  length, some, ◌∙◌,
}
use revenue_ai.Domain.Policy.{Confidence}
use revenue_ai.Evaluation.{CaseId, SyntheticCase, SyntheticCaseInput, Dataset, zip_strict}
use revenue_ai.Evaluation.AiStrategy.{AiCallOutcome, Completion, Validation}
use revenue_ai.Evaluation.Baseline.{BaselineDecision, FloatOps, decide}
use revenue_ai.Evaluation.Metrics.{
  compute_decision_metrics, compute_financial_metrics, financial_metrics, decision_metrics,
}
use revenue_ai.Evaluation.Safety.{compute_safety_metrics, safety_metrics, collect_violations}
use revenue_ai.Evaluation.Split.{held_out_split}

length-map : {A B : Type 0} (f : A → B) (xs : List A) → length (map f xs) ≡ length xs
length-map f [] = refl
length-map f (x ∷ xs) = omega (arith, length-map f xs)

zip_strict_total :
    {A B : Type 0} (xs : List A) (ys : List B)
    → length ys ≡ length xs
    → (ps : List (A × B)) × (zip_strict xs ys ≡ some ps)
unfolding zip_strict
zip_strict_total [] [] h = ([], refl)
zip_strict_total [] (y ∷ ys) h = absurd (omega arith)
zip_strict_total (x ∷ xs) [] h = absurd (omega arith)
zip_strict_total (x ∷ xs) (y ∷ ys) h =
    let (ps, e) = zip_strict_total xs ys (omega arith) in ((x, y) ∷ ps, rw e refl)

strategy_metrics_total :
    (cases : List SyntheticCase) (decisions : List BaselineDecision)
    → length decisions ≡ length cases
    → (m : StrategyMetrics) × (strategy_metrics cases decisions ≡ some m)
unfolding strategy_metrics compute_financial_metrics compute_decision_metrics compute_safety_metrics
    Option.bind
strategy_metrics_total cases decisions h =
    let (ps, e) = zip_strict_total cases decisions h in
    (
      record {
        financial = financial_metrics cases ps;
        decision = decision_metrics ps;
        safety = safety_metrics (collect_violations ps);
      },
      rw e refl,
    )

-- what the status says of so many failures in so many calls
abbrev pub Tells : AiStatus → ℕ → ℕ → Type 0
Tells status failed total =
    ((status ≡ unusable_all_calls_failed) × (failed ≡ total))
    ⊎ ((status ≡ degraded_majority_calls_failed) × (failed ≢ total) × (total < 2 * failed))
    ⊎ ((status ≡ ok) × (failed ≢ total) × (2 * failed ≤ total))

ai_status-Tells : (failed total : ℕ) → Tells (ai_status failed total) failed total
unfolding ai_status
ai_status-Tells failed total = ground arith

module _ (hash_fraction : CaseId → Confidence) (float : FloatOps) (validate : String → Validation)
    (client : SyntheticCaseInput → Completion) where
  -- With a key, a valid fraction and at least one held-out case within the limit, the comparison
  -- ends with a report that has metrics of both strategies. Its status is `unusable` if every
  -- call failed, `degraded` if more than half but not all did, and `ok` if at least half of the calls
  -- gave a real answer.
  pub compare_strategies-Tells :
      (d : Dataset) (fraction : Confidence) (limit : ℤ) (api_key : String)
      → (development held_out : List SyntheticCase) (c : SyntheticCase) (cases : List SyntheticCase)
      → held_out_split hash_fraction d fraction ≡ some (development, held_out)
      → slice_to limit held_out ≡ c ∷ cases
      → str_eq api_key "" ≡ false
      → (r : Comparison) × (m : StrategyMetrics) × (compare_strategies hash_fraction float validate
            client d fraction limit api_key
          ≡ reported r)
        × (r.ai.metrics ≡ some m)
        × (r.cases_evaluated ≡ length (c ∷ cases))
        × Tells r.ai.status
            (count_failures (outcomes_of hash_fraction float validate client (c ∷ cases)))
            r.cases_evaluated
  unfolding compare_strategies run_ai_side
  compare_strategies-Tells d fraction limit api_key development held_out c cases split slice key =
      let chosen = c ∷ cases in
      let outcomes = outcomes_of hash_fraction float validate client chosen in
      let (base, b) =
        strategy_metrics_total chosen (map (λ (k : SyntheticCase). decide float k.input) chosen)
          (length-map _ chosen) in
      let (m, a) =
        strategy_metrics_total chosen (map (λ (o : AiCallOutcome). o.decision) outcomes)
          (length-map _ outcomes ∙ length-map _ chosen) in
      (
        record {
          holdout_size = length held_out;
          cases_evaluated = length chosen;
          baseline = base;
          ai = record {
            status = ai_status (count_failures outcomes) (length chosen);
            metrics = some m;
            operational = some (operational_of outcomes);
          };
        },
        m,
        rw (split, slice, key, b, a) refl,
        refl,
        refl,
        ai_status-Tells (count_failures outcomes) (length chosen),
      )
