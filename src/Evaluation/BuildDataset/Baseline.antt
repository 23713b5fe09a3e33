-- ===== src/Evaluation/BuildDataset/Baseline.antt =====
-- evaluation/run_evaluation.py: the metrics of the rule-based strategy on a generated data set.
use revenue_ai.Evaluation.BuildDataset.Shares.{shuffled_cases-All}
use revenue_ai.Evaluation.Metrics.Bounds.{IsCoherent, recovered-le-pursued}
use revenue_ai.Evaluation.Scenarios.{scenario_generators}
use revenue_ai.Evaluation.BuildDataset.{build_dataset}
use mathlib.Core.Option
use revenue_ai.Base.{
  Option-cases, Bool-cases, inl, inr, subst, ltb, zero, suc, ap, ℕ, ◌≤◌, ◌≡◌, refl, arith, List, [],
  ◌∷◌, All, count, String, some, none,
}
use revenue_ai.Evaluation.{ScenarioType, SyntheticCase, Dataset, zip_strict}
use revenue_ai.Evaluation.Random.{Random}
use revenue_ai.Evaluation.Scenarios.Labels.{
  IsCautious, scenario_generators-IsRealistic, scenario_generators-decide,
}
use revenue_ai.Evaluation.Baseline.{FloatOps, BaselineDecision, decide}
use revenue_ai.Evaluation.Metrics.{
  DecisionMetrics, FinancialMetrics, compute_decision_metrics, compute_financial_metrics,
  wrongly_acted, decision_metrics, financial_metrics, Pair, rate, should_not_act, sum_amount,
  is_pursued, total_amount,
}
use revenue_ai.Evaluation.Safety.Baseline.{decisions_of, paired, zip_strict-map}

some_inj : {A : Type 0} {x y : A} → some x ≡ some y → x ≡ y
some_inj e = cc

absurd_none : {A : Type 0} {y : A} → none ≡ some y → ⊥
absurd_none e = cc

rate_zero : (n : ℕ) → (rate 0 n).numerator ≡ 0
rate_zero zero = refl
rate_zero (suc n) = refl

module _ (float : FloatOps) where
  count-wrongly_acted :
      (cases : List SyntheticCase)
      → All (IsCautious float) cases
      → count wrongly_acted (paired (decide float) cases) ≡ 0
  count-wrongly_acted [] h = refl
  count-wrongly_acted (c ∷ cases) h = ground (arith, h.0, count-wrongly_acted cases h.1)

module _ {B : Type 0} (P : SyntheticCase → Type 0) where
  zip_strict-All :
      (cases : List SyntheticCase) (ys : List B) (ps : List (SyntheticCase × B))
      → zip_strict cases ys ≡ some ps
      → All P cases
      → All (λ (p : SyntheticCase × B). P p.0) ps
  unfolding zip_strict
  zip_strict-All [] [] ps e h = subst (All (λ (p : SyntheticCase × B). P p.0)) (some_inj e) tt
  zip_strict-All [] (y ∷ ys) ps e h = cc
  zip_strict-All (c ∷ cases) [] ps e h = cc
  zip_strict-All (c ∷ cases) (y ∷ ys) ps e h = elim (Option-cases (zip_strict cases ys)) [
    | inl no_pairs ↦ absurd (absurd_none (rw no_pairs at e))
    | inr (rest, some_pairs) ↦
        subst (All (λ (p : SyntheticCase × B). P p.0)) (some_inj (rw some_pairs at e))
          (h.0, zip_strict-All cases ys rest some_pairs h.1)
  ]

pursued-le-total :
    (cases : List SyntheticCase) (decisions : List BaselineDecision) (ps : List Pair)
    → zip_strict cases decisions ≡ some ps
    → sum_amount is_pursued ps ≤ total_amount cases
unfolding zip_strict
pursued-le-total [] [] ps e =
    subst (λ (qs : List Pair). sum_amount is_pursued qs ≤ 0) (some_inj e) (omega arith)
pursued-le-total [] (y ∷ ys) ps e = cc
pursued-le-total (c ∷ cases) [] ps e = cc
pursued-le-total (c ∷ cases) (y ∷ ys) ps e = elim (Option-cases (zip_strict cases ys)) [
  | inl no_pairs ↦ absurd (absurd_none (rw no_pairs at e))
  | inr (rest, some_pairs) ↦
      subst (λ (qs : List Pair). sum_amount is_pursued qs ≤ total_amount (c ∷ cases))
        (some_inj (rw some_pairs at e)) (ground (arith, pursued-le-total cases ys rest some_pairs))
]

-- the revenue figures of coherent cases are ordered, for any decisions
financial-ordered :
    (cases : List SyntheticCase) (decisions : List BaselineDecision) (f : FinancialMetrics)
    → All IsCoherent cases
    → compute_financial_metrics cases decisions ≡ some f
    → (f.recovered_revenue ≤ f.eligible_revenue) × (f.eligible_revenue ≤ f.total_revenue_at_risk)
unfolding compute_financial_metrics financial_metrics
financial-ordered cases decisions f h e = elim (Option-cases (zip_strict cases decisions)) [
  | inl no_pairs ↦ absurd (absurd_none (rw no_pairs at e))
  | inr (ps, some_pairs) ↦
      subst
        (λ (m : FinancialMetrics).
          (m.recovered_revenue ≤ m.eligible_revenue)
          × (m.eligible_revenue ≤ m.total_revenue_at_risk))
        (some_inj (rw some_pairs at e))
        (
          recovered-le-pursued ps (zip_strict-All IsCoherent cases decisions ps some_pairs h),
          pursued-le-total cases decisions ps some_pairs,
        )
]

module _ {S : Type 0} (rng : Random S) (float : FloatOps) where
  build_dataset-All :
      (P : SyntheticCase → Type 0)
      → ((t : ScenarioType) (index : ℕ) (s : S) → P (scenario_generators rng t index s).0)
      → (seeded : ℕ → S) (now : String) (total seed : ℕ) (d : Dataset)
      → build_dataset rng seeded now total seed ≡ some d
      → All P d.cases
  unfolding build_dataset
  build_dataset-All P holds seeded now total seed d h = elim (Bool-cases (ltb total 1)) [
    | inl small ↦ absurd (absurd_none (rw small at h))
    | inr large ↦
        subst (λ (e : Dataset). All P e.cases) (some_inj (rw large at h))
          (shuffled_cases-All rng P holds total (seeded seed))
  ]

  -- On every data set that `build_dataset` returns, whatever the draws of the generator: the
  -- rule-based strategy takes no active intervention where the label is to stop or to escalate (its
  -- inappropriate intervention rate is 0), and whatever a strategy decides, the revenue that it
  -- recovers is at most the revenue that it pursues, and this at most the revenue at risk.
  pub build_dataset-metrics :
      (seeded : ℕ → S) (now : String) (total seed : ℕ) (d : Dataset)
      (decisions : List BaselineDecision) (f : FinancialMetrics)
      → build_dataset rng seeded now total seed ≡ some d
      → compute_financial_metrics d.cases decisions ≡ some f
      → ((m : DecisionMetrics) × (compute_decision_metrics d.cases
              (decisions_of (decide float) d.cases)
            ≡ some m)
          × (m.inappropriate_intervention_rate.numerator ≡ 0))
        × (f.recovered_revenue ≤ f.eligible_revenue)
        × (f.eligible_revenue ≤ f.total_revenue_at_risk)
  unfolding compute_decision_metrics decision_metrics
  build_dataset-metrics seeded now total seed d decisions f h e =
      let coherent =
        build_dataset-All IsCoherent
          (λ t index s. (scenario_generators-IsRealistic rng t index s).4) seeded now total seed d
          h in
      let ordered = financial-ordered d.cases decisions f coherent e in
      (
        (
          decision_metrics (paired (decide float) d.cases),
          ap (Option.map decision_metrics) (zip_strict-map (decide float) d.cases),
          rw
              (count-wrongly_acted float d.cases (
                build_dataset-All (IsCautious float)
                  (λ t index s. (scenario_generators-decide rng float t index s).1) seeded now total
                  seed d h))
              (rate_zero (count should_not_act (paired (decide float) d.cases))),
        ),
        ordered.0,
        ordered.1,
      )
