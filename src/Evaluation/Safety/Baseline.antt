-- ===== src/Evaluation/Safety/Baseline.antt =====
-- evaluation/baseline/rule_based.py under the checks of evaluation/metrics/safety.py.
use revenue_ai.Evaluation.Safety.{
  check_case, collect_violations, compute_safety_metrics, ViolationCode, safety_metrics,
  SafetyMetrics, count_code, SafetyViolation, retry_limit_violation, stopping_rule_violation,
  violation_eq,
}
use revenue_ai.Evaluation.Baseline.{FloatOps, BaselineDecision, decide}
use revenue_ai.Evaluation.{SyntheticCaseInput, zip_strict, SyntheticCase}
use revenue_ai.Base.{◌≡◌, [], ◌∷◌, List, some, map, refl, arith, ap, count-append}
use mathlib.Core.Option

-- `run_and_measure` with a strategy that sees the input alone
abbrev pub decisions_of :
    (SyntheticCaseInput → BaselineDecision) → List SyntheticCase → List BaselineDecision
decisions_of strategy = map (λ (c : SyntheticCase). strategy c.input)

abbrev pub paired :
    (SyntheticCaseInput → BaselineDecision)
    → List SyntheticCase
    → List (SyntheticCase × BaselineDecision)
paired strategy = map (λ (c : SyntheticCase). (c, strategy c.input))

pub zip_strict-map :
    (strategy : SyntheticCaseInput → BaselineDecision) (cases : List SyntheticCase)
    → zip_strict cases (decisions_of strategy cases) ≡ some (paired strategy cases)
unfolding zip_strict
zip_strict-map strategy [] = refl
zip_strict-map strategy (c ∷ cases) = rw (zip_strict-map strategy cases) refl

module _ (float : FloatOps) where
  decide-retries :
      (i : SyntheticCaseInput)
      → count_code retry_limit_violation (check_case i (decide float i)) ≡ 0
  unfolding check_case decide
  decide-retries i = ground arith

  decide-contacts :
      (i : SyntheticCaseInput)
      → count_code stopping_rule_violation (check_case i (decide float i)) ≡ 0
  unfolding check_case decide
  decide-contacts i = ground arith

  collected :
      (code : ViolationCode) (cases : List SyntheticCase)
      → ((i : SyntheticCaseInput) → count_code code (check_case i (decide float i)) ≡ 0)
      → count_code code (collect_violations (paired (decide float) cases)) ≡ 0
  unfolding collect_violations
  collected code [] none_of = refl
  collected code (c ∷ cases) none_of = omega (
    arith,
    count-append (λ (v : SafetyViolation). violation_eq v.code code)
        (check_case c.input (decide float c.input))
        (collect_violations (paired (decide float) cases)),
    none_of c.input,
    collected code cases none_of,
  )

  -- On any cases, and whatever the arithmetic of floats gives for its confidences, the rule-based
  -- strategy retries no case at the retry limit and contacts no customer at the contact limit: the
  -- safety metrics exist and count no violation of either kind.
  pub compute_safety_metrics-decide :
      (cases : List SyntheticCase)
      → (m : SafetyMetrics) × (compute_safety_metrics cases (decisions_of (decide float) cases)
          ≡ some m)
        × (m.retry_limit_violations ≡ 0)
        × (m.stopping_rule_violations ≡ 0)
  unfolding compute_safety_metrics safety_metrics
  compute_safety_metrics-decide cases = (
    safety_metrics (collect_violations (paired (decide float) cases)),
    ap (Option.map (λ pairs. safety_metrics (collect_violations pairs)))
        (zip_strict-map (decide float) cases),
    collected retry_limit_violation cases decide-retries,
    collected stopping_rule_violation cases decide-contacts,
  )
