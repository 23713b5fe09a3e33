-- ===== src/Evaluation/Metrics/Bounds.antt =====
-- evaluation/metrics/decision.py and financial.py: the ranges of the metrics.
use revenue_ai.Evaluation.Baseline.{BaselineDecision}
use revenue_ai.Domain.Enums.{action_in}
use revenue_ai.Evaluation.{SyntheticCase}
use revenue_ai.Evaluation.Metrics.{
  Pair, Rate, decision_metrics, rate, is_correct, sum_amount, active_interventions,
  escalated_correctly, is_recovered, is_pursued, should_escalate, wrongly_acted, should_not_act,
}
use revenue_ai.Base.{
  ℕ, ◌≤◌, ◌≡◌, [], ◌∷◌, List, true, arith, count, length, All, Bool, Bool-cases, suc, inl, zero,
  inr, false, ◌⊎◌,
}

-- at most 1
abbrev pub IsProper : Rate → Type 0
IsProper r = r.numerator ≤ r.denominator

pub rate-IsProper : (a b : ℕ) → a ≤ b → IsProper (rate a b)
rate-IsProper a zero le = omega arith
rate-IsProper a (suc b) le = le

module _ {A : Type 0} where
  pub count-le-length : (p : A → Bool) (xs : List A) → count p xs ≤ length xs
  count-le-length p [] = omega arith
  count-le-length p (x ∷ xs) = ground (arith, count-le-length p xs)

  count_mono :
      (p q : A → Bool) (xs : List A) → ((x : A) → p x ≡ true → q x ≡ true) → count p xs ≤ count q xs
  count_mono p q [] k = omega arith
  count_mono p q (x ∷ xs) k = elim (Bool-cases (p x)) [
    | inl yes_p ↦ rw (yes_p, k x yes_p) (omega (arith, count_mono p q xs k))
    | inr no_p ↦ rw no_p (omega (arith, count_mono p q xs k))
  ]

-- Whatever the cases and the decisions, each of the three decision rates is at most 1.
decision_metrics-IsProper :
    (pairs : List Pair)
    → IsProper (decision_metrics pairs).intervention_accuracy
      × IsProper (decision_metrics pairs).appropriate_escalation_rate
      × IsProper (decision_metrics pairs).inappropriate_intervention_rate
unfolding decision_metrics
decision_metrics-IsProper pairs = (
  rate-IsProper (count is_correct pairs) (length pairs) (count-le-length is_correct pairs),
  rate-IsProper (count escalated_correctly pairs) (count should_escalate pairs)
      (count_mono escalated_correctly should_escalate pairs (λ x h. ground arith)),
  rate-IsProper (count wrongly_acted pairs) (count should_not_act pairs)
      (count_mono wrongly_acted should_not_act pairs (λ x h. ground arith)),
)

-- a case is called recoverable only where its label is to act
abbrev pub IsCoherent : SyntheticCase → Type 0
IsCoherent c =
    (c.ground_truth.recoverable ≡ false)
    ⊎ (action_in c.ground_truth.expected_action active_interventions ≡ true)

recovered_pursued :
    (c : SyntheticCase) (d : BaselineDecision)
    → IsCoherent c
    → is_recovered (c, d) ≡ true
    → is_pursued (c, d) ≡ true
recovered_pursued c d k h = ground arith

abbrev pub CoherentPairs : List Pair → Type 0
CoherentPairs = All (λ (p : Pair). IsCoherent p.0)

pub recovered-le-pursued :
    (pairs : List Pair)
    → CoherentPairs pairs
    → sum_amount is_recovered pairs ≤ sum_amount is_pursued pairs
recovered-le-pursued [] k = omega arith
recovered-le-pursued ((c, d) ∷ pairs) k = elim (Bool-cases (is_recovered (c, d))) [
  | inl yes_p ↦
      rw (yes_p, recovered_pursued c d k.0 yes_p) (omega (arith, recovered-le-pursued pairs k.1))
  | inr no_p ↦ rw no_p (omega (arith, recovered-le-pursued pairs k.1))
]
