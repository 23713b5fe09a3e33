-- ===== src/Evaluation/Scenarios/Labels.antt =====
-- evaluation/generators/scenarios.py: the generated cases and their labels against the rule-based
-- strategy of evaluation/baseline/rule_based.py.
use revenue_ai.Evaluation.Metrics.{safe_fallbacks}
use revenue_ai.Evaluation.Scenarios.{
  draw_amount, generate_temporary_failure, draw_method, draw_temporary, get_or, temporary_others,
  draw_customer_side, draw_reason, generate_ambiguous, generate_customer_side_failure,
  generate_high_value, generate_previously_contacted, generate_repeated_failure,
  customer_side_others, draw_reason_swapped, scenario_generators,
}
use revenue_ai.Base.{
  Bool-cases, inl, inr, ℕ, zero, suc, leb, ◌≤◌, ◌≡◌, true, false, refl, arith, Bool, ◌++◌, ◌⊎◌, ltb,
  ◌∷◌, inl, inr,
}
use revenue_ai.Domain.Enums.{FailureReason, action_in}
use revenue_ai.Evaluation.{SyntheticCase, ScenarioType}
use revenue_ai.Evaluation.Random.{Random, float_15}
use revenue_ai.Evaluation.Baseline.{
  FloatOps, decide, is_temporary, is_customer_side, float_4, float_6,
}
use revenue_ai.Evaluation.Metrics.Bounds.{IsCoherent}

abbrev pub IsRealistic : SyntheticCase → Type 0
IsRealistic c =
    (1 ≤ c.input.amount)
    × (c.input.amount ≤ 3000000)
    × (1 ≤ c.input.attempt_number)
    × (c.input.is_high_value ≡ leb 500000 c.input.amount)
    × IsCoherent c

get_or_temporary :
    (i : ℕ) → is_temporary (get_or FailureReason.network_error temporary_others i) ≡ true
get_or_temporary zero = refl
get_or_temporary (suc zero) = refl
get_or_temporary (suc (suc i)) = refl

-- the strategy decides as the label says
abbrev pub Agrees : FloatOps → SyntheticCase → Type 0
Agrees float c = (decide float c.input).action ≡ c.ground_truth.expected_action

get_or_customer_side :
    (i : ℕ)
    → is_customer_side (get_or FailureReason.insufficient_funds customer_side_others i) ≡ true
get_or_customer_side zero = refl
get_or_customer_side (suc zero) = refl
get_or_customer_side (suc (suc i)) = refl

-- every reason of the joined list has one of the two kinds
HasKind : FailureReason → Type 0
HasKind r = (is_temporary r ≡ true) ⊎ (is_customer_side r ≡ true)

get_or_reason :
    (i : ℕ)
    → HasKind (
        get_or FailureReason.network_error
          (temporary_others ++ FailureReason.insufficient_funds ∷ customer_side_others)
          i)
unfolding HasKind
get_or_reason zero = inl refl
get_or_reason (suc zero) = inl refl
get_or_reason (suc (suc zero)) = inl refl
get_or_reason (suc (suc (suc zero))) = inr refl
get_or_reason (suc (suc (suc (suc zero)))) = inr refl
get_or_reason (suc (suc (suc (suc (suc i))))) = inr refl

-- a label to stop or to escalate is not overridden
abbrev pub IsCautious : FloatOps → SyntheticCase → Type 0
IsCautious float c =
    (action_in c.ground_truth.expected_action safe_fallbacks ≡ false)
    ⊎ (action_in (decide float c.input).action safe_fallbacks ≡ true)

Agrees-IsCautious : (float : FloatOps) (c : SyntheticCase) → Agrees float c → IsCautious float c
Agrees-IsCautious float c h =
    elim (Bool-cases (action_in c.ground_truth.expected_action safe_fallbacks)) [
      | inl safe ↦ inr (rw h safe)
      | inr active ↦ inl active
    ]

module _ {S : Type 0} (rng : Random S) where
  low_amount :
      (s : S) → (5000 ≤ (draw_amount rng false s).0) × ((draw_amount rng false s).0 ≤ 150000)
  unfolding draw_amount
  low_amount s = rng.randint_bounds 5000 150000 s (omega arith)

  draw_temporary_lem : (s : S) → is_temporary (draw_temporary rng s).0 ≡ true
  unfolding draw_temporary
  draw_temporary_lem s = get_or_temporary (rng.choice_index 3 s).0

  draw_customer_side_lem : (s : S) → is_customer_side (draw_customer_side rng s).0 ≡ true
  unfolding draw_customer_side
  draw_customer_side_lem s = get_or_customer_side (rng.choice_index 3 s).0

  high_amount :
      (s : S) → (500000 ≤ (draw_amount rng true s).0) × ((draw_amount rng true s).0 ≤ 3000000)
  unfolding draw_amount
  high_amount s = rng.randint_bounds 500000 3000000 s (omega arith)

  any_amount :
      (high : Bool) (s : S)
      → (1 ≤ (draw_amount rng high s).0) × ((draw_amount rng high s).0 ≤ 3000000)
  any_amount true s = omega (arith, high_amount s)
  any_amount false s = omega (arith, low_amount s)

  draw_reason_lem : (s : S) → HasKind (draw_reason rng s).0
  unfolding draw_reason HasKind
  draw_reason_lem s = get_or_reason (rng.choice_index 6 s).0

  temporary_failure-IsRealistic :
      (index : ℕ) (s : S) → IsRealistic (generate_temporary_failure rng index s).0
  unfolding generate_temporary_failure
  temporary_failure-IsRealistic index s =
      let s1 = (rng.randint 1 2 s).1 in
      let s2 = (rng.randint 0 2 s1).1 in
      ground (arith, rng.randint_bounds 1 2 s (omega arith), low_amount s2)

  repeated_failure-IsRealistic :
      (index : ℕ) (s : S) → IsRealistic (generate_repeated_failure rng index s).0
  unfolding generate_repeated_failure
  repeated_failure-IsRealistic index s =
      let s1 = (rng.randint 3 6 s).1 in
      let s2 = (rng.randint 7 20 s1).1 in
      ground (arith, rng.randint_bounds 3 6 s (omega arith), low_amount s2)

  customer_side_failure-IsRealistic :
      (index : ℕ) (s : S) → IsRealistic (generate_customer_side_failure rng index s).0
  unfolding generate_customer_side_failure
  customer_side_failure-IsRealistic index s =
      let s1 = (rng.randint 1 2 s).1 in
      ground (arith, rng.randint_bounds 1 2 s (omega arith), low_amount s1)

  high_value-IsRealistic : (index : ℕ) (s : S) → IsRealistic (generate_high_value rng index s).0
  unfolding generate_high_value
  high_value-IsRealistic index s =
      let s1 = (rng.randint 1 2 s).1 in
      ground (arith, rng.randint_bounds 1 2 s (omega arith), high_amount s1)

  previously_contacted-IsRealistic :
      (index : ℕ) (s : S) → IsRealistic (generate_previously_contacted rng index s).0
  unfolding generate_previously_contacted
  previously_contacted-IsRealistic index s =
      let s1 = (rng.randint 2 4 s).1 in
      ground (arith, rng.randint_bounds 2 4 s (omega arith), low_amount s1)

  ambiguous-IsRealistic : (index : ℕ) (s : S) → IsRealistic (generate_ambiguous rng index s).0
  unfolding generate_ambiguous
  ambiguous-IsRealistic index s =
      let s1 = (rng.randint 1 3 s).1 in
      let s2 = (rng.random s1).1 in
      ground (
        arith,
        rng.randint_bounds 1 3 s (omega arith),
        any_amount (ltb (rng.random s1).0 float_15) s2,
      )

  -- Every case of every generator has an amount between 1 and 3,000,000 and at least one attempt,
  -- is marked as high value exactly from 500,000 on, and is called recoverable only where its label
  -- is to act.
  pub scenario_generators-IsRealistic :
      (t : ScenarioType) (index : ℕ) (s : S) → IsRealistic (scenario_generators rng t index s).0
  unfolding scenario_generators
  scenario_generators-IsRealistic ScenarioType.temporary_failure = temporary_failure-IsRealistic
  scenario_generators-IsRealistic ScenarioType.repeated_failure = repeated_failure-IsRealistic
  scenario_generators-IsRealistic ScenarioType.customer_side_failure =
      customer_side_failure-IsRealistic
  scenario_generators-IsRealistic ScenarioType.high_value = high_value-IsRealistic
  scenario_generators-IsRealistic ScenarioType.previously_contacted =
      previously_contacted-IsRealistic
  scenario_generators-IsRealistic ScenarioType.ambiguous = ambiguous-IsRealistic

  module _ (float : FloatOps) where
    temporary_failure-Agrees :
        (index : ℕ) (s : S) → Agrees float (generate_temporary_failure rng index s).0
    unfolding generate_temporary_failure decide
    temporary_failure-Agrees index s =
        let s1 = (rng.randint 1 2 s).1 in
        let s2 = (rng.randint 0 2 s1).1 in
        let s3 = (draw_amount rng false s2).1 in
        let s4 = (draw_method rng s3).1 in
        ground (arith, rng.randint_bounds 1 2 s (omega arith), draw_temporary_lem s4)

    repeated_failure-IsCautious :
        (index : ℕ) (s : S) → IsCautious float (generate_repeated_failure rng index s).0
    unfolding generate_repeated_failure decide
    repeated_failure-IsCautious index s = ground (arith, rng.randint_bounds 3 6 s (omega arith))

    customer_side_failure-Agrees :
        (index : ℕ) (s : S) → Agrees float (generate_customer_side_failure rng index s).0
    unfolding generate_customer_side_failure decide
    customer_side_failure-Agrees index s =
        let s1 = (rng.randint 1 2 s).1 in
        let s2 = (draw_amount rng false s1).1 in
        let s3 = (draw_method rng s2).1 in
        let s4 = (draw_customer_side rng s3).1 in
        let s5 = (rng.randint 0 3 s4).1 in
        ground (
          arith,
          rng.randint_bounds 1 2 s (omega arith),
          draw_customer_side_lem s3,
          rng.randint_bounds 0 1 s5 (omega arith),
        )

    high_value-Agrees : (index : ℕ) (s : S) → Agrees float (generate_high_value rng index s).0
    unfolding generate_high_value decide HasKind
    high_value-Agrees index s =
        let s1 = (rng.randint 1 2 s).1 in
        let s2 = (draw_amount rng true s1).1 in
        ground (arith, rng.randint_bounds 1 2 s (omega arith), draw_reason_lem s2)

    previously_contacted-Agrees :
        (index : ℕ) (s : S) → Agrees float (generate_previously_contacted rng index s).0
    unfolding generate_previously_contacted decide
    previously_contacted-Agrees index s =
        let s1 = (rng.randint 2 4 s).1 in
        let s2 = (draw_amount rng false s1).1 in
        let s3 = (draw_method rng s2).1 in
        let s4 = (draw_reason_swapped rng s3).1 in
        let s5 = (rng.randint 5 14 s4).1 in
        ground
          (arith, rng.randint_bounds 2 4 s (omega arith), rng.randint_bounds 2 3 s5 (omega arith))

    ambiguous-Agrees : (index : ℕ) (s : S) → Agrees float (generate_ambiguous rng index s).0
    unfolding generate_ambiguous decide
    ambiguous-Agrees index s =
        let s1 = (rng.randint 1 3 s).1 in
        let s2 = (rng.random s1).1 in
        let s3 = (draw_amount rng (ltb (rng.random s1).0 float_15) s2).1 in
        let s4 = (draw_method rng s3).1 in
        let s5 = (rng.randint 1 10 s4).1 in
        let s6 = (rng.randint 0 1 s5).1 in
        ground (
          arith,
          rng.randint_bounds 1 3 s (omega arith),
          rng.randint_bounds 0 1 s5 (omega arith),
          rng.uniform2_bounds float_4 float_6 s6 refl refl (omega arith),
        )

    -- The rule-based strategy decides as the label says on every generated case but those of
    -- repeated failures. On these too it takes no active intervention where the label is to stop or
    -- to escalate.
    pub scenario_generators-decide :
        (t : ScenarioType) (index : ℕ) (s : S)
        → ((t ≡ ScenarioType.repeated_failure) ⊎ Agrees float (scenario_generators rng t index s).0)
          × IsCautious float (scenario_generators rng t index s).0
    unfolding scenario_generators
    scenario_generators-decide ScenarioType.temporary_failure index s = (
      inr (temporary_failure-Agrees index s),
      Agrees-IsCautious float (generate_temporary_failure rng index s).0
          (temporary_failure-Agrees index s),
    )
    scenario_generators-decide ScenarioType.repeated_failure index s =
        (inl refl, repeated_failure-IsCautious index s)
    scenario_generators-decide ScenarioType.customer_side_failure index s = (
      inr (customer_side_failure-Agrees index s),
      Agrees-IsCautious float (generate_customer_side_failure rng index s).0
          (customer_side_failure-Agrees index s),
    )
    scenario_generators-decide ScenarioType.high_value index s = (
      inr (high_value-Agrees index s),
      Agrees-IsCautious float (generate_high_value rng index s).0 (high_value-Agrees index s),
    )
    scenario_generators-decide ScenarioType.previously_contacted index s = (
      inr (previously_contacted-Agrees index s),
      Agrees-IsCautious float (generate_previously_contacted rng index s).0
          (previously_contacted-Agrees index s),
    )
    scenario_generators-decide ScenarioType.ambiguous index s = (
      inr (ambiguous-Agrees index s),
      Agrees-IsCautious float (generate_ambiguous rng index s).0 (ambiguous-Agrees index s),
    )
