-- ===== src/Evaluation/Comparison/Counts.antt =====
-- evaluation/run_ai_evaluation.py: what the report's counts and its status say of the calls.
use revenue_ai.Evaluation.Comparison.{
  count_failures, operational_of, tally, tally_failures, failure_tag,
}
use revenue_ai.Base.{
  ℕ, ◌+◌, ◌≤◌, ◌≡◌, refl, arith, String, false, List, [], ◌∷◌, length, if◌then◌else◌,
}
use revenue_ai.Domain.Enums.{RecoveryAction}
use revenue_ai.Evaluation.{SyntheticCaseInput}
use revenue_ai.Evaluation.AiStrategy.{AiCallOutcome, Completion, Validation, ask_groq, fallback}
use revenue_ai.Evaluation.Safety.{check_case}

abbrev pub sum_tally : List (String × ℕ) → ℕ
sum_tally [] = 0
sum_tally ((t, n) ∷ reasons) = n + sum_tally reasons

sum_tally-tally :
    (tag : String) (reasons : List (String × ℕ))
    → sum_tally (tally tag reasons) ≡ sum_tally reasons + 1
sum_tally-tally tag [] = refl
sum_tally-tally tag ((t, n) ∷ reasons) = ground (arith, sum_tally-tally tag reasons)

sum_tally-tally_failures :
    (outcomes : List AiCallOutcome) (reasons : List (String × ℕ))
    → sum_tally (tally_failures outcomes reasons) ≡ sum_tally reasons + count_failures outcomes
unfolding tally_failures
sum_tally-tally_failures [] reasons = omega arith
sum_tally-tally_failures (o ∷ outcomes) reasons = ground (
  arith,
  sum_tally-tally (failure_tag o) reasons,
  sum_tally-tally_failures outcomes
      (if o.succeeded then reasons else tally (failure_tag o) reasons),
)

count_failures-le : (outcomes : List AiCallOutcome) → count_failures outcomes ≤ length outcomes
count_failures-le [] = omega arith
count_failures-le (o ∷ outcomes) = ground (arith, count_failures-le outcomes)

-- In the operational part of a report every call is a failure or a real answer, and the failures by
-- reason add up to the failures.
pub operational_of-counts :
    (outcomes : List AiCallOutcome)
    → ((operational_of outcomes).real_answers + (operational_of outcomes).provider_failures
        ≡ (operational_of outcomes).cases_processed)
      × (sum_tally (operational_of outcomes).failure_reasons
          ≡ (operational_of outcomes).provider_failures)
unfolding operational_of
operational_of-counts outcomes =
    (omega (arith, count_failures-le outcomes), omega (arith, sum_tally-tally_failures outcomes []))

module _ (validate : String → Validation) (client : SyntheticCaseInput → Completion) where
  -- A call that did not succeed is scored as an escalation with confidence 0, which the safety check
  -- finds nothing against, whatever the case.
  ask_groq-fallback :
      (i : SyntheticCaseInput)
      → (ask_groq validate client i).succeeded ≡ false
      → ((ask_groq validate client i).decision.action ≡ RecoveryAction.escalate)
        × ((ask_groq validate client i).decision.confidence ≡ 0)
        × (check_case i (ask_groq validate client i).decision ≡ [])
  unfolding ask_groq fallback check_case
  ask_groq-fallback i h = ground arith
