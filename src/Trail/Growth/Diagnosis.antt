-- ===== src/Trail/Growth/Diagnosis.antt =====
-- backend/app/services/diagnosis_service.py against the events that the trail has already.
use revenue_ai.Trail.Growth.{Extends, growth}
use revenue_ai.Trail.Keeps.{Keeps, Keeps-bind, Keeps-pure, Keeps-if, Keeps-guard}
use revenue_ai.Ai.Service.{attempt_loop, call_provider, get_recommendation}
use revenue_ai.Domain.Policy.{PolicyConfig}
use revenue_ai.Ai.{AiRecommendationService, AiOutcome, PaymentRecoveryContext, reply, raised}
use revenue_ai.Services.Diagnosis.{
  diagnose_recovery_case, evaluate_eligibility, review, ask_ai, diagnose_discovered,
  diagnose_unguarded, run_diagnosis,
}
use revenue_ai.Store.Models.{CorrelationId, Db}
use revenue_ai.Base.{ℕ, suc, zero}

module _ {base : Db} (ai : AiRecommendationService) where
  call_provider-grows :
      (context : PaymentRecoveryContext) → Keeps (Extends base) (call_provider ai context)
  unfolding call_provider
  call_provider-grows context = record { at = λ s w c. (w, c) }

  attempt_loop-grows :
      (context : PaymentRecoveryContext) (left retries : ℕ)
      → Keeps (Extends base) (attempt_loop ai context left retries)
  unfolding attempt_loop
  attempt_loop-grows context zero retries =
      Keeps-bind _ _ (call_provider-grows context)
        (elim [ reply r ↦ Keeps-pure _ | raised e ↦ Keeps-pure _ ])
  attempt_loop-grows context (suc left) retries =
      let again = attempt_loop-grows context left (suc retries) in
      Keeps-bind _ _ (call_provider-grows context)
        (elim [ reply r ↦ Keeps-pure _ | raised e ↦ Keeps-if _ _ _ again (Keeps-pure _) ])

  get_recommendation-grows :
      (context : PaymentRecoveryContext) → Keeps (Extends base) (get_recommendation ai context)
  unfolding get_recommendation
  get_recommendation-grows context = attempt_loop-grows context ai.max_retries 0

  ask_ai-grows :
      (id : ℕ) (correlation : CorrelationId) → Keeps (Extends base) (ask_ai ai id correlation)
  unfolding ask_ai
  ask_ai-grows id correlation = search (growth, get_recommendation-grows) depth 30

module _ {base : Db} where
  evaluate_eligibility-grows :
      (id : ℕ) (correlation : CorrelationId)
      → Keeps (Extends base) (evaluate_eligibility id correlation)
  unfolding evaluate_eligibility
  evaluate_eligibility-grows id correlation = search (growth) depth 30

  review-grows :
      (config : PolicyConfig) (id : ℕ) (outcome : AiOutcome) (correlation : CorrelationId)
      → Keeps (Extends base) (review config id outcome correlation)
  unfolding review
  review-grows config id outcome correlation = search (growth) depth 30

module _ {base : Db} (ai : AiRecommendationService) (config : PolicyConfig) (id : ℕ)
    (correlation : CorrelationId) where
  run_diagnosis-grows : Keeps (Extends base) (run_diagnosis ai config id correlation)
  unfolding run_diagnosis
  run_diagnosis-grows = search (growth, ask_ai-grows, review-grows) depth 30

  diagnose_discovered-grows : Keeps (Extends base) (diagnose_discovered ai config id correlation)
  unfolding diagnose_discovered
  diagnose_discovered-grows =
      search (growth, evaluate_eligibility-grows, run_diagnosis-grows) depth 30

  diagnose_unguarded-grows : Keeps (Extends base) (diagnose_unguarded ai config id correlation)
  unfolding diagnose_unguarded
  diagnose_unguarded-grows =
      search (growth, diagnose_discovered-grows, run_diagnosis-grows) depth 30

  pub diagnose_recovery_case-grows :
      Keeps (Extends base) (diagnose_recovery_case ai config id correlation)
  unfolding diagnose_recovery_case
  diagnose_recovery_case-grows = Keeps-guard _ diagnose_unguarded-grows
