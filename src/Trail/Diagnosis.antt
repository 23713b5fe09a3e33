-- ===== src/Trail/Diagnosis.antt =====
-- `diagnose_recovery_case` (backend/app/services/diagnosis_service.py) and the AI service
-- (backend/app/ai/service.py) against the invariant.
use revenue_ai.Trail.Transition.{transition-Keeps}
use revenue_ai.Domain.Enums.{
  diagnosing, recommended, policy_engine, policy_review, status_in, system,
}
use revenue_ai.Store.Repositories.{get_customer, get_payment}
use revenue_ai.Trail.Primitives.{
  load_case-Keeps, now-Keeps, assign_case-Keeps, commit-Keeps, record_case-Keeps,
  validate_transition-Keeps,
}
use revenue_ai.Store.Session.{
  load_case, now, query, transition, assign_case, commit, record_event, integrity_error, pure,
  validate_transition, ◌>>◌,
}
use revenue_ai.Trail.{IsValid}
use revenue_ai.Trail.Keeps.{
  Keeps, Keeps-bind, Keeps-guard, Keeps-then, Keeps-pure, Keeps-if, Keeps-query, Keeps-or_raise,
}
use revenue_ai.Store.Models.{CorrelationId, recovery_case, diagnosis_requested}
use revenue_ai.Domain.Policy.{PolicyConfig, evaluate_policy}
use revenue_ai.Trail.Database.{Harmless}
use revenue_ai.Services.Settings.{load_customer, load_payment}
use revenue_ai.Ai.Service.{attempt_loop, call_provider, get_recommendation}
use revenue_ai.Services.Diagnosis.{
  ask_ai, evaluate_eligibility, review, store_recommendation, diagnose_discovered,
  diagnose_recovery_case, diagnose_unguarded, run_diagnosis, attempts_of, diagnosable_statuses,
  is_eligible, outcome_actor, diagnosis_event, policy_input, policy_event, next_status,
  recommendation_event,
}
use revenue_ai.Ai.{
  AiOutcome, AiRecommendationService, PaymentRecoveryContext, reply, raised, build_context,
}
use revenue_ai.Base.{if◌then◌else◌, none, some, refl, Bool, String, ℕ, suc, zero}

pub load_payment-Keeps : (id : ℕ) → Keeps IsValid (load_payment id)
unfolding load_payment
load_payment-Keeps id =
    Keeps-bind (query (get_payment id)) _ (Keeps-query (get_payment id))
      (λ p. Keeps-or_raise p integrity_error)

load_customer-Keeps : (id : ℕ) → Keeps IsValid (load_customer id)
unfolding load_customer
load_customer-Keeps id =
    Keeps-bind (query (get_customer id)) _ (Keeps-query (get_customer id))
      (λ p. Keeps-or_raise p integrity_error)

call_provider-Keeps :
    (ai : AiRecommendationService) (context : PaymentRecoveryContext)
    → Keeps IsValid (call_provider ai context)
unfolding call_provider
call_provider-Keeps ai context = record { at = λ s w c. (w, c) }

attempt_loop-Keeps :
    (ai : AiRecommendationService) (context : PaymentRecoveryContext) (left retries : ℕ)
    → Keeps IsValid (attempt_loop ai context left retries)
unfolding attempt_loop
attempt_loop-Keeps ai context zero retries =
    Keeps-bind (call_provider ai context) _ (call_provider-Keeps ai context)
      (elim [ reply r ↦ Keeps-pure _ | raised e ↦ Keeps-pure _ ])
attempt_loop-Keeps ai context (suc left) retries =
    let again = attempt_loop-Keeps ai context left (suc retries) in
    Keeps-bind (call_provider ai context) _ (call_provider-Keeps ai context)
      (elim [ reply r ↦ Keeps-pure _ | raised e ↦ Keeps-if _ _ _ again (Keeps-pure _) ])

get_recommendation-Keeps :
    (ai : AiRecommendationService) (context : PaymentRecoveryContext)
    → Keeps IsValid (get_recommendation ai context)
unfolding get_recommendation
get_recommendation-Keeps ai context = attempt_loop-Keeps ai context ai.max_retries 0

eligible-Harmless : (b : Bool) → Harmless (λ c. record c { eligible = b })
eligible-Harmless b = record {
  same_id = λ c. refl;
  same_status = λ c. refl;
  same_contacts = λ c. refl;
  same_money = λ c. refl;
}

store-Harmless : (outcome : AiOutcome) → Harmless (store_recommendation outcome)
store-Harmless outcome = record {
  same_id = λ c. refl;
  same_status = λ c. refl;
  same_contacts = λ c. refl;
  same_money = λ c. refl;
}

version-Harmless : (v : String) → Harmless (λ c. record c { policy_version = some v })
version-Harmless v = record {
  same_id = λ c. refl;
  same_status = λ c. refl;
  same_contacts = λ c. refl;
  same_money = λ c. refl;
}

evaluate_eligibility-Keeps :
    (id : ℕ) (correlation : CorrelationId) → Keeps IsValid (evaluate_eligibility id correlation)
unfolding evaluate_eligibility
evaluate_eligibility-Keeps id correlation =
    Keeps-bind (load_case id) _ (load_case-Keeps id) (λ case.
      Keeps-bind (load_payment case.payment_id) _ (load_payment-Keeps case.payment_id) (λ p.
        Keeps-then (assign_case id (λ c. record c { eligible = is_eligible p })) _
          (assign_case-Keeps id _ (eligible-Harmless (is_eligible p)))
          (transition-Keeps id _ correlation _)))

tell-Keeps :
    (id : ℕ) (outcome : AiOutcome) (correlation : CorrelationId)
    → Keeps IsValid (
        record_event
          (recovery_case id)
          (outcome_actor outcome.decision_source)
          (diagnosis_event outcome)
          correlation
        >> (record_event
              (recovery_case id)
              (outcome_actor outcome.decision_source)
              (recommendation_event outcome)
              correlation
            >> pure outcome))
tell-Keeps id outcome correlation =
    let actor = outcome_actor outcome.decision_source in
    Keeps-then (record_event (recovery_case id) actor (diagnosis_event outcome) correlation) _
      (record_case-Keeps id actor (diagnosis_event outcome) correlation (λ t. refl))
      (Keeps-then (record_event (recovery_case id) actor (recommendation_event outcome) correlation)
        _ (record_case-Keeps id actor (recommendation_event outcome) correlation (λ t. refl))
        (Keeps-pure outcome))

ask_ai-Keeps :
    (ai : AiRecommendationService) (id : ℕ) (correlation : CorrelationId)
    → Keeps IsValid (ask_ai ai id correlation)
unfolding ask_ai
ask_ai-Keeps ai id correlation = Keeps-bind (load_case id) _ (load_case-Keeps id) (λ case.
    Keeps-bind (load_payment case.payment_id) _ (load_payment-Keeps case.payment_id) (λ p.
      Keeps-bind (load_customer p.customer_id) _ (load_customer-Keeps p.customer_id) (λ customer.
        Keeps-bind (query (attempts_of id)) _ (Keeps-query (attempts_of id)) (λ attempts.
          Keeps-bind now _ now-Keeps (λ at.
            Keeps-bind (get_recommendation ai (build_context p customer attempts at)) _
              (get_recommendation-Keeps ai (build_context p customer attempts at))
              (λ outcome. tell-Keeps id outcome correlation))))))

review-Keeps :
    (config : PolicyConfig) (id : ℕ) (outcome : AiOutcome) (correlation : CorrelationId)
    → Keeps IsValid (review config id outcome correlation)
unfolding review
review-Keeps config id outcome correlation = Keeps-bind now _ now-Keeps (λ at.
    Keeps-bind (load_case id) _ (load_case-Keeps id) (λ case.
      Keeps-bind (load_payment case.payment_id) _ (load_payment-Keeps case.payment_id) (λ p.
        let decision = evaluate_policy (policy_input case p outcome at) config in
        Keeps-then
          (assign_case id (λ c. record c { policy_version = some decision.policy_version })) _
          (assign_case-Keeps id _ (version-Harmless decision.policy_version))
          (Keeps-then
            (record_event (recovery_case id) policy_engine (policy_event outcome decision)
              correlation)
            _
            (record_case-Keeps id policy_engine (policy_event outcome decision) correlation
              (λ t. refl))
            (Keeps-then
              (transition id (next_status outcome decision).0 correlation
                (next_status outcome decision).1)
              _
              (transition-Keeps id (next_status outcome decision).0 correlation
                (next_status outcome decision).1)
              (Keeps-pure decision))))))

module _ (ai : AiRecommendationService) (config : PolicyConfig) (id : ℕ)
    (correlation : CorrelationId) where
  run_diagnosis-Keeps : Keeps IsValid (run_diagnosis ai config id correlation)
  unfolding run_diagnosis
  run_diagnosis-Keeps =
      Keeps-then (transition id diagnosing correlation none) _
        (transition-Keeps id diagnosing correlation none)
        (Keeps-bind (ask_ai ai id correlation) _ (ask_ai-Keeps ai id correlation) (λ outcome.
          Keeps-then (assign_case id (store_recommendation outcome)) _
            (assign_case-Keeps id _ (store-Harmless outcome))
            (Keeps-then (transition id recommended correlation none) _
              (transition-Keeps id recommended correlation none)
              (Keeps-then (transition id policy_review correlation none) _
                (transition-Keeps id policy_review correlation none)
                (Keeps-bind (review config id outcome correlation) _
                  (review-Keeps config id outcome correlation)
                  (λ decision.
                    Keeps-then commit _ commit-Keeps (
                      Keeps-bind (load_case id) _ (load_case-Keeps id) (λ case. Keeps-pure _))))))))

  diagnose_discovered-Keeps : Keeps IsValid (diagnose_discovered ai config id correlation)
  unfolding diagnose_discovered
  diagnose_discovered-Keeps =
      Keeps-then (evaluate_eligibility id correlation) _ (evaluate_eligibility-Keeps id correlation)
        (Keeps-bind (load_case id) _ (load_case-Keeps id) (λ case.
          Keeps-if _ _ _ (Keeps-then commit _ commit-Keeps (Keeps-pure _)) run_diagnosis-Keeps))

  diagnose_unguarded-Keeps : Keeps IsValid (diagnose_unguarded ai config id correlation)
  unfolding diagnose_unguarded
  diagnose_unguarded-Keeps = Keeps-bind (load_case id) _ (load_case-Keeps id) (λ case.
      Keeps-then
        (if status_in case.status diagnosable_statuses
          then pure tt
          else validate_transition case.status diagnosing)
        _ (Keeps-if _ _ _ (Keeps-pure tt) (validate_transition-Keeps case.status diagnosing))
        (Keeps-then
          (record_event (recovery_case id) system (diagnosis_requested case.status) correlation) _
          (record_case-Keeps id system (diagnosis_requested case.status) correlation (λ t. refl))
          (Keeps-if _ _ _ diagnose_discovered-Keeps run_diagnosis-Keeps)))

  pub diagnose_recovery_case-Keeps : Keeps IsValid (diagnose_recovery_case ai config id correlation)
  unfolding diagnose_recovery_case
  diagnose_recovery_case-Keeps = Keeps-guard _ diagnose_unguarded-Keeps
