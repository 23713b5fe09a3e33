-- ===== src/Services/Diagnosis.antt =====
-- backend/app/services/diagnosis_service.py: from a case to a policy decision on a recommendation.
pub mod Next
use revenue_ai.Base.{
  ℕ, ◌-◌, ◌/◌, ◌==◌, ⊤, pos, ltb_ℤ, String, Bool, ◌&&◌, Option, none, some, List, [], ◌∷◌, any,
  filter, if◌then◌else◌,
}
use Prim.Native.String.{◌++◌}
use revenue_ai.Domain.Enums.{
  RecoveryCaseStatus, discovered, eligible, ineligible, diagnosing, recommended, policy_review,
  approved, stopped, escalated, failed, status_in, status_eq, RecoveryAction, stop, escalate,
  action_eq, action_value, ActorType, system, policy_engine, PolicyDecisionType, allow, block,
  PolicyReasonCode, max_retries_reached, recovery_window_expired, max_contacts_reached,
  amount_out_of_bounds, terminal_state_protected, code_in, DecisionSource, DiagnosisCategory,
}
use revenue_ai.Domain.Policy.{
  Confidence, PolicyConfig, PolicyEvaluationInput, PolicyDecision, evaluate_policy,
}
use revenue_ai.Domain.Providers.{is_executable}
use revenue_ai.Store.Models.{
  Payment, RecoveryCase, RecoveryAttempt, recovery_case, diagnosis_requested, ai_diagnosis_created,
  recovery_recommendation_created, policy_evaluated, Payload, CorrelationId, Db,
}
use revenue_ai.Store.Session.{
  Action, pure, query, ◌>>=◌, ◌>>◌, now, load_case, assign_case, commit, record_event,
  validate_transition, transition, guard_against_concurrent_modification,
}
use revenue_ai.Store.Repositories.{is_failed}
use revenue_ai.Ai.{AiRecommendationService, AiOutcome, build_context}
use revenue_ai.Ai.Service.{get_recommendation}
use revenue_ai.Services.Settings.{load_payment, load_customer}

-- `_DIAGNOSABLE_STATUSES`
abbrev pub diagnosable_statuses : List RecoveryCaseStatus
diagnosable_statuses = discovered ∷ eligible ∷ failed ∷ []

-- `_HARD_STOP_REASON_CODES`
abbrev pub hard_stop_reason_codes : List PolicyReasonCode
hard_stop_reason_codes =
    max_retries_reached ∷ recovery_window_expired ∷ max_contacts_reached ∷ amount_out_of_bounds
    ∷ terminal_state_protected ∷ []

pub record DiagnosisResponse : Type 0 where
  pub recovery_case_id : ℕ
  pub case_status : RecoveryCaseStatus
  pub decision_source : Option DecisionSource
  pub diagnosis_category : Option DiagnosisCategory
  pub recovery_confidence : Option Confidence
  pub recommended_action : Option RecoveryAction
  pub decision_explanation : Option String
  pub policy_decision : Option PolicyDecisionType
  pub policy_reason_codes : List PolicyReasonCode
  pub policy_version : Option String
  pub ai_model : Option String
  pub ai_prompt_version : Option String

-- `_resolve_next_status`
abbrev pub resolve_allowed : RecoveryAction → RecoveryCaseStatus × Option String
resolve_allowed action =
    if action_eq action stop
    then (stopped, none)
    else (if action_eq action escalate
        then (escalated, none)
        else (if is_executable action then (approved, none) else (
          escalated,
          some (
              "Action '"
              ++ action_value action
              ++ "' is permitted by policy but has no executor implementation; routing to human review instead of APPROVED."),
        )))

unfoldable pub resolve_next_status :
    RecoveryAction → PolicyDecisionType → List PolicyReasonCode → RecoveryCaseStatus × Option String
resolve_next_status action allow codes = resolve_allowed action
resolve_next_status action block codes =
    if any (λ code. code_in code hard_stop_reason_codes) codes
    then (stopped, none)
    else (escalated, none)

-- `_evaluate_eligibility`
unfoldable pub is_eligible : Payment → Bool
is_eligible p = is_failed p.status && ltb_ℤ (pos 0) p.amount

unfoldable pub evaluate_eligibility : ℕ → CorrelationId → Action ⊤
evaluate_eligibility id correlation = do
  case ← load_case id
  p ← load_payment case.payment_id
  assign_case id (λ c. record c { eligible = is_eligible p })
  transition id (if is_eligible p then eligible else ineligible) correlation (
      if is_eligible p
      then none
      else some "Payment is not in a failed state, or has a non-positive amount.")

abbrev pub outcome_actor : DecisionSource → ActorType
outcome_actor DecisionSource.ai = ActorType.ai
outcome_actor DecisionSource.fallback = system

abbrev pub diagnosis_event : AiOutcome → Payload
diagnosis_event outcome =
    ai_diagnosis_created outcome.decision_source outcome.recommendation.diagnosis_category
      outcome.model outcome.prompt_version outcome.retry_count outcome.failure_code
      outcome.failure_message

abbrev pub recommendation_event : AiOutcome → Payload
recommendation_event outcome =
    recovery_recommendation_created outcome.recommendation.recommended_action
      outcome.recommendation.recovery_confidence outcome.recommendation.decision_explanation

abbrev pub attempts_of : ℕ → Db → List RecoveryAttempt
attempts_of id db = filter (λ (a : RecoveryAttempt). a.recovery_case_id == id) db.attempts

-- the call of the AI, and its two events
unfoldable pub ask_ai : AiRecommendationService → ℕ → CorrelationId → Action AiOutcome
ask_ai ai id correlation = do
  case ← load_case id
  p ← load_payment case.payment_id
  customer ← load_customer p.customer_id
  attempts ← query (attempts_of id)
  at ← now
  outcome ← get_recommendation ai (build_context p customer attempts at)
  record_event (recovery_case id) (outcome_actor outcome.decision_source) (diagnosis_event outcome)
      correlation
  record_event (recovery_case id) (outcome_actor outcome.decision_source)
      (recommendation_event outcome) correlation
  pure outcome

abbrev pub store_recommendation : AiOutcome → RecoveryCase → RecoveryCase
store_recommendation outcome c = record c {
  diagnosis_category = some outcome.recommendation.diagnosis_category;
  diagnosis_notes = some outcome.recommendation.decision_explanation;
  recovery_confidence = some outcome.recommendation.recovery_confidence;
  recommended_action = some outcome.recommendation.recommended_action;
}

-- seconds to `timedelta.days`
abbrev pub days_between : ℕ → ℕ → ℕ
days_between earlier later = (later - earlier) / 86400

unfoldable pub policy_input : RecoveryCase → Payment → AiOutcome → ℕ → PolicyEvaluationInput
policy_input case p outcome at = record {
  case_status = case.status;
  proposed_action = outcome.recommendation.recommended_action;
  attempt_number = case.current_attempt_number;
  days_since_discovery = days_between case.created_at at;
  customer_contact_count = case.customer_contact_count;
  recovery_confidence = outcome.recommendation.recovery_confidence;
  amount = p.amount;
}

abbrev pub policy_event : AiOutcome → PolicyDecision → Payload
policy_event outcome decision =
    policy_evaluated decision.decision decision.reason_codes decision.policy_version
      outcome.recommendation.recommended_action

abbrev pub next_status : AiOutcome → PolicyDecision → RecoveryCaseStatus × Option String
next_status outcome decision =
    resolve_next_status outcome.recommendation.recommended_action decision.decision
      decision.reason_codes

-- the review of the recommendation, which decides the next status
unfoldable pub review : PolicyConfig → ℕ → AiOutcome → CorrelationId → Action PolicyDecision
review config id outcome correlation = do
  at ← now
  case ← load_case id
  p ← load_payment case.payment_id
  let decision = evaluate_policy (policy_input case p outcome at) config
  assign_case id (λ c. record c { policy_version = some decision.policy_version })
  record_event (recovery_case id) policy_engine (policy_event outcome decision) correlation
  let next = next_status outcome decision
  transition id next.0 correlation next.1
  pure decision

unfoldable pub diagnosis_response :
    ℕ → RecoveryCaseStatus → AiOutcome → PolicyDecision → DiagnosisResponse
diagnosis_response id status outcome decision = record {
  recovery_case_id = id;
  case_status = status;
  decision_source = some outcome.decision_source;
  diagnosis_category = some outcome.recommendation.diagnosis_category;
  recovery_confidence = some outcome.recommendation.recovery_confidence;
  recommended_action = some outcome.recommendation.recommended_action;
  decision_explanation = some outcome.recommendation.decision_explanation;
  policy_decision = some decision.decision;
  policy_reason_codes = decision.reason_codes;
  policy_version = some decision.policy_version;
  ai_model = outcome.model;
  ai_prompt_version = some outcome.prompt_version;
}

-- from DIAGNOSING to the end
unfoldable pub run_diagnosis :
    AiRecommendationService → PolicyConfig → ℕ → CorrelationId → Action DiagnosisResponse
run_diagnosis ai config id correlation = do
  transition id diagnosing correlation none
  outcome ← ask_ai ai id correlation
  assign_case id (store_recommendation outcome)
  transition id recommended correlation none
  transition id policy_review correlation none
  decision ← review config id outcome correlation
  commit
  case ← load_case id
  pure (diagnosis_response id case.status outcome decision)

abbrev pub ineligible_response : ℕ → RecoveryCaseStatus → DiagnosisResponse
ineligible_response id status = record {
  recovery_case_id = id;
  case_status = status;
  decision_source = none;
  diagnosis_category = none;
  recovery_confidence = none;
  recommended_action = none;
  decision_explanation = none;
  policy_decision = none;
  policy_reason_codes = [];
  policy_version = none;
  ai_model = none;
  ai_prompt_version = none;
}

-- a case that is only discovered: its eligibility first, and an early return if it has none
unfoldable pub diagnose_discovered :
    AiRecommendationService → PolicyConfig → ℕ → CorrelationId → Action DiagnosisResponse
diagnose_discovered ai config id correlation = do
  evaluate_eligibility id correlation
  case ← load_case id
  if status_eq case.status ineligible
      then commit >> pure (ineligible_response id case.status)
      else run_diagnosis ai config id correlation

-- `_diagnose_recovery_case`
unfoldable pub diagnose_unguarded :
    AiRecommendationService → PolicyConfig → ℕ → CorrelationId → Action DiagnosisResponse
diagnose_unguarded ai config id correlation = do
  case ← load_case id
  if status_in case.status diagnosable_statuses
      then pure tt
      else validate_transition case.status diagnosing
  record_event (recovery_case id) system (diagnosis_requested case.status) correlation
  if status_eq case.status discovered
      then diagnose_discovered ai config id correlation
      else run_diagnosis ai config id correlation

unfoldable pub diagnose_recovery_case :
    AiRecommendationService → PolicyConfig → ℕ → CorrelationId → Action DiagnosisResponse
diagnose_recovery_case ai config id correlation =
    guard_against_concurrent_modification (diagnose_unguarded ai config id correlation)
