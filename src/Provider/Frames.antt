-- ===== src/Provider/Frames.antt =====
-- The operations of a session (backend/app/services/audit_service.py) and a diagnosis
-- (diagnosis_service.py) against what of the session they leave alone.
use revenue_ai.Domain.Providers.{CreatePaymentLinkRequest}
use revenue_ai.Domain.Enums.{RecoveryCaseStatus, ActorType}
use revenue_ai.Domain.Policy.{PolicyConfig}
use revenue_ai.Services.Settings.{load_customer, load_payment}
use revenue_ai.Ai.Service.{attempt_loop, call_provider, get_recommendation}
use revenue_ai.Store.Models.{
  AuditEvent, CorrelationId, Entity, RecoveryCase, Payload, Payment, ProcessedWebhookEvent,
}
use revenue_ai.Store.Session.{
  Session, assign_case, commit, flush, flush_dirty, flush_row, load_case, new_uuid, now,
  record_event, transition, validate_transition, modify, modify_work, add_event,
}
use revenue_ai.Services.Diagnosis.{
  evaluate_eligibility, ask_ai, diagnose_discovered, diagnose_unguarded, review, run_diagnosis,
}
use revenue_ai.Base.{
  ℕ, [], ◌∷◌, true, false, List, Option, ◌≡◌, Bool, String, some, suc, none, refl, zero,
}
use revenue_ai.Ai.{reply, raised, AiRecommendationService, PaymentRecoveryContext, AiOutcome}
use revenue_ai.Provider.Quiet.{
  Preserves, Preserves-bind, Preserves-query, Preserves-or_raise, Preserves-pure, Preserves-if,
  Preserves-raise,
}

-- the links that were asked for, the payments, and the webhook events that are claimed
abbrev pub frame :
    Session → List CreatePaymentLinkRequest × List Payment × List ProcessedWebhookEvent
frame s = (s.sent, s.work.payments, s.work.processed_webhook_events)

pub now-frame : Preserves frame now
unfolding now
now-frame = record { at = λ s. refl }

pub new_uuid-frame : Preserves frame new_uuid
unfolding new_uuid
new_uuid-frame = record { at = λ s. refl }

pub assign_case-frame :
    (id : ℕ) (f : RecoveryCase → RecoveryCase) → Preserves frame (assign_case id f)
unfolding assign_case
assign_case-frame id f = record { at = λ s. refl }

flush_row-frame : (id : ℕ) (l : List Bool) (s : Session) → frame (flush_row id l s).1 ≡ frame s
unfolding flush_row
flush_row-frame id [] s = refl
flush_row-frame id (true ∷ rest) s = refl
flush_row-frame id (false ∷ rest) s = refl

flush_dirty-frame : (d : Option ℕ) (s : Session) → frame (flush_dirty d s).1 ≡ frame s
unfolding flush_dirty
flush_dirty-frame none s = refl
flush_dirty-frame (some id) s = flush_row-frame id s.conflicts s

pub flush-frame : Preserves frame flush
unfolding flush
flush-frame = record { at = λ s. flush_dirty-frame s.dirty s }

set_committed-frame : Preserves frame (modify (λ s. record s { committed = s.work }))
set_committed-frame = record { at = λ s. refl }

ruleset rules = (
  Preserves-bind, Preserves-query, Preserves-or_raise, Preserves-if, Preserves-pure,
  Preserves-raise,
)

pub commit-frame : Preserves frame commit
unfolding commit
commit-frame = search (rules, flush-frame, set_committed-frame)

pub load_case-frame : (id : ℕ) → Preserves frame (load_case id)
unfolding load_case
load_case-frame id = search (rules)

pub load_payment-frame : (id : ℕ) → Preserves frame (load_payment id)
unfolding load_payment
load_payment-frame id = search (rules)

pub load_customer-frame : (id : ℕ) → Preserves frame (load_customer id)
unfolding load_customer
load_customer-frame id = search (rules)

add_event-frame : (e : AuditEvent) → Preserves frame (modify_work (add_event e))
add_event-frame e = record { at = λ s. refl }

pub record_event-frame :
    (entity : Entity) (actor : ActorType) (payload : Payload) (correlation : CorrelationId)
    → Preserves frame (record_event entity actor payload correlation)
unfolding record_event
record_event-frame entity actor payload correlation =
    search (rules, now-frame, flush-frame, add_event-frame)

pub validate_transition-frame :
    (current target : RecoveryCaseStatus) → Preserves frame (validate_transition current target)
unfolding validate_transition
validate_transition-frame current target = search (rules)

pub transition-frame :
    (id : ℕ) (target : RecoveryCaseStatus) (correlation : CorrelationId) (reason : Option String)
    → Preserves frame (transition id target correlation reason)
unfolding transition
transition-frame id target correlation reason = search (
  rules, load_case-frame, validate_transition-frame, assign_case-frame, flush-frame,
  record_event-frame,
)

pub ruleset frames = (
  Preserves-bind, Preserves-query, Preserves-or_raise, Preserves-if, Preserves-pure,
  Preserves-raise, now-frame, new_uuid-frame, assign_case-frame, flush-frame, commit-frame,
  load_case-frame, load_payment-frame, load_customer-frame, record_event-frame,
  validate_transition-frame, transition-frame,
)

call_provider-frame :
    (ai : AiRecommendationService) (context : PaymentRecoveryContext)
    → Preserves frame (call_provider ai context)
unfolding call_provider
call_provider-frame ai context = record { at = λ s. refl }

attempt_loop-frame :
    (ai : AiRecommendationService) (context : PaymentRecoveryContext) (left retries : ℕ)
    → Preserves frame (attempt_loop ai context left retries)
unfolding attempt_loop
attempt_loop-frame ai context zero retries =
    Preserves-bind (call_provider ai context) _ (call_provider-frame ai context)
      (elim [ reply r ↦ Preserves-pure _ | raised e ↦ Preserves-pure _ ])
attempt_loop-frame ai context (suc left) retries =
    let again = attempt_loop-frame ai context left (suc retries) in
    Preserves-bind (call_provider ai context) _ (call_provider-frame ai context)
      (elim [ reply r ↦ Preserves-pure _ | raised e ↦ Preserves-if _ _ _ again (Preserves-pure _) ])

get_recommendation-frame :
    (ai : AiRecommendationService) (context : PaymentRecoveryContext)
    → Preserves frame (get_recommendation ai context)
unfolding get_recommendation
get_recommendation-frame ai context = attempt_loop-frame ai context ai.max_retries 0

evaluate_eligibility-frame :
    (id : ℕ) (correlation : CorrelationId) → Preserves frame (evaluate_eligibility id correlation)
unfolding evaluate_eligibility
evaluate_eligibility-frame id correlation = search (frames)

module _ (ai : AiRecommendationService) (config : PolicyConfig) (id : ℕ)
    (correlation : CorrelationId) where
  ask_ai-frame : Preserves frame (ask_ai ai id correlation)
  unfolding ask_ai
  ask_ai-frame = search (frames, get_recommendation-frame) depth 30

  review-frame : (outcome : AiOutcome) → Preserves frame (review config id outcome correlation)
  unfolding review
  review-frame outcome = search (frames) depth 30

  run_diagnosis-frame : Preserves frame (run_diagnosis ai config id correlation)
  unfolding run_diagnosis
  run_diagnosis-frame = search (frames, ask_ai-frame, review-frame) depth 30

  diagnose_discovered-frame : Preserves frame (diagnose_discovered ai config id correlation)
  unfolding diagnose_discovered
  diagnose_discovered-frame =
      search (frames, evaluate_eligibility-frame, run_diagnosis-frame) depth 30

  pub diagnose_unguarded-frame : Preserves frame (diagnose_unguarded ai config id correlation)
  unfolding diagnose_unguarded
  diagnose_unguarded-frame =
      search (frames, diagnose_discovered-frame, run_diagnosis-frame) depth 30
