-- ===== src/Trail/Execution.antt =====
-- `execute_recovery_case` (backend/app/services/execution_service.py) against the invariant.
use revenue_ai.Ai.{reply}
use revenue_ai.Trail.Diagnosis.{load_payment-Keeps}
use revenue_ai.Trail.Transition.{transition-Keeps}
use revenue_ai.Trail.Primitives.{
  load_case-Keeps, new_uuid-Keeps, now-Keeps, record_event-Keeps, commit-Keeps,
  validate_transition-Keeps, assign_case-Keeps, flush-Keeps, record_case-Keeps,
}
use revenue_ai.Store.Session.{
  record_event, load_case, new_uuid, now, query, transition, pure, or_raise, raise,
  validate_transition, commit, validation_failed, value_error, assign_case, modify_work, ◌>>◌,
  integrity_error, ◌>>=◌, flush,
}
use revenue_ai.Domain.Policy.{PolicyDecision}
use revenue_ai.Trail.{IsValid}
use revenue_ai.Trail.Keeps.{
  Keeps, Keeps-bind, Keeps-guard, Keeps-then, Keeps-modify_work, Keeps-if, Keeps-query,
  Keeps-or_raise, Keeps-raise, Keeps-pure,
}
use revenue_ai.Domain.Enums.{
  ActorType, ProviderFailureCategory, RecoveryAction, PolicyDecisionType, escalated, system,
  executing, block, allow, category_value, policy_engine, send_payment_link,
}
use revenue_ai.Store.Models.{
  RecoveryAttempt, RecoveryPaymentRequest, CorrelationId, Payload, Payment, RecoveryCase,
  payment_link_created, recovery_attempt, provider_ambiguous_result, provider_state_reconciliation,
  recovery_case, execution_requested, policy_rechecked, execution_started,
}
use revenue_ai.Domain.Providers.{
  reply, PaymentLinkSnapshot, PaymentProvider, PaymentProviderError, ProviderReply, refused,
  is_executable,
}
use revenue_ai.Services.Settings.{Settings, load_payment}
use revenue_ai.Services.Execution.{
  after_reconciliation, escalate_case, handle_ambiguous_creation, handle_definite_failure,
  handle_reply, insert_payment_request, record_payment_link_created, call_find, call_create,
  create_payment_link, execute_recovery_case, execute_unguarded, proceed, recheck_policy,
  assign_attempt, eqb_ℤ, is_ambiguous, new_payment_request, same_link, failure_category,
  succeed_attempt, fail_attempt, reconciled_link, link_request, new_attempt, reconciliation_error,
}
use revenue_ai.Trail.Database.{Harmless}
use revenue_ai.Base.{
  if◌then◌else◌, ℕ, String, ◌+◌, refl, Option, some, any, or_else, none, is_some, ◌++◌, ◌∷◌, [],
}

pub count-Harmless :
    Harmless (λ c. record c { current_attempt_number = c.current_attempt_number + 1 })
count-Harmless = record {
  same_id = λ c. refl;
  same_status = λ c. refl;
  same_contacts = λ c. refl;
  same_money = λ c. refl;
}

pub assign_attempt-Keeps :
    (id : ℕ) (f : RecoveryAttempt → RecoveryAttempt) → Keeps IsValid (assign_attempt id f)
assign_attempt-Keeps id f = Keeps-modify_work _ (λ db w. w)

-- an event of an attempt, which no case's trail reads
attempt_event-Keeps :
    (id : ℕ) (actor : ActorType) (payload : Payload) (correlation : CorrelationId)
    → Keeps IsValid (record_event (recovery_attempt id) actor payload correlation)
attempt_event-Keeps id actor payload correlation =
    record_event-Keeps (recovery_attempt id) actor payload correlation (λ j t. refl)

escalate_case-Keeps :
    (id : ℕ) (reason : String) (correlation : CorrelationId) (decision : Option PolicyDecision)
    → Keeps IsValid (escalate_case id reason correlation decision)
unfolding escalate_case
escalate_case-Keeps id reason correlation decision =
    Keeps-then (transition id escalated correlation (some reason)) _
      (transition-Keeps id escalated correlation (some reason))
      (Keeps-then commit _ commit-Keeps
        (Keeps-bind (load_case id) _ (load_case-Keeps id) (λ case. Keeps-pure _)))

handle_definite_failure-Keeps :
    (id attempt : ℕ) (error : PaymentProviderError) (correlation : CorrelationId)
    (category : Option ProviderFailureCategory) (reason : Option String)
    → Keeps IsValid (handle_definite_failure id attempt error correlation category reason)
unfolding handle_definite_failure
handle_definite_failure-Keeps id attempt error correlation category reason =
    Keeps-bind now _ now-Keeps (λ at.
      let chosen = or_else category (failure_category error.kind) in
      Keeps-then (assign_attempt attempt (fail_attempt (category_value chosen) error.message at)) _
        (assign_attempt-Keeps attempt (fail_attempt (category_value chosen) error.message at))
        (Keeps-then flush _ flush-Keeps (escalate_case-Keeps id _ correlation none)))

insert_payment_request-Keeps :
    (r : RecoveryPaymentRequest) → Keeps IsValid (insert_payment_request r)
unfolding insert_payment_request
insert_payment_request-Keeps r =
    Keeps-bind (query (λ db. any (same_link r) db.payment_requests)) _ (Keeps-query _) (λ clash.
      Keeps-if clash (raise integrity_error) _ (Keeps-raise integrity_error) (
        Keeps-modify_work (λ db. record db { payment_requests = db.payment_requests ++ (r ∷ []) })
          (λ db w. w)))

record_payment_link_created-Keeps :
    (id attempt key : ℕ) (link : PaymentLinkSnapshot) (correlation : CorrelationId)
    → Keeps IsValid (record_payment_link_created id attempt key link correlation)
unfolding record_payment_link_created
record_payment_link_created-Keeps id attempt key link correlation =
    let told =
      payment_link_created link.provider_reference link.short_url link.amount link.currency
        link.expires_at in
    Keeps-bind new_uuid _ new_uuid-Keeps (λ request_id.
      Keeps-then (insert_payment_request (new_payment_request request_id id attempt key link)) _
        (insert_payment_request-Keeps (new_payment_request request_id id attempt key link))
        (Keeps-bind now _ now-Keeps (λ at.
          Keeps-then (assign_attempt attempt (succeed_attempt link.provider_reference at)) _
            (assign_attempt-Keeps attempt (succeed_attempt link.provider_reference at))
            (Keeps-then
              (assign_case id
                (λ c. record c { current_attempt_number = c.current_attempt_number + 1 }))
              _ (assign_case-Keeps id _ count-Harmless)
              (Keeps-then flush _ flush-Keeps (
                Keeps-then (record_event (recovery_case id) system told correlation) _
                  (record_case-Keeps id system told correlation (λ t. refl))
                  (Keeps-then commit _ commit-Keeps
                    (Keeps-bind (load_case id) _ (load_case-Keeps id) (λ case. Keeps-pure _)))))))))

reconciled-Keeps :
    (id attempt key : ℕ) (error : PaymentProviderError) (correlation : CorrelationId)
    (found : Option PaymentLinkSnapshot)
    → Keeps IsValid (after_reconciliation id attempt key error correlation found)
unfolding after_reconciliation
reconciled-Keeps id attempt key error correlation none =
    handle_definite_failure-Keeps id attempt error correlation _ _
reconciled-Keeps id attempt key error correlation (some link) =
    record_payment_link_created-Keeps id attempt key link correlation

handle_ambiguous_creation-Keeps :
    (provider : PaymentProvider) (id attempt key : ℕ) (error : PaymentProviderError)
    (correlation : CorrelationId)
    → Keeps IsValid (handle_ambiguous_creation provider id attempt key error correlation)
unfolding handle_ambiguous_creation call_find
handle_ambiguous_creation-Keeps provider id attempt key error correlation =
    Keeps-then
      (record_event (recovery_attempt attempt) system (provider_ambiguous_result error.message)
        correlation)
      _ (attempt_event-Keeps attempt system (provider_ambiguous_result error.message) correlation)
      (Keeps-bind (call_find provider key) _ (record { at = λ s w c. (w, c) })
        (λ found.
          let told =
            provider_state_reconciliation (is_some (reconciled_link found))
              (reconciliation_error found) in
          Keeps-then (record_event (recovery_attempt attempt) system told correlation) _
            (attempt_event-Keeps attempt system told correlation)
            (Keeps-then commit _ commit-Keeps
              (reconciled-Keeps id attempt key error correlation (reconciled_link found)))))

handle_reply-Keeps :
    (provider : PaymentProvider) (id attempt key : ℕ) (correlation : CorrelationId)
    (answer : ProviderReply PaymentLinkSnapshot)
    → Keeps IsValid (handle_reply provider id attempt key correlation answer)
unfolding handle_reply
handle_reply-Keeps provider id attempt key correlation (reply link) =
    record_payment_link_created-Keeps id attempt key link correlation
handle_reply-Keeps provider id attempt key correlation (refused error) =
    Keeps-if (is_ambiguous error.kind) _ _
      (handle_ambiguous_creation-Keeps provider id attempt key error correlation)
      (handle_definite_failure-Keeps id attempt error correlation none none)

module _ (settings : Settings) (provider : PaymentProvider) (id : ℕ)
    (correlation : CorrelationId) where
  -- from the second look at the amount to the provider's answer
  ask_provider-Keeps :
      (key attempt : ℕ) (p p' : Payment)
      → Keeps IsValid (
          (if eqb_ℤ p.amount p'.amount then pure tt else raise validation_failed)
          >> (now >>= λ at. call_create provider (link_request settings key p at) >>= λ answer.
              handle_reply provider id attempt key correlation answer))
  unfolding call_create
  ask_provider-Keeps key attempt p p' =
      Keeps-then (if eqb_ℤ p.amount p'.amount then pure tt else raise validation_failed) _
        (Keeps-if _ _ _ (Keeps-pure tt) (Keeps-raise validation_failed))
        (Keeps-bind now _ now-Keeps (λ at.
          Keeps-bind (call_create provider (link_request settings key p at)) _
            (record { at = λ s w c. (w, c) })
            (λ answer. handle_reply-Keeps provider id attempt key correlation answer)))

  create_payment_link-Keeps :
      (payment_id : ℕ)
      → Keeps IsValid (create_payment_link settings provider id payment_id correlation)
  unfolding create_payment_link
  create_payment_link-Keeps payment_id = Keeps-bind new_uuid _ new_uuid-Keeps (λ key.
      Keeps-bind (load_payment payment_id) _ (load_payment-Keeps payment_id) (λ p.
        Keeps-bind now _ now-Keeps (λ at. Keeps-bind new_uuid _ new_uuid-Keeps (λ attempt.
          Keeps-then
            (modify_work (λ db. record db {
              attempts = db.attempts ++ (new_attempt attempt id key p correlation at ∷ []);
            }))
            _ (Keeps-modify_work _ (λ db w. w))
            (Keeps-then
              (record_event (recovery_attempt attempt) system
                (execution_started send_payment_link p.amount p.currency) correlation)
              _
              (attempt_event-Keeps attempt system
                (execution_started send_payment_link p.amount p.currency) correlation)
              (Keeps-then commit _ commit-Keeps (
                Keeps-bind (load_payment payment_id) _ (load_payment-Keeps payment_id)
                  (λ p'. ask_provider-Keeps key attempt p p'))))))))

  proceed-Keeps :
      (payment_id : ℕ) (action : RecoveryAction) (decision : PolicyDecision)
      (verdict : PolicyDecisionType)
      → Keeps IsValid (proceed settings provider id payment_id action decision correlation verdict)
  unfolding proceed
  proceed-Keeps payment_id action decision block =
      escalate_case-Keeps id _ correlation (some decision)
  proceed-Keeps payment_id action decision allow =
      Keeps-if (is_executable action) _ _
        (Keeps-then commit _ commit-Keeps (create_payment_link-Keeps payment_id))
        (escalate_case-Keeps id _ correlation (some decision))

  recheck_policy-Keeps : (case : RecoveryCase) → Keeps IsValid (recheck_policy settings case)
  unfolding recheck_policy
  recheck_policy-Keeps case = Keeps-bind now _ now-Keeps (λ at.
      Keeps-bind (or_raise case.recommended_action value_error) _
        (Keeps-or_raise case.recommended_action value_error)
        (λ action.
          Keeps-bind (load_payment case.payment_id) _ (load_payment-Keeps case.payment_id)
            (λ p. Keeps-pure _)))

  execute_unguarded-Keeps : Keeps IsValid (execute_unguarded settings provider id correlation)
  unfolding execute_unguarded
  execute_unguarded-Keeps = Keeps-bind (load_case id) _ (load_case-Keeps id) (λ case.
      Keeps-then (validate_transition case.status executing) _
        (validate_transition-Keeps case.status executing)
        (Keeps-then
          (record_event (recovery_case id) system (execution_requested case.status) correlation) _
          (record_case-Keeps id system (execution_requested case.status) correlation (λ t. refl))
          (Keeps-bind (recheck_policy settings case) _ (recheck_policy-Keeps case) (λ decision.
            let told =
              policy_rechecked decision.decision decision.reason_codes decision.policy_version in
            Keeps-then (record_event (recovery_case id) policy_engine told correlation) _
              (record_case-Keeps id policy_engine told correlation (λ t. refl))
              (Keeps-then (transition id executing correlation none) _
                (transition-Keeps id executing correlation none)
                (Keeps-bind (or_raise case.recommended_action value_error) _
                  (Keeps-or_raise case.recommended_action value_error)
                  (λ action. proceed-Keeps case.payment_id action decision decision.decision)))))))

  pub execute_recovery_case-Keeps :
      Keeps IsValid (execute_recovery_case settings provider id correlation)
  unfolding execute_recovery_case
  execute_recovery_case-Keeps = Keeps-guard _ execute_unguarded-Keeps
