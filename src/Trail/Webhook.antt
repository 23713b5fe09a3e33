-- ===== src/Trail/Webhook.antt =====
-- `process_webhook_event` (backend/app/services/webhook_service.py) against the invariant. Nothing
-- catches its errors, so after one only the committed tables count.
use revenue_ai.Trail.Execution.{assign_attempt-Keeps}
use revenue_ai.Services.Execution.{assign_attempt}
use revenue_ai.Trail.Primitives.{
  commit-Keeps, rollback-Keeps, record_case-Keeps, record_event-Keeps,
}
use revenue_ai.Store.Repositories.{get_by_provider_reference, is_processed}
use revenue_ai.Trail.Transition.{credit-Settles, transition-Keeps}
use revenue_ai.Store.Session.{
  Session, commit, query, ◌>>◌, pure, rollback, record_event, modify_work, get_case,
}
use revenue_ai.Trail.{IsValid, TrailState, payload_state}
use revenue_ai.Trail.Keeps.{
  Keeps, Settles, Keeps-bind, Settles-bind, Settles-if, Keeps-if, Safe, Settles-Keeps,
  Settles-guard, Settles-then, Keeps-pure, Keeps-query, Keeps-then, Keeps-modify_work,
}
use revenue_ai.Store.Models.{
  CorrelationId, RecoveryPaymentRequest, RecoveryCase, webhook, recovery_case,
  webhook_unmatched_payment_link,
}
use revenue_ai.Domain.Enums.{RecoveryPaymentRequestStatus, system, failed, status_eq, executing}
use revenue_ai.Services.Webhook.{
  ParsedWebhookEvent, ProcessStatus, apply_payment_link_event, apply_to_case, claim_event,
  insert_claim, lost_race, pop_race, process_claimed, process_webhook_event, settle, ignored,
  paid_amount, is_fully_paid, payment_event, relevant_status, assign_request, duplicate,
  update_request, end_attempt, claim_of, apply_to_request, processed,
}
use revenue_ai.Base.{
  [], ◌∷◌, List, Option, String, Bool, ℤ, some, ◌≡◌, false, none, refl, ◌++◌, true,
}

pop_race-Safe :
    (l : List Bool) (s : Session)
    → IsValid s.work
    → IsValid s.committed
    → Safe IsValid (pop_race l s)
unfolding pop_race
pop_race-Safe [] s w c = (w, c)
pop_race-Safe (lost ∷ rest) s w c = (w, c)

lost_race-Keeps : Keeps IsValid lost_race
unfolding lost_race
lost_race-Keeps = record { at = λ s w c. pop_race-Safe s.races s w c }

insert_claim-Keeps : (event : ParsedWebhookEvent) → Keeps IsValid (insert_claim event)
unfolding insert_claim
insert_claim-Keeps event = Keeps-bind lost_race _ lost_race-Keeps (λ lost.
    Keeps-if lost (rollback >> pure false) _
      (Keeps-then rollback _ rollback-Keeps (Keeps-pure false))
      (Keeps-then
        (modify_work (λ db. record db {
          processed_webhook_events = db.processed_webhook_events ++ (claim_of event ∷ []);
        }))
        (pure true) (Keeps-modify_work _ (λ db w. w)) (Keeps-pure true)))

claim_event-Keeps : (event : ParsedWebhookEvent) → Keeps IsValid (claim_event event)
unfolding claim_event
claim_event-Keeps event =
    Keeps-bind (query (is_processed event.dedup_key)) _ (Keeps-query (is_processed event.dedup_key))
      (λ seen.
        Keeps-if seen (pure false) (insert_claim event) (Keeps-pure false)
          (insert_claim-Keeps event))

silent_payment :
    (status : RecoveryPaymentRequestStatus) (reference : String) (amount : ℤ)
    (payment_id : Option String) (t : TrailState)
    → payload_state (payment_event status reference amount payment_id) t ≡ t
silent_payment RecoveryPaymentRequestStatus.paid reference amount payment_id t = refl
silent_payment RecoveryPaymentRequestStatus.created reference amount payment_id t = refl
silent_payment RecoveryPaymentRequestStatus.partially_paid reference amount payment_id t = refl
silent_payment RecoveryPaymentRequestStatus.expired reference amount payment_id t = refl
silent_payment RecoveryPaymentRequestStatus.cancelled reference amount payment_id t = refl

settle-Settles :
    (r : RecoveryPaymentRequest) (status : RecoveryPaymentRequestStatus) (amount : ℤ)
    (correlation : CorrelationId)
    → Settles IsValid (settle r status amount correlation)
unfolding settle
settle-Settles r status amount correlation =
    Settles-if (is_fully_paid status amount r.amount) _ _
      (credit-Settles r.recovery_case_id amount correlation (some "webhook_confirmed"))
      (Settles-Keeps _ (
        Keeps-then (assign_attempt r.recovery_attempt_id (end_attempt status)) _
          (assign_attempt-Keeps r.recovery_attempt_id (end_attempt status))
          (transition-Keeps r.recovery_case_id failed correlation (some "webhook_confirmed"))))

committed-Settles : (status : ProcessStatus) → Settles IsValid (commit >> pure status)
committed-Settles status = Settles-Keeps _ (Keeps-then commit _ commit-Keeps (Keeps-pure status))

apply_to_case-Settles :
    (event : ParsedWebhookEvent) (status : RecoveryPaymentRequestStatus)
    (r : RecoveryPaymentRequest) (case : RecoveryCase) (correlation : CorrelationId)
    → Settles IsValid (apply_to_case event status r case correlation)
unfolding apply_to_case
apply_to_case-Settles event status r case correlation =
    let amount = paid_amount event.amount_paid r.amount_paid in
    let told = payment_event status r.provider_reference amount event.payment_id in
    Settles-then (assign_request r.id (update_request status amount)) _
      (Settles-Keeps _ (Keeps-modify_work _ (λ db w. w)))
      (Settles-then (record_event (recovery_case case.id) system told correlation) _
        (Settles-Keeps _ (
          record_case-Keeps case.id system told correlation
            (silent_payment status r.provider_reference amount event.payment_id)))
        (Settles-if (status_eq case.status executing) _ _
          (Settles-then (settle r status amount correlation >> commit) (pure processed)
            (Settles-then (settle r status amount correlation) commit
              (settle-Settles r status amount correlation) (Settles-Keeps _ commit-Keeps))
            (Settles-Keeps _ (Keeps-pure processed)))
          (committed-Settles ignored)))

found_case-Settles :
    (event : ParsedWebhookEvent) (status : RecoveryPaymentRequestStatus)
    (r : RecoveryPaymentRequest) (correlation : CorrelationId) (found : Option RecoveryCase)
    → Settles IsValid (elim found [
      | none ↦ commit >> pure ignored
      | some case ↦ apply_to_case event status r case correlation
    ])
found_case-Settles event status r correlation none = committed-Settles ignored
found_case-Settles event status r correlation (some case) =
    apply_to_case-Settles event status r case correlation

found_request-Settles :
    (event : ParsedWebhookEvent) (link : String) (status : RecoveryPaymentRequestStatus)
    (correlation : CorrelationId) (found : Option RecoveryPaymentRequest)
    → Settles IsValid (elim found [
      | none ↦
          record_event
            (webhook link)
            system
            (webhook_unmatched_payment_link link event.event_type)
            correlation
          >> commit
          >> pure ignored
      | some r ↦ apply_to_request event status r correlation
    ])
found_request-Settles event link status correlation none =
    let told = webhook_unmatched_payment_link link event.event_type in
    Settles-Keeps _ (
      Keeps-then (record_event (webhook link) system told correlation >> commit) (pure ignored)
        (Keeps-then (record_event (webhook link) system told correlation) commit
          (record_event-Keeps (webhook link) system told correlation (λ j t. refl)) commit-Keeps)
        (Keeps-pure ignored))
found_request-Settles event link status correlation (some r) =
    Settles-bind (query (get_case r.recovery_case_id)) _
      (Settles-Keeps _ (Keeps-query (get_case r.recovery_case_id)))
      (λ found. found_case-Settles event status r correlation found)

apply_payment_link_event-Settles :
    (event : ParsedWebhookEvent) (link : String) (status : RecoveryPaymentRequestStatus)
    (correlation : CorrelationId)
    → Settles IsValid (apply_payment_link_event event link status correlation)
unfolding apply_payment_link_event
apply_payment_link_event-Settles event link status correlation =
    Settles-bind (query (get_by_provider_reference link)) _
      (Settles-Keeps _ (Keeps-query (get_by_provider_reference link)))
      (λ found. found_request-Settles event link status correlation found)

process_claimed-Settles :
    (event : ParsedWebhookEvent) (link : Option String)
    (status : Option RecoveryPaymentRequestStatus) (correlation : CorrelationId)
    → Settles IsValid (process_claimed event link status correlation)
unfolding process_claimed
process_claimed-Settles event none status correlation = committed-Settles ignored
process_claimed-Settles event (some link) none correlation = committed-Settles ignored
process_claimed-Settles event (some link) (some status) correlation =
    Settles-guard _ (apply_payment_link_event-Settles event link status correlation)

pub process_webhook_event-Settles :
    (event : ParsedWebhookEvent) (correlation : CorrelationId)
    → Settles IsValid (process_webhook_event event correlation)
unfolding process_webhook_event
process_webhook_event-Settles event correlation =
    Settles-bind (claim_event event) _ (Settles-Keeps _ (claim_event-Keeps event)) (λ claimed.
      Settles-if claimed _ _
        (process_claimed-Settles event event.payment_link_id
          (relevant_status event.payment_link_status) correlation)
        (Settles-Keeps _ (Keeps-pure duplicate)))
