-- ===== src/Trail/Growth/Webhook.antt =====
-- backend/app/services/webhook_service.py against the events that the trail has already.
use revenue_ai.Store.Repositories.{get_by_provider_reference}
use revenue_ai.Trail.Growth.Execution.{assign_attempt-grows}
use revenue_ai.Trail.Growth.{Extends, growth, write-grows, Keeps-found}
use revenue_ai.Store.Session.{get_case, Session, modify_work, commit, record_event, ◌>>◌, pure}
use revenue_ai.Trail.Keeps.{Keeps, Safe, Keeps-guard}
use revenue_ai.Domain.Enums.{RecoveryPaymentRequestStatus, system}
use revenue_ai.Services.Webhook.{
  ParsedWebhookEvent, claim_event, insert_claim, lost_race, pop_race, settle,
  apply_payment_link_event, apply_to_case, process_claimed, process_webhook_event, apply_to_request,
  assign_request, ignored,
}
use revenue_ai.Store.Models.{
  CorrelationId, RecoveryPaymentRequest, RecoveryCase, ProcessedWebhookEvent, webhook,
  webhook_unmatched_payment_link, Db,
}
use revenue_ai.Base.{
  ◌∷◌, some, none, List, ℕ, Bool, ℤ, Option, String, refl, update, ◌==◌, ◌++◌, [],
}

module _ {base : Db} where
  pop_race-grows :
      (l : List Bool) (s : Session)
      → Extends base s.work
      → Extends base s.committed
      → Safe (Extends base) (pop_race l s)
  unfolding pop_race
  pop_race-grows [] s w c = (w, c)
  pop_race-grows (lost ∷ rest) s w c = (w, c)

  lost_race-grows : Keeps (Extends base) lost_race
  unfolding lost_race
  lost_race-grows = record { at = λ s w c. pop_race-grows s.races s w c }

  add_claim-grows :
      (e : ProcessedWebhookEvent)
      → Keeps (Extends base) (
          modify_work (λ db. record db {
            processed_webhook_events = db.processed_webhook_events ++ (e ∷ []);
          }))
  add_claim-grows e =
      write-grows
        (λ db. record db { processed_webhook_events = db.processed_webhook_events ++ (e ∷ []) })
        (λ db. refl) (λ db. refl)

  insert_claim-grows : (event : ParsedWebhookEvent) → Keeps (Extends base) (insert_claim event)
  unfolding insert_claim
  insert_claim-grows event = search (growth, lost_race-grows, add_claim-grows) depth 30

  claim_event-grows : (event : ParsedWebhookEvent) → Keeps (Extends base) (claim_event event)
  unfolding claim_event
  claim_event-grows event = search (growth, insert_claim-grows)

  assign_request-grows :
      (id : ℕ) (f : RecoveryPaymentRequest → RecoveryPaymentRequest)
      → Keeps (Extends base) (assign_request id f)
  assign_request-grows id f =
      write-grows
        (λ db. record db {
          payment_requests =
              update (λ (r : RecoveryPaymentRequest). r.id == id) f db.payment_requests;
        })
        (λ db. refl) (λ db. refl)

  settle-grows :
      (r : RecoveryPaymentRequest) (status : RecoveryPaymentRequestStatus) (amount : ℤ)
      (correlation : CorrelationId)
      → Keeps (Extends base) (settle r status amount correlation)
  unfolding settle
  settle-grows r status amount correlation = search (growth, assign_attempt-grows) depth 30

module _ {base : Db} (event : ParsedWebhookEvent) (status : RecoveryPaymentRequestStatus)
    (correlation : CorrelationId) where
  apply_to_case-grows :
      (r : RecoveryPaymentRequest) (case : RecoveryCase)
      → Keeps (Extends base) (apply_to_case event status r case correlation)
  unfolding apply_to_case
  apply_to_case-grows r case = search (growth, assign_request-grows, settle-grows) depth 30

  apply_to_request-grows :
      (r : RecoveryPaymentRequest)
      → Keeps (Extends base) (apply_to_request event status r correlation)
  apply_to_request-grows r =
      Keeps-found (get_case r.recovery_case_id)
        (λ case. apply_to_case event status r case correlation) (commit >> pure ignored)
        (apply_to_case-grows r) (search (growth) depth 30)

  apply_payment_link_event-grows :
      (link : String)
      → Keeps (Extends base) (apply_payment_link_event event link status correlation)
  unfolding apply_payment_link_event
  apply_payment_link_event-grows link =
      Keeps-found (get_by_provider_reference link)
        (λ r. apply_to_request event status r correlation)
        (record_event (webhook link) system (webhook_unmatched_payment_link link event.event_type)
            correlation
          >> commit
          >> pure ignored)
        apply_to_request-grows (search (growth) depth 30)

module _ {base : Db} (event : ParsedWebhookEvent) (correlation : CorrelationId) where
  process_claimed-grows :
      (link : Option String) (status : Option RecoveryPaymentRequestStatus)
      → Keeps (Extends base) (process_claimed event link status correlation)
  unfolding process_claimed
  process_claimed-grows (some link) (some status) =
      Keeps-guard _ (apply_payment_link_event-grows event status correlation link)
  process_claimed-grows (some link) none = search (growth) depth 30
  process_claimed-grows none (some status) = search (growth) depth 30
  process_claimed-grows none none = search (growth) depth 30

  pub process_webhook_event-grows : Keeps (Extends base) (process_webhook_event event correlation)
  unfolding process_webhook_event
  process_webhook_event-grows = search (growth, claim_event-grows, process_claimed-grows) depth 30
