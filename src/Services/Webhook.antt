-- ===== src/Services/Webhook.antt =====
-- backend/app/services/webhook_service.py and the parts of payments/webhooks.py that it reads: the
-- only way from EXECUTING to RECOVERED. The signature is verified before, by the caller.
use revenue_ai.Base.{
  ℕ, zero, ◌==◌, ⊤, ℤ, pos, ◌+ℤ◌, leb_ℤ, String, str_eq, Bool, true, false, ◌&&◌, Option, none,
  some, List, [], ◌∷◌, ◌++◌, update, if◌then◌else◌,
}
use Prim.Native.String.{◌++◌ as ◌+++◌}
use revenue_ai.Domain.Enums.{
  executing, recovered, failed, status_eq, system, RecoveryPaymentRequestStatus, paid, expired,
  cancelled, link_status_value, ProviderFailureCategory, payment_expired, payment_failed,
  category_value,
}
use revenue_ai.Store.Models.{
  RecoveryCase, RecoveryAttempt, RecoveryPaymentRequest, ProcessedWebhookEvent, webhook,
  recovery_case, webhook_unmatched_payment_link, Payload, payment_confirmed, payment_not_recovered,
  CorrelationId,
}
use revenue_ai.Store.Session.{
  Action, pure, query, modify_work, ◌>>=◌, ◌>>◌, ok, assign_case, commit, rollback, record_event,
  transition, guard_against_concurrent_modification, get_case,
}
use revenue_ai.Store.Repositories.{get_by_provider_reference, is_processed}
use revenue_ai.Services.Execution.{assign_attempt}

pub record ParsedWebhookEvent : Type 0 where
  pub event_type : String
  pub payment_link_id : Option String
  pub payment_link_status : Option String
  pub amount_paid : Option ℤ
  pub payment_id : Option String
  pub dedup_key : String

pub data ProcessStatus : Type 0 where
  processed duplicate ignored : ProcessStatus

-- `status in _RELEVANT_LINK_STATUSES`, with the `RecoveryPaymentRequestStatus` of that value
unfoldable pub relevant_status : Option String → Option RecoveryPaymentRequestStatus
relevant_status none = none
relevant_status (some value) =
    if str_eq value (link_status_value paid)
    then some paid
    else (if str_eq value (link_status_value expired)
        then some expired
        else (if str_eq value (link_status_value cancelled) then some cancelled else none))

unfoldable pub pop_race : List Bool → Action Bool
pop_race [] s = (ok false, s)
pop_race (lost ∷ rest) s = (ok lost, record s { races = rest })

-- the next answer of `races`: whether a concurrent delivery has claimed the event first
unfoldable pub lost_race : Action Bool
lost_race s = pop_race s.races s

abbrev pub claim_of : ParsedWebhookEvent → ProcessedWebhookEvent
claim_of event = record {
  provider = "razorpay";
  event_type = event.event_type;
  dedup_key = event.dedup_key;
}

unfoldable pub insert_claim : ParsedWebhookEvent → Action Bool
insert_claim event = lost_race >>= λ lost.
    if lost
    then (rollback >> pure false)
    else (modify_work (λ db. record db {
      processed_webhook_events = db.processed_webhook_events ++ (claim_of event ∷ []);
    })
        >> pure true)

-- `_claim_event`
unfoldable pub claim_event : ParsedWebhookEvent → Action Bool
claim_event event =
    query (is_processed event.dedup_key) >>= λ seen. if seen then pure false else insert_claim event

-- `event.amount_paid or payment_request.amount_paid`: an amount of 0 counts as absent
unfoldable pub paid_amount : Option ℤ → ℤ → ℤ
paid_amount none old = old
paid_amount (some (pos zero)) old = old
paid_amount (some amount) old = amount

abbrev pub is_paid : RecoveryPaymentRequestStatus → Bool
is_paid paid = true
is_paid _ = false

abbrev pub update_request :
    RecoveryPaymentRequestStatus → ℤ → RecoveryPaymentRequest → RecoveryPaymentRequest
update_request status amount r = record r { status = status; amount_paid = amount }

abbrev pub assign_request : ℕ → (RecoveryPaymentRequest → RecoveryPaymentRequest) → Action ⊤
assign_request id f = modify_work (λ db. record db {
  payment_requests = update (λ (r : RecoveryPaymentRequest). r.id == id) f db.payment_requests;
})

abbrev pub payment_event : RecoveryPaymentRequestStatus → String → ℤ → Option String → Payload
payment_event status reference amount payment_id =
    if is_paid status
    then payment_confirmed reference status amount payment_id
    else payment_not_recovered reference status amount payment_id

abbrev pub end_category : RecoveryPaymentRequestStatus → ProviderFailureCategory
end_category expired = payment_expired
end_category _ = payment_failed

abbrev pub end_attempt : RecoveryPaymentRequestStatus → RecoveryAttempt → RecoveryAttempt
end_attempt status a = record a {
  failure_code = some (category_value (end_category status));
  failure_message = some ("Payment link ended in status '" +++ link_status_value status +++ "'.");
}

unfoldable pub is_fully_paid : RecoveryPaymentRequestStatus → ℤ → ℤ → Bool
is_fully_paid status amount_paid amount = is_paid status && leb_ℤ amount amount_paid

-- the end of a case that waits for its payment
unfoldable pub settle :
    RecoveryPaymentRequest → RecoveryPaymentRequestStatus → ℤ → CorrelationId → Action ⊤
settle r status amount correlation =
    if is_fully_paid status amount r.amount
    then (assign_case r.recovery_case_id
          (λ c. record c { recovered_amount = c.recovered_amount +ℤ amount })
        >> transition r.recovery_case_id recovered correlation (some "webhook_confirmed"))
    else (assign_attempt r.recovery_attempt_id (end_attempt status)
        >> transition r.recovery_case_id failed correlation (some "webhook_confirmed"))

-- an event on a link of ours, whose case is there
unfoldable pub apply_to_case :
    ParsedWebhookEvent
    → RecoveryPaymentRequestStatus
    → RecoveryPaymentRequest
    → RecoveryCase
    → CorrelationId
    → Action ProcessStatus
apply_to_case event status r case correlation = do
  let amount = paid_amount event.amount_paid r.amount_paid
  assign_request r.id (update_request status amount)
  record_event (recovery_case case.id) system
      (payment_event status r.provider_reference amount event.payment_id) correlation
  if status_eq case.status executing
      then (settle r status amount correlation >> commit >> pure processed)
      else (commit >> pure ignored)

abbrev pub apply_to_request :
    ParsedWebhookEvent
    → RecoveryPaymentRequestStatus
    → RecoveryPaymentRequest
    → CorrelationId
    → Action ProcessStatus
apply_to_request event status r correlation = query (get_case r.recovery_case_id) >>= λ found.
    elim found [
      | none ↦ commit >> pure ignored
      | some case ↦ apply_to_case event status r case correlation
    ]

-- `_apply_payment_link_event`
unfoldable pub apply_payment_link_event :
    ParsedWebhookEvent
    → String
    → RecoveryPaymentRequestStatus
    → CorrelationId
    → Action ProcessStatus
apply_payment_link_event event link status correlation =
    query (get_by_provider_reference link) >>= λ found. elim found [
      | none ↦
          record_event (webhook link) system (webhook_unmatched_payment_link link event.event_type)
            correlation
          >> commit
          >> pure ignored
      | some r ↦ apply_to_request event status r correlation
    ]

-- an event that is claimed
unfoldable pub process_claimed :
    ParsedWebhookEvent
    → Option String
    → Option RecoveryPaymentRequestStatus
    → CorrelationId
    → Action ProcessStatus
process_claimed event (some link) (some status) correlation =
    guard_against_concurrent_modification (apply_payment_link_event event link status correlation)
process_claimed event _ _ correlation = commit >> pure ignored

unfoldable pub process_webhook_event : ParsedWebhookEvent → CorrelationId → Action ProcessStatus
process_webhook_event event correlation = claim_event event >>= λ claimed.
    if claimed
    then process_claimed event event.payment_link_id (relevant_status event.payment_link_status)
        correlation
    else pure duplicate
