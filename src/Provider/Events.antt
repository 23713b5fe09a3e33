-- ===== src/Provider/Events.antt =====
-- backend/app/services/webhook_service.py: the claims of webhook events, over repeated deliveries.
use revenue_ai.Store.Repositories.{get_by_provider_reference, is_processed}
use revenue_ai.Services.Execution.{assign_attempt}
use revenue_ai.Provider.Durable.{
  Durable, durable, Durable-bind, Durable-guard, commit_value-Durable, Stored,
}
use revenue_ai.Api.{World, open_session}
use revenue_ai.Provider.Frames.{frame, frames}
use revenue_ai.Provider.Quiet.{Preserves, Preserves-bind, Preserves-query}
use revenue_ai.Domain.Enums.{RecoveryPaymentRequestStatus, system}
use revenue_ai.Store.Models.{
  Db, RecoveryAttempt, RecoveryPaymentRequest, CorrelationId, ProcessedWebhookEvent, RecoveryCase,
  webhook, webhook_unmatched_payment_link,
}
use revenue_ai.Services.Webhook.{
  ParsedWebhookEvent, apply_payment_link_event, apply_to_case, process_claimed, settle,
  ProcessStatus, assign_request, apply_to_request, claim_of, process_webhook_event, claim_event,
  insert_claim, relevant_status, lost_race, pop_race,
}
use revenue_ai.Store.Session.{
  Action, Result, Session, guard_against_concurrent_modification, guard_result, ok, commit,
  record_event, query, ◌>>◌, pure, get_case, Error, err,
}
use revenue_ai.Base.{
  ◌++◌, [], ◌∷◌, ◌≡◌, true, false, refl, none, some, inl, inr, find, is_some, Bool, ℕ, List, String,
  Bool-cases, Option, ℤ, sym, ap, ◌∙◌, subst, str_eq,
}
use text.Mathlib.TextPositions.{eq_refl}

assign_attempt-frame :
    (id : ℕ) (f : RecoveryAttempt → RecoveryAttempt) → Preserves frame (assign_attempt id f)
assign_attempt-frame id f = record { at = λ s. refl }

assign_request-frame :
    (id : ℕ) (f : RecoveryPaymentRequest → RecoveryPaymentRequest)
    → Preserves frame (assign_request id f)
assign_request-frame id f = record { at = λ s. refl }

settle-frame :
    (r : RecoveryPaymentRequest) (status : RecoveryPaymentRequestStatus) (amount : ℤ)
    (correlation : CorrelationId)
    → Preserves frame (settle r status amount correlation)
unfolding settle
settle-frame r status amount correlation = search (frames, assign_attempt-frame) depth 30

apply_to_case-frame :
    (event : ParsedWebhookEvent) (status : RecoveryPaymentRequestStatus)
    (r : RecoveryPaymentRequest) (case : RecoveryCase) (correlation : CorrelationId)
    → Preserves frame (apply_to_case event status r case correlation)
unfolding apply_to_case
apply_to_case-frame event status r case correlation =
    search (frames, assign_request-frame, settle-frame) depth 30

found_case-frame :
    (event : ParsedWebhookEvent) (status : RecoveryPaymentRequestStatus)
    (r : RecoveryPaymentRequest) (correlation : CorrelationId) (found : Option RecoveryCase)
    → Preserves frame (elim found [
      | none ↦ commit >> pure ProcessStatus.ignored
      | some case ↦ apply_to_case event status r case correlation
    ])
found_case-frame event status r correlation none = search (frames)
found_case-frame event status r correlation (some case) =
    apply_to_case-frame event status r case correlation

found_request-frame :
    (event : ParsedWebhookEvent) (link : String) (status : RecoveryPaymentRequestStatus)
    (correlation : CorrelationId) (found : Option RecoveryPaymentRequest)
    → Preserves frame (elim found [
      | none ↦
          record_event
            (webhook link)
            system
            (webhook_unmatched_payment_link link event.event_type)
            correlation
          >> commit
          >> pure ProcessStatus.ignored
      | some r ↦ apply_to_request event status r correlation
    ])
found_request-frame event link status correlation none = search (frames) depth 30
found_request-frame event link status correlation (some r) =
    Preserves-bind (query (get_case r.recovery_case_id)) _
      (Preserves-query (get_case r.recovery_case_id))
      (λ found. found_case-frame event status r correlation found)

apply_payment_link_event-frame :
    (event : ParsedWebhookEvent) (link : String) (status : RecoveryPaymentRequestStatus)
    (correlation : CorrelationId)
    → Preserves frame (apply_payment_link_event event link status correlation)
unfolding apply_payment_link_event
apply_payment_link_event-frame event link status correlation =
    Preserves-bind (query (get_by_provider_reference link)) _
      (Preserves-query (get_by_provider_reference link))
      (λ found. found_request-frame event link status correlation found)

abbrev claims : Session → List ProcessedWebhookEvent
claims s = s.work.processed_webhook_events

-- the claims after an action that returns
ok-claims :
    {A : Type 0} (m : Action A) (s s' : Session) (a : A)
    → Preserves frame m
    → m s ≡ (ok a, s')
    → claims s' ≡ claims s
ok-claims m s s' a k h = sym (ap (λ r. claims r.1) h) ∙ ap (λ f. f.2) (k.at s)

guard_ok :
    {A : Type 0} (r : Result A) (s s' : Session) (a : A)
    → guard_result (r, s) ≡ (ok a, s')
    → ◌≡◌ {A = Result A × Session} (r, s) (ok a, s')
guard_ok (ok b) s s' a h = h
guard_ok (err Error.stale_data) s s' a h = cc
guard_ok (err e) s s' a h = h

process_claimed-claims :
    (event : ParsedWebhookEvent) (link : Option String)
    (status : Option RecoveryPaymentRequestStatus) (correlation : CorrelationId) (s s' : Session)
    (answer : ProcessStatus)
    → process_claimed event link status correlation s ≡ (ok answer, s')
    → claims s' ≡ claims s
unfolding process_claimed guard_against_concurrent_modification
process_claimed-claims event none status correlation s s' answer h =
    ok-claims (commit >> pure ProcessStatus.ignored) s s' answer (search (frames)) h
process_claimed-claims event (some link) none correlation s s' answer h =
    ok-claims (commit >> pure ProcessStatus.ignored) s s' answer (search (frames)) h
process_claimed-claims event (some link) (some status) correlation s s' answer h =
    ok-claims (apply_payment_link_event event link status correlation) s s' answer
      (apply_payment_link_event-frame event link status correlation)
      (guard_ok (apply_payment_link_event event link status correlation s).0
        (apply_payment_link_event event link status correlation s).1 s' answer h)

found_case-Durable :
    (event : ParsedWebhookEvent) (status : RecoveryPaymentRequestStatus)
    (r : RecoveryPaymentRequest) (correlation : CorrelationId) (found : Option RecoveryCase)
    → Durable (elim found [
      | none ↦ commit >> pure ProcessStatus.ignored
      | some case ↦ apply_to_case event status r case correlation
    ])
unfolding apply_to_case
found_case-Durable event status r correlation none = commit_value-Durable ProcessStatus.ignored
found_case-Durable event status r correlation (some case) = search (durable) depth 30

found_request-Durable :
    (event : ParsedWebhookEvent) (link : String) (status : RecoveryPaymentRequestStatus)
    (correlation : CorrelationId) (found : Option RecoveryPaymentRequest)
    → Durable (elim found [
      | none ↦
          record_event
            (webhook link)
            system
            (webhook_unmatched_payment_link link event.event_type)
            correlation
          >> commit
          >> pure ProcessStatus.ignored
      | some r ↦ apply_to_request event status r correlation
    ])
found_request-Durable event link status correlation none = search (durable) depth 30
found_request-Durable event link status correlation (some r) =
    Durable-bind (query (get_case r.recovery_case_id)) _
      (λ found. found_case-Durable event status r correlation found)

process_claimed-Durable :
    (event : ParsedWebhookEvent) (link : Option String)
    (status : Option RecoveryPaymentRequestStatus) (correlation : CorrelationId)
    → Durable (process_claimed event link status correlation)
unfolding process_claimed apply_payment_link_event
process_claimed-Durable event none status correlation = commit_value-Durable ProcessStatus.ignored
process_claimed-Durable event (some link) none correlation =
    commit_value-Durable ProcessStatus.ignored
process_claimed-Durable event (some link) (some status) correlation = Durable-guard _ (
    Durable-bind (query (get_by_provider_reference link)) _
      (λ found. found_request-Durable event link status correlation found))

find-append :
    {A : Type 0} (p : A → Bool) (xs : List A) (x : A)
    → p x ≡ true
    → is_some (find p (xs ++ x ∷ [])) ≡ true
find-append p [] x h = rw h refl
find-append p (y ∷ xs) x h = elim (Bool-cases (p y)) [
  | inl hit ↦ rw hit refl
  | inr miss ↦ rw miss (find-append p xs x h)
]

-- the session once the event is claimed
abbrev claimed : ParsedWebhookEvent → Session → Session
claimed event s = record s {
  work = record (s.work) {
    processed_webhook_events = s.work.processed_webhook_events ++ (claim_of event ∷ []);
  };
}

seen_lem :
    (event : ParsedWebhookEvent) (correlation : CorrelationId) (s : Session)
    → is_processed event.dedup_key s.work ≡ true
    → process_webhook_event event correlation s ≡ (ok ProcessStatus.duplicate, s)
unfolding process_webhook_event claim_event
seen_lem event correlation s h = rw h refl

unseen_lem :
    (event : ParsedWebhookEvent) (correlation : CorrelationId) (s : Session)
    → s.races ≡ []
    → is_processed event.dedup_key s.work ≡ false
    → process_webhook_event event correlation s
      ≡ process_claimed event event.payment_link_id
          (relevant_status event.payment_link_status)
          correlation
          (claimed event s)
unfolding process_webhook_event claim_event insert_claim lost_race pop_race
unseen_lem event correlation s no_race h = rw h (rw no_race refl)

claimed-is_processed :
    (event : ParsedWebhookEvent) (s s' : Session)
    → claims s' ≡ claims (claimed event s)
    → is_processed event.dedup_key s'.work ≡ true
claimed-is_processed event s s' h =
    subst
      (λ l.
        is_some (find (λ (e : ProcessedWebhookEvent). str_eq e.dedup_key event.dedup_key) l) ≡ true)
      (sym h)
      (find-append (λ (e : ProcessedWebhookEvent). str_eq e.dedup_key event.dedup_key) (claims s)
        (claim_of event) (eq_refl event.dedup_key))

committed-is_processed :
    (event : ParsedWebhookEvent) (correlation : CorrelationId) (s s' : Session)
    (answer : ProcessStatus)
    → process_claimed event event.payment_link_id
        (relevant_status event.payment_link_status)
        correlation
        (claimed event s)
      ≡ (ok answer, s')
    → is_processed event.dedup_key s'.committed ≡ true
committed-is_processed event correlation s s' answer h =
    let stored : s'.committed ≡ s'.work = subst Stored h (
      (process_claimed-Durable event event.payment_link_id
          (relevant_status event.payment_link_status) correlation).at
        (claimed event s)) in
    ap (is_processed event.dedup_key) stored
    ∙ claimed-is_processed event s s' (
        process_claimed-claims event event.payment_link_id
          (relevant_status event.payment_link_status) correlation (claimed event s) s' answer h)

-- If a delivery of a webhook event returns, in whatever way it was answered and without another
-- delivery winning the race for the claim, then a second delivery of the same event, in a session
-- of its own on the tables that the first has committed, is answered `duplicate` and changes
-- nothing.
pub process_webhook_event-again :
    (first second : World) (event : ParsedWebhookEvent) (db : Db) (s' : Session)
    (answer : ProcessStatus)
    → first.races ≡ []
    → process_webhook_event event first.correlation (open_session first db) ≡ (ok answer, s')
    → process_webhook_event event second.correlation (open_session second s'.committed)
      ≡ (ok ProcessStatus.duplicate, open_session second s'.committed)
process_webhook_event-again first second event db s' answer no_race h =
    let s = open_session first db in
    seen_lem event second.correlation (open_session second s'.committed)
      (elim (Bool-cases (is_processed event.dedup_key db)) [
        | inl seen ↦
            let same : s ≡ s' = ap (λ r. r.1) (sym (seen_lem event first.correlation s seen) ∙ h) in
            subst (λ (t : Session). is_processed event.dedup_key t.committed ≡ true) same seen
        | inr unseen ↦
            committed-is_processed event first.correlation s s' answer
              (sym (unseen_lem event first.correlation s no_race unseen) ∙ h)
      ])
