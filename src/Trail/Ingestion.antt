-- ===== src/Trail/Ingestion.antt =====
-- The operations of backend/app/services/ingestion_service.py against the invariant.
use revenue_ai.Store.Repositories.{
  get_by_provider_payment_id, get_case_for_payment, get_payment, is_failed,
  list_failed_without_recovery_case, count_failed_with_recovery_case,
}
use revenue_ai.Trail.Primitives.{new_uuid-Keeps, record_event-Keeps, commit-Keeps, now-Keeps}
use revenue_ai.Trail.Transition.{create_case-Keeps}
use revenue_ai.Store.Session.{
  record_event, new_uuid, pure, query, modify_work, commit, or_raise, not_found, now, raise,
  validation_failed, multiple_results,
}
use revenue_ai.Trail.{IsValid}
use revenue_ai.Domain.Enums.{ActorType, system}
use revenue_ai.Trail.Keeps.{
  Keeps, Keeps-bind, Keeps-pure, Keeps-if, Keeps-then, Keeps-modify_work, Keeps-query,
  Keeps-or_raise, Keeps-raise,
}
use revenue_ai.Services.Ingestion.{
  add_customer, create_and_commit, create_cases, create_recovery_case_for_payment, deduplicate,
  discover_failed_payments, find_or_create_customer, PaymentIngestRequest, ingest_new,
  ingest_payment, case_of_request, ingest_checked, truthy, create_case, created_response,
  find_customers, one_or_none, customer_or_new, count_payment, new_payment,
}
use revenue_ai.Store.Models.{
  Payment, CorrelationId, Customer, Payload, RecoveryCase, payment, payment_ingest_deduplicated,
  payment_ingested,
}
use mathlib.Core.Option
use revenue_ai.Base.{
  length, true, ◌==◌, if◌then◌else◌, ◌&&◌, Option, String, ℕ, List, some, false, refl, update, none,
  ◌++◌, ◌∷◌, [],
}

payment_event-Keeps :
    (id : ℕ) (actor : ActorType) (payload : Payload) (correlation : CorrelationId)
    → Keeps IsValid (record_event (payment id) actor payload correlation)
payment_event-Keeps id actor payload correlation =
    record_event-Keeps (payment id) actor payload correlation (λ j t. refl)

create_and_commit-Keeps :
    (p : Payment) (correlation : CorrelationId) → Keeps IsValid (create_and_commit p correlation)
unfolding create_and_commit
create_and_commit-Keeps p correlation =
    Keeps-bind (create_case p correlation) _ (create_case-Keeps p correlation)
      (λ c. Keeps-then commit _ commit-Keeps (Keeps-pure _))

existing-Keeps :
    (p : Payment) (correlation : CorrelationId) (existing : Option RecoveryCase)
    → Keeps IsValid (elim existing [
      | some c ↦ pure (created_response false c)
      | none ↦ create_and_commit p correlation
    ])
existing-Keeps p correlation none = create_and_commit-Keeps p correlation
existing-Keeps p correlation (some c) = Keeps-pure _

pub create_recovery_case_for_payment-Keeps :
    (id : ℕ) (correlation : CorrelationId)
    → Keeps IsValid (create_recovery_case_for_payment id correlation)
unfolding create_recovery_case_for_payment
create_recovery_case_for_payment-Keeps id correlation =
    Keeps-bind (query (get_payment id)) _ (Keeps-query (get_payment id)) (λ found.
      Keeps-bind (or_raise found not_found) _ (Keeps-or_raise found not_found) (λ p.
        Keeps-then (if is_failed p.status then pure tt else raise validation_failed) _
          (Keeps-if _ _ _ (Keeps-pure tt) (Keeps-raise validation_failed))
          (Keeps-bind (query (get_case_for_payment id)) _ (Keeps-query (get_case_for_payment id))
            (λ existing. existing-Keeps p correlation existing))))

deduplicate-Keeps :
    (provider_payment_id : String) (p : Payment) (correlation : CorrelationId)
    → Keeps IsValid (deduplicate provider_payment_id p correlation)
unfolding deduplicate
deduplicate-Keeps provider_payment_id p correlation =
    Keeps-bind (query (get_case_for_payment p.id)) _ (Keeps-query (get_case_for_payment p.id))
      (λ existing.
        Keeps-then
          (record_event (payment p.id) system (payment_ingest_deduplicated provider_payment_id)
            correlation)
          _
          (payment_event-Keeps p.id system (payment_ingest_deduplicated provider_payment_id)
            correlation)
          (Keeps-then commit _ commit-Keeps (
            Keeps-pure (record {
              payment_id = p.id;
              customer_id = p.customer_id;
              recovery_case_id = Option.map (λ (c : RecoveryCase). c.id) existing;
              recovery_case_status = Option.map (λ (c : RecoveryCase). c.status) existing;
              deduplicated = true;
            }))))

add_customer-Keeps : (reference : Option String) → Keeps IsValid (add_customer reference)
unfolding add_customer
add_customer-Keeps reference =
    Keeps-bind new_uuid _ new_uuid-Keeps
      (λ id. Keeps-then (modify_work _) _ (Keeps-modify_work _ (λ db w. w)) (Keeps-pure _))

one_or_none-Keeps : {A : Type 0} (rows : List A) → Keeps IsValid (one_or_none rows)
one_or_none-Keeps [] = Keeps-pure none
one_or_none-Keeps (a ∷ []) = Keeps-pure (some a)
one_or_none-Keeps (a ∷ b ∷ rest) = Keeps-raise multiple_results

customer_or_new-Keeps :
    (reference : Option String) (found : Option Customer)
    → Keeps IsValid (customer_or_new reference found)
customer_or_new-Keeps reference none = add_customer-Keeps reference
customer_or_new-Keeps reference (some customer) = Keeps-pure customer

find_or_create_customer-Keeps :
    (reference : Option String) → Keeps IsValid (find_or_create_customer reference)
unfolding find_or_create_customer
find_or_create_customer-Keeps reference =
    Keeps-bind (query (find_customers (truthy reference))) _
      (Keeps-query (find_customers (truthy reference)))
      (λ rows.
        Keeps-bind (one_or_none rows) _ (one_or_none-Keeps rows)
          (λ found. customer_or_new-Keeps reference found))

module _ (upper : String → String) (request : PaymentIngestRequest)
    (correlation : CorrelationId) where
  case_of_request-Keeps :
      (p : Payment) → Keeps IsValid (case_of_request upper request p correlation)
  case_of_request-Keeps p =
      Keeps-if (request.auto_create_case && is_failed request.status) _ _
        (Keeps-bind (create_case p correlation) _ (create_case-Keeps p correlation)
          (λ c. Keeps-pure _))
        (Keeps-pure _)

  ingest_new-Keeps : Keeps IsValid (ingest_new upper request correlation)
  unfolding ingest_new
  ingest_new-Keeps =
      Keeps-bind (find_or_create_customer request.customer_reference) _
        (find_or_create_customer-Keeps request.customer_reference)
        (λ customer.
          Keeps-then
            (modify_work (λ db. record db {
              customers =
                  update (λ (c : Customer). c.id == customer.id) (count_payment request.status)
                    db.customers;
            }))
            _ (Keeps-modify_work _ (λ db w. w))
            (Keeps-bind new_uuid _ new_uuid-Keeps (λ id. Keeps-bind now _ now-Keeps (λ at.
              let p = new_payment upper id customer request at in
              let told = payment_ingested p.status p.amount p.currency request.failure_reason in
              Keeps-then (modify_work (λ db. record db { payments = db.payments ++ (p ∷ []) })) _
                (Keeps-modify_work _ (λ db w. w))
                (Keeps-then (record_event (payment p.id) system told correlation) _
                  (payment_event-Keeps p.id system told correlation)
                  (Keeps-bind (case_of_request upper request p correlation) _
                    (case_of_request-Keeps p)
                    (λ created. Keeps-then commit _ commit-Keeps (Keeps-pure _))))))))

  found_payment-Keeps :
      (provider_payment_id : String) (found : Option Payment)
      → Keeps IsValid (elim found [
        | some p ↦ deduplicate provider_payment_id p correlation
        | none ↦ ingest_new upper request correlation
      ])
  found_payment-Keeps provider_payment_id none = ingest_new-Keeps
  found_payment-Keeps provider_payment_id (some p) =
      deduplicate-Keeps provider_payment_id p correlation

  ingest_checked-Keeps :
      (o : Option String) → Keeps IsValid (ingest_checked upper request o correlation)
  ingest_checked-Keeps none = ingest_new-Keeps
  ingest_checked-Keeps (some provider_payment_id) =
      Keeps-bind (query (get_by_provider_payment_id provider_payment_id)) _
        (Keeps-query (get_by_provider_payment_id provider_payment_id))
        (λ found. found_payment-Keeps provider_payment_id found)

  pub ingest_payment-Keeps : Keeps IsValid (ingest_payment upper request correlation)
  unfolding ingest_payment
  ingest_payment-Keeps = ingest_checked-Keeps (truthy request.provider_payment_id)

create_cases-Keeps :
    (ps : List Payment) (correlation : CorrelationId) → Keeps IsValid (create_cases ps correlation)
unfolding create_cases
create_cases-Keeps [] correlation = Keeps-pure []
create_cases-Keeps (p ∷ ps) correlation =
    let rest = create_cases-Keeps ps correlation in
    Keeps-bind (create_case p correlation) _ (create_case-Keeps p correlation)
      (λ c. Keeps-bind (create_cases ps correlation) _ rest (λ ids. Keeps-pure _))

pub discover_failed_payments-Keeps :
    (limit : ℕ) (correlation : CorrelationId)
    → Keeps IsValid (discover_failed_payments limit correlation)
unfolding discover_failed_payments
discover_failed_payments-Keeps limit correlation =
    Keeps-bind (query (list_failed_without_recovery_case limit)) _
      (Keeps-query (list_failed_without_recovery_case limit))
      (λ candidates.
        Keeps-bind (query count_failed_with_recovery_case) _
          (Keeps-query count_failed_with_recovery_case)
          (λ tracked.
            Keeps-bind (create_cases candidates correlation) _
              (create_cases-Keeps candidates correlation)
              (λ ids. Keeps-then commit _ commit-Keeps (
                Keeps-bind now _ now-Keeps (λ at. Keeps-pure (record {
                  scanned = length candidates;
                  created = length ids;
                  skipped_existing = tracked;
                  case_ids = ids;
                  generated_at = at;
                }))))))
