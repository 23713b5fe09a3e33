-- ===== src/Trail/Growth/Ingestion.antt =====
-- backend/app/services/ingestion_service.py against the events that the trail has already.
use revenue_ai.Store.Repositories.{
  get_by_provider_payment_id, get_payment, is_failed, get_case_for_payment,
}
use revenue_ai.Store.Session.{
  not_found, validation_failed, modify_work, query, or_raise, pure, raise, multiple_results,
}
use revenue_ai.Trail.Growth.{Extends, growth, write-grows, Keeps-found, add_case-grows}
use revenue_ai.Trail.Keeps.{
  Keeps, Keeps-bind, Keeps-pure, Keeps-query, Keeps-then, Keeps-if, Keeps-or_raise, Keeps-raise,
}
use revenue_ai.Services.Ingestion.{
  ingest_payment, created_response, add_customer, create_and_commit, create_case, create_cases,
  create_recovery_case_for_payment, deduplicate, discover_failed_payments, find_or_create_customer,
  ingest_new, insert_case, PaymentIngestRequest, case_of_request, ingest_checked, truthy,
  one_or_none, customer_or_new,
}
use revenue_ai.Store.Models.{Payment, RecoveryCase, CorrelationId, Customer, Db}
use revenue_ai.Base.{
  ◌∷◌, List, String, Option, ℕ, some, none, refl, Bool, ◌++◌, [], update, if◌then◌else◌, false,
}

module _ {base : Db} where
  insert_customer-grows :
      (c : Customer)
      → Keeps
          (Extends base)
          (modify_work (λ db. record db { customers = db.customers ++ (c ∷ []) }))
  insert_customer-grows c =
      write-grows (λ db. record db { customers = db.customers ++ (c ∷ []) }) (λ db. refl)
        (λ db. refl)

  update_customer-grows :
      (p : Customer → Bool) (f : Customer → Customer)
      → Keeps (Extends base) (modify_work (λ db. record db { customers = update p f db.customers }))
  update_customer-grows p f =
      write-grows (λ db. record db { customers = update p f db.customers }) (λ db. refl)
        (λ db. refl)

  insert_payment-grows :
      (p : Payment)
      → Keeps (Extends base) (modify_work (λ db. record db { payments = db.payments ++ (p ∷ []) }))
  insert_payment-grows p =
      write-grows (λ db. record db { payments = db.payments ++ (p ∷ []) }) (λ db. refl) (λ db. refl)

  add_customer-grows : (reference : Option String) → Keeps (Extends base) (add_customer reference)
  unfolding add_customer
  add_customer-grows reference = search (growth, insert_customer-grows) depth 30

  one_or_none-grows : {A : Type 0} (rows : List A) → Keeps (Extends base) (one_or_none rows)
  one_or_none-grows [] = Keeps-pure none
  one_or_none-grows (a ∷ []) = Keeps-pure (some a)
  one_or_none-grows (a ∷ b ∷ rest) = Keeps-raise multiple_results

  customer_or_new-grows :
      (reference : Option String) (found : Option Customer)
      → Keeps (Extends base) (customer_or_new reference found)
  customer_or_new-grows reference none = add_customer-grows reference
  customer_or_new-grows reference (some customer) = Keeps-pure customer

  find_or_create_customer-grows :
      (reference : Option String) → Keeps (Extends base) (find_or_create_customer reference)
  unfolding find_or_create_customer
  find_or_create_customer-grows reference =
      search (growth, one_or_none-grows, customer_or_new-grows) depth 30

  insert_case-grows : (c : RecoveryCase) → Keeps (Extends base) (insert_case c)
  unfolding insert_case
  insert_case-grows c = search (growth, add_case-grows) depth 30

  create_case-grows :
      (p : Payment) (correlation : CorrelationId) → Keeps (Extends base) (create_case p correlation)
  unfolding create_case
  create_case-grows p correlation = search (growth, insert_case-grows) depth 30

  create_and_commit-grows :
      (p : Payment) (correlation : CorrelationId)
      → Keeps (Extends base) (create_and_commit p correlation)
  unfolding create_and_commit
  create_and_commit-grows p correlation = search (growth, create_case-grows) depth 30

  pub create_recovery_case_for_payment-grows :
      (payment_id : ℕ) (correlation : CorrelationId)
      → Keeps (Extends base) (create_recovery_case_for_payment payment_id correlation)
  unfolding create_recovery_case_for_payment
  create_recovery_case_for_payment-grows payment_id correlation =
      Keeps-bind (query (get_payment payment_id)) _ (Keeps-query (get_payment payment_id)) (λ found.
        Keeps-bind (or_raise found not_found) _ (Keeps-or_raise found not_found) (λ p.
          Keeps-then (if is_failed p.status then pure tt else raise validation_failed) _
            (Keeps-if _ _ _ (Keeps-pure tt) (Keeps-raise validation_failed))
            (Keeps-found (get_case_for_payment payment_id) (λ c. pure (created_response false c))
              (create_and_commit p correlation) (λ c. Keeps-pure (created_response false c))
              (create_and_commit-grows p correlation))))

  deduplicate-grows :
      (reference : String) (p : Payment) (correlation : CorrelationId)
      → Keeps (Extends base) (deduplicate reference p correlation)
  unfolding deduplicate
  deduplicate-grows reference p correlation = search (growth) depth 30

  case_of_request-grows :
      (upper : String → String) (request : PaymentIngestRequest) (p : Payment)
      (correlation : CorrelationId)
      → Keeps (Extends base) (case_of_request upper request p correlation)
  case_of_request-grows upper request p correlation = search (growth, create_case-grows) depth 30

  ingest_new-grows :
      (upper : String → String) (request : PaymentIngestRequest) (correlation : CorrelationId)
      → Keeps (Extends base) (ingest_new upper request correlation)
  unfolding ingest_new
  ingest_new-grows upper request correlation =
      search
        (
          growth, find_or_create_customer-grows, update_customer-grows, insert_payment-grows,
          case_of_request-grows,
        )
        depth 40

  ingest_checked-grows :
      (upper : String → String) (request : PaymentIngestRequest) (reference : Option String)
      (correlation : CorrelationId)
      → Keeps (Extends base) (ingest_checked upper request reference correlation)
  ingest_checked-grows upper request none correlation = ingest_new-grows upper request correlation
  ingest_checked-grows upper request (some reference) correlation =
      Keeps-found (get_by_provider_payment_id reference) (λ p. deduplicate reference p correlation)
        (ingest_new upper request correlation) (λ p. deduplicate-grows reference p correlation)
        (ingest_new-grows upper request correlation)

  pub ingest_payment-grows :
      (upper : String → String) (request : PaymentIngestRequest) (correlation : CorrelationId)
      → Keeps (Extends base) (ingest_payment upper request correlation)
  unfolding ingest_payment
  ingest_payment-grows upper request correlation =
      ingest_checked-grows upper request (truthy request.provider_payment_id) correlation

  create_cases-grows :
      (ps : List Payment) (correlation : CorrelationId)
      → Keeps (Extends base) (create_cases ps correlation)
  unfolding create_cases
  create_cases-grows [] correlation = Keeps-pure []
  create_cases-grows (p ∷ ps) correlation =
      let rest = create_cases-grows ps correlation in
      Keeps-bind (create_case p correlation) _ (create_case-grows p correlation)
        (λ c. Keeps-bind (create_cases ps correlation) _ rest (λ ids. Keeps-pure (c.id ∷ ids)))

  pub discover-grows :
      (limit : ℕ) (correlation : CorrelationId)
      → Keeps (Extends base) (discover_failed_payments limit correlation)
  unfolding discover_failed_payments
  discover-grows limit correlation = search (growth, create_cases-grows) depth 30
