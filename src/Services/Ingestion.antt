-- ===== src/Services/Ingestion.antt =====
-- backend/app/services/ingestion_service.py and schemas/ingestion.py: failed payments become cases.
use revenue_ai.Base.{
  ℕ, ◌+◌, ◌==◌, ⊤, ℤ, pos, String, str_eq, Bool, true, false, ◌&&◌, Option, none, some, List, [],
  ◌∷◌, ◌++◌, length, update, is_some, if◌then◌else◌,
}
use mathlib.Core.Option
use revenue_ai.Domain.Enums.{
  PaymentStatus, PaymentMethodType, FailureReason, RecoveryCaseStatus, discovered, system,
}
use revenue_ai.Store.Models.{
  Customer, Payment, RecoveryCase, payment, recovery_case, payment_ingested,
  payment_ingest_deduplicated, recovery_case_created, CorrelationId, Db,
}
use revenue_ai.Store.Session.{
  Action, pure, raise, query, modify_work, or_raise, ◌>>=◌, ◌>>◌, now, new_uuid, commit,
  record_event, not_found, validation_failed, integrity_error, multiple_results,
}
use revenue_ai.Store.Repositories.{
  get_payment, get_case_for_payment, get_customers_by_reference, get_by_provider_payment_id,
  is_failed, list_failed_without_recovery_case, count_failed_with_recovery_case,
}

pub record PaymentIngestRequest : Type 0 where
  pub customer_reference : Option String
  pub amount : ℤ
  pub currency : String
  pub status : PaymentStatus
  pub payment_method_type : PaymentMethodType
  pub failure_reason : Option FailureReason
  pub attempt_number : ℕ
  pub provider_payment_id : Option String
  pub auto_create_case : Bool

pub record PaymentIngestResponse : Type 0 where
  pub payment_id : ℕ
  pub customer_id : ℕ
  pub recovery_case_id : Option ℕ
  pub recovery_case_status : Option RecoveryCaseStatus
  pub deduplicated : Bool

pub record RecoveryCaseCreatedResponse : Type 0 where
  pub recovery_case_id : ℕ
  pub payment_id : ℕ
  pub status : RecoveryCaseStatus
  pub revenue_at_risk : ℤ
  pub created : Bool

pub record DiscoveryReport : Type 0 where
  pub scanned : ℕ
  pub created : ℕ
  pub skipped_existing : ℕ
  pub case_ids : List ℕ
  pub generated_at : ℕ

-- An optional text that is falsy in Python: absent or empty.
abbrev pub truthy : Option String → Option String
truthy none = none
truthy (some s) = if str_eq s "" then none else some s

-- the rows with the reference; the column is not unique
abbrev pub find_customers : Option String → Db → List Customer
find_customers none db = []
find_customers (some reference) db = get_customers_by_reference reference db

-- `scalar_one_or_none`
abbrev pub one_or_none : {A : Type 0} → List A → Action (Option A)
one_or_none [] = pure none
one_or_none (a ∷ []) = pure (some a)
one_or_none (a ∷ b ∷ rest) = raise multiple_results

unfoldable pub add_customer : Option String → Action Customer
add_customer reference = do
  id ← new_uuid
  let customer : Customer = record {
    id = id;
    external_reference = reference;
    total_payments_count = 0;
    total_failed_payments_count = 0;
    total_recovered_amount = pos 0;
  }
  modify_work (λ db. record db { customers = db.customers ++ (customer ∷ []) })
  pure customer

abbrev pub customer_or_new : Option String → Option Customer → Action Customer
customer_or_new reference none = add_customer reference
customer_or_new reference (some customer) = pure customer

-- `_find_or_create_customer`
unfoldable pub find_or_create_customer : Option String → Action Customer
find_or_create_customer reference = do
  rows ← query (find_customers (truthy reference))
  found ← one_or_none rows
  customer_or_new reference found

-- the row of a new case, with the defaults of its columns
unfoldable pub new_case : ℕ → Payment → ℕ → RecoveryCase
new_case id p at = record {
  id = id;
  payment_id = p.id;
  status = discovered;
  version = 1;
  revenue_at_risk = p.amount;
  recovered_amount = pos 0;
  eligible = false;
  diagnosis_category = none;
  diagnosis_notes = none;
  recovery_confidence = none;
  recommended_action = none;
  current_attempt_number = 0;
  customer_contact_count = 0;
  policy_version = none;
  created_at = at;
}

-- the INSERT, which the unique constraint on `payment_id` refuses for a payment that has a case
unfoldable pub insert_case : RecoveryCase → Action ⊤
insert_case c = query (get_case_for_payment c.payment_id) >>= λ existing.
    if is_some existing
    then raise integrity_error
    else modify_work (λ db. record db { cases = db.cases ++ (c ∷ []) })

-- `_create_case`
unfoldable pub create_case : Payment → CorrelationId → Action RecoveryCase
create_case p correlation = do
  id ← new_uuid
  at ← now
  insert_case (new_case id p at)
  record_event (recovery_case id) system (recovery_case_created p.id p.amount) correlation
  pure (new_case id p at)

abbrev pub created_response : Bool → RecoveryCase → RecoveryCaseCreatedResponse
created_response created c = record {
  recovery_case_id = c.id;
  payment_id = c.payment_id;
  status = c.status;
  revenue_at_risk = c.revenue_at_risk;
  created = created;
}

unfoldable pub create_and_commit : Payment → CorrelationId → Action RecoveryCaseCreatedResponse
create_and_commit p correlation = do
  c ← create_case p correlation
  commit
  pure (created_response true c)

unfoldable pub create_recovery_case_for_payment :
    ℕ → CorrelationId → Action RecoveryCaseCreatedResponse
create_recovery_case_for_payment payment_id correlation = do
  found ← query (get_payment payment_id)
  p ← or_raise found not_found
  if is_failed p.status then pure tt else raise validation_failed
  existing ← query (get_case_for_payment payment_id)
  elim existing [
    | some c ↦ pure (created_response false c)
    | none ↦ create_and_commit p correlation
  ]

-- the repeat of an ingestion: the payment that is there, with its case if it has one
unfoldable pub deduplicate : String → Payment → CorrelationId → Action PaymentIngestResponse
deduplicate provider_payment_id p correlation = do
  existing ← query (get_case_for_payment p.id)
  record_event (payment p.id) system (payment_ingest_deduplicated provider_payment_id) correlation
  commit
  pure (record {
    payment_id = p.id;
    customer_id = p.customer_id;
    recovery_case_id = Option.map (λ (c : RecoveryCase). c.id) existing;
    recovery_case_status = Option.map (λ (c : RecoveryCase). c.status) existing;
    deduplicated = true;
  })

abbrev pub count_payment : PaymentStatus → Customer → Customer
count_payment status c = record c {
  total_payments_count = c.total_payments_count + 1;
  total_failed_payments_count =
      if is_failed status then c.total_failed_payments_count + 1 else c.total_failed_payments_count;
}

module _ (upper : String → String) where
  unfoldable pub new_payment : ℕ → Customer → PaymentIngestRequest → ℕ → Payment
  new_payment id customer request at = record {
    id = id;
    customer_id = customer.id;
    amount = request.amount;
    currency = upper request.currency;
    status = request.status;
    payment_method_type = request.payment_method_type;
    failure_reason = request.failure_reason;
    attempt_number = request.attempt_number;
    provider_payment_id = request.provider_payment_id;
    created_at = at;
    updated_at = at;
  }

  abbrev pub case_of_request :
      PaymentIngestRequest → Payment → CorrelationId → Action (Option RecoveryCase)
  case_of_request request p correlation =
      if request.auto_create_case && is_failed request.status
      then (create_case p correlation >>= λ c. pure (some c))
      else pure none

  -- a payment that is reported for the first time
  unfoldable pub ingest_new : PaymentIngestRequest → CorrelationId → Action PaymentIngestResponse
  ingest_new request correlation = do
    customer ← find_or_create_customer request.customer_reference
    modify_work (λ db. record db {
      customers =
          update (λ (c : Customer). c.id == customer.id) (count_payment request.status)
            db.customers;
    })
    id ← new_uuid
    at ← now
    let p = new_payment id customer request at
    modify_work (λ db. record db { payments = db.payments ++ (p ∷ []) })
    record_event (payment p.id) system
        (payment_ingested p.status p.amount p.currency request.failure_reason) correlation
    created ← case_of_request request p correlation
    commit
    pure (record {
      payment_id = p.id;
      customer_id = customer.id;
      recovery_case_id = Option.map (λ (c : RecoveryCase). c.id) created;
      recovery_case_status = Option.map (λ (c : RecoveryCase). c.status) created;
      deduplicated = false;
    })

  abbrev pub ingest_checked :
      PaymentIngestRequest → Option String → CorrelationId → Action PaymentIngestResponse
  ingest_checked request none correlation = ingest_new request correlation
  ingest_checked request (some provider_payment_id) correlation =
      query (get_by_provider_payment_id provider_payment_id) >>= λ found. elim found [
        | some p ↦ deduplicate provider_payment_id p correlation
        | none ↦ ingest_new request correlation
      ]

  unfoldable pub ingest_payment :
      PaymentIngestRequest → CorrelationId → Action PaymentIngestResponse
  ingest_payment request correlation =
      ingest_checked request (truthy request.provider_payment_id) correlation

-- the loop of `discover_failed_payments`
unfoldable pub create_cases : List Payment → CorrelationId → Action (List ℕ)
create_cases [] correlation = pure []
create_cases (p ∷ ps) correlation = do
  c ← create_case p correlation
  ids ← create_cases ps correlation
  pure (c.id ∷ ids)

unfoldable pub discover_failed_payments : ℕ → CorrelationId → Action DiscoveryReport
discover_failed_payments limit correlation = do
  candidates ← query (list_failed_without_recovery_case limit)
  already_tracked ← query count_failed_with_recovery_case
  ids ← create_cases candidates correlation
  commit
  at ← now
  pure (record {
    scanned = length candidates;
    created = length ids;
    skipped_existing = already_tracked;
    case_ids = ids;
    generated_at = at;
  })
