-- ===== src/Store/Repositories.antt =====
-- backend/app/repositories: the queries that the services make, on the tables as lists.
use revenue_ai.Base.{
  ℕ, ◌==◌, leb, String, str_eq, Bool, true, false, not, ◌&&◌, Option, none, some, List, find,
  filter, count, length, take, drop, is_some, sort_by,
}
use revenue_ai.Domain.Enums.{PaymentStatus, RecoveryCaseStatus, status_eq}
use revenue_ai.Store.Models.{
  Customer, Payment, RecoveryCase, RecoveryAttempt, RecoveryPaymentRequest, Db,
}

abbrev same_text : String → Option String → Bool
same_text a none = false
same_text a (some b) = str_eq b a

-- `session.get(Payment, id)`
abbrev pub get_payment : ℕ → Db → Option Payment
get_payment id db = find (λ p. p.id == id) db.payments

abbrev pub get_customer : ℕ → Db → Option Customer
get_customer id db = find (λ c. c.id == id) db.customers

abbrev pub get_attempt : ℕ → Db → Option RecoveryAttempt
get_attempt id db = find (λ a. a.id == id) db.attempts

-- `select(RecoveryCase).where(RecoveryCase.payment_id == id)`
abbrev pub get_case_for_payment : ℕ → Db → Option RecoveryCase
get_case_for_payment id db = find (λ c. c.payment_id == id) db.cases

-- `select(Customer).where(Customer.external_reference == reference)`
abbrev pub get_customers_by_reference : String → Db → List Customer
get_customers_by_reference reference db =
    filter (λ c. same_text reference c.external_reference) db.customers

-- `select(ProcessedWebhookEvent).where(… dedup_key == key)`
abbrev pub is_processed : String → Db → Bool
is_processed key db = is_some (find (λ e. str_eq e.dedup_key key) db.processed_webhook_events)

-- `RecoveryPaymentRequestRepository.get_by_provider_reference`
abbrev pub get_by_provider_reference : String → Db → Option RecoveryPaymentRequest
get_by_provider_reference reference db =
    find (λ r. str_eq r.provider_reference reference) db.payment_requests

abbrev pub is_failed : PaymentStatus → Bool
is_failed PaymentStatus.failed = true
is_failed _ = false

-- `ORDER BY created_at ASC` and `DESC`
abbrev older_payment : Payment → Payment → Bool
older_payment p q = leb p.created_at q.created_at

abbrev newer_case : RecoveryCase → RecoveryCase → Bool
newer_case c d = leb d.created_at c.created_at

-- `PaymentRepository.get_by_provider_payment_id`: the earliest match
unfoldable pub get_by_provider_payment_id : String → Db → Option Payment
get_by_provider_payment_id id db =
    find (λ p. same_text id p.provider_payment_id) (sort_by older_payment db.payments)

abbrev pub is_uncased : Db → Payment → Bool
is_uncased db p = is_failed p.status && not (is_some (get_case_for_payment p.id db))

abbrev pub is_cased : Db → Payment → Bool
is_cased db p = is_failed p.status && is_some (get_case_for_payment p.id db)

-- `PaymentRepository.list_failed_without_recovery_case`
unfoldable pub list_failed_without_recovery_case : ℕ → Db → List Payment
list_failed_without_recovery_case limit db =
    take limit (sort_by older_payment (filter (is_uncased db) db.payments))

-- `PaymentRepository.count_failed_with_recovery_case`
unfoldable pub count_failed_with_recovery_case : Db → ℕ
count_failed_with_recovery_case db = count (is_cased db) db.payments

-- `RecoveryCaseRepository.list_paginated` with a status: the rows, newest first, and their number
unfoldable pub list_paginated : ℕ → ℕ → RecoveryCaseStatus → Db → List RecoveryCase × ℕ
list_paginated offset limit status db =
    let matching = filter (λ (c : RecoveryCase). status_eq c.status status) db.cases in
    (take limit (drop offset (sort_by newer_case matching)), length matching)
