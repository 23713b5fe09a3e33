-- ===== src/Trail/Growth/Execution.antt =====
-- backend/app/services/execution_service.py against the events that the trail has already.
use revenue_ai.Domain.Policy.{PolicyDecision}
use revenue_ai.Ai.{reply}
use revenue_ai.Domain.Enums.{
  ProviderFailureCategory, RecoveryAction, PolicyDecisionType, block, allow,
}
use revenue_ai.Store.Session.{modify_work}
use revenue_ai.Trail.Growth.{Extends, growth, write-grows}
use revenue_ai.Trail.Keeps.{Keeps, Keeps-if, Keeps-guard}
use revenue_ai.Domain.Providers.{
  reply, PaymentLinkSnapshot, PaymentProvider, PaymentProviderError, CreatePaymentLinkRequest,
  ProviderReply, refused,
}
use revenue_ai.Services.Settings.{Settings}
use revenue_ai.Services.Execution.{
  create_payment_link, execute_recovery_case, after_reconciliation, call_create, call_find,
  escalate_case, handle_ambiguous_creation, handle_definite_failure, handle_reply,
  insert_payment_request, recheck_policy, record_payment_link_created, assign_attempt,
  execute_unguarded, proceed,
}
use revenue_ai.Store.Models.{
  RecoveryAttempt, RecoveryCase, RecoveryPaymentRequest, CorrelationId, Db,
}
use revenue_ai.Base.{ℕ, String, Option, some, ◌++◌, none, refl, ◌∷◌, [], update, ◌==◌}

module _ {base : Db} where
  call_find-grows :
      (provider : PaymentProvider) (reference : ℕ)
      → Keeps (Extends base) (call_find provider reference)
  unfolding call_find
  call_find-grows provider reference = record { at = λ s w c. (w, c) }

  call_create-grows :
      (provider : PaymentProvider) (request : CreatePaymentLinkRequest)
      → Keeps (Extends base) (call_create provider request)
  unfolding call_create
  call_create-grows provider request = record { at = λ s w c. (w, c) }

  pub assign_attempt-grows :
      (id : ℕ) (f : RecoveryAttempt → RecoveryAttempt) → Keeps (Extends base) (assign_attempt id f)
  assign_attempt-grows id f =
      write-grows
        (λ db. record db { attempts = update (λ (a : RecoveryAttempt). a.id == id) f db.attempts })
        (λ db. refl) (λ db. refl)

  add_request-grows :
      (r : RecoveryPaymentRequest)
      → Keeps
          (Extends base)
          (modify_work (λ db. record db { payment_requests = db.payment_requests ++ (r ∷ []) }))
  add_request-grows r =
      write-grows (λ db. record db { payment_requests = db.payment_requests ++ (r ∷ []) })
        (λ db. refl) (λ db. refl)

  insert_payment_request-grows :
      (r : RecoveryPaymentRequest) → Keeps (Extends base) (insert_payment_request r)
  unfolding insert_payment_request
  insert_payment_request-grows r = search (growth, add_request-grows) depth 30

  recheck_policy-grows :
      (settings : Settings) (case : RecoveryCase)
      → Keeps (Extends base) (recheck_policy settings case)
  unfolding recheck_policy
  recheck_policy-grows settings case = search (growth) depth 30

  escalate_case-grows :
      (id : ℕ) (reason : String) (correlation : CorrelationId) (decision : Option PolicyDecision)
      → Keeps (Extends base) (escalate_case id reason correlation decision)
  unfolding escalate_case
  escalate_case-grows id reason correlation decision = search (growth) depth 30

  handle_definite_failure-grows :
      (id attempt : ℕ) (error : PaymentProviderError) (correlation : CorrelationId)
      (category : Option ProviderFailureCategory) (reason : Option String)
      → Keeps (Extends base) (handle_definite_failure id attempt error correlation category reason)
  unfolding handle_definite_failure
  handle_definite_failure-grows id attempt error correlation category reason =
      search (growth, assign_attempt-grows, escalate_case-grows) depth 30

  record_payment_link_created-grows :
      (id attempt key : ℕ) (link : PaymentLinkSnapshot) (correlation : CorrelationId)
      → Keeps (Extends base) (record_payment_link_created id attempt key link correlation)
  unfolding record_payment_link_created
  record_payment_link_created-grows id attempt key link correlation =
      search (growth, assign_attempt-grows, insert_payment_request-grows) depth 30

  after_reconciliation-grows :
      (id attempt key : ℕ) (error : PaymentProviderError) (correlation : CorrelationId)
      (link : Option PaymentLinkSnapshot)
      → Keeps (Extends base) (after_reconciliation id attempt key error correlation link)
  unfolding after_reconciliation
  after_reconciliation-grows id attempt key error correlation (some link) =
      record_payment_link_created-grows id attempt key link correlation
  after_reconciliation-grows id attempt key error correlation none =
      handle_definite_failure-grows id attempt error correlation _ _

  handle_ambiguous_creation-grows :
      (provider : PaymentProvider) (id attempt key : ℕ) (error : PaymentProviderError)
      (correlation : CorrelationId)
      → Keeps (Extends base) (handle_ambiguous_creation provider id attempt key error correlation)
  unfolding handle_ambiguous_creation
  handle_ambiguous_creation-grows provider id attempt key error correlation =
      search (growth, call_find-grows, after_reconciliation-grows) depth 30

  handle_reply-grows :
      (provider : PaymentProvider) (id attempt key : ℕ) (correlation : CorrelationId)
      (answer : ProviderReply PaymentLinkSnapshot)
      → Keeps (Extends base) (handle_reply provider id attempt key correlation answer)
  unfolding handle_reply
  handle_reply-grows provider id attempt key correlation (reply link) =
      record_payment_link_created-grows id attempt key link correlation
  handle_reply-grows provider id attempt key correlation (refused error) =
      Keeps-if _ _ _ (handle_ambiguous_creation-grows provider id attempt key error correlation)
        (handle_definite_failure-grows id attempt error correlation none none)

  add_attempt-grows :
      (a : RecoveryAttempt)
      → Keeps (Extends base) (modify_work (λ db. record db { attempts = db.attempts ++ (a ∷ []) }))
  add_attempt-grows a =
      write-grows (λ db. record db { attempts = db.attempts ++ (a ∷ []) }) (λ db. refl) (λ db. refl)

module _ {base : Db} (settings : Settings) (provider : PaymentProvider) (id : ℕ)
    (correlation : CorrelationId) where
  create_payment_link-grows :
      (payment_id : ℕ)
      → Keeps (Extends base) (create_payment_link settings provider id payment_id correlation)
  unfolding create_payment_link
  create_payment_link-grows payment_id =
      search (growth, add_attempt-grows, call_create-grows, handle_reply-grows) depth 40

  proceed-grows :
      (payment_id : ℕ) (action : RecoveryAction) (decision : PolicyDecision)
      (type : PolicyDecisionType)
      → Keeps
          (Extends base)
          (proceed settings provider id payment_id action decision correlation type)
  unfolding proceed
  proceed-grows payment_id action decision block = escalate_case-grows id _ correlation _
  proceed-grows payment_id action decision allow =
      search (growth, create_payment_link-grows, escalate_case-grows) depth 30

  execute_unguarded-grows :
      Keeps (Extends base) (execute_unguarded settings provider id correlation)
  unfolding execute_unguarded
  execute_unguarded-grows = search (growth, recheck_policy-grows, proceed-grows) depth 40

  pub execute_recovery_case-grows :
      Keeps (Extends base) (execute_recovery_case settings provider id correlation)
  unfolding execute_recovery_case
  execute_recovery_case-grows = Keeps-guard _ execute_unguarded-grows
