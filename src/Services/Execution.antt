-- ===== src/Services/Execution.antt =====
-- backend/app/services/execution_service.py: an approved case becomes a payment link.
use revenue_ai.Base.{
  ℕ, suc, ◌+◌, ◌*◌, ◌==◌, ⊤, ℤ, leb_ℤ, String, str_eq, Bool, true, false, ◌&&◌, ◌||◌, Option, none,
  some, List, [], ◌∷◌, ◌++◌, length, any, update, or_else, is_some, if◌then◌else◌,
}
use Prim.Native.String.{◌++◌ as ◌+++◌}
use revenue_ai.Domain.Enums.{
  RecoveryCaseStatus, executing, escalated, RecoveryAction, send_payment_link, action_value,
  RecoveryAttemptStatus, system, policy_engine, PolicyDecisionType, allow, block, PolicyReasonCode,
  code_value, RecoveryPaymentRequestStatus, ProviderFailureCategory, provider_timeout,
  provider_auth_error, provider_rate_limit, provider_validation_error, ambiguous_result,
  unknown_provider_error, category_value,
}
use revenue_ai.Domain.Policy.{PolicyEvaluationInput, PolicyDecision, evaluate_policy}
use revenue_ai.Domain.Providers.{
  is_executable, PaymentProviderErrorKind, timeout, auth, rate_limit, validation, ambiguous,
  PaymentProviderError, CreatePaymentLinkRequest, PaymentLinkSnapshot, ProviderReply, reply,
  refused, PaymentProvider,
}
use revenue_ai.Store.Models.{
  Payment, RecoveryCase, RecoveryAttempt, RecoveryPaymentRequest, recovery_case, recovery_attempt,
  execution_requested, policy_rechecked, execution_started, payment_link_created,
  provider_ambiguous_result, provider_state_reconciliation, CorrelationId,
}
use revenue_ai.Store.Session.{
  Action, pure, raise, query, modify_work, or_raise, ◌>>=◌, ◌>>◌, ok, now, new_uuid, load_case,
  assign_case, flush, commit, record_event, validate_transition, transition,
  guard_against_concurrent_modification, validation_failed, integrity_error, value_error,
}
use revenue_ai.Services.Settings.{Settings, get_policy_config, load_payment}
use revenue_ai.Services.Diagnosis.{days_between}

pub record ExecutionResponse : Type 0 where
  pub recovery_case_id : ℕ
  pub case_status : RecoveryCaseStatus
  pub executed : Bool
  pub reason : Option String
  pub policy_decision : Option PolicyDecisionType
  pub policy_reason_codes : List PolicyReasonCode
  pub provider_reference : Option String
  pub short_url : Option String
  pub payment_link_status : Option RecoveryPaymentRequestStatus
  pub amount : Option ℤ
  pub currency : Option String
  pub expires_at : Option ℕ

-- `_ERROR_TO_FAILURE_CATEGORY`, with the default of its `get`
unfoldable pub failure_category : PaymentProviderErrorKind → ProviderFailureCategory
failure_category auth = provider_auth_error
failure_category rate_limit = provider_rate_limit
failure_category validation = provider_validation_error
failure_category timeout = provider_timeout
failure_category _ = unknown_provider_error

abbrev pub provider_name : String
provider_name = "razorpay"

-- `_recheck_policy`; a case with no recommendation is no `RecoveryAction`
unfoldable pub recheck_input : RecoveryCase → RecoveryAction → Payment → ℕ → PolicyEvaluationInput
recheck_input case action p at = record {
  case_status = case.status;
  proposed_action = action;
  attempt_number = case.current_attempt_number;
  days_since_discovery = days_between case.created_at at;
  customer_contact_count = case.customer_contact_count;
  recovery_confidence = or_else case.recovery_confidence 0;
  amount = p.amount;
}

unfoldable pub recheck_policy : Settings → RecoveryCase → Action PolicyDecision
recheck_policy settings case = do
  at ← now
  action ← or_raise case.recommended_action value_error
  p ← load_payment case.payment_id
  pure (evaluate_policy (recheck_input case action p at) (get_policy_config settings))

abbrev pub decision_codes : Option PolicyDecision → List PolicyReasonCode
decision_codes none = []
decision_codes (some d) = d.reason_codes

abbrev pub decision_type : Option PolicyDecision → Option PolicyDecisionType
decision_type none = none
decision_type (some d) = some d.decision

-- `_escalate`
unfoldable pub escalate_case :
    ℕ → String → CorrelationId → Option PolicyDecision → Action ExecutionResponse
escalate_case id reason correlation decision = do
  transition id escalated correlation (some reason)
  commit
  case ← load_case id
  pure (record {
    recovery_case_id = id;
    case_status = case.status;
    executed = false;
    reason = some reason;
    policy_decision = decision_type decision;
    policy_reason_codes = decision_codes decision;
    provider_reference = none;
    short_url = none;
    payment_link_status = none;
    amount = none;
    currency = none;
    expires_at = none;
  })

abbrev pub assign_attempt : ℕ → (RecoveryAttempt → RecoveryAttempt) → Action ⊤
assign_attempt id f =
    modify_work
      (λ db. record db { attempts = update (λ (a : RecoveryAttempt). a.id == id) f db.attempts })

abbrev pub fail_attempt : String → String → ℕ → RecoveryAttempt → RecoveryAttempt
fail_attempt code message at a = record a {
  status = RecoveryAttemptStatus.failed;
  failure_code = some code;
  failure_message = some message;
  completed_at = some at;
}

-- `_handle_definite_failure`
unfoldable pub handle_definite_failure :
    ℕ
    → ℕ
    → PaymentProviderError
    → CorrelationId
    → Option ProviderFailureCategory
    → Option String
    → Action ExecutionResponse
handle_definite_failure id attempt error correlation category reason = do
  let chosen = or_else category (failure_category error.kind)
  at ← now
  assign_attempt attempt (fail_attempt (category_value chosen) error.message at)
  flush
  escalate_case id
      (or_else reason
        ("Provider call failed (" +++ category_value chosen +++ "): " +++ error.message))
      correlation none

-- the row of a link, which the unique constraints on its two references may refuse
abbrev pub same_link : RecoveryPaymentRequest → RecoveryPaymentRequest → Bool
same_link r s =
    str_eq r.provider_reference s.provider_reference
    || r.reference_id == s.reference_id
    || r.recovery_attempt_id == s.recovery_attempt_id

unfoldable pub insert_payment_request : RecoveryPaymentRequest → Action ⊤
insert_payment_request r = query (λ db. any (same_link r) db.payment_requests) >>= λ clash.
    if clash
    then raise integrity_error
    else modify_work (λ db. record db { payment_requests = db.payment_requests ++ (r ∷ []) })

abbrev pub succeed_attempt : String → ℕ → RecoveryAttempt → RecoveryAttempt
succeed_attempt reference at a = record a {
  status = RecoveryAttemptStatus.succeeded;
  provider_reference = some reference;
  completed_at = some at;
}

unfoldable pub new_payment_request : ℕ → ℕ → ℕ → ℕ → PaymentLinkSnapshot → RecoveryPaymentRequest
new_payment_request request_id id attempt key link = record {
  id = request_id;
  recovery_case_id = id;
  recovery_attempt_id = attempt;
  provider = provider_name;
  provider_reference = link.provider_reference;
  reference_id = or_else link.reference_id key;
  short_url = link.short_url;
  amount = link.amount;
  amount_paid = link.amount_paid;
  currency = link.currency;
  status = link.status;
  expires_at = link.expires_at;
}

-- `_record_payment_link_created`; `key` is the attempt's idempotency key
unfoldable pub record_payment_link_created :
    ℕ → ℕ → ℕ → PaymentLinkSnapshot → CorrelationId → Action ExecutionResponse
record_payment_link_created id attempt key link correlation = do
  request_id ← new_uuid
  insert_payment_request (new_payment_request request_id id attempt key link)
  at ← now
  assign_attempt attempt (succeed_attempt link.provider_reference at)
  assign_case id (λ c. record c { current_attempt_number = c.current_attempt_number + 1 })
  flush
  record_event (recovery_case id) system
      (payment_link_created link.provider_reference link.short_url link.amount link.currency
        link.expires_at)
      correlation
  commit
  case ← load_case id
  pure (record {
    recovery_case_id = id;
    case_status = case.status;
    executed = true;
    reason = none;
    policy_decision = some allow;
    policy_reason_codes = [];
    provider_reference = some link.provider_reference;
    short_url = link.short_url;
    payment_link_status = some link.status;
    amount = some link.amount;
    currency = some link.currency;
    expires_at = link.expires_at;
  })

-- `provider.find_payment_link_by_reference`
unfoldable pub call_find : PaymentProvider → ℕ → Action (ProviderReply (Option PaymentLinkSnapshot))
call_find provider reference s = (
  ok (provider.find_payment_link_by_reference s.asked reference),
  record s { asked = suc s.asked },
)

abbrev pub reconciled_link : ProviderReply (Option PaymentLinkSnapshot) → Option PaymentLinkSnapshot
reconciled_link (reply link) = link
reconciled_link (refused error) = none

abbrev pub reconciliation_error : ProviderReply (Option PaymentLinkSnapshot) → Option String
reconciliation_error (reply link) = none
reconciliation_error (refused error) = some error.message

-- what follows the search for the link
unfoldable pub after_reconciliation :
    ℕ
    → ℕ
    → ℕ
    → PaymentProviderError
    → CorrelationId
    → Option PaymentLinkSnapshot
    → Action ExecutionResponse
after_reconciliation id attempt key error correlation (some link) =
    record_payment_link_created id attempt key link correlation
after_reconciliation id attempt key error correlation none =
    handle_definite_failure id attempt error correlation (some ambiguous_result)
      (some "Provider response was ambiguous and could not be reconciled; manual review required.")

-- `_handle_ambiguous_creation`
unfoldable pub handle_ambiguous_creation :
    PaymentProvider → ℕ → ℕ → ℕ → PaymentProviderError → CorrelationId → Action ExecutionResponse
handle_ambiguous_creation provider id attempt key error correlation = do
  record_event (recovery_attempt attempt) system (provider_ambiguous_result error.message)
      correlation
  found ← call_find provider key
  record_event (recovery_attempt attempt) system
      (provider_state_reconciliation (is_some (reconciled_link found)) (reconciliation_error found))
      correlation
  commit
  after_reconciliation id attempt key error correlation (reconciled_link found)

-- `provider.create_payment_link`
unfoldable pub call_create :
    PaymentProvider → CreatePaymentLinkRequest → Action (ProviderReply PaymentLinkSnapshot)
call_create provider request s = (
  ok (provider.create_payment_link (length s.sent) request),
  record s { sent = request ∷ s.sent },
)

abbrev pub is_ambiguous : PaymentProviderErrorKind → Bool
is_ambiguous ambiguous = true
is_ambiguous _ = false

-- the three ways on from the reply of the provider
unfoldable pub handle_reply :
    PaymentProvider
    → ℕ
    → ℕ
    → ℕ
    → CorrelationId
    → ProviderReply PaymentLinkSnapshot
    → Action ExecutionResponse
handle_reply provider id attempt key correlation (reply link) =
    record_payment_link_created id attempt key link correlation
handle_reply provider id attempt key correlation (refused error) =
    if is_ambiguous error.kind
    then handle_ambiguous_creation provider id attempt key error correlation
    else handle_definite_failure id attempt error correlation none none

unfoldable pub new_attempt : ℕ → ℕ → ℕ → Payment → CorrelationId → ℕ → RecoveryAttempt
new_attempt attempt id key p correlation at = record {
  id = attempt;
  recovery_case_id = id;
  action = send_payment_link;
  status = RecoveryAttemptStatus.in_progress;
  provider = provider_name;
  amount = p.amount;
  currency = p.currency;
  provider_reference = none;
  idempotency_key = key;
  correlation_id = correlation;
  failure_code = none;
  failure_message = none;
  started_at = at;
  completed_at = none;
  created_at = at;
}

abbrev pub eqb_ℤ : ℤ → ℤ → Bool
eqb_ℤ a b = leb_ℤ a b && leb_ℤ b a

unfoldable pub link_request : Settings → ℕ → Payment → ℕ → CreatePaymentLinkRequest
link_request settings key p at = record {
  reference_id = key;
  amount = p.amount;
  currency = p.currency;
  expire_by = some (at + settings.recovery_payment_link_expiry_hours * 3600);
}

-- `_create_payment_link`, with the `payment_id` of the case, a column that nothing changes
unfoldable pub create_payment_link :
    Settings → PaymentProvider → ℕ → ℕ → CorrelationId → Action ExecutionResponse
create_payment_link settings provider id payment_id correlation = do
  key ← new_uuid
  p ← load_payment payment_id
  at ← now
  attempt ← new_uuid
  modify_work (λ db. record db {
    attempts = db.attempts ++ (new_attempt attempt id key p correlation at ∷ []);
  })
  record_event (recovery_attempt attempt) system
      (execution_started send_payment_link p.amount p.currency) correlation
  commit
  p' ← load_payment payment_id
  if eqb_ℤ p.amount p'.amount then pure tt else raise validation_failed
  at' ← now
  answer ← call_create provider (link_request settings key p at')
  handle_reply provider id attempt key correlation answer

abbrev pub join_codes : List PolicyReasonCode → String
join_codes [] = ""
join_codes (c ∷ []) = code_value c
join_codes (c ∷ d ∷ cs) = code_value c +++ ", " +++ join_codes (d ∷ cs)

-- the way on from EXECUTING
unfoldable pub proceed :
    Settings
    → PaymentProvider
    → ℕ
    → ℕ
    → RecoveryAction
    → PolicyDecision
    → CorrelationId
    → PolicyDecisionType
    → Action ExecutionResponse
proceed settings provider id payment_id action decision correlation block =
    escalate_case id ("Policy re-check blocked execution: " +++ join_codes decision.reason_codes)
      correlation (some decision)
proceed settings provider id payment_id action decision correlation allow =
    if is_executable action
    then (commit >> create_payment_link settings provider id payment_id correlation)
    else escalate_case id
        ("Action '" +++ action_value action +++ "' is not yet implemented by the executor.")
        correlation (some decision)

-- `_execute_recovery_case`
unfoldable pub execute_unguarded :
    Settings → PaymentProvider → ℕ → CorrelationId → Action ExecutionResponse
execute_unguarded settings provider id correlation = do
  case ← load_case id
  validate_transition case.status executing
  record_event (recovery_case id) system (execution_requested case.status) correlation
  decision ← recheck_policy settings case
  record_event (recovery_case id) policy_engine
      (policy_rechecked decision.decision decision.reason_codes decision.policy_version) correlation
  transition id executing correlation none
  action ← or_raise case.recommended_action value_error
  proceed settings provider id case.payment_id action decision correlation decision.decision

unfoldable pub execute_recovery_case :
    Settings → PaymentProvider → ℕ → CorrelationId → Action ExecutionResponse
execute_recovery_case settings provider id correlation =
    guard_against_concurrent_modification (execute_unguarded settings provider id correlation)
