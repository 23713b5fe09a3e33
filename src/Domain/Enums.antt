-- ===== src/Domain/Enums.antt =====
-- backend/app/domain/enums.py: the enumerations, and the string values that reach audit payloads.
use revenue_ai.Base.{ℕ, String, Bool, ◌==◌, List, [], ◌∷◌, any}

pub data PaymentStatus : Type 0 where
  created authorized captured failed refunded : PaymentStatus

pub data PaymentMethodType : Type 0 where
  card upi netbanking wallet emi : PaymentMethodType

pub data FailureReason : Type 0 where
  network_error gateway_timeout provider_error insufficient_funds : FailureReason
  expired_instrument authentication_failed unknown : FailureReason

pub data DiagnosisCategory : Type 0 where
  temporary_failure customer_side_failure authentication_failure : DiagnosisCategory
  repeated_failure unknown_failure other : DiagnosisCategory

pub data RecoveryCaseStatus : Type 0 where
  discovered eligible ineligible diagnosing recommended policy_review : RecoveryCaseStatus
  approved executing recovered stopped escalated failed : RecoveryCaseStatus

-- Members of an enumeration are equal when their positions are.
abbrev pub status_index : RecoveryCaseStatus → ℕ
status_index RecoveryCaseStatus.discovered = 0
status_index RecoveryCaseStatus.eligible = 1
status_index RecoveryCaseStatus.ineligible = 2
status_index RecoveryCaseStatus.diagnosing = 3
status_index RecoveryCaseStatus.recommended = 4
status_index RecoveryCaseStatus.policy_review = 5
status_index RecoveryCaseStatus.approved = 6
status_index RecoveryCaseStatus.executing = 7
status_index RecoveryCaseStatus.recovered = 8
status_index RecoveryCaseStatus.stopped = 9
status_index RecoveryCaseStatus.escalated = 10
status_index RecoveryCaseStatus.failed = 11

abbrev pub status_eq : RecoveryCaseStatus → RecoveryCaseStatus → Bool
status_eq a b = status_index a == status_index b

-- `a in {…}`
abbrev pub status_in : RecoveryCaseStatus → List RecoveryCaseStatus → Bool
status_in a xs = any (status_eq a) xs

-- `TERMINAL_RECOVERY_CASE_STATUSES`
abbrev pub terminal_recovery_case_statuses : List RecoveryCaseStatus
terminal_recovery_case_statuses =
    RecoveryCaseStatus.ineligible ∷ RecoveryCaseStatus.recovered ∷ RecoveryCaseStatus.stopped
    ∷ RecoveryCaseStatus.escalated ∷ []

pub data RecoveryAction : Type 0 where
  retry_payment send_payment_link send_reminder escalate stop : RecoveryAction

abbrev pub action_index : RecoveryAction → ℕ
action_index RecoveryAction.retry_payment = 0
action_index RecoveryAction.send_payment_link = 1
action_index RecoveryAction.send_reminder = 2
action_index RecoveryAction.escalate = 3
action_index RecoveryAction.stop = 4

abbrev pub action_eq : RecoveryAction → RecoveryAction → Bool
action_eq a b = action_index a == action_index b

abbrev pub action_in : RecoveryAction → List RecoveryAction → Bool
action_in a xs = any (action_eq a) xs

abbrev pub action_value : RecoveryAction → String
action_value RecoveryAction.retry_payment = "retry_payment"
action_value RecoveryAction.send_payment_link = "send_payment_link"
action_value RecoveryAction.send_reminder = "send_reminder"
action_value RecoveryAction.escalate = "escalate"
action_value RecoveryAction.stop = "stop"

pub data RecoveryAttemptStatus : Type 0 where
  pending in_progress succeeded failed cancelled : RecoveryAttemptStatus

pub data ActorType : Type 0 where
  system ai policy_engine human : ActorType

pub data PolicyDecisionType : Type 0 where
  allow block : PolicyDecisionType

pub data PolicyReasonCode : Type 0 where
  max_retries_reached recovery_window_expired max_contacts_reached : PolicyReasonCode
  confidence_below_threshold action_not_eligible_for_status : PolicyReasonCode
  amount_out_of_bounds terminal_state_protected : PolicyReasonCode

abbrev pub code_index : PolicyReasonCode → ℕ
code_index PolicyReasonCode.max_retries_reached = 0
code_index PolicyReasonCode.recovery_window_expired = 1
code_index PolicyReasonCode.max_contacts_reached = 2
code_index PolicyReasonCode.confidence_below_threshold = 3
code_index PolicyReasonCode.action_not_eligible_for_status = 4
code_index PolicyReasonCode.amount_out_of_bounds = 5
code_index PolicyReasonCode.terminal_state_protected = 6

abbrev pub code_in : PolicyReasonCode → List PolicyReasonCode → Bool
code_in a xs = any (λ b. code_index a == code_index b) xs

abbrev pub code_value : PolicyReasonCode → String
code_value PolicyReasonCode.max_retries_reached = "max_retries_reached"
code_value PolicyReasonCode.recovery_window_expired = "recovery_window_expired"
code_value PolicyReasonCode.max_contacts_reached = "max_contacts_reached"
code_value PolicyReasonCode.confidence_below_threshold = "confidence_below_threshold"
code_value PolicyReasonCode.action_not_eligible_for_status = "action_not_eligible_for_status"
code_value PolicyReasonCode.amount_out_of_bounds = "amount_out_of_bounds"
code_value PolicyReasonCode.terminal_state_protected = "terminal_state_protected"

pub data DecisionSource : Type 0 where
  ai fallback : DecisionSource

pub data RecoveryPaymentRequestStatus : Type 0 where
  created partially_paid paid expired cancelled : RecoveryPaymentRequestStatus

abbrev pub link_status_value : RecoveryPaymentRequestStatus → String
link_status_value RecoveryPaymentRequestStatus.created = "created"
link_status_value RecoveryPaymentRequestStatus.partially_paid = "partially_paid"
link_status_value RecoveryPaymentRequestStatus.paid = "paid"
link_status_value RecoveryPaymentRequestStatus.expired = "expired"
link_status_value RecoveryPaymentRequestStatus.cancelled = "cancelled"

pub data ProviderFailureCategory : Type 0 where
  provider_timeout provider_auth_error provider_rate_limit : ProviderFailureCategory
  provider_validation_error duplicate_request : ProviderFailureCategory
  webhook_verification_failure payment_failed payment_expired : ProviderFailureCategory
  ambiguous_result unknown_provider_error : ProviderFailureCategory

abbrev pub category_value : ProviderFailureCategory → String
category_value ProviderFailureCategory.provider_timeout = "provider_timeout"
category_value ProviderFailureCategory.provider_auth_error = "provider_auth_error"
category_value ProviderFailureCategory.provider_rate_limit = "provider_rate_limit"
category_value ProviderFailureCategory.provider_validation_error = "provider_validation_error"
category_value ProviderFailureCategory.duplicate_request = "duplicate_request"
category_value ProviderFailureCategory.webhook_verification_failure = "webhook_verification_failure"
category_value ProviderFailureCategory.payment_failed = "payment_failed"
category_value ProviderFailureCategory.payment_expired = "payment_expired"
category_value ProviderFailureCategory.ambiguous_result = "ambiguous_result"
category_value ProviderFailureCategory.unknown_provider_error = "unknown_provider_error"
