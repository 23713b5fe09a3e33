-- ===== src/Store/Models.antt =====
-- backend/app/models: one record for each table. An id is the number that stands for a uuid4; a
-- time is in seconds; a column of JSON that nothing under backend/app reads is left out.
use revenue_ai.Base.{ℕ, ℤ, String, Bool, Option, List, []}
use revenue_ai.Domain.Enums.{
  PaymentStatus, PaymentMethodType, FailureReason, DiagnosisCategory, RecoveryCaseStatus,
  RecoveryAction, RecoveryAttemptStatus, ActorType, PolicyDecisionType, PolicyReasonCode,
  DecisionSource, RecoveryPaymentRequestStatus,
}
use revenue_ai.Domain.Policy.{Confidence}

pub record Customer : Type 0 where
  pub id : ℕ
  pub external_reference : Option String
  pub total_payments_count : ℕ
  pub total_failed_payments_count : ℕ
  pub total_recovered_amount : ℤ

pub record Payment : Type 0 where
  pub id : ℕ
  pub customer_id : ℕ
  pub amount : ℤ
  pub currency : String
  pub status : PaymentStatus
  pub payment_method_type : PaymentMethodType
  pub failure_reason : Option FailureReason
  pub attempt_number : ℕ
  pub provider_payment_id : Option String
  pub created_at : ℕ
  pub updated_at : ℕ

pub record RecoveryCase : Type 0 where
  pub id : ℕ
  pub payment_id : ℕ
  pub status : RecoveryCaseStatus
  pub version : ℕ
  pub revenue_at_risk : ℤ
  pub recovered_amount : ℤ
  pub eligible : Bool
  pub diagnosis_category : Option DiagnosisCategory
  pub diagnosis_notes : Option String
  pub recovery_confidence : Option Confidence
  pub recommended_action : Option RecoveryAction
  pub current_attempt_number : ℕ
  pub customer_contact_count : ℕ
  pub policy_version : Option String
  pub created_at : ℕ

-- A correlation id: one that came with the request, or `f"{correlation_id}:{case_id}"`.
pub data CorrelationId : Type 0 where
  given : String → CorrelationId
  scoped : CorrelationId → ℕ → CorrelationId

pub record RecoveryAttempt : Type 0 where
  pub id : ℕ
  pub recovery_case_id : ℕ
  pub action : RecoveryAction
  pub status : RecoveryAttemptStatus
  pub provider : String
  pub amount : ℤ
  pub currency : String
  pub provider_reference : Option String
  pub idempotency_key : ℕ
  pub correlation_id : CorrelationId
  pub failure_code : Option String
  pub failure_message : Option String
  pub started_at : ℕ
  pub completed_at : Option ℕ
  pub created_at : ℕ

pub record RecoveryPaymentRequest : Type 0 where
  pub id : ℕ
  pub recovery_case_id : ℕ
  pub recovery_attempt_id : ℕ
  pub provider : String
  pub provider_reference : String
  pub reference_id : ℕ
  pub short_url : Option String
  pub amount : ℤ
  pub amount_paid : ℤ
  pub currency : String
  pub status : RecoveryPaymentRequestStatus
  pub expires_at : Option ℕ

pub record ProcessedWebhookEvent : Type 0 where
  pub provider : String
  pub event_type : String
  pub dedup_key : String

-- `entity_type` and `entity_id` of an audit event. A link that is not known has `uuid5` of its id.
pub data Entity : Type 0 where
  payment recovery_case recovery_attempt recovery_cycle : ℕ → Entity
  webhook : String → Entity

-- `event_type` with its `payload`: one constructor for each dict that a call site builds.
pub data Payload : Type 0 where
  payment_ingested : PaymentStatus → ℤ → String → Option FailureReason → Payload
  payment_ingest_deduplicated : String → Payload
  recovery_case_created : ℕ → ℤ → Payload
  diagnosis_requested execution_requested : RecoveryCaseStatus → Payload
  recovery_case_status_changed : RecoveryCaseStatus → RecoveryCaseStatus → Option String → Payload
  ai_diagnosis_created :
      DecisionSource
      → DiagnosisCategory
      → Option String
      → String
      → ℕ
      → Option String
      → Option String
      → Payload
  recovery_recommendation_created : RecoveryAction → Confidence → String → Payload
  policy_evaluated : PolicyDecisionType → List PolicyReasonCode → String → RecoveryAction → Payload
  policy_rechecked : PolicyDecisionType → List PolicyReasonCode → String → Payload
  execution_started : RecoveryAction → ℤ → String → Payload
  payment_link_created : String → Option String → ℤ → String → Option ℕ → Payload
  provider_ambiguous_result : String → Payload
  provider_state_reconciliation : Bool → Option String → Payload
  webhook_unmatched_payment_link : String → String → Payload
  payment_confirmed payment_not_recovered :
      String → RecoveryPaymentRequestStatus → ℤ → Option String → Payload
  recovery_cycle_completed : Bool → ℕ → ℕ → ℕ → ℕ → ℕ → ℕ → ℕ → Payload

pub record AuditEvent : Type 0 where
  pub entity : Entity
  pub actor_type : ActorType
  pub payload : Payload
  pub correlation_id : CorrelationId
  pub created_at : ℕ

-- The tables, each in the order of insertion, and the supply of ids that no row uses yet.
pub record Db : Type 0 where
  pub customers : List Customer
  pub payments : List Payment
  pub cases : List RecoveryCase
  pub attempts : List RecoveryAttempt
  pub payment_requests : List RecoveryPaymentRequest
  pub processed_webhook_events : List ProcessedWebhookEvent
  pub audit_events : List AuditEvent
  pub next_id : ℕ

abbrev pub empty_db : Db
empty_db = record {
  customers = [];
  payments = [];
  cases = [];
  attempts = [];
  payment_requests = [];
  processed_webhook_events = [];
  audit_events = [];
  next_id = 0;
}
