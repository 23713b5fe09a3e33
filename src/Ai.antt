-- ===== src/Ai.antt =====
-- backend/app/ai: the context that the AI sees, its schema, and the service that asks it. What the
-- AI provider answers is not the program's code: it is an argument, and may differ at each call.
-- The latency of a call is measured and passed on by the source, and is left out.
pub mod Service
pub mod Outcome
pub mod Groq
use revenue_ai.Base.{
  ℕ, zero, suc, ◌-◌, ◌/◌, ℤ, String, Bool, true, false, Option, none, some, List, map, or_else,
}
use Prim.Native.String.{◌++◌}
use revenue_ai.Domain.Enums.{
  FailureReason, unknown, PaymentMethodType, RecoveryAction, escalate, RecoveryAttemptStatus,
  DiagnosisCategory, unknown_failure, DecisionSource,
}
use revenue_ai.Domain.Policy.{Confidence}
use revenue_ai.Store.Models.{Customer, Payment, RecoveryAttempt}

pub record CustomerPaymentHistory : Type 0 where
  pub successful_payments : ℕ
  pub failed_payments : ℕ

pub record PreviousRecoveryAction : Type 0 where
  pub action : RecoveryAction
  pub status : RecoveryAttemptStatus
  pub created_at : ℕ

pub record PaymentRecoveryContext : Type 0 where
  pub payment_id : ℕ
  pub amount : ℤ
  pub currency : String
  pub failure_reason : FailureReason
  pub payment_method : PaymentMethodType
  pub attempt_number : ℕ
  pub customer_payment_history : CustomerPaymentHistory
  pub previous_recovery_actions : List PreviousRecoveryAction
  pub time_since_failure_minutes : ℕ

-- `max(0, a - b)` is the truncated difference.
unfoldable pub build_context :
    Payment → Customer → List RecoveryAttempt → ℕ → PaymentRecoveryContext
build_context payment customer attempts now = record {
  payment_id = payment.id;
  amount = payment.amount;
  currency = payment.currency;
  failure_reason = or_else payment.failure_reason unknown;
  payment_method = payment.payment_method_type;
  attempt_number = payment.attempt_number;
  customer_payment_history = record {
    successful_payments = customer.total_payments_count - customer.total_failed_payments_count;
    failed_payments = customer.total_failed_payments_count;
  };
  previous_recovery_actions =
      map
        (λ (a : RecoveryAttempt). record {
          action = a.action;
          status = a.status;
          created_at = a.created_at;
        })
        attempts;
  time_since_failure_minutes = (now - payment.updated_at) / 60;
}

pub record RecoveryRecommendation : Type 0 where
  pub diagnosis_category : DiagnosisCategory
  pub recovery_confidence : Confidence
  pub recommended_action : RecoveryAction
  pub decision_explanation : String

-- the subclasses of `AIProviderError`, the last one for an error of the base class itself
pub data AiProviderErrorKind : Type 0 where
  timeout auth rate_limit unavailable invalid_response base : AiProviderErrorKind

-- `type(exc).__name__`
abbrev pub kind_name : AiProviderErrorKind → String
kind_name timeout = "AIProviderTimeoutError"
kind_name auth = "AIProviderAuthError"
kind_name rate_limit = "AIProviderRateLimitError"
kind_name unavailable = "AIProviderUnavailableError"
kind_name invalid_response = "AIProviderInvalidResponseError"
kind_name base = "AIProviderError"

pub record AiProviderError : Type 0 where
  pub kind : AiProviderErrorKind
  pub message : String

-- `diagnose_payment` returns a recommendation or raises.
pub data AiReply : Type 0 where
  reply : RecoveryRecommendation → AiReply
  raised : AiProviderError → AiReply

pub record AiRecommendationService : Type 0 where
  pub provider : ℕ → PaymentRecoveryContext → AiReply
  pub model_name : String
  pub max_retries : ℕ

pub record AiOutcome : Type 0 where
  pub decision_source : DecisionSource
  pub recommendation : RecoveryRecommendation
  pub model : Option String
  pub prompt_version : String
  pub retry_count : ℕ
  pub failure_code : Option String
  pub failure_message : Option String

-- `_RETRYABLE_ERROR_TYPES`
abbrev pub is_retryable : AiProviderErrorKind → Bool
is_retryable timeout = true
is_retryable rate_limit = true
is_retryable unavailable = true
is_retryable _ = false

abbrev pub prompt_version : String
prompt_version = "diagnosis_v1"

-- `s[:n]`
unfoldable pub text_prefix : ℕ → String → String
text_prefix zero s = String.[]
text_prefix (suc n) String.[] = String.[]
text_prefix (suc n) (String.◌∷◌ c s) = String.◌∷◌ c (text_prefix n s)

-- `_fallback_recommendation`, which is only reached with an error
unfoldable pub fallback_recommendation : AiProviderError → RecoveryRecommendation
fallback_recommendation error = record {
  diagnosis_category = unknown_failure;
  recovery_confidence = 0;
  recommended_action = escalate;
  decision_explanation =
      "AI diagnosis unavailable; escalating to a human reviewer. ("
      ++ text_prefix 200 error.message
      ++ ")";
}
