-- ===== src/Domain/Providers.antt =====
-- backend/app/domain/providers/base.py: the boundary to a payment provider. What the provider does
-- is not the program's code: it is the argument `PaymentProvider` of the operations that call it,
-- and may answer each call as it likes.
use revenue_ai.Base.{ℕ, ℤ, String, Bool, Option, List, [], ◌∷◌}
use revenue_ai.Domain.Enums.{RecoveryAction, action_in, RecoveryPaymentRequestStatus}

-- `EXECUTABLE_ACTIONS`
abbrev pub executable_actions : List RecoveryAction
executable_actions = RecoveryAction.send_payment_link ∷ []

abbrev pub is_executable : RecoveryAction → Bool
is_executable a = action_in a executable_actions

-- the subclasses of `PaymentProviderError`, the last one for an error of the base class itself
pub data PaymentProviderErrorKind : Type 0 where
  timeout auth rate_limit validation ambiguous unavailable base : PaymentProviderErrorKind

pub record PaymentProviderError : Type 0 where
  pub kind : PaymentProviderErrorKind
  pub message : String

-- The description, a text with the case's id, is left out.
pub record CreatePaymentLinkRequest : Type 0 where
  pub reference_id : ℕ
  pub amount : ℤ
  pub currency : String
  pub expire_by : Option ℕ

pub record PaymentLinkSnapshot : Type 0 where
  pub provider_reference : String
  pub short_url : Option String
  pub status : RecoveryPaymentRequestStatus
  pub amount : ℤ
  pub amount_paid : ℤ
  pub currency : String
  pub reference_id : Option ℕ
  pub expires_at : Option ℕ

-- what a call gives back or raises
pub data ProviderReply (A : Type 0) : Type 0 where
  reply : A → ProviderReply A
  refused : PaymentProviderError → ProviderReply A

-- The two calls that the services make. The first argument counts the calls made before.
pub record PaymentProvider : Type 0 where
  pub create_payment_link : ℕ → CreatePaymentLinkRequest → ProviderReply PaymentLinkSnapshot
  pub find_payment_link_by_reference : ℕ → ℕ → ProviderReply (Option PaymentLinkSnapshot)
