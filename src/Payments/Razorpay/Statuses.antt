-- ===== src/Payments/Razorpay/Statuses.antt =====
-- backend/app/payments/providers/razorpay.py: the provider's words for the status of a link.
use revenue_ai.Payments.Razorpay.{map_payment_link_status}
use revenue_ai.Base.{◌≡◌, ◌⊎◌, refl, arith, String}
use text.Mathlib.TextEquality.{eq_iff}
use revenue_ai.Domain.Enums.{
  RecoveryPaymentRequestStatus, link_status_value, created, paid, partially_paid, expired,
  cancelled,
}

read_back :
    (status : RecoveryPaymentRequestStatus)
    → map_payment_link_status (link_status_value status) ≡ status
unfolding map_payment_link_status
read_back RecoveryPaymentRequestStatus.created = refl
read_back RecoveryPaymentRequestStatus.partially_paid = refl
read_back RecoveryPaymentRequestStatus.paid = refl
read_back RecoveryPaymentRequestStatus.expired = refl
read_back RecoveryPaymentRequestStatus.cancelled = refl

-- The text of every status is read back as that status; and a text that is read as any other status
-- than `created` is the text of that status, so an unknown word is never taken for a payment.
pub map_payment_link_status-value :
    ((status : RecoveryPaymentRequestStatus)
      → map_payment_link_status (link_status_value status) ≡ status)
    × ((value : String)
        → (map_payment_link_status value ≡ created)
          ⊎ (value ≡ link_status_value (map_payment_link_status value)))
unfolding map_payment_link_status
map_payment_link_status-value = (
  read_back,
  λ value. ground (
    arith,
    eq_iff value (link_status_value created),
    eq_iff value (link_status_value partially_paid),
    eq_iff value (link_status_value paid),
    eq_iff value (link_status_value expired),
    eq_iff value (link_status_value cancelled),
  ),
)
