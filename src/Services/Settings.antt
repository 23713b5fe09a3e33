-- ===== src/Services/Settings.antt =====
-- backend/app/core/config.py as far as the services read it, services/policy_service.py, and the
-- rows that a case belongs to.
use revenue_ai.Base.{ℕ, ℤ, Bool}
use revenue_ai.Domain.Policy.{Confidence, PolicyConfig}
use revenue_ai.Store.Models.{Customer, Payment}
use revenue_ai.Store.Session.{Action, query, or_raise, ◌>>=◌, integrity_error}
use revenue_ai.Store.Repositories.{get_payment, get_customer}

pub record Settings : Type 0 where
  pub recovery_payment_link_expiry_hours : ℕ
  pub orchestrator_auto_execute : Bool
  pub orchestrator_max_discover : ℕ
  pub orchestrator_max_diagnose : ℕ
  pub orchestrator_max_execute : ℕ
  pub policy_max_retry_count : ℕ
  pub policy_max_recovery_window_days : ℕ
  pub policy_max_customer_contacts : ℕ
  pub policy_min_confidence_threshold : Confidence
  pub policy_high_value_amount_threshold : ℤ
  pub policy_high_value_min_confidence_threshold : Confidence
  pub policy_max_recovery_amount : ℤ

unfoldable pub get_policy_config : Settings → PolicyConfig
get_policy_config settings = record {
  policy_version = "v1";
  max_retry_count = settings.policy_max_retry_count;
  max_recovery_window_days = settings.policy_max_recovery_window_days;
  max_customer_contacts = settings.policy_max_customer_contacts;
  min_confidence_threshold = settings.policy_min_confidence_threshold;
  high_value_amount_threshold = settings.policy_high_value_amount_threshold;
  high_value_min_confidence_threshold = settings.policy_high_value_min_confidence_threshold;
  max_recovery_amount = settings.policy_max_recovery_amount;
}

-- `case.payment` and `payment.customer`; a foreign key that points nowhere is an integrity error
unfoldable pub load_payment : ℕ → Action Payment
load_payment id = query (get_payment id) >>= λ p. or_raise p integrity_error

unfoldable pub load_customer : ℕ → Action Customer
load_customer id = query (get_customer id) >>= λ c. or_raise c integrity_error
