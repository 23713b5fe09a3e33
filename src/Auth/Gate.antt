-- ===== src/Auth/Gate.antt =====
-- backend/app/core/auth.py: who is admitted.
use revenue_ai.Auth.{
  AuthSettings, admitted, production, insecure_configuration, validate_auth_configuration,
  require_api_key,
}
use revenue_ai.Payments.Webhooks.{is_ascii}
use revenue_ai.Base.{String, true, ◌≡◌, ◌≢◌, ◌↔◌, arith}
use text.Mathlib.TextEquality.{eq_iff}

-- A production deployment that starts has a key, and it admits a request exactly if the header of
-- the request is that key and the key is ASCII.
pub require_api_key-admits :
    (s : AuthSettings) (header : String)
    → s.app_env ≡ production
    → validate_auth_configuration s ≢ insecure_configuration
    → (s.api_key ≢ "")
      × ((require_api_key s header ≡ admitted) ↔ ((header ≡ s.api_key) × (is_ascii header ≡ true)))
unfolding validate_auth_configuration require_api_key
require_api_key-admits s header in_production starts =
    ground (arith, eq_iff s.api_key "", eq_iff header s.api_key)
