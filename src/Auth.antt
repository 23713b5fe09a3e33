-- ===== src/Auth.antt =====
-- backend/app/core/auth.py: the shared key of the API. The settings are read once per process, so
-- the check at the start and the check of a request see the same.
pub mod Gate
use revenue_ai.Base.{String, str_eq, Bool, true, false, Option, none, some, if◌then◌else◌}
use revenue_ai.Payments.Webhooks.{compare_digest}

-- `Settings.app_env`
pub data AppEnv : Type 0 where
  development testing production : AppEnv

-- the settings that the authentication reads
pub record AuthSettings : Type 0 where
  pub api_key : String
  pub app_env : AppEnv

-- `Settings.is_production`
abbrev pub is_production : AppEnv → Bool
is_production production = true
is_production _ = false

-- what becomes of the application: it starts, perhaps with the warning that nothing is
-- authenticated, or `InsecureConfigurationError` stops it
pub data Startup : Type 0 where
  started started_open insecure_configuration : Startup

unfoldable pub validate_auth_configuration : AuthSettings → Startup
validate_auth_configuration s =
    if str_eq s.api_key ""
    then (if is_production s.app_env then insecure_configuration else started_open)
    else started

-- what becomes of a request: it goes on, or ends with status 401, or with a `TypeError`
pub data Access : Type 0 where
  admitted unauthorized type_error : Access

abbrev pub access_of : Option Bool → Access
access_of none = type_error
access_of (some true) = admitted
access_of (some false) = unauthorized

-- `require_api_key`, of a header that is empty if it is missing; `secrets.compare_digest` is that
-- of `hmac`
unfoldable pub require_api_key : AuthSettings → String → Access
require_api_key s x_api_key =
    if str_eq s.api_key "" then admitted else access_of (compare_digest x_api_key s.api_key)
