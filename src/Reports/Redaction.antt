-- ===== src/Reports/Redaction.antt =====
-- backend/app/services/audit_export_service.py and core/logging.py: what an exported payload leaves
-- out. `str.lower` is Python's, and an argument.
pub mod Clean
use revenue_ai.Base.{String, Bool, true, false, ◌||◌, List, [], ◌∷◌, any, if◌then◌else◌}
use text.Mathlib.Text.{starts_with}
use revenue_ai.Json.{Json, null, boolean, number, str, array, object, Fields, end, field}

-- `pattern in s`
abbrev pub contains : String → String → Bool
contains pattern String.[] = starts_with String.[] pattern
contains pattern (String.◌∷◌ c s) = starts_with (String.◌∷◌ c s) pattern || contains pattern s

-- `_REDACTED_KEY_FRAGMENTS`
abbrev pub redacted_key_fragments : List String
redacted_key_fragments = "password" ∷ "secret" ∷ "token" ∷ "api_key" ∷ "authorization" ∷ []

module _ (lower : String → String) where
  unfoldable pub is_redacted_key : String → Bool
  is_redacted_key key = any (λ fragment. contains fragment (lower key)) redacted_key_fragments

  -- `_redact` on the dict's items, and on a value of it
  unfoldable mutual
    pub redact : Fields → Fields
    redact end = end
    redact (field key value fields) =
        if is_redacted_key key
        then redact fields
        else field key (redact_value value) (redact fields)

    pub redact_value : Json → Json
    redact_value null = null
    redact_value (boolean b) = boolean b
    redact_value (number n) = number n
    redact_value (str s) = str s
    redact_value (array items) = array items
    redact_value (object fields) = object (redact fields)
