-- ===== src/Ai/Groq.antt =====
-- backend/app/ai/providers/groq.py and ai/dependencies.py: the client of the Groq API and the service
-- that the application uses. What the client library does with a request, and pydantic's validation
-- of the answer, are arguments. Log lines are left out.
pub mod Calls
use Prim.Native.String.{◌++◌ as ◌+++◌}
use revenue_ai.Base.{ℕ, String, str_eq, Option, none, some, if◌then◌else◌}
use revenue_ai.Ai.{
  PaymentRecoveryContext, RecoveryRecommendation, AiProviderError, AiProviderErrorKind, AiReply,
  reply, raised, AiRecommendationService,
}

-- What `chat.completions.create` raises, by its class, with its text. The last one is any other
-- exception, with the name of its class.
pub data GroqException : Type 0 where
  api_timeout timeout_error authentication permission_denied : String → GroqException
  rate_limited api_connection internal_server bad_request : String → GroqException
  other_exception : String → String → GroqException

-- The content is `none` where there is no choice, or none in its message.
pub data GroqResponse : Type 0 where
  completion : Option String → GroqResponse
  exception : GroqException → GroqResponse

pub data Validated : Type 0 where
  valid : RecoveryRecommendation → Validated
  invalid : String → Validated

abbrev pub provider_error : AiProviderErrorKind → String → AiProviderError
provider_error kind message = record { kind = kind; message = message }

unfoldable pub classify : GroqException → AiProviderError
classify (api_timeout m) =
    provider_error AiProviderErrorKind.timeout ("Groq request timed out: " +++ m)
classify (timeout_error m) =
    provider_error AiProviderErrorKind.timeout ("Groq request timed out: " +++ m)
classify (authentication m) =
    provider_error AiProviderErrorKind.auth ("Groq authentication failed: " +++ m)
classify (permission_denied m) =
    provider_error AiProviderErrorKind.auth ("Groq authentication failed: " +++ m)
classify (rate_limited m) =
    provider_error AiProviderErrorKind.rate_limit ("Groq rate limit exceeded: " +++ m)
classify (api_connection m) =
    provider_error AiProviderErrorKind.unavailable ("Groq provider unavailable: " +++ m)
classify (internal_server m) =
    provider_error AiProviderErrorKind.unavailable ("Groq provider unavailable: " +++ m)
classify (bad_request m) =
    provider_error AiProviderErrorKind.unavailable ("Groq request failed (BadRequestError): " +++ m)
classify (other_exception name m) =
    provider_error AiProviderErrorKind.unavailable
      ("Groq request failed (" +++ (name +++ ("): " +++ m)))

abbrev pub empty_completion : AiReply
empty_completion =
    raised
      (provider_error AiProviderErrorKind.invalid_response "Groq returned an empty completion.")

abbrev pub reply_of_validated : Validated → AiReply
reply_of_validated (valid recommendation) = reply recommendation
reply_of_validated (invalid e) = raised (
    provider_error AiProviderErrorKind.invalid_response
      ("Groq output failed schema validation: " +++ e))

module _ (validate : String → Validated) where
  abbrev pub reply_of_content : Option String → AiReply
  reply_of_content none = empty_completion
  reply_of_content (some content) =
      if str_eq content "" then empty_completion else reply_of_validated (validate content)

  -- `diagnose_payment`, after the call of the client library
  unfoldable pub reply_of : GroqResponse → AiReply
  reply_of (exception e) = raised (classify e)
  reply_of (completion content) = reply_of_content content

  -- The client library may answer each call, which its number tells, as it likes.
  unfoldable pub diagnose_payment :
      (ℕ → PaymentRecoveryContext → GroqResponse) → ℕ → PaymentRecoveryContext → AiReply
  diagnose_payment client n context = reply_of (client n context)

  -- `_UnconfiguredProvider`
  abbrev pub unconfigured_diagnosis : ℕ → PaymentRecoveryContext → AiReply
  unconfigured_diagnosis n context =
      raised (provider_error AiProviderErrorKind.auth "GROQ_API_KEY is not configured.")

  -- `get_ai_service`, by the key, the model's name and the number of retries of the settings
  unfoldable pub get_ai_service :
      (ℕ → PaymentRecoveryContext → GroqResponse) → String → String → ℕ → AiRecommendationService
  get_ai_service client api_key model max_retries = record {
    provider = if str_eq api_key "" then unconfigured_diagnosis else diagnose_payment client;
    model_name = model;
    max_retries = max_retries;
  }
