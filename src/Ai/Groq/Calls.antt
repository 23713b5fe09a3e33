-- ===== src/Ai/Groq/Calls.antt =====
-- backend/app/ai/providers/groq.py under backend/app/ai/service.py: how often the service asks.
use revenue_ai.Ai.Groq.{
  invalid, authentication, permission_denied, api_timeout, api_connection, internal_server,
  Validated, GroqResponse, get_ai_service, completion, diagnose_payment, reply_of, classify,
  exception, reply_of_content, timeout_error, rate_limited, bad_request, other_exception,
}
use revenue_ai.Base.{
  ⊤, ◌⊎◌, inl, inr, Bool-cases, str_eq, none, some, ℕ, zero, suc, String, false, ◌≡◌, refl,
}
use revenue_ai.Domain.Enums.{RecoveryAction, DecisionSource}
use revenue_ai.Store.Session.{Session, ok}
use revenue_ai.Ai.{
  PaymentRecoveryContext, AiRecommendationService, AiProviderError, AiOutcome, raised, is_retryable,
  fallback_recommendation, AiReply,
}
use revenue_ai.Ai.Service.{get_recommendation, attempt_loop, call_provider, fell_back}

-- a definite refusal ends the loop at once
attempt_loop-definite :
    (ai : AiRecommendationService) (context : PaymentRecoveryContext) (left : ℕ) (s : Session)
    (e : AiProviderError)
    → ai.provider s.ai_calls context ≡ raised e
    → is_retryable e.kind ≡ false
    → attempt_loop ai context left 0 s
      ≡ (ok (fell_back 0 e), record s { ai_calls = suc s.ai_calls })
unfolding attempt_loop call_provider
attempt_loop-definite ai context zero s e h definite = rw h refl
attempt_loop-definite ai context (suc left) s e h definite = rw (h, definite) refl

-- an answer that another attempt would not mend
abbrev pub IsDefinite : (String → Validated) → GroqResponse → Type 0
IsDefinite validate (completion none) = ⊤
IsDefinite validate (completion (some content)) =
    (content ≡ "") ⊎ ((e : String) × (validate content ≡ invalid e))
IsDefinite validate (exception (authentication m)) = ⊤
IsDefinite validate (exception (permission_denied m)) = ⊤
IsDefinite validate (exception e) = ⊥

-- a reply that raises an error that is not retried
abbrev RaisesFinal : AiReply → Type 0
RaisesFinal r = (e : AiProviderError) × (r ≡ raised e) × (is_retryable e.kind ≡ false)

module _ (validate : String → Validated) where
  content_final :
      (content : String)
      → (content ≡ "") ⊎ ((e : String) × (validate content ≡ invalid e))
      → RaisesFinal (reply_of_content validate (some content))
  content_final content (inl empty) = rw empty (_, refl, refl)
  content_final content (inr (e, h)) = elim (Bool-cases (str_eq content "")) [
    | inl empty ↦ rw empty (_, refl, refl)
    | inr present ↦ rw (present, h) (_, refl, refl)
  ]

  reply_of-final : (r : GroqResponse) → IsDefinite validate r → RaisesFinal (reply_of validate r)
  unfolding reply_of classify
  reply_of-final (completion none) h = (_, refl, refl)
  reply_of-final (completion (some content)) h = content_final content h
  reply_of-final (exception (authentication m)) h = (_, refl, refl)
  reply_of-final (exception (permission_denied m)) h = (_, refl, refl)
  reply_of-final (exception (api_timeout m)) h = elim h [ ]
  reply_of-final (exception (timeout_error m)) h = elim h [ ]
  reply_of-final (exception (rate_limited m)) h = elim h [ ]
  reply_of-final (exception (api_connection m)) h = elim h [ ]
  reply_of-final (exception (internal_server m)) h = elim h [ ]
  reply_of-final (exception (bad_request m)) h = elim h [ ]
  reply_of-final (exception (other_exception name m)) h = elim h [ ]

  module _ (client : ℕ → PaymentRecoveryContext → GroqResponse) where
    provider-final :
        (api_key model : String) (max_retries n : ℕ) (context : PaymentRecoveryContext)
        → (api_key ≡ "") ⊎ IsDefinite validate (client n context)
        → RaisesFinal
            ((get_ai_service validate client api_key model max_retries).provider n context)
    unfolding get_ai_service diagnose_payment
    provider-final api_key model max_retries n context (inl no_key) = rw no_key (_, refl, refl)
    provider-final api_key model max_retries n context (inr h) =
        elim (Bool-cases (str_eq api_key "")) [
          | inl no_key ↦ rw no_key (_, refl, refl)
          | inr key ↦ rw key (reply_of-final (client n context) h)
        ]

    -- Without a key, and where the first call is answered by an authentication or permission error,
    -- an empty completion or an answer that is not valid, the service asks once and does not retry:
    -- it returns the fallback, an escalation with confidence 0, and nothing else has changed.
    pub get_recommendation-definite :
        (api_key model : String) (max_retries : ℕ) (context : PaymentRecoveryContext) (s : Session)
        → (api_key ≡ "") ⊎ IsDefinite validate (client s.ai_calls context)
        → (o : AiOutcome) × (get_recommendation
              (get_ai_service validate client api_key model max_retries)
              context
              s
            ≡ (ok o, record s { ai_calls = suc s.ai_calls }))
          × (o.decision_source ≡ DecisionSource.fallback)
          × (o.recommendation.recommended_action ≡ RecoveryAction.escalate)
          × (o.recommendation.recovery_confidence ≡ 0)
    unfolding get_recommendation fell_back fallback_recommendation get_ai_service
    get_recommendation-definite api_key model max_retries context s h =
        let ai = get_ai_service validate client api_key model max_retries in
        let (e, raises, final) = provider-final api_key model max_retries s.ai_calls context h in
        (
          fell_back 0 e,
          attempt_loop-definite ai context max_retries s e raises final,
          refl,
          refl,
          refl,
        )
