-- ===== src/Ai/Service.antt =====
-- backend/app/ai/service.py: `AIRecommendationService.get_recommendation`.
use revenue_ai.Base.{ℕ, zero, suc, none, some, if◌then◌else◌}
use revenue_ai.Domain.Enums.{DecisionSource}
use revenue_ai.Store.Session.{ok, Action, pure, ◌>>=◌}
use revenue_ai.Ai.{
  PaymentRecoveryContext, AiProviderError, kind_name, AiReply, reply, raised,
  RecoveryRecommendation, AiRecommendationService, AiOutcome, is_retryable, prompt_version,
  fallback_recommendation,
}

-- one call of `diagnose_payment`
unfoldable pub call_provider : AiRecommendationService → PaymentRecoveryContext → Action AiReply
call_provider ai context s =
    (ok (ai.provider s.ai_calls context), record s { ai_calls = suc s.ai_calls })

unfoldable pub answered : AiRecommendationService → ℕ → RecoveryRecommendation → AiOutcome
answered ai retries recommendation = record {
  decision_source = DecisionSource.ai;
  recommendation = recommendation;
  model = some ai.model_name;
  prompt_version = prompt_version;
  retry_count = retries;
  failure_code = none;
  failure_message = none;
}

unfoldable pub fell_back : ℕ → AiProviderError → AiOutcome
fell_back retries error = record {
  decision_source = DecisionSource.fallback;
  recommendation = fallback_recommendation error;
  model = none;
  prompt_version = prompt_version;
  retry_count = retries;
  failure_code = some (kind_name error.kind);
  failure_message = some error.message;
}

-- The loop, after `retries` failed attempts, with the number of retries that are left. The last
-- attempt ends it whatever the error; an earlier one only if the error is not retryable.
unfoldable pub attempt_loop :
    AiRecommendationService → PaymentRecoveryContext → ℕ → ℕ → Action AiOutcome
attempt_loop ai context zero retries = call_provider ai context >>= λ r. elim r [
  | reply recommendation ↦ pure (answered ai retries recommendation)
  | raised error ↦ pure (fell_back retries error)
]
attempt_loop ai context (suc left) retries = call_provider ai context >>= λ r. elim r [
  | reply recommendation ↦ pure (answered ai retries recommendation)
  | raised error ↦
      let again = attempt_loop ai context left (suc retries) in
      if is_retryable error.kind then again else pure (fell_back retries error)
]

unfoldable pub get_recommendation :
    AiRecommendationService → PaymentRecoveryContext → Action AiOutcome
get_recommendation ai context = attempt_loop ai context ai.max_retries 0
