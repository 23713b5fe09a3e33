-- ===== src/Ai/Outcome.antt =====
-- backend/app/ai/service.py: the outcome of `get_recommendation`.
use revenue_ai.Store.Session.{Session, Result, ok}
use revenue_ai.Ai.Service.{get_recommendation, answered, attempt_loop, fell_back, call_provider}
use revenue_ai.Base.{
  ℕ, zero, suc, ◌+◌, ◌≤◌, ◌≡◌, ◌⊎◌, true, inl, arith, inr, Bool-cases, ap, refl, subst,
}
use revenue_ai.Ai.{
  reply, raised, AiReply, AiRecommendationService, RecoveryRecommendation, AiProviderError,
  PaymentRecoveryContext, AiOutcome, fallback_recommendation, is_retryable,
}
use revenue_ai.Domain.Enums.{escalate, DecisionSource}

-- Where an outcome comes from: the answer of the last call, or the safe recommendation after its
-- error, which is a retryable one only if no retry is left.
abbrev pub Origin : AiRecommendationService → PaymentRecoveryContext → ℕ → ℕ → AiOutcome → Type 0
Origin ai context first most o =
    ((ai.provider (first + o.retry_count) context ≡ reply o.recommendation)
      × (o.decision_source ≡ DecisionSource.ai))
    ⊎ ((e : AiProviderError) × (ai.provider (first + o.retry_count) context ≡ raised e)
        × (o.decision_source ≡ DecisionSource.fallback)
        × (o.recommendation.recommended_action ≡ escalate)
        × (o.recommendation.recovery_confidence ≡ 0)
        × (is_retryable e.kind ≡ true → o.retry_count ≡ most))

-- The run of a loop that starts at the call `first`: it returns, it changes nothing but the
-- number of calls, which is that of the retries and one, and it does not retry more than `most`
-- times.
pub record Answers (ai : AiRecommendationService) (context : PaymentRecoveryContext)
    (first most : ℕ) (s : Session) (run : Result AiOutcome × Session) : Type 0 where
  pub outcome : AiOutcome
  pub returned : run ≡ (ok outcome, record s { ai_calls = suc (first + outcome.retry_count) })
  pub bounded : outcome.retry_count ≤ most
  pub origin : Origin ai context first most outcome

AiReply-cases :
    (r : AiReply)
    → ((x : RecoveryRecommendation) × (r ≡ reply x)) ⊎ ((e : AiProviderError) × (r ≡ raised e))
AiReply-cases (reply x) = inl (x, refl)
AiReply-cases (raised e) = inr (e, refl)

module _ (ai : AiRecommendationService) (context : PaymentRecoveryContext) (first most : ℕ) where
  reply-Answers :
      (retries : ℕ) (s : Session) (x : RecoveryRecommendation)
      → s.ai_calls ≡ first + retries
      → retries ≤ most
      → ai.provider s.ai_calls context ≡ reply x
      → Answers ai context first most s
          (ok (answered ai retries x), record s { ai_calls = suc s.ai_calls })
  unfolding answered
  reply-Answers retries s x calls le h = record {
    outcome = answered ai retries x;
    returned = ap (λ n. (ok (answered ai retries x), record s { ai_calls = suc n })) calls;
    bounded = le;
    origin = inl (subst (λ n. ai.provider n context ≡ reply x) calls h, refl);
  }

  raised-Answers :
      (retries : ℕ) (s : Session) (e : AiProviderError)
      → s.ai_calls ≡ first + retries
      → retries ≤ most
      → (is_retryable e.kind ≡ true → retries ≡ most)
      → ai.provider s.ai_calls context ≡ raised e
      → Answers ai context first most s
          (ok (fell_back retries e), record s { ai_calls = suc s.ai_calls })
  unfolding fell_back fallback_recommendation
  raised-Answers retries s e calls le last h = record {
    outcome = fell_back retries e;
    returned = ap (λ n. (ok (fell_back retries e), record s { ai_calls = suc n })) calls;
    bounded = le;
    origin = inr (e, subst (λ n. ai.provider n context ≡ raised e) calls h, refl, refl, refl, last);
  }

  attempt_loop-Answers :
      (left retries : ℕ) (s : Session)
      → s.ai_calls ≡ first + retries
      → retries + left ≡ most
      → Answers ai context first most s (attempt_loop ai context left retries s)
  unfolding attempt_loop call_provider
  attempt_loop-Answers zero retries s calls total =
      elim (AiReply-cases (ai.provider s.ai_calls context)) [
        | inl (x, h) ↦ rw h (reply-Answers retries s x calls (omega arith) h)
        | inr (e, h) ↦ rw h (raised-Answers retries s e calls (omega arith) (λ _. omega arith) h)
      ]
  attempt_loop-Answers (suc left) retries s calls total =
      let again =
        attempt_loop-Answers left (suc retries) (record s { ai_calls = suc s.ai_calls })
          (omega arith) (omega arith) in
      elim (AiReply-cases (ai.provider s.ai_calls context)) [
        | inl (x, h) ↦ rw h (reply-Answers retries s x calls (omega arith) h)
        | inr (e, h) ↦ rw h (elim (Bool-cases (is_retryable e.kind)) [
          | inl retryable ↦ rw retryable (record {
            outcome = again.outcome;
            returned = again.returned;
            bounded = again.bounded;
            origin = again.origin;
          })
          | inr final ↦ rw final (raised-Answers retries s e calls (omega arith) (λ y. cc) h)
        ])
      ]

-- Whatever the AI provider answers or raises at each call, `get_recommendation` returns an outcome
-- and never an error. It retries at most `max_retries` times, it changes nothing of the session
-- but the number of calls, and its outcome is the provider's last answer, marked as the AI's, or
-- after an error the fallback, which escalates with confidence 0; an error that may be retried
-- ends the loop only after the last retry.
pub get_recommendation-Answers :
    (ai : AiRecommendationService) (context : PaymentRecoveryContext) (s : Session)
    → Answers ai context s.ai_calls ai.max_retries s (get_recommendation ai context s)
unfolding get_recommendation
get_recommendation-Answers ai context s =
    attempt_loop-Answers ai context s.ai_calls ai.max_retries ai.max_retries 0 s (omega arith)
      (omega arith)
