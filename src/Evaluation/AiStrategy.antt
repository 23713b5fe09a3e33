-- ===== src/Evaluation/AiStrategy.antt =====
-- evaluation/ai_strategy/shared.py and groq_strategy.py: one call of the model for a case. The groq
-- client and pydantic's validation of the answer are arguments; latencies are left out.
use Prim.Native.String.{◌++◌ as ◌+++◌}
use revenue_ai.Base.{String, str_eq, Bool, true, false, Option, none, some, if◌then◌else◌}
use revenue_ai.Domain.Enums.{RecoveryAction}
use revenue_ai.Domain.Policy.{Confidence}
use revenue_ai.Ai.{text_prefix}
use revenue_ai.Evaluation.{SyntheticCaseInput}
use revenue_ai.Evaluation.Baseline.{BaselineDecision}

pub record CaseRecommendation : Type 0 where
  pub recommended_action : RecoveryAction
  pub confidence : Confidence
  pub rationale : String

-- What `client.chat.completions.create` raises, with its text; an exception that the source does not
-- name has its type's name too.
pub data GroqError : Type 0 where
  api_timeout authentication permission_denied rate_limit : String → GroqError
  api_connection internal_server : String → GroqError
  other_error : String → String → GroqError

-- The content is `none` where there is no choice or its message has no content.
pub data Completion : Type 0 where
  raised : GroqError → Completion
  completed : Option String → Completion

pub data Validation : Type 0 where
  valid : CaseRecommendation → Validation
  invalid : String → Validation

pub record AiCallOutcome : Type 0 where
  pub decision : BaselineDecision
  pub succeeded : Bool
  pub error : Option String

unfoldable pub classify_call : GroqError → String
classify_call (api_timeout e) = "timeout: " +++ e
classify_call (authentication e) = "auth: " +++ e
classify_call (permission_denied e) = "auth: " +++ e
classify_call (rate_limit e) = "429 quota / rate limit: " +++ e
classify_call (api_connection e) = "provider unavailable: " +++ e
classify_call (internal_server e) = "provider unavailable: " +++ e
classify_call (other_error type_name e) = type_name +++ (": " +++ e)

unfoldable pub fallback : String → BaselineDecision
fallback reason = record {
  action = RecoveryAction.escalate;
  confidence = 0;
  rationale =
      "AI evaluation call failed; escalating per safe fallback. ("
      +++ (text_prefix 200 reason +++ ")");
}

abbrev pub failed_call : String → String → AiCallOutcome
failed_call reason error = record {
  decision = fallback reason;
  succeeded = false;
  error = some error;
}

abbrev pub answered : CaseRecommendation → AiCallOutcome
answered parsed = record {
  decision = record {
    action = parsed.recommended_action;
    confidence = parsed.confidence;
    rationale = parsed.rationale;
  };
  succeeded = true;
  error = none;
}

abbrev pub outcome_of : Validation → AiCallOutcome
outcome_of (valid parsed) = answered parsed
outcome_of (invalid error) = failed_call ("schema validation failed: " +++ error) error

module _ (validate : String → Validation) where
  abbrev pub outcome_of_content : Option String → AiCallOutcome
  outcome_of_content none = failed_call "empty completion" "empty completion"
  outcome_of_content (some content) =
      if str_eq content ""
      then failed_call "empty completion" "empty completion"
      else outcome_of (validate content)

  abbrev pub outcome_of_completion : Completion → AiCallOutcome
  outcome_of_completion (raised e) = failed_call (classify_call e) (classify_call e)
  outcome_of_completion (completed content) = outcome_of_content content

  unfoldable pub ask_groq : (SyntheticCaseInput → Completion) → SyntheticCaseInput → AiCallOutcome
  ask_groq client i = outcome_of_completion (client i)
