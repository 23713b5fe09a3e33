-- ===== src/Payments/Wiring/Unconfigured.antt =====
-- backend/app/payments/dependencies.py with backend/app/services/execution_service.py: which provider
-- is chosen, and what an execution does without credentials.
use revenue_ai.Payments.Wiring.{
  choose_provider, RazorpaySettings, chosen, razorpay, unconfigured, not_configured,
  unconfigured_provider,
}
use revenue_ai.Base.{
  ℕ, String, str_eq, true, false, ◌≡◌, ◌≢◌, ◌↔◌, ◌||◌, refl, arith, Option, none, some,
}
use text.Mathlib.TextEquality.{eq_iff}
use revenue_ai.Domain.Enums.{
  RecoveryAction, PolicyDecisionType, allow, block, escalated, ProviderFailureCategory,
}
use revenue_ai.Domain.Policy.{PolicyDecision}
use revenue_ai.Domain.Providers.{
  PaymentProviderError, CreatePaymentLinkRequest, ProviderReply, refused, PaymentLinkSnapshot,
  is_executable,
}
use revenue_ai.Store.Models.{CorrelationId}
use revenue_ai.Store.Session.{ok, commit, load_case, transition, ◌>>=◌, Session}
use revenue_ai.Store.Yields.{Yields, Yields-then, Yields-if, Yields-pure, Yields-bind, Yields-guard}
use revenue_ai.Services.Settings.{Settings}
use revenue_ai.Services.Execution
use revenue_ai.Services.Execution.{
  assign_attempt, recheck_policy, eqb_ℤ, ExecutionResponse, escalate_case, handle_definite_failure,
  handle_reply, call_create, proceed, execute_unguarded, execute_recovery_case, link_request,
}
use revenue_ai.Payments.Razorpay.{construct}

-- Razorpay is used exactly with both credentials in test mode. Without one of the credentials the
-- stand-in is used, whatever the mode; with both, any other mode is refused.
choose_provider-razorpay :
    (s : RazorpaySettings)
    → ((choose_provider s ≡ chosen razorpay)
        ↔ ((s.razorpay_key_id ≢ "") × (s.razorpay_key_secret ≢ "") × (s.razorpay_mode ≡ "test")))
      × ((choose_provider s ≡ chosen unconfigured)
          ↔ ((str_eq s.razorpay_key_id "" || str_eq s.razorpay_key_secret "") ≡ true))
unfolding choose_provider construct
choose_provider-razorpay s = ground (
  arith,
  eq_iff s.razorpay_key_id "",
  eq_iff s.razorpay_key_secret "",
  eq_iff s.razorpay_mode "test",
)

abbrev NotExecuted : ExecutionResponse → Type 0
NotExecuted r = r.executed ≡ false

escalate_case-NotExecuted :
    (id : ℕ) (reason : String) (correlation : CorrelationId) (decision : Option PolicyDecision)
    → Yields NotExecuted (escalate_case id reason correlation decision)
unfolding escalate_case
escalate_case-NotExecuted id reason correlation decision =
    Yields-then (transition id escalated correlation (some reason)) _
      λ _. Yields-then commit _ λ _. Yields-then (load_case id) _ λ case. Yields-pure _ refl

handle_definite_failure-NotExecuted :
    (id attempt : ℕ) (e : PaymentProviderError) (correlation : CorrelationId)
    (category : Option ProviderFailureCategory) (reason : Option String)
    → Yields NotExecuted (handle_definite_failure id attempt e correlation category reason)
unfolding handle_definite_failure
handle_definite_failure-NotExecuted id attempt e correlation category reason =
    search (Yields-then, escalate_case-NotExecuted) depth 12

call_create-refused :
    (request : CreatePaymentLinkRequest)
    → Yields
        (λ (r : ProviderReply PaymentLinkSnapshot). r ≡ refused not_configured)
        (call_create unconfigured_provider request)
unfolding call_create unconfigured_provider
call_create-refused request = record { at = λ s s' a h. cc }

handle_reply-NotExecuted :
    (id attempt key : ℕ) (correlation : CorrelationId) (r : ProviderReply PaymentLinkSnapshot)
    → r ≡ refused not_configured
    → Yields NotExecuted (handle_reply unconfigured_provider id attempt key correlation r)
unfolding handle_reply
handle_reply-NotExecuted id attempt key correlation r h =
    rw h (handle_definite_failure-NotExecuted id attempt not_configured correlation none none)

call_create-NotExecuted :
    (id attempt key : ℕ) (correlation : CorrelationId) (request : CreatePaymentLinkRequest)
    → Yields NotExecuted (
        call_create unconfigured_provider request
        >>= handle_reply unconfigured_provider id attempt key correlation)
call_create-NotExecuted id attempt key correlation request =
    Yields-bind (call_create unconfigured_provider request) _ (call_create-refused request)
      (handle_reply-NotExecuted id attempt key correlation)

create_payment_link-NotExecuted :
    (settings : Settings) (id payment_id : ℕ) (correlation : CorrelationId)
    → Yields NotExecuted
        (Execution.create_payment_link settings unconfigured_provider id payment_id correlation)
unfolding Execution.create_payment_link
create_payment_link-NotExecuted settings id payment_id correlation =
    search (Yields-then, call_create-NotExecuted) depth 40

proceed-NotExecuted :
    (settings : Settings) (id payment_id : ℕ) (action : RecoveryAction) (decision : PolicyDecision)
    (correlation : CorrelationId) (verdict : PolicyDecisionType)
    → Yields NotExecuted
        (proceed settings unconfigured_provider id payment_id action decision correlation verdict)
unfolding proceed
proceed-NotExecuted settings id payment_id action decision correlation block =
    search (escalate_case-NotExecuted)
proceed-NotExecuted settings id payment_id action decision correlation allow =
    Yields-if (is_executable action) _ _
      (λ h. search (Yields-then, create_payment_link-NotExecuted))
      (λ h. search (escalate_case-NotExecuted))

execute_recovery_case-NotExecuted :
    (settings : Settings) (id : ℕ) (correlation : CorrelationId)
    → Yields NotExecuted (execute_recovery_case settings unconfigured_provider id correlation)
unfolding execute_recovery_case execute_unguarded
execute_recovery_case-NotExecuted settings id correlation =
    search (Yields-guard, Yields-then, proceed-NotExecuted) depth 40

-- Without credentials no execution reports a payment link: whatever the case and the tables, if an
-- execution by the stand-in provider returns a response, then one that is not executed.
pub execute_recovery_case-unconfigured :
    (settings : Settings) (id : ℕ) (correlation : CorrelationId) (s s' : Session)
    (response : ExecutionResponse)
    → execute_recovery_case settings unconfigured_provider id correlation s ≡ (ok response, s')
    → response.executed ≡ false
execute_recovery_case-unconfigured settings id correlation s s' response h =
    (execute_recovery_case-NotExecuted settings id correlation).at s s' response h
