-- ===== src/Checks/Clients.antt =====
-- The theorems on the clients, the webhook deliveries and the reports at concrete data.
use revenue_ai.Auth.Gate.{require_api_key-admits}
use revenue_ai.Auth.{
  AuthSettings, require_api_key, validate_auth_configuration, Access, AppEnv, Startup,
}
use revenue_ai.Services.Settings.{get_policy_config, load_payment}
use revenue_ai.Domain.Policy.{default_policy_config, collect_reason_codes, evaluate_policy}
use revenue_ai.Domain.StateMachine.{can_transition}
use revenue_ai.Reports.Timeline.Order.{is_of_case, get_case_timeline-lem}
use revenue_ai.Evaluation.Metrics.Bounds.{IsProper}
use revenue_ai.Reports.Summary.{compute_recovery_summary}
use revenue_ai.Reports.Timeline.{get_case_timeline}
use revenue_ai.Reports.Summary.Totals.{sum_over, statuses, compute_recovery_summary-lem}
use revenue_ai.Base.{
  ℕ, suc, ◌≤◌, ◌≡◌, ◌≢◌, ◌↔◌, ◌⊎◌, inr, pos, ◌≤ℤ◌, ◌+ℤ◌, true, false, refl, List, [], count, none,
  some, String, ◌&&◌, if◌then◌else◌, Bool, is_some,
}
use mathlib.Core.Option
use revenue_ai.Api.{serve_all}
use revenue_ai.Checks.Data.{
  lifecycle, settings, context, eligible_session, waiting_session, approved_session,
}
use revenue_ai.Store.Models.{empty_db, AuditEvent, given}
use revenue_ai.Store.Session.{
  Session, ok, err, not_found, get_case, now, new_uuid, load_case, assign_case, flush_row,
  flush_dirty, flush, commit, rollback, guard_against_concurrent_modification, record_event,
  validate_transition, transition,
}
use revenue_ai.Domain.Enums.{
  RecoveryCaseStatus, RecoveryPaymentRequestStatus, RecoveryAction, DecisionSource,
}
use revenue_ai.Domain.Providers.{CreatePaymentLinkRequest, PaymentProviderErrorKind}
use revenue_ai.Payments.Razorpay.{
  RazorpayApi, HttpOutcome, create_payment_link, link_body, map_payment_link_status,
}
use revenue_ai.Payments.Razorpay.Errors.{error_kind, IsUncertain, create_payment_link-ambiguous}
use revenue_ai.Payments.Wiring.{unconfigured_provider}
use revenue_ai.Payments.Wiring.Unconfigured.{execute_recovery_case-unconfigured}
use revenue_ai.Services.Execution.{
  ExecutionResponse, failure_category, recheck_input, recheck_policy, call_create, handle_reply,
  new_attempt, link_request, proceed, execute_unguarded, handle_definite_failure, escalate_case,
}
use revenue_ai.Services.Execution
use revenue_ai.Ai.{AiOutcome, PaymentRecoveryContext}
use revenue_ai.Ai.Service.{get_recommendation}
use revenue_ai.Ai.Groq.{GroqResponse, GroqException, Validated, get_ai_service}
use revenue_ai.Ai.Groq.Calls.{get_recommendation-definite}
use revenue_ai.Payments.Webhooks.{Delivery, Loaded, receive_razorpay_webhook, is_ascii}
use revenue_ai.Payments.Webhooks.Deliveries.{
  receive_razorpay_webhook-IsAuthentic, IsAuthentic, IsAcknowledged,
}
use revenue_ai.Base.Sorting.{IsSorted}
use revenue_ai.Json.{Fields, Items, array, object, str, field, end, get}
use revenue_ai.Reports.Redaction.{redact, redact_value, is_redacted_key}
use revenue_ai.Reports.Redaction.Clean.{redact-IsClean, IsClean}

abbrev gone : {B : Type 0} → HttpOutcome B
gone =
    HttpOutcome.responded
      record { status_code = 503; body = none; error_body = none; text = ""; shown = λ j. "" }

abbrev failing_api : RazorpayApi
failing_api = record {
  post_payment_link = λ b. gone;
  get_payment_link = λ r. gone;
  get_payment_links = λ r. gone;
  get_payment = λ r. gone;
  post_notify = λ r m. gone;
}

abbrev request : CreatePaymentLinkRequest
request = record { reference_id = 3; amount = pos 49900; currency = "INR"; expire_by = none }

create_payment_link-ambiguous_example :
    ((error_kind (create_payment_link failing_api request)
        ≡ some PaymentProviderErrorKind.ambiguous)
      ↔ IsUncertain (failing_api.post_payment_link (link_body request)))
    × (error_kind (create_payment_link failing_api request) ≢ some PaymentProviderErrorKind.timeout)
    × (error_kind (create_payment_link failing_api request)
        ≢ some PaymentProviderErrorKind.unavailable)
create_payment_link-ambiguous_example = create_payment_link-ambiguous failing_api request

abbrev denied : ℕ → PaymentRecoveryContext → GroqResponse
denied n c = GroqResponse.exception (GroqException.permission_denied "403")

abbrev nothing_valid : String → Validated
nothing_valid s = Validated.invalid s

get_recommendation-definite_example :
    (o : AiOutcome) × (get_recommendation
        (get_ai_service nothing_valid denied "key" "model" 2)
        context
        eligible_session
      ≡ (ok o, record eligible_session { ai_calls = suc eligible_session.ai_calls }))
    × (o.decision_source ≡ DecisionSource.fallback)
    × (o.recommendation.recommended_action ≡ RecoveryAction.escalate)
    × (o.recommendation.recovery_confidence ≡ 0)
get_recommendation-definite_example =
    get_recommendation-definite nothing_valid denied "key" "model" 2 context eligible_session
      (inr tt)

abbrev forged : Delivery
forged = record { raw_body = "{}"; signature = "00"; event_id = none }

abbrev digest : String → String → String
digest secret body = "ff"

abbrev empty_object : String → Loaded
empty_object s = Loaded.loaded (object end)

receive_razorpay_webhook-IsAuthentic_example :
    IsAuthentic digest empty_object "whsec" forged
    ⊎ (((receive_razorpay_webhook digest empty_object "whsec" none forged waiting_session).1
          ≡ waiting_session)
        × ¬ IsAcknowledged
            (receive_razorpay_webhook digest empty_object "whsec" none forged waiting_session).0)
receive_razorpay_webhook-IsAuthentic_example =
    receive_razorpay_webhook-IsAuthentic digest empty_object "whsec" none forged waiting_session

abbrev same_text : String → String
same_text s = s

abbrev leaking : Fields
leaking = field "client" (object (field "api_key" (str "k") end)) (field "token" (str "t") end)

leaking_redacted : redact same_text leaking ≡ field "client" (object end) end
unfolding redact is_redacted_key
leaking_redacted = refl

redact-IsClean_example :
    IsClean same_text (redact same_text leaking)
    × (redact same_text (redact same_text leaking) ≡ redact same_text leaking)
    × ((key : String)
        → get key (redact same_text leaking) ≡ (
            if is_redacted_key same_text key
            then none
            else Option.map (redact_value same_text) (get key leaking)))
    × ((items : Items) → redact_value same_text (array items) ≡ array items)
redact-IsClean_example = redact-IsClean same_text leaking

get_case_timeline-lem_example :
    ((is_some (get_case 2 (serve_all lifecycle empty_db)) ≡ false)
      × (get_case_timeline 2 (serve_all lifecycle empty_db) ≡ err not_found))
    ⊎ ((is_some (get_case 2 (serve_all lifecycle empty_db)) ≡ true)
        × ((events : List AuditEvent) × (get_case_timeline 2 (serve_all lifecycle empty_db)
              ≡ ok events)
            × IsSorted (λ (e : AuditEvent). e.created_at) events
            × ((p : AuditEvent → Bool)
                → count p events
                  ≡ count
                      (λ e. is_of_case 2 (serve_all lifecycle empty_db) e.entity && p e)
                      (serve_all lifecycle empty_db).audit_events)))
get_case_timeline-lem_example = get_case_timeline-lem 2 (serve_all lifecycle empty_db)

compute_recovery_summary-lem_example :
    (sum_over statuses (compute_recovery_summary waiting_session.work).cases_by_status
      ≡ (compute_recovery_summary waiting_session.work).cases_total)
    × ((compute_recovery_summary waiting_session.work).cases_eligible
        ≤ (compute_recovery_summary waiting_session.work).cases_total)
    × (pos 0 ≤ℤ (compute_recovery_summary waiting_session.work).outstanding_revenue)
    × ((compute_recovery_summary waiting_session.work).eligible_revenue ≤ℤ (
        (compute_recovery_summary waiting_session.work).outstanding_revenue
        +ℤ (compute_recovery_summary waiting_session.work).confirmed_recovered_revenue))
    × (((compute_recovery_summary waiting_session.work).outstanding_revenue ≡ pos 0) ↔ (
        (compute_recovery_summary waiting_session.work).eligible_revenue
        ≤ℤ (compute_recovery_summary waiting_session.work).confirmed_recovered_revenue))
    × IsProper (compute_recovery_summary waiting_session.work).escalation_rate
    × IsProper (compute_recovery_summary waiting_session.work).stop_rate
    × IsProper (compute_recovery_summary waiting_session.work).provider_failure_rate
compute_recovery_summary-lem_example = compute_recovery_summary-lem waiting_session.work

map_payment_link_status-value_unknown :
    map_payment_link_status "refunded" ≡ RecoveryPaymentRequestStatus.created
unfolding map_payment_link_status
map_payment_link_status-value_unknown = refl

abbrev escalated_response : ExecutionResponse
escalated_response = record {
  recovery_case_id = 2;
  case_status = RecoveryCaseStatus.escalated;
  executed = false;
  reason =
      some
        "Provider call failed (provider_auth_error): RAZORPAY_KEY_ID / RAZORPAY_KEY_SECRET are not configured.";
  policy_decision = none;
  policy_reason_codes = [];
  provider_reference = none;
  short_url = none;
  payment_link_status = none;
  amount = none;
  currency = none;
  expires_at = none;
}

abbrev escalated_session : Session
escalated_session =
    (Execution.execute_recovery_case settings unconfigured_provider 2 (given "request")
      approved_session).1

unconfigured_run :
    Execution.execute_recovery_case settings unconfigured_provider 2
      (given "request")
      approved_session
    ≡ (ok escalated_response, escalated_session)
unfolding can_transition default_policy_config collect_reason_codes evaluate_policy now new_uuid
    load_case assign_case flush_row flush_dirty flush commit rollback
    guard_against_concurrent_modification record_event validate_transition transition
    get_policy_config load_payment failure_category recheck_input recheck_policy call_create
    handle_reply new_attempt link_request Execution.create_payment_link proceed execute_unguarded
    Execution.execute_recovery_case unconfigured_provider handle_definite_failure escalate_case
unconfigured_run = refl

execute_recovery_case-unconfigured_example : escalated_response.executed ≡ false
execute_recovery_case-unconfigured_example =
    execute_recovery_case-unconfigured settings 2 (given "request") approved_session
      escalated_session escalated_response unconfigured_run

abbrev in_production : AuthSettings
in_production = record { api_key = "key"; app_env = AppEnv.production }

production_starts : validate_auth_configuration in_production ≢ Startup.insecure_configuration
unfolding validate_auth_configuration
production_starts h = cc

require_api_key-admits_example :
    (in_production.api_key ≢ "")
    × ((require_api_key in_production "guess" ≡ Access.admitted)
        ↔ (("guess" ≡ in_production.api_key) × (is_ascii "guess" ≡ true)))
require_api_key-admits_example = require_api_key-admits in_production "guess" refl production_starts
