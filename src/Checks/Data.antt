-- ===== src/Checks/Data.antt =====
-- Concrete configurations, providers, rows and requests.
use revenue_ai.Services.Orchestrator.{run_recovery_cycle, RecoveryCycleReport}
use revenue_ai.Store.Session.{Session}
use revenue_ai.Domain.Enums.{
  RecoveryCaseStatus, PaymentStatus, RecoveryPaymentRequestStatus, PaymentMethodType, FailureReason,
  DiagnosisCategory, RecoveryAction, DecisionSource,
}
use revenue_ai.Store.Models.{RecoveryCase, empty_db, given, Customer, Payment}
use revenue_ai.Services.Webhook.{process_webhook_event, ParsedWebhookEvent}
use revenue_ai.Services.Ingestion.{PaymentIngestRequest}
use revenue_ai.Services.Settings.{get_policy_config, Settings}
use revenue_ai.Domain.Policy.{PolicyConfig, PolicyEvaluationInput}
use revenue_ai.Base.{◌+ℤ◌, zero, suc, pos, true, none, some, [], ◌∷◌, List, false}
use revenue_ai.Ai.{
  build_context, AiReply, AiRecommendationService, AiProviderErrorKind, AiOutcome,
  PaymentRecoveryContext,
}
use revenue_ai.Domain.Providers.{ProviderReply, PaymentProvider}
use revenue_ai.Api.{World, Request, open_session}

abbrev pub settings : Settings
settings = record {
  recovery_payment_link_expiry_hours = 24;
  orchestrator_auto_execute = true;
  orchestrator_max_discover = 50;
  orchestrator_max_diagnose = 20;
  orchestrator_max_execute = 10;
  policy_max_retry_count = 3;
  policy_max_recovery_window_days = 14;
  policy_max_customer_contacts = 3;
  policy_min_confidence_threshold = 60;
  policy_high_value_amount_threshold = pos 1000000;
  policy_high_value_min_confidence_threshold = 80;
  policy_max_recovery_amount = pos 10000000;
}

-- times out once, then answers
abbrev pub slow_ai : AiRecommendationService
slow_ai = record {
  provider = elim [
    | zero ↦ λ context.
        AiReply.raised (record { kind = AiProviderErrorKind.timeout; message = "no answer" })
    | suc n ↦ λ context. AiReply.reply (record {
      diagnosis_category = DiagnosisCategory.customer_side_failure;
      recovery_confidence = 90;
      recommended_action = RecoveryAction.send_payment_link;
      decision_explanation = "try another card";
    })
  ];
  model_name = "model";
  max_retries = 2;
}

abbrev pub provider : PaymentProvider
provider = record {
  create_payment_link = λ n request. ProviderReply.reply (record {
    provider_reference = "plink_1";
    short_url = some "https://rzp.io/1";
    status = RecoveryPaymentRequestStatus.created;
    amount = request.amount;
    amount_paid = pos 0;
    currency = request.currency;
    reference_id = some request.reference_id;
    expires_at = request.expire_by;
  });
  find_payment_link_by_reference = λ n reference. ProviderReply.reply none;
}

abbrev pub world : World
world = record {
  settings = settings;
  ai = slow_ai;
  payments = provider;
  upper = λ s. s;
  clock = λ n. n;
  conflicts = [];
  races = [];
  correlation = given "request";
}

abbrev pub failed_payment : PaymentIngestRequest
failed_payment = record {
  customer_reference = some "cust_1";
  amount = pos 49900;
  currency = "INR";
  status = PaymentStatus.failed;
  payment_method_type = PaymentMethodType.card;
  failure_reason = some FailureReason.insufficient_funds;
  attempt_number = 1;
  provider_payment_id = some "pay_1";
  auto_create_case = true;
}

abbrev pub paid_event : ParsedWebhookEvent
paid_event = record {
  event_type = "payment_link.paid";
  payment_link_id = some "plink_1";
  payment_link_status = some "paid";
  amount_paid = some (pos 49900);
  payment_id = some "pay_2";
  dedup_key = "evt_1";
}

-- from the failed payment to the recovery; customer, payment and case have the ids 0, 1 and 2
abbrev pub lifecycle : List (World × Request)
lifecycle =
    (world, Request.ingest_payment failed_payment)
    ∷ (world, Request.diagnose_recovery_case 2)
    ∷ (world, Request.execute_recovery_case 2)
    ∷ (world, Request.receive_razorpay_webhook paid_event)
    ∷ []

-- the row of the case at the end
abbrev pub recovered_case : RecoveryCase
recovered_case = record {
  id = 2;
  payment_id = 1;
  status = RecoveryCaseStatus.recovered;
  version = 10;
  revenue_at_risk = pos 49900;
  recovered_amount = pos 0 +ℤ pos 49900;
  eligible = true;
  diagnosis_category = some DiagnosisCategory.customer_side_failure;
  diagnosis_notes = some "try another card";
  recovery_confidence = some 90;
  recommended_action = some RecoveryAction.send_payment_link;
  current_attempt_number = 1;
  customer_contact_count = 0;
  policy_version = some "v1";
  created_at = 2;
}

abbrev pub payment_row : Payment
payment_row = record {
  id = 1;
  customer_id = 0;
  amount = pos 49900;
  currency = "INR";
  status = PaymentStatus.failed;
  payment_method_type = PaymentMethodType.card;
  failure_reason = some FailureReason.insufficient_funds;
  attempt_number = 1;
  provider_payment_id = some "pay_1";
  created_at = 0;
  updated_at = 0;
}

abbrev pub customer_row : Customer
customer_row = record {
  id = 0;
  external_reference = some "cust_1";
  total_payments_count = 1;
  total_failed_payments_count = 1;
  total_recovered_amount = pos 0;
}

-- a case that waits for its execution
abbrev pub approved_session : Session
approved_session = open_session world (record empty_db {
  customers = customer_row ∷ [];
  payments = payment_row ∷ [];
  cases =
      (record recovered_case {
        status = RecoveryCaseStatus.approved;
        recovered_amount = pos 0;
        current_attempt_number = 0;
      })
      ∷ [];
  next_id = 3;
})

-- one that waits for its diagnosis
abbrev pub eligible_session : Session
eligible_session = open_session world (record empty_db {
  customers = customer_row ∷ [];
  payments = payment_row ∷ [];
  cases =
      (record recovered_case {
        status = RecoveryCaseStatus.eligible;
        recovered_amount = pos 0;
        current_attempt_number = 0;
      })
      ∷ [];
  next_id = 3;
})

abbrev pub context : PaymentRecoveryContext
context = build_context payment_row customer_row [] 60

abbrev pub config : PolicyConfig
config = get_policy_config settings

-- a payment link under review, in every bound of the configuration
abbrev pub within : PolicyEvaluationInput
within = record {
  case_status = RecoveryCaseStatus.policy_review;
  proposed_action = RecoveryAction.send_payment_link;
  attempt_number = 0;
  days_since_discovery = 1;
  customer_contact_count = 0;
  recovery_confidence = 90;
  amount = pos 49900;
}

abbrev pub safer : PolicyEvaluationInput
safer = record within { days_since_discovery = 0; recovery_confidence = 95 }

abbrev pub settled : PolicyEvaluationInput
settled = record within { case_status = RecoveryCaseStatus.recovered }

abbrev pub outcome : AiOutcome
outcome = record {
  decision_source = DecisionSource.ai;
  recommendation = record {
    diagnosis_category = DiagnosisCategory.customer_side_failure;
    recovery_confidence = 90;
    recommended_action = RecoveryAction.send_payment_link;
    decision_explanation = "try another card";
  };
  model = some "model";
  prompt_version = "diagnosis_v1";
  retry_count = 1;
  failure_code = none;
  failure_message = none;
}

-- a case whose link waits to be paid
abbrev pub waiting_session : Session
waiting_session = open_session world (record empty_db {
  customers = customer_row ∷ [];
  payments = payment_row ∷ [];
  cases =
      (record recovered_case { status = RecoveryCaseStatus.executing; recovered_amount = pos 0 })
      ∷ [];
  payment_requests =
      (record {
        id = 5;
        recovery_case_id = 2;
        recovery_attempt_id = 4;
        provider = "razorpay";
        provider_reference = "plink_1";
        reference_id = 3;
        short_url = none;
        amount = pos 49900;
        amount_paid = pos 0;
        currency = "INR";
        status = RecoveryPaymentRequestStatus.created;
        expires_at = none;
      })
      ∷ [];
  next_id = 6;
})

abbrev pub paid_session : Session
paid_session = (process_webhook_event paid_event world.correlation waiting_session).1

-- the report of a cycle that finds one approved case
abbrev pub one_executed : RecoveryCycleReport
one_executed = record {
  cycle_id = 3;
  auto_execute = true;
  cases_discovered = 0;
  cases_diagnosed = 0;
  cases_executed = 1;
  cases_failed = 0;
  approved = 0;
  stopped = 0;
  escalated = 0;
  recovered = 0;
  outcomes =
      (record {
        recovery_case_id = 2;
        final_status = RecoveryCaseStatus.executing;
        diagnosed = false;
        executed = true;
        error = none;
        withheld_reason = none;
      })
      ∷ [];
}

abbrev pub executed_session : Session
executed_session =
    (run_recovery_cycle settings slow_ai provider true 50 20 10 (given "request")
      approved_session).1
