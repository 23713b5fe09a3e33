-- ===== src/Api.antt =====
-- The requests that change the tables (backend/app/api/v1: payments.py, recovery_cases.py,
-- orchestrator.py, webhooks.py), each served in a session of its own (backend/app/db/session.py):
-- what it has not committed at its end is gone. The demo seeding (demo.py) is left out.
use revenue_ai.Services.Orchestrator.{run_recovery_cycle}
use revenue_ai.Domain.Providers.{PaymentProvider}
use revenue_ai.Ai.{AiRecommendationService}
use revenue_ai.Services.Webhook.{ParsedWebhookEvent, process_webhook_event}
use revenue_ai.Services.Ingestion.{
  PaymentIngestRequest, create_recovery_case_for_payment, discover_failed_payments,
}
use revenue_ai.Services.Settings.{Settings, get_policy_config}
use revenue_ai.Store.Models.{Db, CorrelationId}
use revenue_ai.Store.Session.{Action, Session, ◌>>=◌, pure}
use revenue_ai.Services.Ingestion
use revenue_ai.Services.Diagnosis
use revenue_ai.Services.Execution
use revenue_ai.Base.{ℕ, ⊤, Bool, none, String, List, [], ◌∷◌}

pub data Request : Type 0 where
  ingest_payment : PaymentIngestRequest → Request
  create_recovery_case discover_recovery_cases : ℕ → Request
  diagnose_recovery_case execute_recovery_case : ℕ → Request
  receive_razorpay_webhook : ParsedWebhookEvent → Request
  run_cycle : Request

-- What the outside brings to one request: the configuration, the two providers, the clock, and
-- which of its writes lose against another request.
pub record World : Type 0 where
  pub settings : Settings
  pub ai : AiRecommendationService
  pub payments : PaymentProvider
  pub upper : String → String
  pub clock : ℕ → ℕ
  pub conflicts : List Bool
  pub races : List Bool
  pub correlation : CorrelationId

abbrev pub ignore_value : {A : Type 0} → Action A → Action ⊤
ignore_value m = m >>= λ a. pure tt

-- the handler of a request, whose answer is left out
unfoldable pub handle : World → Request → Action ⊤
handle w (ingest_payment request) =
    ignore_value (Ingestion.ingest_payment w.upper request w.correlation)
handle w (create_recovery_case payment_id) =
    ignore_value (create_recovery_case_for_payment payment_id w.correlation)
handle w (discover_recovery_cases limit) =
    ignore_value (discover_failed_payments limit w.correlation)
handle w (diagnose_recovery_case id) =
    ignore_value
      (Diagnosis.diagnose_recovery_case w.ai (get_policy_config w.settings) id w.correlation)
handle w (execute_recovery_case id) =
    ignore_value (Execution.execute_recovery_case w.settings w.payments id w.correlation)
handle w (receive_razorpay_webhook event) = ignore_value (process_webhook_event event w.correlation)
handle w run_cycle = ignore_value (
    run_recovery_cycle w.settings w.ai w.payments w.settings.orchestrator_auto_execute
      w.settings.orchestrator_max_discover w.settings.orchestrator_max_diagnose
      w.settings.orchestrator_max_execute w.correlation)

abbrev pub open_session : World → Db → Session
open_session w db = record {
  committed = db;
  work = db;
  dirty = none;
  conflicts = w.conflicts;
  races = w.races;
  clock = w.clock;
  ticks = 0;
  sent = [];
  asked = 0;
  ai_calls = 0;
}

-- the tables after a request
unfoldable pub serve : World → Request → Db → Db
serve w request db = (handle w request (open_session w db)).1.committed

-- the tables after a sequence of requests, the earliest first
unfoldable pub serve_all : List (World × Request) → Db → Db
serve_all [] db = db
serve_all ((w, request) ∷ rest) db = serve_all rest (serve w request db)
