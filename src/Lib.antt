-- ===== src/Lib.antt =====
-- Revenue-AI recovers failed payments. A payment that failed is ingested and becomes a recovery
-- case; an AI recommends an action, a deterministic policy engine allows or blocks it, an executor
-- creates a payment link for an approved case, and the provider's webhook is the only way to
-- RECOVERED. An orchestrator runs these steps in a cycle. This library models the backend
-- (backend/app), as functions that pass the state of a database session, the clients of the two
-- providers, the reports, and the evaluation of decision strategies on synthetic cases
-- (evaluation/), which checks decisions against rules that it writes out a second time.
--
-- Which file models which part:
--   Domain/Enums, StateMachine, Policy, Providers: backend/app/domain (enums.py, state_machine.py,
--     policy.py with `evaluate_policy`, providers/base.py).
--   Store/Models, Session, Repositories: backend/app/models, the repositories, and what the
--     services use of SQLAlchemy's session: flush with the version check, commit, rollback,
--     `guard_against_concurrent_modification`, `record_event`, `_transition`.
--   Ai, Ai/Service: backend/app/ai (`build_context`, `get_recommendation`).
--   Services/Settings, Ingestion, Diagnosis, Execution, Webhook, Orchestrator: the modules of
--     backend/app/services of these names, one function for each of theirs; a long one is split
--     where it branches, and its parts say which lines they are of.
--   Api: the endpoints of backend/app/api/v1 that change the tables, each in its own session, the
--     demo seeding (demo.py) excluded.
--   Payments/Razorpay, Wiring, Webhooks: backend/app/payments (providers/razorpay.py,
--     dependencies.py, webhooks.py) and api/v1/webhooks.py, from the raw body of a delivery to the
--     event that Services/Webhook handles. Ai/Groq: ai/providers/groq.py, ai/dependencies.py.
--   Auth: core/auth.py.
--   Reports/Redaction, Timeline, Summary: services/audit_export_service.py (its redaction),
--     timeline_service.py with repositories/audit_event_repository.py, recovery_summary_service.py.
--   Json: the values of `json`, which Payments/Webhooks, Payments/Razorpay and
--     Reports/Redaction read.
--   Evaluation, and below it Random, Scenarios, BuildDataset, Split: evaluation/schemas and
--     generators; Baseline, AiStrategy: evaluation/baseline and ai_strategy; Safety, Metrics:
--     evaluation/metrics; Comparison: evaluation/run_ai_evaluation.py.
--   Trail: the audit trail against the tables, and Trail/Growth: the trail and the state machine
--     along a history of requests. Provider: the calls of the payment provider, and
--     the webhook events. Services/Diagnosis/Next, Services/Orchestrator/Budget, Ai/Outcome and the
--     modules below Domain, Auth, Ai/Groq and those of Payments, Reports and Evaluation: what is proved of
--     their parents. Store/Yields: a rule for each way of composing actions.
--   Checks: runs on concrete data.
--
-- State and effects. A `Session` holds the committed tables and those that the session sees, and an
-- `Action` maps it to a result and a session; an error is a value. A table is a list of rows in the
-- order of insertion. Ids are numbers from a supply in the tables, so `uuid4` is fresh by
-- construction. A case that is assigned to is dirty until a flush, which bumps its version, or
-- fails if another request has changed the row: that is decided outside, by the list `conflicts`,
-- and so is, by `races`, whether another delivery claims a webhook event first. These lists stand
-- for the interleavings with other sessions; two sessions are not run step by step against each
-- other. The clock is an arbitrary function of the number of its readings.
--
-- What is not the program's code is an argument: the two providers, which may answer each call
-- differently, the clock, the conflicts, `str.upper` and `str.lower`, HMAC-SHA256, `json.loads`,
-- `httpx`, the groq library, pydantic's validation, SHA-256 of the split and Python's random
-- generator. Nothing is assumed of them but the documented ranges of the random generator's methods
-- (`Random` in Evaluation/Random, with `round` to two decimals). Sums of money are integers in minor
-- units, as in Python. A confidence or a rate is a natural number of multiples of 2 ^ -1074, on
-- which every double that is not negative lies, so comparisons are exact; the sums, products and
-- roundings of floats that the rule-based strategy makes are an argument, and the quotients of the
-- metrics are kept as their two numbers, before the source rounds them. Every loop is structural
-- recursion, over a list, or over the retries or rounds that are left, so that no fuel is needed.
--
-- Not modelled: HTTP routing, logging and latencies; the background task that starts
-- the cycles; the demo seeding; the flattening of audit events into CSV rows; the JSON reports, the
-- command lines and the time measurements of the evaluation; migrations and the frontend; the texts
-- of most error messages.
pub mod Base
pub mod Domain
pub mod Store
pub mod Ai
pub mod Services
pub mod Api
pub mod Trail
pub mod Provider
pub mod Payments
pub mod Auth
pub mod Json
pub mod Reports
pub mod Evaluation
pub mod Checks
