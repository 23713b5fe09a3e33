-- ===== src/Trail/Requests.antt =====
-- The invariant along every history of the requests of Api (backend/app/api/v1, without the demo
-- seeding), and what it says of each case.
use revenue_ai.Domain.Policy.Safety.{evaluate_policy-Reported}
use revenue_ai.Ai.{AiOutcome}
use revenue_ai.Domain.Enums.{code_in, max_contacts_reached}
use revenue_ai.Domain.Policy.{
  PolicyEvaluationInput, PolicyConfig, contacts_reached, evaluate_policy,
}
use revenue_ai.Services.Diagnosis.{policy_input}
use revenue_ai.Trail.Cycle.{run_recovery_cycle-Keeps}
use revenue_ai.Trail.Webhook.{process_webhook_event-Settles}
use revenue_ai.Trail.Execution.{execute_recovery_case-Keeps}
use revenue_ai.Services.Settings.{get_policy_config}
use revenue_ai.Trail.Diagnosis.{diagnose_recovery_case-Keeps}
use revenue_ai.Trail.Database.{find-All}
use revenue_ai.Trail.Ingestion.{
  ingest_payment-Keeps, create_recovery_case_for_payment-Keeps, discover_failed_payments-Keeps,
}
use revenue_ai.Trail.Keeps.{Keeps, Settles, Lands, Settles-Keeps, Settles-bind, Keeps-pure}
use revenue_ai.Store.Models.{empty_db, Db, RecoveryCase, Payment}
use revenue_ai.Trail.{IsValid, replay, absent, at, IsExplained}
use revenue_ai.Store.Session.{Action, Result, Session, get_case, ok, err}
use revenue_ai.Api.{
  World, handle, serve, serve_all, Request, ignore_value, ingest_payment, open_session,
  create_recovery_case, discover_recovery_cases, diagnose_recovery_case, execute_recovery_case,
  receive_razorpay_webhook, run_cycle,
}
use revenue_ai.Base.{ℕ, List, [], ◌∷◌, refl, ◌≡◌, some, subst, ◌<◌, false, arith, ◌∙◌}

ignore-Settles : {A : Type 0} (m : Action A) → Settles IsValid m → Settles IsValid (ignore_value m)
ignore-Settles m k = Settles-bind m _ k (λ a. Settles-Keeps _ (Keeps-pure tt))

ignore-Keeps : {A : Type 0} (m : Action A) → Keeps IsValid m → Settles IsValid (ignore_value m)
ignore-Keeps m k = ignore-Settles m (Settles-Keeps m k)

handle-Settles : (w : World) (request : Request) → Settles IsValid (handle w request)
unfolding handle
handle-Settles w (ingest_payment request) =
    ignore-Keeps _ (ingest_payment-Keeps w.upper request w.correlation)
handle-Settles w (create_recovery_case payment_id) =
    ignore-Keeps _ (create_recovery_case_for_payment-Keeps payment_id w.correlation)
handle-Settles w (discover_recovery_cases limit) =
    ignore-Keeps _ (discover_failed_payments-Keeps limit w.correlation)
handle-Settles w (diagnose_recovery_case id) =
    ignore-Keeps _
      (diagnose_recovery_case-Keeps w.ai (get_policy_config w.settings) id w.correlation)
handle-Settles w (execute_recovery_case id) =
    ignore-Keeps _ (execute_recovery_case-Keeps w.settings w.payments id w.correlation)
handle-Settles w (receive_razorpay_webhook event) =
    ignore-Settles _ (process_webhook_event-Settles event w.correlation)
handle-Settles w run_cycle = ignore-Keeps _ (
    run_recovery_cycle-Keeps w.settings w.ai w.payments w.settings.orchestrator_auto_execute
      w.settings.orchestrator_max_discover w.settings.orchestrator_max_diagnose
      w.settings.orchestrator_max_execute w.correlation)

-- whatever a request returns or raises, what it has committed is valid
Lands-committed :
    {A : Type 0} (r : Result A) (s : Session) → Lands IsValid (r, s) → IsValid s.committed
Lands-committed (ok a) s h = h.1
Lands-committed (err e) s h = h

pub serve-IsValid :
    (w : World) (request : Request) (db : Db) → IsValid db → IsValid (serve w request db)
unfolding serve
serve-IsValid w request db v =
    let s = open_session w db in
    Lands-committed (handle w request s).0 (handle w request s).1
      ((handle-Settles w request).at s v v)

keep_serving :
    (history : List (World × Request)) (db : Db) → IsValid db → IsValid (serve_all history db)
unfolding serve_all
keep_serving [] db v = v
keep_serving ((w, request) ∷ rest) db v =
    keep_serving rest (serve w request db) (serve-IsValid w request db v)

empty-IsValid : IsValid empty_db
empty-IsValid = record { rows = tt; unused = λ id le. refl }

-- After any sequence of the modelled requests (the operational API, without the demo seeding) that
-- starts with empty tables, in any configuration and whatever
-- the AI, the payment provider, the clock, lost races and write conflicts do, the committed tables
-- are valid: each case's audit events, read from the first to the last, are legal transitions
-- that end in the status of its row, no contact is counted, and only a RECOVERED case has
-- recovered an amount.
pub serve_all-IsValid : (history : List (World × Request)) → IsValid (serve_all history empty_db)
serve_all-IsValid history = keep_serving history empty_db empty-IsValid

-- What the trail of any case says after any history of the modelled requests, read from its first event to its last: its
-- present status. Every event of it is legal, since a contradiction would end in `broken`.
pub replay_found :
    (history : List (World × Request)) (id : ℕ) (c : RecoveryCase)
    → get_case id (serve_all history empty_db) ≡ some c
    → replay id absent (serve_all history empty_db).audit_events ≡ at c.status
replay_found history id c found =
    let (row, same) =
      find-All
        (IsExplained (serve_all history empty_db).audit_events (serve_all history empty_db).next_id)
        id (serve_all history empty_db).cases c (serve_all-IsValid history).rows found in
    subst (λ i. replay i absent (serve_all history empty_db).audit_events ≡ at c.status) same
      row.trail

no_contacts-reached :
    (i : PolicyEvaluationInput) (config : PolicyConfig)
    → i.customer_contact_count ≡ 0
    → 0 < config.max_customer_contacts
    → contacts_reached i config ≡ false
no_contacts-reached i config zero_contacts positive = ground arith

-- No history of the modelled requests ever makes the contact limit count: whatever case is found, and whatever the AI
-- proposes for it, a configuration that allows at least one contact never blocks for the number
-- of contacts, since none of these requests counts one.
pub contacts_never_block :
    (history : List (World × Request)) (config : PolicyConfig) (id : ℕ) (c : RecoveryCase)
    (p : Payment) (outcome : AiOutcome) (today : ℕ)
    → get_case id (serve_all history empty_db) ≡ some c
    → 0 < config.max_customer_contacts
    → code_in max_contacts_reached
        (evaluate_policy (policy_input c p outcome today) config).reason_codes
      ≡ false
unfolding policy_input
contacts_never_block history config id c p outcome today found positive =
    let row =
      (find-All
        (IsExplained (serve_all history empty_db).audit_events (serve_all history empty_db).next_id)
        id (serve_all history empty_db).cases c (serve_all-IsValid history).rows found).0 in
    (evaluate_policy-Reported (policy_input c p outcome today) config).contacts
    ∙ no_contacts-reached (policy_input c p outcome today) config row.no_contact positive
