-- ===== src/Trail/Growth/Requests.antt =====
-- Histories of the requests of Api (backend/app/api/v1, without the demo seeding) against the
-- audit trail they extend and the lifecycle of backend/app/domain/state_machine.py.
use revenue_ai.Domain.Enums.{RecoveryCaseStatus, status_eq}
use revenue_ai.Trail.Growth.Cycle.{run_recovery_cycle-grows}
use revenue_ai.Trail.Growth.Webhook.{process_webhook_event-grows}
use revenue_ai.Trail.Growth.Execution.{execute_recovery_case-grows}
use revenue_ai.Services.Settings.{get_policy_config}
use revenue_ai.Trail.Growth.Diagnosis.{diagnose_recovery_case-grows}
use revenue_ai.Trail.Growth.Ingestion.{
  ingest_payment-grows, create_recovery_case_for_payment-grows, discover-grows,
}
use revenue_ai.Store.Models.{
  AuditEvent, Db, RecoveryCase, Entity, Payload, empty_db, recovery_case, recovery_case_created,
  recovery_case_status_changed,
}
use revenue_ai.Base.{
  if◌then◌else◌, ◌==◌, List, ℕ, ◌++◌, ◌≡◌, refl, Bool, subst, ⊤, ap, arith, some, ◌&&◌, sym, ◌∙◌,
  ◌∷◌, [], true, false,
}
use revenue_ai.Trail.Requests.{replay_found}
use revenue_ai.Trail.Growth.{Extends, Extends-refl}
use revenue_ai.Api.{
  World, handle, serve, serve_all, Request, ignore_value, ingest_payment, open_session,
  create_recovery_case, discover_recovery_cases, diagnose_recovery_case, execute_recovery_case,
  receive_razorpay_webhook, run_cycle,
}
use revenue_ai.Trail.Keeps.{Keeps, Safe, Keeps-bind, Keeps-pure}
use revenue_ai.Domain.StateMachine.{can_transition, is_terminal}
use revenue_ai.Domain.StateMachine.Graph.{◌⟶◌, ◌⟶*◌, here, next, terminal_iff_no_exit}
use revenue_ai.Trail.{TrailState, absent, broken, at, replay, entity_state, payload_state}
use revenue_ai.Store.Session.{Action, Result, Session, get_case, ok, err}

ignore-grows :
    {A : Type 0} {base : Db} (m : Action A)
    → Keeps (Extends base) m
    → Keeps (Extends base) (ignore_value m)
ignore-grows m k = Keeps-bind m _ k (λ a. Keeps-pure tt)

handle-grows : {base : Db} (w : World) (request : Request) → Keeps (Extends base) (handle w request)
unfolding handle
handle-grows w (ingest_payment request) =
    ignore-grows _ (ingest_payment-grows w.upper request w.correlation)
handle-grows w (create_recovery_case payment_id) =
    ignore-grows _ (create_recovery_case_for_payment-grows payment_id w.correlation)
handle-grows w (discover_recovery_cases limit) = ignore-grows _ (discover-grows limit w.correlation)
handle-grows w (diagnose_recovery_case id) =
    ignore-grows _
      (diagnose_recovery_case-grows w.ai (get_policy_config w.settings) id w.correlation)
handle-grows w (execute_recovery_case id) =
    ignore-grows _ (execute_recovery_case-grows w.settings w.payments id w.correlation)
handle-grows w (receive_razorpay_webhook event) =
    ignore-grows _ (process_webhook_event-grows event w.correlation)
handle-grows w run_cycle = ignore-grows _ (
    run_recovery_cycle-grows w.settings w.ai w.payments w.settings.orchestrator_auto_execute
      w.settings.orchestrator_max_discover w.settings.orchestrator_max_diagnose
      w.settings.orchestrator_max_execute w.correlation)

Safe-committed :
    {A : Type 0} {base : Db} (r : Result A) (s : Session)
    → Safe (Extends base) (r, s)
    → Extends base s.committed
Safe-committed (ok a) s h = h.1
Safe-committed (err e) s h = h.1

serve-Extends :
    {base : Db} (w : World) (request : Request) (db : Db)
    → Extends base db
    → Extends base (serve w request db)
unfolding serve
serve-Extends w request db h =
    let s = open_session w db in
    Safe-committed (handle w request s).0 (handle w request s).1 ((handle-grows w request).at s h h)

serve_all-Extends :
    {base : Db} (history : List (World × Request)) (db : Db)
    → Extends base db
    → Extends base (serve_all history db)
unfolding serve_all
serve_all-Extends [] db h = h
serve_all-Extends ((w, request) ∷ rest) db h =
    serve_all-Extends rest (serve w request db) (serve-Extends w request db h)

-- Whatever sequence of the modelled requests is served, in any configuration and whether they
-- succeed or fail, and whatever the tables hold before: the audit events that are there stay, in
-- their order, and new ones come after them, and so it is with the cases, by their ids.
pub serve_all_appends :
    (history : List (World × Request)) (db : Db) → Extends db (serve_all history db)
serve_all_appends history db = serve_all-Extends history db (Extends-refl db)

replay-append_all :
    (id : ℕ) (t : TrailState) (es fs : List AuditEvent)
    → replay id t (es ++ fs) ≡ replay id (replay id t es) fs
replay-append_all id t [] fs = refl
replay-append_all id t (e ∷ es) fs =
    replay-append_all id (entity_state id e.entity e.payload t) es fs

-- what a reader that starts at a status of the machine may come to know
Reached : RecoveryCaseStatus → TrailState → Type 0
Reached r absent = ⊥
Reached r broken = ⊤
Reached r (at s) = r ⟶* s

same_status : (s t : RecoveryCaseStatus) → status_eq s t ≡ true → s ≡ t
same_status s t h = ground arith

move-Reached :
    (r s from to : RecoveryCaseStatus) (legal : Bool)
    → status_eq s from && can_transition from to ≡ legal
    → r ⟶* s
    → Reached r (if legal then at to else broken)
unfolding Reached
move-Reached r s from to false e p = tt
move-Reached r s from to true e p =
    let same = same_status s from (ground arith) in
    next p (subst (λ u. u ⟶ to) (sym same) (ground arith))

payload-Reached :
    (r : RecoveryCaseStatus) (payload : Payload) (t : TrailState)
    → Reached r t
    → Reached r (payload_state payload t)
unfolding Reached
payload-Reached r (recovery_case_created payment amount) (at s) h = tt
payload-Reached r (recovery_case_created payment amount) broken h = tt
payload-Reached r (recovery_case_status_changed from to reason) (at s) h =
    move-Reached r s from to _ refl h
payload-Reached r (recovery_case_status_changed from to reason) broken h = tt
payload-Reached r (recovery_case_status_changed from to reason) absent h = absurd h
payload-Reached r (recovery_case_created payment amount) absent h = absurd h
payload-Reached r _ t h = h

if-Reached :
    (r : RecoveryCaseStatus) (mine : Bool) (t u : TrailState)
    → Reached r t
    → Reached r u
    → Reached r (if mine then t else u)
if-Reached r true t u h k = h
if-Reached r false t u h k = k

event-Reached :
    (r : RecoveryCaseStatus) (id : ℕ) (entity : Entity) (payload : Payload) (t : TrailState)
    → Reached r t
    → Reached r (entity_state id entity payload t)
event-Reached r id (recovery_case j) payload t h =
    if-Reached r (j == id) _ _ (payload-Reached r payload t h) h
event-Reached r id _ payload t h = h

replay-Reached :
    (r : RecoveryCaseStatus) (id : ℕ) (t : TrailState) (es : List AuditEvent)
    → Reached r t
    → Reached r (replay id t es)
replay-Reached r id t [] h = h
replay-Reached r id t (e ∷ es) h =
    replay-Reached r id (entity_state id e.entity e.payload t) es
      (event-Reached r id e.entity e.payload t h)

-- a trail that explains one status, and goes on to explain another
later_status :
    (id : ℕ) (es fs : List AuditEvent) (s t : RecoveryCaseStatus)
    → replay id absent es ≡ at s
    → replay id absent (es ++ fs) ≡ at t
    → s ⟶* t
unfolding Reached
later_status id es fs s t before after =
    subst (Reached s)
      (ap (λ u. replay id u fs) (sym before) ∙ sym (replay-append_all id absent es fs) ∙ after)
      (replay-Reached s id (at s) fs here)

serve_all-append :
    (before after : List (World × Request)) (db : Db)
    → serve_all (before ++ after) db ≡ serve_all after (serve_all before db)
unfolding serve_all
serve_all-append [] after db = refl
serve_all-append ((w, request) ∷ rest) after db = serve_all-append rest after (serve w request db)

replay_later :
    (before after : List (World × Request)) (id : ℕ) (c : RecoveryCase)
    → get_case id (serve_all after (serve_all before empty_db)) ≡ some c
    → replay id absent (serve_all after (serve_all before empty_db)).audit_events ≡ at c.status
replay_later before after id c found =
    let same = serve_all-append before after empty_db in
    subst (λ db. replay id absent db.audit_events ≡ at c.status) same
      (replay_found (before ++ after) id c (ap (get_case id) same ∙ found))

-- The history of any case refines the state machine of domain/state_machine.py: when a case is
-- found after some sequence of the modelled requests from empty tables, and again after any
-- further one, a sequence of the machine's legal changes leads from its status at first to its
-- status in the end.
pub serve_all_refines :
    (before after : List (World × Request)) (id : ℕ) (c c' : RecoveryCase)
    → get_case id (serve_all before empty_db) ≡ some c
    → get_case id (serve_all after (serve_all before empty_db)) ≡ some c'
    → c.status ⟶* c'.status
serve_all_refines before after id c c' found found' =
    let now = serve_all before empty_db in
    let grown = serve_all_appends after now in
    later_status id now.audit_events grown.since c.status c'.status (replay_found before id c found)
      (ap (replay id absent) grown.same ∙ replay_later before after id c' found')

no_exit : (s t u : RecoveryCaseStatus) → is_terminal s ≡ true → s ≡ t → t ⟶ u → s ≡ u
no_exit s t u h same e =
    let blocked = (terminal_iff_no_exit s).0 h u in
    let legal = subst (λ x. x ⟶ u) (sym same) e in cc

stays : {s t : RecoveryCaseStatus} → s ⟶* t → is_terminal s ≡ true → s ≡ t
stays here h = refl
stays {s} (next {t = u} {u = v} p e) h = no_exit s u v h (stays p h) e

-- A case that is found RECOVERED, STOPPED, ESCALATED or INELIGIBLE after some sequence of the
-- modelled requests has that status whenever it is found again, whatever further requests are
-- served and whatever the providers answer.
pub terminal_stays :
    (before after : List (World × Request)) (id : ℕ) (c c' : RecoveryCase)
    → is_terminal c.status ≡ true
    → get_case id (serve_all before empty_db) ≡ some c
    → get_case id (serve_all after (serve_all before empty_db)) ≡ some c'
    → c'.status ≡ c.status
terminal_stays before after id c c' ended found found' =
    sym (stays (serve_all_refines before after id c c' found found') ended)
