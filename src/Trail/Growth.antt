-- ===== src/Trail/Growth.antt =====
-- The writers of backend/app/services/audit_service.py, of the session and of the repositories
-- (backend/app/repositories) against the audit events and the cases that are there already.
pub mod Ingestion
pub mod Diagnosis
pub mod Execution
pub mod Webhook
pub mod Cycle
pub mod Requests
pub mod Persistence
use mathlib.Core.List.{append-nil, append_assoc, map-append}
use revenue_ai.Store.Repositories.{get_customer, get_payment}
use revenue_ai.Domain.Enums.{RecoveryCaseStatus, ActorType}
use revenue_ai.Services.Settings.{load_customer, load_payment}
use revenue_ai.Store.Session.{
  bump_version, has_id, ◌>>=◌, add_event, assign_case, commit, flush, flush_dirty, flush_row,
  load_case, new_uuid, now, record_event, rollback, transition, validate_transition, modify,
  modify_work, Session, get_case, not_found, event_at, invalid_state_transition, integrity_error,
  Action, query,
}
use revenue_ai.Base.{
  map, update, if◌then◌else◌, List, [], ◌++◌, ◌≡◌, Option, suc, ℕ, ◌∙◌, ◌∷◌, Bool, refl, sym,
  String, some, true, none, ap, false,
}
use revenue_ai.Store.Models.{Db, AuditEvent, Entity, CorrelationId, RecoveryCase, Payload}
use revenue_ai.Trail.Keeps.{
  Keeps-bind, Keeps-query, Keeps, Keeps-or_raise, Keeps-if, Keeps-then, Keeps-modify_work,
  Keeps-pure, Keeps-raise, Safe,
}

abbrev pub case_ids : Db → List ℕ
case_ids db = map (λ (c : RecoveryCase). c.id) db.cases

-- the audit events of the tables begin with those of `base`, and so do their cases, by id
pub record Extends (base db : Db) : Type 0 where
  pub since : List AuditEvent
  pub newer : List ℕ
  pub same : base.audit_events ++ since ≡ db.audit_events
  pub ids : case_ids base ++ newer ≡ case_ids db

pub Extends-refl : (db : Db) → Extends db db
Extends-refl db = record {
  since = [];
  newer = [];
  same = append-nil db.audit_events;
  ids = append-nil (case_ids db);
}

id-if : (hit : Bool) (d c : RecoveryCase) → c.id ≡ d.id → c.id ≡ (if hit then d else c).id
id-if true d c h = h
id-if false d c h = refl

ids-update :
    (p : RecoveryCase → Bool) (f : RecoveryCase → RecoveryCase) (cases : List RecoveryCase)
    → ((c : RecoveryCase) → c.id ≡ (f c).id)
    → map (λ (c : RecoveryCase). c.id) cases ≡ map (λ (c : RecoveryCase). c.id) (update p f cases)
ids-update p f [] k = refl
ids-update p f (c ∷ cases) k =
    let same = id-if (p c) (f c) c (k c) in let rest = ids-update p f cases k in cc

module _ {base : Db} where
  -- a write to another table
  pub write-Extends :
      (f : Db → Db)
      → ((db : Db) → db.audit_events ≡ (f db).audit_events)
      → ((db : Db) → case_ids db ≡ case_ids (f db))
      → (db : Db) → Extends base db
      → Extends base (f db)
  write-Extends f quiet kept db h = record {
    since = h.since;
    newer = h.newer;
    same = h.same ∙ quiet db;
    ids = h.ids ∙ kept db;
  }

  pub add_event-Extends :
      (e : AuditEvent) (db : Db) → Extends base db → Extends base (add_event e db)
  add_event-Extends e db h = record {
    since = h.since ++ (e ∷ []);
    newer = h.newer;
    same = sym (append_assoc base.audit_events h.since (e ∷ [])) ∙ ap (λ l. l ++ (e ∷ [])) h.same;
    ids = h.ids;
  }

  add_case-Extends :
      (c : RecoveryCase) (db : Db)
      → Extends base db
      → Extends base (record db { cases = db.cases ++ (c ∷ []) })
  add_case-Extends c db h = record {
    since = h.since;
    newer = h.newer ++ (c.id ∷ []);
    same = h.same;
    ids =
        sym (append_assoc (case_ids base) h.newer (c.id ∷ []))
        ∙ ap (λ l. l ++ (c.id ∷ [])) h.ids
        ∙ sym (map-append (λ (d : RecoveryCase). d.id) db.cases (c ∷ []));
  }

  pub add_case-grows :
      (c : RecoveryCase)
      → Keeps (Extends base) (modify_work (λ db. record db { cases = db.cases ++ (c ∷ []) }))
  add_case-grows c =
      Keeps-modify_work (λ db. record db { cases = db.cases ++ (c ∷ []) }) (add_case-Extends c)

  update-Extends :
      (id : ℕ) (f : RecoveryCase → RecoveryCase) (db : Db)
      → ((c : RecoveryCase) → c.id ≡ (f c).id)
      → Extends base db
      → Extends base (record db { cases = update (has_id id) f db.cases })
  update-Extends id f db k h = record {
    since = h.since;
    newer = h.newer;
    same = h.same;
    ids = h.ids ∙ ids-update (has_id id) f db.cases k;
  }

  pub write-grows :
      (f : Db → Db)
      → ((db : Db) → db.audit_events ≡ (f db).audit_events)
      → ((db : Db) → case_ids db ≡ case_ids (f db))
      → Keeps (Extends base) (modify_work f)
  write-grows f quiet kept = Keeps-modify_work f (write-Extends f quiet kept)

  pub add_event-grows : (e : AuditEvent) → Keeps (Extends base) (modify_work (add_event e))
  add_event-grows e = Keeps-modify_work (add_event e) (add_event-Extends e)

  pub now-grows : Keeps (Extends base) now
  unfolding now
  now-grows = record { at = λ s w c. (w, c) }

  pub new_uuid-grows : Keeps (Extends base) new_uuid
  unfolding new_uuid
  new_uuid-grows = record {
    at = λ s w c. (
      write-Extends (λ db. record db { next_id = suc db.next_id }) (λ db. refl) (λ db. refl) s.work
          w,
      c,
    );
  }

  pub assign_case-grows :
      (id : ℕ) (f : RecoveryCase → RecoveryCase)
      → ((c : RecoveryCase) → c.id ≡ (f c).id)
      → Keeps (Extends base) (assign_case id f)
  unfolding assign_case
  assign_case-grows id f k = record { at = λ s w c. (update-Extends id f s.work k w, c) }

  flush_row-grows :
      (id : ℕ) (l : List Bool) (s : Session)
      → Extends base s.work
      → Extends base s.committed
      → Safe (Extends base) (flush_row id l s)
  unfolding flush_row
  flush_row-grows id [] s w c = (update-Extends id bump_version s.work (λ d. refl) w, c)
  flush_row-grows id (true ∷ rest) s w c = (λ h. w, c)
  flush_row-grows id (false ∷ rest) s w c = (update-Extends id bump_version s.work (λ d. refl) w, c)

  flush_dirty-grows :
      (dirty : Option ℕ) (s : Session)
      → Extends base s.work
      → Extends base s.committed
      → Safe (Extends base) (flush_dirty dirty s)
  unfolding flush_dirty
  flush_dirty-grows none s w c = (w, c)
  flush_dirty-grows (some id) s w c = flush_row-grows id s.conflicts s w c

  pub flush-grows : Keeps (Extends base) flush
  unfolding flush
  flush-grows = record { at = λ s w c. flush_dirty-grows s.dirty s w c }

  set_committed-grows : Keeps (Extends base) (modify (λ s. record s { committed = s.work }))
  set_committed-grows = record { at = λ s w c. (w, w) }

  pub commit-grows : Keeps (Extends base) commit
  unfolding commit
  commit-grows = Keeps-then flush _ flush-grows set_committed-grows

  pub rollback-grows : Keeps (Extends base) rollback
  unfolding rollback
  rollback-grows = record { at = λ s w c. (c, c) }

  pub load_case-grows : (id : ℕ) → Keeps (Extends base) (load_case id)
  unfolding load_case
  load_case-grows id = Keeps-bind _ _ (Keeps-query (get_case id)) (λ c. Keeps-or_raise c not_found)

  pub load_payment-grows : (id : ℕ) → Keeps (Extends base) (load_payment id)
  unfolding load_payment
  load_payment-grows id =
      Keeps-bind _ _ (Keeps-query (get_payment id)) (λ p. Keeps-or_raise p integrity_error)

  pub load_customer-grows : (id : ℕ) → Keeps (Extends base) (load_customer id)
  unfolding load_customer
  load_customer-grows id =
      Keeps-bind _ _ (Keeps-query (get_customer id)) (λ p. Keeps-or_raise p integrity_error)

  pub record_event-grows :
      (entity : Entity) (actor : ActorType) (payload : Payload) (correlation : CorrelationId)
      → Keeps (Extends base) (record_event entity actor payload correlation)
  unfolding record_event
  record_event-grows entity actor payload correlation = Keeps-bind now _ now-grows (λ at.
      Keeps-then flush _ flush-grows
        (add_event-grows (event_at entity actor payload correlation at)))

  pub validate_transition-grows :
      (current target : RecoveryCaseStatus)
      → Keeps (Extends base) (validate_transition current target)
  unfolding validate_transition
  validate_transition-grows current target =
      Keeps-if _ _ _ (Keeps-pure tt) (Keeps-raise invalid_state_transition)

module _ {A B : Type 0} {I : Db → Type 0} where
  Keeps-option :
      (k : A → Action B) (m : Action B)
      → ((a : A) → Keeps I (k a))
      → Keeps I m
      → (o : Option A) → Keeps I (elim o [ none ↦ m | some a ↦ k a ])
  Keeps-option k m kk km none = km
  Keeps-option k m kk km (some a) = kk a

  -- the two ways on from a query for a row
  pub Keeps-found :
      (f : Db → Option A) (k : A → Action B) (m : Action B)
      → ((a : A) → Keeps I (k a))
      → Keeps I m
      → Keeps I (query f >>= λ found. elim found [ none ↦ m | some a ↦ k a ])
  Keeps-found f k m kk km = Keeps-bind (query f) _ (Keeps-query f) (Keeps-option k m kk km)

ruleset rules = (Keeps-bind, Keeps-query, Keeps-or_raise, Keeps-if, Keeps-pure, Keeps-raise)

module _ {base : Db} where
  pub transition-grows :
      (id : ℕ) (target : RecoveryCaseStatus) (correlation : CorrelationId) (reason : Option String)
      → Keeps (Extends base) (transition id target correlation reason)
  unfolding transition
  transition-grows id target correlation reason = search (
    rules, load_case-grows, validate_transition-grows, assign_case-grows, flush-grows,
    record_event-grows,
  )

pub ruleset growth = (
  Keeps-bind, Keeps-query, Keeps-or_raise, Keeps-if, Keeps-pure, Keeps-raise, now-grows,
  new_uuid-grows, assign_case-grows, flush-grows, commit-grows, rollback-grows, load_case-grows,
  load_payment-grows, load_customer-grows, record_event-grows, validate_transition-grows,
  transition-grows,
)
