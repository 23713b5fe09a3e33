-- ===== src/Trail/Transition.antt =====
-- The changes of a case's row that go with an event of its trail: a transition of the state
-- machine (`_transition` of the services), the credit of a payment, and a new case.
use mathlib.Core.Option
use revenue_ai.Store.Repositories.{get_case_for_payment}
use revenue_ai.Services.Ingestion.{create_case, insert_case, new_case}
use revenue_ai.Trail.Primitives.{bump-Harmless}
use revenue_ai.Trail.{IsValid, AreExplained}
use revenue_ai.Domain.StateMachine.{can_transition}
use revenue_ai.Trail.Keeps.{Keeps, Safe, Safe-bind_result, Settles, Lands, Keeps-pure, Safe→Lands}
use revenue_ai.Store.Models.{
  CorrelationId, Payload, RecoveryCase, recovery_case, recovery_case_status_changed, Entity,
  Payment, recovery_case_created,
}
use revenue_ai.Trail.Database.{
  Moves, update-AreExplained, move-AreExplained, create-AreExplained, update-update,
}
use revenue_ai.Domain.Enums.{RecoveryCaseStatus, system, ActorType, recovered}
use revenue_ai.Store.Session.{
  assign_case, flush_row, transition, flush, load_case, record_event, flush_dirty, now,
  validate_transition, Session, get_case, ◌>>◌, event_at, bind_result, bump_version, has_id,
  new_uuid, modify_work, add_event, pure,
}
use revenue_ai.Base.{
  some, inl, inr, true, false, ◌≡◌, refl, [], ◌∷◌, ℕ, Option, String, List, Bool, Option-cases,
  ◌++◌, Bool-cases, update, suc, none, find, ℤ, ◌+ℤ◌, subst, sym,
}

-- after the row has changed: the flush, and the event
flushed :
    (id : ℕ) (payload : Payload) (correlation : CorrelationId) (l : List Bool) (s : Session)
    → ((at : ℕ)
        → AreExplained s.work.cases
            (s.work.audit_events
              ++ (event_at (recovery_case id) system payload correlation at ∷ []))
            s.work.next_id)
    → IsValid s.committed
    → Safe IsValid (
        bind_result
          (flush_row id l s).0
          (λ _. record_event (recovery_case id) system payload correlation)
          (flush_row id l s).1)
unfolding flush_row record_event now flush flush_dirty
flushed id payload correlation [] s moved c = (
  update-AreExplained bump_version id s.work.cases _ s.work.next_id bump-Harmless
      (moved (s.clock s.ticks)),
  c,
)
flushed id payload correlation (true ∷ rest) s moved c = (λ h. cc, c)
flushed id payload correlation (false ∷ rest) s moved c = (
  update-AreExplained bump_version id s.work.cases _ s.work.next_id bump-Harmless
      (moved (s.clock s.ticks)),
  c,
)

-- a legal change of the status of a case that is there, whatever else changes with it
pub move-Safe :
    (f : RecoveryCase → RecoveryCase) (id : ℕ) (c : RecoveryCase) (target : RecoveryCaseStatus)
    (reason : Option String) (correlation : CorrelationId) (s : Session)
    → Moves target f
    → can_transition c.status target ≡ true
    → get_case id s.work ≡ some c
    → IsValid s.work
    → IsValid s.committed
    → Safe IsValid (
        (assign_case id f
            >> (flush
                >> record_event
                    (recovery_case id)
                    system
                    (recovery_case_status_changed c.status target reason)
                    correlation))
          s)
unfolding assign_case flush flush_dirty
move-Safe f id c target reason correlation s k legal found w v =
    flushed id (recovery_case_status_changed c.status target reason) correlation s.conflicts
      (record s {
        work = record (s.work) { cases = update (has_id id) f s.work.cases };
        dirty = some id;
      })
      (λ at.
        move-AreExplained f id c target reason s.work.cases s.work.audit_events s.work.next_id _
          refl refl k legal found w)
      v

set_status-Moves : (target : RecoveryCaseStatus) → Moves target (λ c. record c { status = target })
set_status-Moves target = record {
  same_id = λ c. refl;
  new_status = λ c. refl;
  same_contacts = λ c. refl;
  money = inr (λ c. refl);
}

transition-Safe :
    (id : ℕ) (target : RecoveryCaseStatus) (correlation : CorrelationId) (reason : Option String)
    (s : Session)
    → IsValid s.work
    → IsValid s.committed
    → Safe IsValid (transition id target correlation reason s)
unfolding transition load_case validate_transition
transition-Safe id target correlation reason s w v = elim (Option-cases (get_case id s.work)) [
  | inl missing ↦ rw missing (λ h. w, v)
  | inr (c, found) ↦ rw found (elim (Bool-cases (can_transition c.status target)) [
    | inl legal ↦ rw legal (
        move-Safe (λ c. record c { status = target }) id c target reason correlation s
          (set_status-Moves target) legal found w v)
    | inr illegal ↦ rw illegal (λ h. w, v)
  ])
]

pub transition-Keeps :
    (id : ℕ) (target : RecoveryCaseStatus) (correlation : CorrelationId) (reason : Option String)
    → Keeps IsValid (transition id target correlation reason)
transition-Keeps id target correlation reason = record {
  at = transition-Safe id target correlation reason;
}

-- an event on tables that it makes valid
eventful :
    (entity : Entity) (actor : ActorType) (payload : Payload) (correlation : CorrelationId) (at : ℕ)
    (d : Option ℕ) (l : List Bool) (s : Session)
    → s.conflicts ≡ l
    → AreExplained s.work.cases
        (s.work.audit_events ++ (event_at entity actor payload correlation at ∷ []))
        s.work.next_id
    → IsValid s.committed
    → Safe IsValid (
        bind_result
          (flush_dirty d s).0
          (λ _. modify_work (add_event (event_at entity actor payload correlation at)))
          (flush_dirty d s).1)
unfolding flush_dirty flush_row
eventful entity actor payload correlation at none l s e moved c = (moved, c)
eventful entity actor payload correlation at (some id) [] s e moved c =
    rw (e, flush_row)
      (update-AreExplained bump_version id s.work.cases _ s.work.next_id bump-Harmless moved, c)
eventful entity actor payload correlation at (some id) (true ∷ rest) s e moved c =
    rw (e, flush_row) (λ h. cc, c)
eventful entity actor payload correlation at (some id) (false ∷ rest) s e moved c =
    rw (e, flush_row)
      (update-AreExplained bump_version id s.work.cases _ s.work.next_id bump-Harmless moved, c)

record_event-Safe :
    (entity : Entity) (actor : ActorType) (payload : Payload) (correlation : CorrelationId)
    (s : Session)
    → ((at : ℕ)
        → AreExplained s.work.cases
            (s.work.audit_events ++ (event_at entity actor payload correlation at ∷ []))
            s.work.next_id)
    → IsValid s.committed
    → Safe IsValid (record_event entity actor payload correlation s)
unfolding record_event now flush
record_event-Safe entity actor payload correlation s moved c =
    eventful entity actor payload correlation (s.clock s.ticks) s.dirty s.conflicts
      (record s { ticks = suc s.ticks }) refl (moved (s.clock s.ticks)) c

create_case-Safe :
    (p : Payment) (correlation : CorrelationId) (s : Session)
    → IsValid s.work
    → IsValid s.committed
    → Safe IsValid (create_case p correlation s)
unfolding create_case new_uuid now insert_case new_case
create_case-Safe p correlation s w v = elim (Option-cases (get_case_for_payment p.id s.work)) [
  | inr (old, found) ↦ rw found (λ h. cc, v)
  | inl none_yet ↦ rw none_yet (
      Safe-bind_result (λ _. pure (new_case s.work.next_id p (s.clock s.ticks))) _ _
        (λ _. Keeps-pure (new_case s.work.next_id p (s.clock s.ticks)))
        (record_event-Safe (recovery_case s.work.next_id) system
          (recovery_case_created p.id p.amount) correlation _
          (λ at.
            create-AreExplained (new_case s.work.next_id p (s.clock s.ticks)) p.id p.amount
              s.work.cases s.work.audit_events s.work.next_id _ refl refl refl refl refl refl w)
          v))
]

pub create_case-Keeps :
    (p : Payment) (correlation : CorrelationId) → Keeps IsValid (create_case p correlation)
create_case-Keeps p correlation = record { at = create_case-Safe p correlation }

find-update :
    (f : RecoveryCase → RecoveryCase) (id : ℕ) (cases : List RecoveryCase)
    → ((c : RecoveryCase) → (f c).id ≡ c.id)
    → find (has_id id) (update (has_id id) f cases) ≡ Option.map f (find (has_id id) cases)
find-update f id [] same = refl
find-update f id (c ∷ cases) same = elim (Bool-cases (has_id id c)) [
  | inl hit ↦ rw hit (rw (same c) (rw hit refl))
  | inr miss ↦ rw miss (rw miss (find-update f id cases same))
]

abbrev credit : ℤ → RecoveryCase → RecoveryCase
credit amount c = record c { recovered_amount = c.recovered_amount +ℤ amount }

credited-Moves :
    (amount : ℤ) → Moves recovered (λ c. record (credit amount c) { status = recovered })
credited-Moves amount = record {
  same_id = λ c. refl;
  new_status = λ c. refl;
  same_contacts = λ c. refl;
  money = inl refl;
}

-- the state of the session once the credit is assigned
abbrev credited : ℕ → ℤ → Session → Session
credited id amount s = record s {
  work = record (s.work) { cases = update (has_id id) (credit amount) s.work.cases };
  dirty = some id;
}

credit_move :
    (id : ℕ) (amount : ℤ) (c : RecoveryCase) (correlation : CorrelationId) (reason : Option String)
    (s : Session)
    → can_transition c.status recovered ≡ true
    → get_case id s.work ≡ some c
    → IsValid s.work
    → IsValid s.committed
    → Lands IsValid (
        (assign_case id (λ x. record x { status = recovered })
            >> (flush
                >> record_event
                    (recovery_case id)
                    system
                    (recovery_case_status_changed c.status recovered reason)
                    correlation))
          (credited id amount s))
unfolding assign_case flush flush_dirty
credit_move id amount c correlation reason s legal found w v = Safe→Lands IsValid _ _ (
    flushed id (recovery_case_status_changed c.status recovered reason) correlation s.conflicts
      (record s {
        work = record (s.work) {
          cases =
              update (has_id id) (λ x. record x { status = recovered })
                (update (has_id id) (credit amount) s.work.cases);
        };
        dirty = some id;
      })
      (λ at.
        subst
          (λ l.
            AreExplained l
              (s.work.audit_events
                ++ (event_at (recovery_case id) system
                      (recovery_case_status_changed c.status recovered reason) correlation at
                    ∷ []))
              s.work.next_id)
          (sym (
            update-update (has_id id) (credit amount) (λ x. record x { status = recovered })
              s.work.cases (λ x. refl)))
          (move-AreExplained (λ x. record (credit amount x) { status = recovered }) id c recovered
            reason s.work.cases s.work.audit_events s.work.next_id _ refl refl
            (credited-Moves amount) legal found w))
      v)

credit-Lands :
    (id : ℕ) (amount : ℤ) (correlation : CorrelationId) (reason : Option String) (s : Session)
    → IsValid s.work
    → IsValid s.committed
    → Lands IsValid
        ((assign_case id (credit amount) >> transition id recovered correlation reason) s)
unfolding transition load_case validate_transition assign_case
credit-Lands id amount correlation reason s w v =
    rw (find-update (credit amount) id s.work.cases (λ c. refl))
      (elim (Option-cases (get_case id s.work)) [
        | inl missing ↦ rw missing v
        | inr (c, found) ↦ rw found (elim (Bool-cases (can_transition c.status recovered)) [
          | inl legal ↦ rw legal (credit_move id amount c correlation reason s legal found w v)
          | inr illegal ↦ rw illegal v
        ])
      ])

pub credit-Settles :
    (id : ℕ) (amount : ℤ) (correlation : CorrelationId) (reason : Option String)
    → Settles IsValid (assign_case id (credit amount) >> transition id recovered correlation reason)
credit-Settles id amount correlation reason = record {
  at = λ s w v. credit-Lands id amount correlation reason s w v;
}
