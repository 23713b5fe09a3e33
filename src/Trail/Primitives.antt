-- ===== src/Trail/Primitives.antt =====
-- The invariant of the tables under the steps of a session that every service is made of.
use revenue_ai.Domain.StateMachine.{can_transition}
use revenue_ai.Domain.Enums.{ActorType, RecoveryCaseStatus}
use revenue_ai.Trail.{IsValid, TrailState, entity_state, payload_state}
use revenue_ai.Store.Models.{Entity, Payload, CorrelationId, RecoveryCase, recovery_case}
use revenue_ai.Trail.Database.{Harmless, suc-AreExplained, update-AreExplained, event-AreExplained}
use revenue_ai.Store.Session.{
  assign_case, commit, flush, flush_dirty, flush_row, load_case, new_uuid, now, record_event,
  rollback, validate_transition, bump_version, Session, modify, query, get_case, pure, or_raise,
  raise, invalid_state_transition, not_found, add_event, event_at,
}
use revenue_ai.Trail.Keeps.{
  Keeps, Safe, Keeps-bind, Keeps-if, Keeps-then, Keeps-modify_work, Keeps-pure, Keeps-query,
  Keeps-or_raise, Keeps-raise,
}
use revenue_ai.Base.{
  none, some, true, false, ◌≡◌, [], ◌∷◌, Option, ℕ, List, Bool, refl, if◌then◌else◌, ◌==◌,
}

pub bump-Harmless : Harmless bump_version
bump-Harmless = record {
  same_id = λ c. refl;
  same_status = λ c. refl;
  same_contacts = λ c. refl;
  same_money = λ c. refl;
}

flush_row-Safe :
    (id : ℕ) (l : List Bool) (s : Session)
    → IsValid s.work
    → IsValid s.committed
    → Safe IsValid (flush_row id l s)
unfolding flush_row
flush_row-Safe id [] s w c = (
  update-AreExplained bump_version id s.work.cases s.work.audit_events s.work.next_id bump-Harmless
      w,
  c,
)
flush_row-Safe id (true ∷ rest) s w c = (λ h. cc, c)
flush_row-Safe id (false ∷ rest) s w c = (
  update-AreExplained bump_version id s.work.cases s.work.audit_events s.work.next_id bump-Harmless
      w,
  c,
)

flush_dirty-Safe :
    (dirty : Option ℕ) (s : Session)
    → IsValid s.work
    → IsValid s.committed
    → Safe IsValid (flush_dirty dirty s)
unfolding flush_dirty
flush_dirty-Safe none s w c = (w, c)
flush_dirty-Safe (some id) s w c = flush_row-Safe id s.conflicts s w c

pub flush-Keeps : Keeps IsValid flush
unfolding flush
flush-Keeps = record { at = λ s w c. flush_dirty-Safe s.dirty s w c }

set_committed-Keeps : Keeps IsValid (modify (λ s. record s { committed = s.work }))
set_committed-Keeps = record { at = λ s w c. (w, w) }

pub commit-Keeps : Keeps IsValid commit
unfolding commit
commit-Keeps =
    Keeps-then flush (modify (λ s. record s { committed = s.work })) flush-Keeps set_committed-Keeps

pub rollback-Keeps : Keeps IsValid rollback
unfolding rollback
rollback-Keeps = record { at = λ s w c. (c, c) }

pub now-Keeps : Keeps IsValid now
unfolding now
now-Keeps = record { at = λ s w c. (w, c) }

pub new_uuid-Keeps : Keeps IsValid new_uuid
unfolding new_uuid
new_uuid-Keeps = record {
  at = λ s w c. (suc-AreExplained s.work.cases s.work.audit_events s.work.next_id w, c);
}

pub load_case-Keeps : (id : ℕ) → Keeps IsValid (load_case id)
unfolding load_case
load_case-Keeps id =
    Keeps-bind (query (get_case id)) (λ c. or_raise c not_found) (Keeps-query (get_case id))
      (λ c. Keeps-or_raise c not_found)

pub assign_case-Keeps :
    (id : ℕ) (f : RecoveryCase → RecoveryCase) → Harmless f → Keeps IsValid (assign_case id f)
unfolding assign_case
assign_case-Keeps id f k = record {
  at = λ s w c. (update-AreExplained f id s.work.cases s.work.audit_events s.work.next_id k w, c);
}

-- an event that tells no reader of a case anything
abbrev pub IsSilent : Entity → Payload → Type 0
IsSilent entity payload = (id : ℕ) (t : TrailState) → entity_state id entity payload t ≡ t

pub record_event-Keeps :
    (entity : Entity) (actor : ActorType) (payload : Payload) (correlation : CorrelationId)
    → IsSilent entity payload
    → Keeps IsValid (record_event entity actor payload correlation)
unfolding record_event
record_event-Keeps entity actor payload correlation silent = Keeps-bind now _ now-Keeps (λ at.
    Keeps-then flush _ flush-Keeps (
      Keeps-modify_work (add_event (event_at entity actor payload correlation at)) (λ db w.
        event-AreExplained db.cases db.audit_events db.next_id
          (event_at entity actor payload correlation at) silent w)))

pub validate_transition-Keeps :
    (current target : RecoveryCaseStatus) → Keeps IsValid (validate_transition current target)
unfolding validate_transition
validate_transition-Keeps current target =
    Keeps-if (can_transition current target) (pure tt) (raise invalid_state_transition)
      (Keeps-pure tt) (Keeps-raise invalid_state_transition)

silent_if : (b : Bool) (t : TrailState) → (if b then t else t) ≡ t
silent_if true t = refl
silent_if false t = refl

-- an event of a case that neither creates it nor changes its status
pub record_case-Keeps :
    (id : ℕ) (actor : ActorType) (payload : Payload) (correlation : CorrelationId)
    → ((t : TrailState) → payload_state payload t ≡ t)
    → Keeps IsValid (record_event (recovery_case id) actor payload correlation)
record_case-Keeps id actor payload correlation silent =
    record_event-Keeps (recovery_case id) actor payload correlation
      (λ j t. rw (silent t) (silent_if (id == j) t))
