-- ===== src/Trail.antt =====
-- The audit trail against the rows: what the events of a case say of its status, and an invariant
-- of the database which says that they agree (backend/app/services/audit_service.py and all its
-- callers).
pub mod Database
pub mod Keeps
pub mod Primitives
pub mod Transition
pub mod Diagnosis
pub mod Execution
pub mod Ingestion
pub mod Webhook
pub mod Cycle
pub mod Requests
pub mod Growth
use revenue_ai.Base.{ℕ, ◌==◌, ◌<◌, ◌≤◌, pos, ◌≡◌, ◌⊎◌, List, [], ◌∷◌, All, ◌&&◌, if◌then◌else◌}
use revenue_ai.Domain.Enums.{RecoveryCaseStatus, discovered, recovered, status_eq}
use revenue_ai.Domain.StateMachine.{can_transition}
use revenue_ai.Store.Models.{
  RecoveryCase, Entity, recovery_case, Payload, recovery_case_created, recovery_case_status_changed,
  AuditEvent, Db,
}

-- what a reader of the trail knows of one case: not created yet, its status, or a contradiction
pub data TrailState : Type 0 where
  absent broken : TrailState
  at : RecoveryCaseStatus → TrailState

-- a creation must be the first event, and a change must start where the case is and be legal
abbrev pub created_state : TrailState → TrailState
created_state absent = at discovered
created_state _ = broken

abbrev pub changed_state : RecoveryCaseStatus → RecoveryCaseStatus → TrailState → TrailState
changed_state from to (at status) =
    if status_eq status from && can_transition from to then at to else broken
changed_state from to _ = broken

abbrev pub payload_state : Payload → TrailState → TrailState
payload_state (recovery_case_created payment amount) t = created_state t
payload_state (recovery_case_status_changed from to reason) t = changed_state from to t
payload_state _ t = t

abbrev pub entity_state : ℕ → Entity → Payload → TrailState → TrailState
entity_state id (recovery_case j) payload t = if j == id then payload_state payload t else t
entity_state id _ payload t = t

-- the events from the first to the last
abbrev pub replay : ℕ → TrailState → List AuditEvent → TrailState
replay id t [] = t
replay id t (e ∷ es) = replay id (entity_state id e.entity e.payload t) es

-- A row that its trail explains, with no contact counted and nothing recovered before RECOVERED.
pub record IsExplained (events : List AuditEvent) (next_id : ℕ) (c : RecoveryCase) : Type 0 where
  pub trail : replay c.id absent events ≡ at c.status
  pub known : c.id < next_id
  pub no_contact : c.customer_contact_count ≡ 0
  pub no_money : (c.status ≡ recovered) ⊎ (c.recovered_amount ≡ pos 0)

pub record AreExplained (cases : List RecoveryCase) (events : List AuditEvent) (next_id : ℕ)
    : Type 0 where
  pub rows : All (IsExplained events next_id) cases
  pub unused : (id : ℕ) → next_id ≤ id → replay id absent events ≡ absent

abbrev pub IsValid : Db → Type 0
IsValid db = AreExplained db.cases db.audit_events db.next_id
