-- ===== src/Store/Session.antt =====
-- The unit of work of one request: SQLAlchemy's `AsyncSession` as the services use it, the errors
-- of backend/app/core/errors.py, services/concurrency.py and services/audit_service.py.
use revenue_ai.Base.{
  ℕ, suc, ◌==◌, ⊤, String, Bool, true, false, Option, none, some, List, [], ◌∷◌, ◌++◌, find, update,
  if◌then◌else◌,
}
use revenue_ai.Domain.Enums.{RecoveryCaseStatus, ActorType, system}
use revenue_ai.Domain.StateMachine.{can_transition}
use revenue_ai.Domain.Providers.{CreatePaymentLinkRequest}
use revenue_ai.Store.Models.{
  RecoveryCase, Entity, recovery_case, Payload, recovery_case_status_changed, CorrelationId, Db,
  AuditEvent,
}

-- The first four are the subclasses of `RecoverAIError`; the next three come from SQLAlchemy, and the
-- last is Python's, for an enum that is given no member. The texts of the messages are left out.
pub data Error : Type 0 where
  not_found invalid_state_transition concurrent_modification validation_failed : Error
  stale_data integrity_error multiple_results value_error : Error

-- `isinstance(exc, RecoverAIError)`
abbrev pub is_domain_error : Error → Bool
is_domain_error stale_data = false
is_domain_error integrity_error = false
is_domain_error multiple_results = false
is_domain_error value_error = false
is_domain_error _ = true

pub data Result (A : Type 0) : Type 0 where
  ok : A → Result A
  err : Error → Result A

-- `committed` is what the database holds, `work` what this session sees of it. `dirty` names a
-- case whose row has changed in memory and waits for a flush. Whether another request has changed
-- that row in the meantime is decided outside: `conflicts` has an answer for each flush, and no
-- more conflicts once it is used up; `races` does so for the claims of a webhook event. `clock` has the readings of the clock, `ticks` their number. `sent` lists the
-- requests that went to the payment provider, the latest first; `asked` and `ai_calls` count the
-- reconciliations and the calls of the AI provider.
pub record Session : Type 0 where
  pub committed : Db
  pub work : Db
  pub dirty : Option ℕ
  pub conflicts : List Bool
  pub races : List Bool
  pub clock : ℕ → ℕ
  pub ticks : ℕ
  pub sent : List CreatePaymentLinkRequest
  pub asked : ℕ
  pub ai_calls : ℕ

abbrev pub Action : Type 0 → Type 0
Action A = Session → Result A × Session

module _ {A : Type 0} where
  abbrev pub pure : A → Action A
  pure a s = (ok a, s)

  abbrev pub raise : Error → Action A
  raise e s = (err e, s)

  abbrev pub gets : (Session → A) → Action A
  gets f s = (ok (f s), s)

  -- the value that a query found, or an error
  abbrev pub or_raise : Option A → Error → Action A
  or_raise none e = raise e
  or_raise (some a) e = pure a

-- What follows an action: the next one at its value, or the error.
abbrev pub bind_result : {A B : Type 0} → Result A → (A → Action B) → Action B
bind_result (ok a) f = f a
bind_result (err e) f = raise e

infixl 5 ◌>>=◌ ◌>>◌
abbrev pub ◌>>=◌ : {A B : Type 0} → Action A → (A → Action B) → Action B
◌>>=◌ m f s = let (r, s') = m s in bind_result r f s'

abbrev pub ◌>>◌ : {A B : Type 0} → Action A → Action B → Action B
m >> k = m >>= λ _. k

abbrev pub modify : (Session → Session) → Action ⊤
modify f s = (ok tt, f s)

abbrev pub query : {A : Type 0} → (Db → A) → Action A
query f = gets (λ s. f s.work)

abbrev pub modify_work : (Db → Db) → Action ⊤
modify_work f = modify (λ s. record s { work = f s.work })

-- `datetime.now(UTC)`
unfoldable pub now : Action ℕ
now s = (ok (s.clock s.ticks), record s { ticks = suc s.ticks })

-- `uuid.uuid4()`: an id that nothing uses
unfoldable pub new_uuid : Action ℕ
new_uuid s =
    (ok s.work.next_id, record s { work = record (s.work) { next_id = suc s.work.next_id } })

abbrev pub has_id : ℕ → RecoveryCase → Bool
has_id id c = c.id == id

-- `session.get(RecoveryCase, id)`
abbrev pub get_case : ℕ → Db → Option RecoveryCase
get_case id db = find (has_id id) db.cases

-- the object of a case that is loaded: its attributes, read and assigned
unfoldable pub load_case : ℕ → Action RecoveryCase
load_case id = query (get_case id) >>= λ c. or_raise c not_found

unfoldable pub assign_case : ℕ → (RecoveryCase → RecoveryCase) → Action ⊤
assign_case id f = modify (λ s. record s {
  work = record (s.work) { cases = update (has_id id) f s.work.cases };
  dirty = some id;
})

abbrev pub bump_version : RecoveryCase → RecoveryCase
bump_version c = record c { version = suc c.version }

-- the UPDATE of a dirty row, which matches no row if its version has moved
unfoldable pub flush_row : ℕ → List Bool → Action ⊤
flush_row id (true ∷ rest) s = (err stale_data, record s { conflicts = rest })
flush_row id (false ∷ rest) s = (
  ok tt,
  record s {
    work = record (s.work) { cases = update (has_id id) bump_version s.work.cases };
    dirty = none;
    conflicts = rest;
  },
)
flush_row id [] s = (
  ok tt,
  record s {
    work = record (s.work) { cases = update (has_id id) bump_version s.work.cases };
    dirty = none;
  },
)

unfoldable pub flush_dirty : Option ℕ → Action ⊤
flush_dirty none s = (ok tt, s)
flush_dirty (some id) s = flush_row id s.conflicts s

-- `session.flush()`
unfoldable pub flush : Action ⊤
flush s = flush_dirty s.dirty s

-- `session.commit()`
unfoldable pub commit : Action ⊤
commit = flush >> modify (λ s. record s { committed = s.work })

-- `session.rollback()`
abbrev pub rolled_back : Session → Session
rolled_back s = record s { work = s.committed; dirty = none }

unfoldable pub rollback : Action ⊤
rollback = modify rolled_back

-- `guard_against_concurrent_modification`
abbrev pub guard_result : {A : Type 0} → Result A × Session → Result A × Session
guard_result (ok a, s) = (ok a, s)
guard_result (err stale_data, s) = (err concurrent_modification, rolled_back s)
guard_result (err e, s) = (err e, s)

unfoldable pub guard_against_concurrent_modification : {A : Type 0} → Action A → Action A
guard_against_concurrent_modification operation s = guard_result (operation s)

abbrev pub add_event : AuditEvent → Db → Db
add_event e db = record db { audit_events = db.audit_events ++ (e ∷ []) }

abbrev pub event_at : Entity → ActorType → Payload → CorrelationId → ℕ → AuditEvent
event_at entity actor payload correlation at = record {
  entity = entity;
  actor_type = actor;
  payload = payload;
  correlation_id = correlation;
  created_at = at;
}

-- `audit_service.record_event`: the only writer of audit events
unfoldable pub record_event : Entity → ActorType → Payload → CorrelationId → Action ⊤
record_event entity actor payload correlation = do
  at ← now
  flush
  modify_work (add_event (event_at entity actor payload correlation at))

-- `validate_transition`
unfoldable pub validate_transition : RecoveryCaseStatus → RecoveryCaseStatus → Action ⊤
validate_transition current target =
    if can_transition current target then pure tt else raise invalid_state_transition

-- `_transition` of the three services
unfoldable pub transition : ℕ → RecoveryCaseStatus → CorrelationId → Option String → Action ⊤
transition id target correlation reason = do
  case ← load_case id
  validate_transition case.status target
  assign_case id (λ c. record c { status = target })
  flush
  record_event (recovery_case id) system (recovery_case_status_changed case.status target reason)
      correlation
