-- ===== src/Reports/Timeline.antt =====
-- backend/app/repositories/audit_event_repository.py and services/timeline_service.py: the queries of
-- the audit trail. The tests of the columns are an argument of the filtered queries: one for each
-- filter that is given.
pub mod Order
use revenue_ai.Base.{
  ℕ, ◌==◌, leb, Bool, true, false, ◌&&◌, ◌||◌, List, [], ◌∷◌, map, filter, any, take, drop, length,
  sort_by, Option, none, some, if◌then◌else◌, is_some,
}
use revenue_ai.Base.Sorting.{no_later}
use revenue_ai.Store.Models.{
  Db, AuditEvent, Entity, payment, recovery_case, recovery_attempt, recovery_cycle, webhook,
  RecoveryAttempt,
}
use revenue_ai.Store.Session.{get_case, Result, ok, err, not_found}

-- `stmt.where(f)` for every filter that is given
abbrev pub passes : List (AuditEvent → Bool) → AuditEvent → Bool
passes [] e = true
passes (f ∷ filters) e = f e && passes filters e

-- `order_by(created_at.asc())` and `.desc()`
abbrev pub oldest_first : List AuditEvent → List AuditEvent
oldest_first = sort_by (no_later (λ (e : AuditEvent). e.created_at))

abbrev pub newest_first : List AuditEvent → List AuditEvent
newest_first = sort_by (λ (a b : AuditEvent). leb b.created_at a.created_at)

unfoldable pub list_for_export : List (AuditEvent → Bool) → Db → List AuditEvent
list_for_export filters db = oldest_first (filter (passes filters) db.audit_events)

-- the rows of a page, and the number of all
unfoldable pub list_paginated : ℕ → ℕ → List (AuditEvent → Bool) → Db → List AuditEvent × ℕ
list_paginated offset limit filters db = (
  take limit (drop offset (newest_first (filter (passes filters) db.audit_events))),
  length (filter (passes filters) db.audit_events),
)

-- the two conditions; that on the attempts is not there without any, as no id is in no list
abbrev pub concerns : ℕ → List ℕ → Entity → Bool
concerns case_id attempt_ids (recovery_case id) = id == case_id
concerns case_id attempt_ids (recovery_attempt id) = any (λ attempt. attempt == id) attempt_ids
concerns case_id attempt_ids _ = false

abbrev pub event_concerns : ℕ → List ℕ → AuditEvent → Bool
event_concerns case_id attempt_ids e = concerns case_id attempt_ids e.entity

-- the repository's `get_case_timeline`
unfoldable pub case_timeline : ℕ → List ℕ → Db → List AuditEvent
case_timeline case_id attempt_ids db =
    oldest_first (filter (event_concerns case_id attempt_ids) db.audit_events)

-- the ids of `case.attempts`
abbrev pub attempt_ids_of : ℕ → Db → List ℕ
attempt_ids_of case_id db =
    map (λ (a : RecoveryAttempt). a.id)
      (filter (λ (a : RecoveryAttempt). a.recovery_case_id == case_id) db.attempts)

-- the service's `get_case_timeline`
unfoldable pub get_case_timeline : ℕ → Db → Result (List AuditEvent)
get_case_timeline case_id db =
    if is_some (get_case case_id db)
    then ok (case_timeline case_id (attempt_ids_of case_id db) db)
    else err not_found
