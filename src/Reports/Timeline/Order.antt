-- ===== src/Reports/Timeline/Order.antt =====
-- backend/app/repositories/audit_event_repository.py: the order and the content of the audit queries.
use revenue_ai.Reports.Timeline.{
  get_case_timeline, list_for_export, case_timeline, passes, event_concerns, attempt_ids_of,
  oldest_first, concerns,
}
use revenue_ai.Base.{
  Bool-cases, inl, inr, ◌⊎◌, ℕ, ◌≡◌, true, false, Bool, List, [], ◌∷◌, filter, count, arith, refl,
  is_some, ◌∙◌, ◌&&◌, ◌==◌, map, any,
}
use revenue_ai.Base.Sorting.{IsSorted, sort_by-IsSorted, count-sort_by}
use revenue_ai.Store.Models.{
  Db, AuditEvent, Entity, RecoveryAttempt, recovery_case, recovery_attempt,
}
use revenue_ai.Store.Session.{get_case, ok, err, not_found}

-- The export has the audit events that pass every filter, each as often as the table, in the order
-- of their times.
list_for_export-IsSorted :
    (filters : List (AuditEvent → Bool)) (db : Db)
    → IsSorted (λ (e : AuditEvent). e.created_at) (list_for_export filters db)
      × ((p : AuditEvent → Bool)
          → count p (list_for_export filters db)
            ≡ count p (filter (passes filters) db.audit_events))
unfolding list_for_export
list_for_export-IsSorted filters db = (
  sort_by-IsSorted (λ (e : AuditEvent). e.created_at) (filter (passes filters) db.audit_events),
  λ p. count-sort_by (λ (e : AuditEvent). e.created_at) p (filter (passes filters) db.audit_events),
)

count-filter :
    (p q : AuditEvent → Bool) (events : List AuditEvent)
    → count p (filter q events) ≡ count (λ e. q e && p e) events
count-filter p q [] = refl
count-filter p q (e ∷ events) = ground (arith, count-filter p q events)

-- an event of the case, or of an attempt whose row names the case
abbrev pub is_of_case : ℕ → Db → Entity → Bool
is_of_case case_id db (recovery_case id) = id == case_id
is_of_case case_id db (recovery_attempt id) =
    any (λ (a : RecoveryAttempt). a.id == id && a.recovery_case_id == case_id) db.attempts
is_of_case case_id db _ = false

any_attempt :
    (case_id id : ℕ) (attempts : List RecoveryAttempt)
    → any
        (λ attempt. attempt == id)
        (map
          (λ (a : RecoveryAttempt). a.id)
          (filter (λ (a : RecoveryAttempt). a.recovery_case_id == case_id) attempts))
      ≡ any (λ (a : RecoveryAttempt). a.id == id && a.recovery_case_id == case_id) attempts
any_attempt case_id id [] = refl
any_attempt case_id id (a ∷ attempts) = ground (arith, any_attempt case_id id attempts)

concerns-is_of_case :
    (case_id : ℕ) (db : Db) (entity : Entity)
    → concerns case_id (attempt_ids_of case_id db) entity ≡ is_of_case case_id db entity
concerns-is_of_case case_id db (recovery_case id) = refl
concerns-is_of_case case_id db (recovery_attempt id) = any_attempt case_id id db.attempts
concerns-is_of_case case_id db _ = refl

count_concerned :
    (case_id : ℕ) (db : Db) (p : AuditEvent → Bool) (events : List AuditEvent)
    → count (λ e. event_concerns case_id (attempt_ids_of case_id db) e && p e) events
      ≡ count (λ e. is_of_case case_id db e.entity && p e) events
count_concerned case_id db p [] = refl
count_concerned case_id db p (e ∷ events) =
    rw (concerns-is_of_case case_id db e.entity, count_concerned case_id db p events) refl

-- For a case that exists the timeline is in the order of the events' times, and has exactly the
-- audit events of the case and of the attempts whose rows name the case, each as often as the
-- table; without the case the request fails as not found.
pub get_case_timeline-lem :
    (case_id : ℕ) (db : Db)
    → ((is_some (get_case case_id db) ≡ false) × (get_case_timeline case_id db ≡ err not_found))
      ⊎ ((is_some (get_case case_id db) ≡ true)
          × ((events : List AuditEvent) × (get_case_timeline case_id db ≡ ok events)
              × IsSorted (λ (e : AuditEvent). e.created_at) events
              × ((p : AuditEvent → Bool)
                  → count p events
                    ≡ count (λ e. is_of_case case_id db e.entity && p e) db.audit_events)))
unfolding get_case_timeline case_timeline
get_case_timeline-lem case_id db = elim (Bool-cases (is_some (get_case case_id db))) [
  | inl found ↦
      let concerned = filter (event_concerns case_id (attempt_ids_of case_id db)) db.audit_events in
      let at = λ (e : AuditEvent). e.created_at in
      inr (
        found,
        (
          oldest_first concerned,
          rw found refl,
          sort_by-IsSorted at concerned,
          (λ p.
              count-sort_by at p concerned
              ∙ count-filter p (event_concerns case_id (attempt_ids_of case_id db)) db.audit_events
              ∙ count_concerned case_id db p db.audit_events),
        ),
      )
  | inr missing ↦ inl (missing, rw missing refl)
]
