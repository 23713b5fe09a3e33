-- ===== src/Reports/Summary/Totals.antt =====
-- backend/app/services/recovery_summary_service.py: how the figures of a summary fit together.
use revenue_ai.Reports.Summary.{compute_recovery_summary, difference, sum_ℤ, eligible_cases}
use revenue_ai.Base.Int.{+ℤ_parts}
use revenue_ai.Base.{
  ℕ, ◌≡◌, ◌↔◌, ◌≤◌, ◌+◌, ℤ, pos, ◌≤ℤ◌, ◌+ℤ◌, Bool, List, [], ◌∷◌, filter, count, length, arith,
  refl, if◌then◌else◌,
}
use revenue_ai.Domain.Enums.{RecoveryCaseStatus, status_eq}
use revenue_ai.Store.Models.{Db, RecoveryCase}
use revenue_ai.Evaluation.Metrics.Bounds.{IsProper, rate-IsProper, count-le-length}

abbrev pub statuses : List RecoveryCaseStatus
statuses =
    RecoveryCaseStatus.discovered ∷ RecoveryCaseStatus.eligible ∷ RecoveryCaseStatus.ineligible
    ∷ RecoveryCaseStatus.diagnosing ∷ RecoveryCaseStatus.recommended
    ∷ RecoveryCaseStatus.policy_review ∷ RecoveryCaseStatus.approved ∷ RecoveryCaseStatus.executing
    ∷ RecoveryCaseStatus.recovered ∷ RecoveryCaseStatus.stopped ∷ RecoveryCaseStatus.escalated
    ∷ RecoveryCaseStatus.failed ∷ []

abbrev pub sum_over : List RecoveryCaseStatus → (RecoveryCaseStatus → ℕ) → ℕ
sum_over [] f = 0
sum_over (s ∷ rest) f = f s + sum_over rest f

one_status : (s : RecoveryCaseStatus) → sum_over statuses (λ t. if status_eq s t then 1 else 0) ≡ 1
one_status s = ground arith

sum_over-add :
    (rest : List RecoveryCaseStatus) (f g : RecoveryCaseStatus → ℕ)
    → sum_over rest (λ t. f t + g t) ≡ sum_over rest f + sum_over rest g
sum_over-add [] f g = refl
sum_over-add (s ∷ rest) f g = omega (arith, sum_over-add rest f g)

sum_statuses :
    (cases : List RecoveryCase)
    → sum_over statuses (λ t. count (λ (c : RecoveryCase). status_eq c.status t) cases)
      ≡ length cases
sum_statuses [] = refl
sum_statuses (c ∷ cases) = omega (
  arith,
  sum_over-add statuses (λ t. if status_eq c.status t then 1 else 0)
      (λ t. count (λ (k : RecoveryCase). status_eq k.status t) cases),
  one_status c.status,
  sum_statuses cases,
)

length-filter-le : {A : Type 0} (p : A → Bool) (xs : List A) → length (filter p xs) ≤ length xs
length-filter-le p [] = omega arith
length-filter-le p (x ∷ xs) = ground (arith, length-filter-le p xs)

difference_bounds : (a b : ℤ) → (pos 0 ≤ℤ difference a b) × (a ≤ℤ (difference a b +ℤ b))
difference_bounds a b = ground (arith, +ℤ_parts (difference a b) b)

difference_zero : (a b : ℤ) → (difference a b ≡ pos 0) ↔ (a ≤ℤ b)
difference_zero a b = ground arith

bounds :
    (db : Db)
    → (pos 0 ≤ℤ (compute_recovery_summary db).outstanding_revenue)
      × ((compute_recovery_summary db).eligible_revenue ≤ℤ (
          (compute_recovery_summary db).outstanding_revenue
          +ℤ (compute_recovery_summary db).confirmed_recovered_revenue))
unfolding compute_recovery_summary
bounds db =
    difference_bounds (sum_ℤ (λ (c : RecoveryCase). c.revenue_at_risk) (eligible_cases db))
      (sum_ℤ (λ (c : RecoveryCase). c.recovered_amount) db.cases)

-- In every summary the counts of the statuses add up to the number of cases, the eligible cases are
-- at most all, the outstanding revenue is not negative and not below the eligible revenue less the
-- confirmed one, and it is 0 exactly if the confirmed revenue covers the eligible; the rates of
-- escalation, of stops and of provider failures are at most 1 (the recovery rate need not be).
pub compute_recovery_summary-lem :
    (db : Db)
    → (sum_over statuses (compute_recovery_summary db).cases_by_status
        ≡ (compute_recovery_summary db).cases_total)
      × ((compute_recovery_summary db).cases_eligible ≤ (compute_recovery_summary db).cases_total)
      × (pos 0 ≤ℤ (compute_recovery_summary db).outstanding_revenue)
      × ((compute_recovery_summary db).eligible_revenue ≤ℤ (
          (compute_recovery_summary db).outstanding_revenue
          +ℤ (compute_recovery_summary db).confirmed_recovered_revenue))
      × (((compute_recovery_summary db).outstanding_revenue ≡ pos 0) ↔ (
          (compute_recovery_summary db).eligible_revenue
          ≤ℤ (compute_recovery_summary db).confirmed_recovered_revenue))
      × IsProper (compute_recovery_summary db).escalation_rate
      × IsProper (compute_recovery_summary db).stop_rate
      × IsProper (compute_recovery_summary db).provider_failure_rate
unfolding compute_recovery_summary
compute_recovery_summary-lem db = (
  sum_statuses db.cases,
  length-filter-le (λ (c : RecoveryCase). c.eligible) db.cases,
  (bounds db).0,
  (bounds db).1,
  difference_zero (sum_ℤ (λ (c : RecoveryCase). c.revenue_at_risk) (eligible_cases db))
      (sum_ℤ (λ (c : RecoveryCase). c.recovered_amount) db.cases),
  rate-IsProper _ _ (count-le-length _ db.cases),
  rate-IsProper _ _ (count-le-length _ db.cases),
  rate-IsProper _ _ (count-le-length _ db.attempts),
)
