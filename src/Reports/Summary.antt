-- ===== src/Reports/Summary.antt =====
-- backend/app/services/recovery_summary_service.py. A rate is kept as the quotient that the source
-- computes before it rounds.
pub mod Totals
use revenue_ai.Base.{
  ℕ, ◌==◌, ℤ, pos, negsuc, ltb_ℤ, ◌+ℤ◌, Bool, true, false, List, [], ◌∷◌, filter, length, count,
  if◌then◌else◌,
}
use revenue_ai.Base.Int.{sub_ℕ, pos_part, neg_part}
use Prim.Native.Nat.{◌+◌}
use revenue_ai.Domain.Enums.{RecoveryCaseStatus, status_eq, RecoveryAttemptStatus}
use revenue_ai.Store.Models.{Db, RecoveryCase, RecoveryAttempt}
use revenue_ai.Evaluation.Metrics.{Rate, rate}

-- `coalesce(sum(f), 0)`
abbrev pub sum_ℤ : {A : Type 0} → (A → ℤ) → List A → ℤ
sum_ℤ f [] = pos 0
sum_ℤ f (x ∷ xs) = f x +ℤ sum_ℤ f xs

abbrev pub is_succeeded : RecoveryAttemptStatus → Bool
is_succeeded RecoveryAttemptStatus.succeeded = true
is_succeeded _ = false

abbrev pub is_failed : RecoveryAttemptStatus → Bool
is_failed RecoveryAttemptStatus.failed = true
is_failed _ = false

abbrev pub count_attempts : (RecoveryAttemptStatus → Bool) → Db → ℕ
count_attempts p db = count (λ (a : RecoveryAttempt). p a.status) db.attempts

-- a quotient of amounts
pub record AmountRate : Type 0 where
  pub numerator : ℤ
  pub denominator : ℤ

abbrev pub is_zero : ℤ → Bool
is_zero (pos n) = n == 0
is_zero (negsuc n) = false

-- `a / b if b else 0.0`
abbrev pub amount_rate : ℤ → ℤ → AmountRate
amount_rate a b =
    if is_zero b
    then record { numerator = pos 0; denominator = pos 1 }
    else record { numerator = a; denominator = b }

-- `cases_by_status` is a dict: the count of a status that it lacks is 0.
pub record RecoverySummary : Type 0 where
  pub cases_total : ℕ
  pub cases_eligible : ℕ
  pub cases_by_status : RecoveryCaseStatus → ℕ
  pub total_revenue_at_risk : ℤ
  pub eligible_revenue : ℤ
  pub confirmed_recovered_revenue : ℤ
  pub outstanding_revenue : ℤ
  pub recovery_rate : AmountRate
  pub recovery_attempts : ℕ
  pub successful_payment_links_created : ℕ
  pub average_recovery_amount : AmountRate
  pub escalation_rate : Rate
  pub stop_rate : Rate
  pub provider_failure_rate : Rate

abbrev pub eligible_cases : Db → List RecoveryCase
eligible_cases db = filter (λ (c : RecoveryCase). c.eligible) db.cases

abbrev pub count_status : Db → RecoveryCaseStatus → ℕ
count_status db status = count (λ (c : RecoveryCase). status_eq c.status status) db.cases

-- `max(0, a - b)`
abbrev pub difference : ℤ → ℤ → ℤ
difference a b =
    if ltb_ℤ b a then sub_ℕ (pos_part a + neg_part b) (pos_part b + neg_part a) else pos 0

unfoldable pub compute_recovery_summary : Db → RecoverySummary
compute_recovery_summary db =
    let eligible = sum_ℤ (λ (c : RecoveryCase). c.revenue_at_risk) (eligible_cases db) in
    let confirmed = sum_ℤ (λ (c : RecoveryCase). c.recovered_amount) db.cases in
    let recovered = count (λ (c : RecoveryCase). ltb_ℤ (pos 0) c.recovered_amount) db.cases in
    record {
      cases_total = length db.cases;
      cases_eligible = length (eligible_cases db);
      cases_by_status = count_status db;
      total_revenue_at_risk = sum_ℤ (λ (c : RecoveryCase). c.revenue_at_risk) db.cases;
      eligible_revenue = eligible;
      confirmed_recovered_revenue = confirmed;
      outstanding_revenue = difference eligible confirmed;
      recovery_rate = amount_rate confirmed eligible;
      recovery_attempts = length db.attempts;
      successful_payment_links_created = count_attempts is_succeeded db;
      average_recovery_amount = amount_rate confirmed (pos recovered);
      escalation_rate = rate (count_status db RecoveryCaseStatus.escalated) (length db.cases);
      stop_rate = rate (count_status db RecoveryCaseStatus.stopped) (length db.cases);
      provider_failure_rate = rate (count_attempts is_failed db) (length db.attempts);
    }
