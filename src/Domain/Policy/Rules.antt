-- ===== src/Domain/Policy/Rules.antt =====
-- backend/app/domain/policy.py: `evaluate_policy` against a list of the rules in plain words.
use revenue_ai.Base.{◌<◌, ◌≤◌, pos, ◌≤ℤ◌, false, ◌≡◌, ◌≢◌, ◌↔◌, ◌⊎◌, arith}
use revenue_ai.Domain.Enums.{RecoveryCaseStatus, RecoveryAction, allow}
use revenue_ai.Domain.Policy.{
  PolicyConfig, PolicyEvaluationInput, confidence_threshold, in_terminal_state, action_not_eligible,
  retries_reached, window_expired, contacts_reached, amount_bad, confidence_low, evaluate_policy,
}

-- an action that pursues the payment, as against the two safe fallbacks
abbrev pub IsActive : RecoveryAction → Type 0
IsActive a = (a ≢ RecoveryAction.escalate) × (a ≢ RecoveryAction.stop)

-- an action that reaches the customer
abbrev pub IsContact : RecoveryAction → Type 0
IsContact a = (a ≡ RecoveryAction.send_payment_link) ⊎ (a ≡ RecoveryAction.send_reminder)

-- the statuses in which an action makes sense
abbrev pub Eligible : RecoveryAction → RecoveryCaseStatus → Type 0
Eligible RecoveryAction.escalate s =
    (s ≡ RecoveryCaseStatus.diagnosing)
    ⊎ (s ≡ RecoveryCaseStatus.recommended)
    ⊎ (s ≡ RecoveryCaseStatus.policy_review)
    ⊎ (s ≡ RecoveryCaseStatus.executing)
    ⊎ (s ≡ RecoveryCaseStatus.failed)
Eligible RecoveryAction.stop s =
    (s ≡ RecoveryCaseStatus.eligible)
    ⊎ (s ≡ RecoveryCaseStatus.recommended)
    ⊎ (s ≡ RecoveryCaseStatus.policy_review)
    ⊎ (s ≡ RecoveryCaseStatus.failed)
Eligible _ s =
    (s ≡ RecoveryCaseStatus.recommended)
    ⊎ (s ≡ RecoveryCaseStatus.policy_review)
    ⊎ (s ≡ RecoveryCaseStatus.approved)

-- What the engine lets through. The terminal statuses need no rule: none is eligible.
pub record Permitted (i : PolicyEvaluationInput) (config : PolicyConfig) : Type 0 where
  pub eligible : Eligible i.proposed_action i.case_status
  pub within_retries :
      i.proposed_action ≡ RecoveryAction.retry_payment → i.attempt_number < config.max_retry_count
  pub within_window :
      IsActive i.proposed_action → i.days_since_discovery ≤ config.max_recovery_window_days
  pub within_contacts :
      IsContact i.proposed_action → i.customer_contact_count < config.max_customer_contacts
  pub positive : pos 1 ≤ℤ i.amount
  pub bounded : i.amount ≤ℤ config.max_recovery_amount
  pub confident :
      IsActive i.proposed_action → confidence_threshold i.amount config ≤ i.recovery_confidence

-- no rule fired
pub record Clear (i : PolicyEvaluationInput) (config : PolicyConfig) : Type 0 where
  pub terminal : in_terminal_state i ≡ false
  pub action : action_not_eligible i ≡ false
  pub retries : retries_reached i config ≡ false
  pub window : window_expired i config ≡ false
  pub contacts : contacts_reached i config ≡ false
  pub amount : amount_bad i config ≡ false
  pub confidence : confidence_low i config ≡ false

pub allow→Clear :
    (i : PolicyEvaluationInput) (config : PolicyConfig)
    → (evaluate_policy i config).decision ≡ allow
    → Clear i config
unfolding evaluate_policy
allow→Clear i config h = ground arith

pub Clear→allow :
    (i : PolicyEvaluationInput) (config : PolicyConfig)
    → Clear i config
    → (evaluate_policy i config).decision ≡ allow
unfolding evaluate_policy
Clear→allow i config h = ground arith

Clear→Permitted :
    (i : PolicyEvaluationInput) (config : PolicyConfig) → Clear i config → Permitted i config
unfolding action_not_eligible
Clear→Permitted i config h = ground arith

Permitted→Clear :
    (i : PolicyEvaluationInput) (config : PolicyConfig) → Permitted i config → Clear i config
unfolding action_not_eligible
Permitted→Clear i config h = ground arith

-- The engine answers ALLOW exactly for the inputs that every rule permits: the action is eligible
-- in the status, a retry is under the cap, the window of an active action is open, the contacts of
-- a contact action are under the cap, the amount is positive and at most the ceiling, and an
-- active action has at least the confidence that its amount calls for.
pub evaluate_policy-allow_iff :
    (i : PolicyEvaluationInput) (config : PolicyConfig)
    → ((evaluate_policy i config).decision ≡ allow) ↔ Permitted i config
evaluate_policy-allow_iff i config = (
  λ h. Clear→Permitted i config (allow→Clear i config h),
  λ h. Clear→allow i config (Permitted→Clear i config h),
)
