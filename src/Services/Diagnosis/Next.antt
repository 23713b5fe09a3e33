-- ===== src/Services/Diagnosis/Next.antt =====
-- backend/app/services/diagnosis_service.py: which status follows a recommendation and the policy
-- decision on it.
use revenue_ai.Domain.Providers.{is_executable}
use revenue_ai.Domain.StateMachine.{can_transition}
use revenue_ai.Services.Diagnosis.{resolve_next_status, hard_stop_reason_codes}
use revenue_ai.Base.{◌≡◌, ◌↔◌, ◌⊎◌, List, [], ◌∷◌, true, any, arith}
use revenue_ai.Domain.Enums.{
  allow, block, approved, stopped, RecoveryAction, PolicyDecisionType, PolicyReasonCode,
  policy_review, code_in, max_retries_reached, recovery_window_expired, max_contacts_reached,
  amount_out_of_bounds, terminal_state_protected,
}

-- A case becomes APPROVED exactly if policy allows the recommended action and the executor
-- implements it, whatever the reason codes say.
pub resolve_next_status-approved_iff :
    (action : RecoveryAction) (decision : PolicyDecisionType) (codes : List PolicyReasonCode)
    → ((resolve_next_status action decision codes).0 ≡ approved)
      ↔ ((decision ≡ allow) × (is_executable action ≡ true))
unfolding resolve_next_status
resolve_next_status-approved_iff action decision codes = ground arith

-- Every other case is stopped or handed to a human: the next status is always one of APPROVED,
-- STOPPED and ESCALATED, and the state machine allows each of them after POLICY_REVIEW.
pub resolve_next_status-legal :
    (action : RecoveryAction) (decision : PolicyDecisionType) (codes : List PolicyReasonCode)
    → can_transition policy_review (resolve_next_status action decision codes).0 ≡ true
unfolding resolve_next_status can_transition
resolve_next_status-legal action decision codes = ground arith

-- one of the reasons that no human can lift
abbrev pub IsFinal : List PolicyReasonCode → Type 0
IsFinal codes =
    (code_in max_retries_reached codes ≡ true)
    ⊎ (code_in recovery_window_expired codes ≡ true)
    ⊎ (code_in max_contacts_reached codes ≡ true)
    ⊎ (code_in amount_out_of_bounds codes ≡ true)
    ⊎ (code_in terminal_state_protected codes ≡ true)

hard_stop-IsFinal :
    (codes : List PolicyReasonCode)
    → (any (λ code. code_in code hard_stop_reason_codes) codes ≡ true) ↔ IsFinal codes
hard_stop-IsFinal [] = ground arith
hard_stop-IsFinal (code ∷ codes) = ground (arith, hard_stop-IsFinal codes)

-- A recommendation under review is stopped exactly if policy allows the action STOP, or blocks
-- and lists one of these five reasons: the retries, the recovery window, the contacts, the amount,
-- or a status that is terminal.
pub resolve_next_status-stopped_iff :
    (action : RecoveryAction) (decision : PolicyDecisionType) (codes : List PolicyReasonCode)
    → ((resolve_next_status action decision codes).0 ≡ stopped) ↔ (
        ((decision ≡ allow) × (action ≡ RecoveryAction.stop))
        ⊎ ((decision ≡ block) × IsFinal codes))
unfolding resolve_next_status
resolve_next_status-stopped_iff action decision codes = ground (arith, hard_stop-IsFinal codes)
