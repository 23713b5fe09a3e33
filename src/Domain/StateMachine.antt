-- ===== src/Domain/StateMachine.antt =====
-- backend/app/domain/state_machine.py: which status may follow which.
pub mod Graph
use revenue_ai.Base.{Bool, List, [], ◌∷◌}
use revenue_ai.Domain.Enums.{RecoveryCaseStatus, status_in, terminal_recovery_case_statuses}

-- `ALLOWED_TRANSITIONS`
abbrev pub allowed_transitions : RecoveryCaseStatus → List RecoveryCaseStatus
allowed_transitions RecoveryCaseStatus.discovered =
    RecoveryCaseStatus.eligible ∷ RecoveryCaseStatus.ineligible ∷ []
allowed_transitions RecoveryCaseStatus.eligible =
    RecoveryCaseStatus.diagnosing ∷ RecoveryCaseStatus.stopped ∷ []
allowed_transitions RecoveryCaseStatus.ineligible = []
allowed_transitions RecoveryCaseStatus.diagnosing =
    RecoveryCaseStatus.recommended ∷ RecoveryCaseStatus.escalated ∷ []
allowed_transitions RecoveryCaseStatus.recommended = RecoveryCaseStatus.policy_review ∷ []
allowed_transitions RecoveryCaseStatus.policy_review =
    RecoveryCaseStatus.approved ∷ RecoveryCaseStatus.stopped ∷ RecoveryCaseStatus.escalated ∷ []
allowed_transitions RecoveryCaseStatus.approved = RecoveryCaseStatus.executing ∷ []
allowed_transitions RecoveryCaseStatus.executing =
    RecoveryCaseStatus.recovered ∷ RecoveryCaseStatus.failed ∷ RecoveryCaseStatus.escalated ∷ []
allowed_transitions RecoveryCaseStatus.failed =
    RecoveryCaseStatus.diagnosing ∷ RecoveryCaseStatus.stopped ∷ RecoveryCaseStatus.escalated ∷ []
allowed_transitions RecoveryCaseStatus.recovered = []
allowed_transitions RecoveryCaseStatus.stopped = []
allowed_transitions RecoveryCaseStatus.escalated = []

unfoldable pub is_terminal : RecoveryCaseStatus → Bool
is_terminal status = status_in status terminal_recovery_case_statuses

unfoldable pub can_transition : RecoveryCaseStatus → RecoveryCaseStatus → Bool
can_transition current target = status_in target (allowed_transitions current)
