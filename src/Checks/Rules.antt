-- ===== src/Checks/Rules.antt =====
-- The theorems on backend/app/domain and on the next status of a review, on concrete inputs.
use revenue_ai.Checks.Data.{safer, settled, within, config}
use revenue_ai.Domain.Policy.Rules.{Permitted, evaluate_policy-allow_iff}
use revenue_ai.Services.Diagnosis.Next.{
  IsFinal, resolve_next_status-legal, resolve_next_status-approved_iff,
  resolve_next_status-stopped_iff,
}
use revenue_ai.Domain.Policy.Monotone.{Riskier, evaluate_policy-monotone}
use revenue_ai.Domain.StateMachine.Graph.{
  Visits, recovered_via_policy, ◌⟶*◌, next, ◌⟶◌, here, terminal_iff_no_exit,
}
use revenue_ai.Domain.Policy.Safety.{
  Reported, evaluate_policy-Reported, fallback_always_allowed, terminal-block,
}
use revenue_ai.Domain.Enums.{
  RecoveryCaseStatus, RecoveryAction, allow, block, code_in, amount_out_of_bounds,
  terminal_state_protected, action_not_eligible_for_status,
}
use revenue_ai.Services.Settings.{get_policy_config}
use revenue_ai.Domain.StateMachine.{can_transition, is_terminal}
use revenue_ai.Domain.Policy.{default_policy_config, collect_reason_codes, evaluate_policy}
use revenue_ai.Services.Diagnosis.{resolve_next_status}
use revenue_ai.Base.{true, [], ◌∷◌, refl, ◌≡◌, ◌⊎◌, arith, false, ◌↔◌, int_laws, inr}
use revenue_ai.Domain.Providers.{is_executable}

evaluate_policy-allow_iff_example :
    ((evaluate_policy within config).decision ≡ allow) ↔ Permitted within config
evaluate_policy-allow_iff_example = evaluate_policy-allow_iff within config

evaluate_policy-Reported_example : Reported within config
evaluate_policy-Reported_example = evaluate_policy-Reported within config

within_allowed : (evaluate_policy within config).decision ≡ allow
unfolding evaluate_policy collect_reason_codes get_policy_config
within_allowed = refl

safer-Riskier : Riskier safer within
safer-Riskier = record {
  status = refl;
  action = refl;
  amount = refl;
  attempts = omega arith;
  days = omega arith;
  contacts = omega arith;
  confidence = omega arith;
}

evaluate_policy-monotone_example : (evaluate_policy safer config).decision ≡ allow
evaluate_policy-monotone_example =
    evaluate_policy-monotone safer within config safer-Riskier within_allowed

fallback_always_allowed_example :
    (evaluate_policy
      (record within { proposed_action = RecoveryAction.escalate; customer_contact_count = 9 })
      default_policy_config).decision
    ≡ allow
unfolding default_policy_config
fallback_always_allowed_example =
    fallback_always_allowed
      (record within { proposed_action = RecoveryAction.escalate; customer_contact_count = 9 })
      default_policy_config refl (omega int_laws) (omega int_laws) (inr refl)

settled_terminal : is_terminal RecoveryCaseStatus.recovered ≡ true
unfolding is_terminal
settled_terminal = refl

terminal-block_example :
    ((evaluate_policy settled config).decision ≡ block)
    × (code_in terminal_state_protected (evaluate_policy settled config).reason_codes ≡ true)
    × (code_in action_not_eligible_for_status (evaluate_policy settled config).reason_codes ≡ true)
terminal-block_example = terminal-block settled config settled_terminal

terminal_iff_no_exit_example :
    (is_terminal RecoveryCaseStatus.failed ≡ true
      → (t : RecoveryCaseStatus) → can_transition RecoveryCaseStatus.failed t ≡ false)
    × (is_terminal RecoveryCaseStatus.failed ≡ false
        → (t : RecoveryCaseStatus) × (RecoveryCaseStatus.failed ⟶ t))
terminal_iff_no_exit_example = terminal_iff_no_exit RecoveryCaseStatus.failed

-- the changes of status of the lifecycle above
recovery_path : RecoveryCaseStatus.discovered ⟶* RecoveryCaseStatus.recovered
unfolding can_transition
recovery_path =
    next {t = RecoveryCaseStatus.executing}
      (next {t = RecoveryCaseStatus.approved}
        (next {t = RecoveryCaseStatus.policy_review}
          (next {t = RecoveryCaseStatus.recommended}
            (next {t = RecoveryCaseStatus.diagnosing}
              (next {t = RecoveryCaseStatus.eligible}
                (next {t = RecoveryCaseStatus.discovered} here refl) refl)
              refl)
            refl)
          refl)
        refl)
      refl

recovered_via_policy_example :
    Visits RecoveryCaseStatus.policy_review recovery_path
    × Visits RecoveryCaseStatus.approved recovery_path
    × Visits RecoveryCaseStatus.executing recovery_path
recovered_via_policy_example = recovered_via_policy recovery_path refl

resolve_next_status-approved_iff_example :
    ((resolve_next_status RecoveryAction.send_payment_link allow []).0
      ≡ RecoveryCaseStatus.approved)
    ↔ ((allow ≡ allow) × (is_executable RecoveryAction.send_payment_link ≡ true))
resolve_next_status-approved_iff_example =
    resolve_next_status-approved_iff RecoveryAction.send_payment_link allow []

resolve_next_status-stopped_iff_example :
    ((resolve_next_status RecoveryAction.escalate block (amount_out_of_bounds ∷ [])).0
      ≡ RecoveryCaseStatus.stopped)
    ↔ (((block ≡ allow) × (RecoveryAction.escalate ≡ RecoveryAction.stop))
        ⊎ ((block ≡ block) × IsFinal (amount_out_of_bounds ∷ [])))
resolve_next_status-stopped_iff_example =
    resolve_next_status-stopped_iff RecoveryAction.escalate block (amount_out_of_bounds ∷ [])

resolve_next_status-legal_example :
    can_transition RecoveryCaseStatus.policy_review
      (resolve_next_status RecoveryAction.send_reminder allow []).0
    ≡ true
resolve_next_status-legal_example = resolve_next_status-legal RecoveryAction.send_reminder allow []
