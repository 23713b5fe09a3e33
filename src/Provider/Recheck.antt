-- ===== src/Provider/Recheck.antt =====
-- `_recheck_policy` (backend/app/services/execution_service.py): what a decision that it returns rests
-- on.
use revenue_ai.Provider.Sends.{Gives, payment_of}
use revenue_ai.Services.Execution.{recheck_input, recheck_policy}
use revenue_ai.Domain.Policy.{evaluate_policy, PolicyDecision}
use revenue_ai.Provider.Frames.{frame, frames}
use revenue_ai.Provider.Quiet.{Preserves}
use revenue_ai.Store.Session.{Session, ok, ◌>>=◌, integrity_error, now, or_raise, value_error, pure}
use revenue_ai.Store.Models.{Payment, RecoveryCase}
use revenue_ai.Services.Settings.{Settings, get_policy_config, load_payment}
use revenue_ai.Base.{ℕ, refl, ◌≡◌, List, some, subst, Option, none, suc}
use revenue_ai.Domain.Enums.{RecoveryAction}

-- what a recheck that returns a decision has looked at
abbrev pub Rechecked : Settings → RecoveryCase → List Payment → PolicyDecision → Type 0
Rechecked settings case payments decision =
    (p : Payment) × (action : RecoveryAction) × (today : ℕ) × (payment_of case.payment_id payments
      ≡ some p)
    × (case.recommended_action ≡ some action)
    × (decision ≡ evaluate_policy (recheck_input case action p today) (get_policy_config settings))

loaded_ok :
    (settings : Settings) (case : RecoveryCase) (action : RecoveryAction) (owed : Option Payment)
    (today : ℕ) (s : Session) (decision : PolicyDecision)
    → ((or_raise owed integrity_error >>= λ p.
          pure (evaluate_policy (recheck_input case action p today) (get_policy_config settings)))
        s).0
      ≡ ok decision
    → (p : Payment) × (owed ≡ some p)
      × (decision
          ≡ evaluate_policy (recheck_input case action p today) (get_policy_config settings))
loaded_ok settings case action none today s decision h = cc
loaded_ok settings case action (some p) today s decision h = (p, refl, cc)

recheck_ok :
    (settings : Settings) (case : RecoveryCase) (proposed : Option RecoveryAction) (today : ℕ)
    (s : Session) (decision : PolicyDecision)
    → ((or_raise proposed value_error >>= λ action. load_payment case.payment_id >>= λ p.
          pure (evaluate_policy (recheck_input case action p today) (get_policy_config settings)))
        s).0
      ≡ ok decision
    → (p : Payment) × (action : RecoveryAction) × (payment_of case.payment_id s.work.payments
        ≡ some p)
      × (proposed ≡ some action)
      × (decision
          ≡ evaluate_policy (recheck_input case action p today) (get_policy_config settings))
unfolding load_payment
recheck_ok settings case none today s decision h = cc
recheck_ok settings case (some action) today s decision h =
    let (p, owed, same) =
      loaded_ok settings case action (payment_of case.payment_id s.work.payments) today s decision
        h in
    (p, action, owed, refl, same)

pub recheck_policy-frame :
    (settings : Settings) (case : RecoveryCase) → Preserves frame (recheck_policy settings case)
unfolding recheck_policy
recheck_policy-frame settings case = search (frames) depth 30

pub recheck_policy-Gives :
    (settings : Settings) (case : RecoveryCase) (payments : List Payment)
    → Gives (Rechecked settings case payments) payments (recheck_policy settings case)
unfolding recheck_policy now
recheck_policy-Gives settings case payments = record {
  at = λ s decision h e.
      let (p, action, owed, proposed, same) =
        recheck_ok settings case case.recommended_action (s.clock s.ticks)
          (record s { ticks = suc s.ticks }) decision e in
      (
        p,
        action,
        s.clock s.ticks,
        subst (λ l. payment_of case.payment_id l ≡ some p) h owed,
        proposed,
        same,
      );
}
