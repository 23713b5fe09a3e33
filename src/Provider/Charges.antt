-- ===== src/Provider/Charges.antt =====
-- When backend/app/services/execution_service.py creates a payment link, and for how much.
use revenue_ai.Provider.Recheck.{Rechecked, recheck_policy-frame, recheck_policy-Gives}
use revenue_ai.Domain.StateMachine.{can_transition}
use revenue_ai.Provider.Sends.{
  Gives, Sends, Sent, payment_of, Sends-then, Sends-with, load_payment-Gives, Sends-call,
  Sends-quiet, Sends-if, or_raise-Gives,
}
use revenue_ai.Provider.Replies.{handle_reply-frame, escalate_case-frame}
use revenue_ai.Services.Execution.{
  execute_recovery_case, recheck_input, recheck_policy, create_payment_link, new_attempt, eqb_ℤ,
  link_request, execute_unguarded, proceed,
}
use revenue_ai.Domain.Policy.{evaluate_policy, PolicyDecision}
use revenue_ai.Store.Repositories.{get_payment}
use revenue_ai.Provider.Frames.{
  frame, new_uuid-frame, load_payment-frame, now-frame, record_event-frame, commit-frame,
  validate_transition-frame, transition-frame,
}
use revenue_ai.Provider.Quiet.{
  Preserves, Preserves-if, Preserves-pure, Preserves-raise, Preserves-or_raise,
}
use revenue_ai.Store.Session.{
  Action, Result, Session, get_case, ok, bind_result, ◌>>=◌, err, Error, now, or_raise, value_error,
  pure, modify_work, new_uuid, record_event, commit, raise, validation_failed, validate_transition,
  guard_result, ◌>>◌, load_case, not_found, transition, guard_against_concurrent_modification,
}
use revenue_ai.Store.Models.{
  Db, Payment, RecoveryCase, CorrelationId, RecoveryAttempt, recovery_attempt, execution_started,
  recovery_case, execution_requested, policy_rechecked,
}
use revenue_ai.Domain.Providers.{CreatePaymentLinkRequest, is_executable, PaymentProvider}
use revenue_ai.Services.Settings.{Settings, get_policy_config, load_payment}
use revenue_ai.Base.{
  ℕ, if◌then◌else◌, true, refl, ◌∷◌, ◌≡◌, List, inl, some, subst, none, inr, ◌++◌, [], Bool-cases,
  arith, Option-cases, sym,
}
use revenue_ai.Domain.Enums.{
  allow, RecoveryAction, approved, system, send_payment_link, RecoveryCaseStatus, executing,
  PolicyDecisionType, policy_engine, block,
}

-- what a request for a link has behind it: an approved case with its recommendation, the payment
-- as it is in the tables, and a policy check at the time `today` that allows the action
pub record Warranted (settings : Settings) (id : ℕ) (db : Db) (r : CreatePaymentLinkRequest)
    : Type 0 where
  pub case : RecoveryCase
  pub p : Payment
  pub action : RecoveryAction
  pub today : ℕ
  pub found : get_case id db ≡ some case
  pub is_approved : case.status ≡ approved
  pub proposed : case.recommended_action ≡ some action
  pub implemented : is_executable action ≡ true
  pub owed : get_payment case.payment_id db ≡ some p
  pub allowed :
      (evaluate_policy (recheck_input case action p today) (get_policy_config settings)).decision
      ≡ allow
  pub same_amount : r.amount ≡ p.amount
  pub same_currency : r.currency ≡ p.currency

-- the request for the payment of the case, in its amount and currency
abbrev Owed : ℕ → List Payment → CreatePaymentLinkRequest → Type 0
Owed payment_id payments r =
    (p : Payment) × (payment_of payment_id payments ≡ some p)
    × (r.amount ≡ p.amount)
    × (r.currency ≡ p.currency)

add_attempt-frame :
    (a : RecoveryAttempt)
    → Preserves frame (modify_work (λ db. record db { attempts = db.attempts ++ (a ∷ []) }))
add_attempt-frame a = record { at = λ s. refl }

module _ (settings : Settings) (provider : PaymentProvider) (id payment_id : ℕ)
    (correlation : CorrelationId) (payments : List Payment) where
  create_payment_link-Sends :
      Sends
        (Owed payment_id payments)
        payments
        (create_payment_link settings provider id payment_id correlation)
  unfolding create_payment_link link_request
  create_payment_link-Sends = Sends-then new_uuid _ new_uuid-frame (λ key.
      Sends-with (load_payment payment_id) _ (load_payment-frame payment_id)
        (load_payment-Gives payment_id payments)
        (λ p owed. Sends-then now _ now-frame (λ at.
          Sends-then new_uuid _ new_uuid-frame (λ attempt.
            Sends-then
              (modify_work (λ db. record db {
                attempts = db.attempts ++ (new_attempt attempt id key p correlation at ∷ []);
              }))
              _ (add_attempt-frame (new_attempt attempt id key p correlation at))
              (λ _.
                Sends-then
                  (record_event (recovery_attempt attempt) system
                    (execution_started send_payment_link p.amount p.currency) correlation)
                  _
                  (record_event-frame (recovery_attempt attempt) system
                    (execution_started send_payment_link p.amount p.currency) correlation)
                  (λ _. Sends-then commit _ commit-frame (λ _.
                    Sends-then (load_payment payment_id) _ (load_payment-frame payment_id) (λ p'.
                      Sends-then
                        (if eqb_ℤ p.amount p'.amount then pure tt else raise validation_failed) _
                        (Preserves-if _ _ _ (Preserves-pure tt) (Preserves-raise validation_failed))
                        (λ _. Sends-then now _ now-frame (λ today.
                          Sends-call provider (link_request settings key p today) _
                            (p, owed, refl, refl)
                            (handle_reply-frame provider id attempt key correlation)))))))))))

weaken :
    {P Q : CreatePaymentLinkRequest → Type 0}
    → ((r : CreatePaymentLinkRequest) → P r → Q r)
    → (before after : List CreatePaymentLinkRequest) → Sent P before after
    → Sent Q before after
weaken k before after (inl h) = inl h
weaken k before after (inr (r, h, pr)) = inr (r, h, k r pr)

module _ {A : Type 0} {P Q : CreatePaymentLinkRequest → Type 0} {payments : List Payment} where
  Sends-weaken :
      (m : Action A)
      → ((r : CreatePaymentLinkRequest) → P r → Q r)
      → Sends P payments m
      → Sends Q payments m
  Sends-weaken m k h = record { at = λ s e. weaken k s.sent (m s).1.sent (h.at s e) }

validate-Gives :
    (current target : RecoveryCaseStatus) (payments : List Payment)
    → Gives
        (λ _. can_transition current target ≡ true)
        payments
        (validate_transition current target)
unfolding validate_transition
validate-Gives current target payments = record {
  at = λ s a h e. elim (Bool-cases (can_transition current target)) [
    | inl legal ↦ legal
    | inr illegal ↦ cc
  ];
}

approved_only :
    (status : RecoveryCaseStatus) → can_transition status executing ≡ true → status ≡ approved
unfolding can_transition
approved_only status h = ground arith

-- the recheck has looked at the payment and the action that are used
allowed_of :
    (settings : Settings) (payments : List Payment) (case : RecoveryCase) (p q : Payment)
    (checked action : RecoveryAction) (today : ℕ) (decision : PolicyDecision)
    → payment_of case.payment_id payments ≡ some q
    → payment_of case.payment_id payments ≡ some p
    → case.recommended_action ≡ some checked
    → case.recommended_action ≡ some action
    → decision ≡ evaluate_policy (recheck_input case checked p today) (get_policy_config settings)
    → decision.decision ≡ allow
    → (evaluate_policy (recheck_input case action q today) (get_policy_config settings)).decision
      ≡ allow
allowed_of settings payments case p q checked action today decision found_q found_p proposed
      proposed' same verdict =
    cc

module _ (settings : Settings) (provider : PaymentProvider) (id : ℕ) (correlation : CorrelationId)
    (db : Db) (case : RecoveryCase) where
  proceed-Sends :
      (action : RecoveryAction) (decision : PolicyDecision)
      → get_case id db ≡ some case
      → case.status ≡ approved
      → case.recommended_action ≡ some action
      → Rechecked settings case db.payments decision
      → (verdict : PolicyDecisionType) → decision.decision ≡ verdict
      → Sends
          (Warranted settings id db)
          db.payments
          (proceed settings provider id case.payment_id action decision correlation verdict)
  unfolding proceed
  proceed-Sends action decision found approved_now proposed checked block verdict_is =
      Sends-quiet _ (escalate_case-frame id _ correlation (some decision))
  proceed-Sends action decision found approved_now proposed checked allow verdict_is =
      let (p, checked_action, today, owed, same_action, same_decision) = checked in
      Sends-if (is_executable action) _ _
        (λ implemented. Sends-then commit _ commit-frame (λ _.
          Sends-weaken (create_payment_link settings provider id case.payment_id correlation)
            (λ r (q, found_q, amount, currency). record {
              case = case;
              p = q;
              action = action;
              today = today;
              found = found;
              is_approved = approved_now;
              proposed = proposed;
              implemented = implemented;
              owed = found_q;
              allowed =
                  allowed_of settings db.payments case p q checked_action action today decision
                    found_q owed same_action proposed same_decision verdict_is;
              same_amount = amount;
              same_currency = currency;
            })
            (create_payment_link-Sends settings provider id case.payment_id correlation
              db.payments)))
        (Sends-quiet _ (escalate_case-frame id _ correlation (some decision)))

  execute_found-Sends :
      get_case id db ≡ some case
      → Sends (Warranted settings id db) db.payments (
          validate_transition case.status executing
          >> (record_event (recovery_case id) system (execution_requested case.status) correlation
              >> (recheck_policy settings case >>= λ decision.
                  record_event
                    (recovery_case id)
                    policy_engine
                    (policy_rechecked decision.decision decision.reason_codes
                      decision.policy_version)
                    correlation
                  >> (transition id executing correlation none
                      >> (or_raise case.recommended_action value_error >>= λ action.
                          proceed settings provider id case.payment_id action decision correlation
                            decision.decision)))))
  execute_found-Sends found =
      Sends-with (validate_transition case.status executing) _
        (validate_transition-frame case.status executing)
        (validate-Gives case.status executing db.payments)
        (λ _ legal.
          Sends-then
            (record_event (recovery_case id) system (execution_requested case.status) correlation) _
            (record_event-frame (recovery_case id) system (execution_requested case.status)
              correlation)
            (λ _.
              Sends-with (recheck_policy settings case) _ (recheck_policy-frame settings case)
                (recheck_policy-Gives settings case db.payments)
                (λ decision checked.
                  Sends-then
                    (record_event (recovery_case id) policy_engine
                      (policy_rechecked decision.decision decision.reason_codes
                        decision.policy_version)
                      correlation)
                    _
                    (record_event-frame (recovery_case id) policy_engine
                      (policy_rechecked decision.decision decision.reason_codes
                        decision.policy_version)
                      correlation)
                    (λ _.
                      Sends-then (transition id executing correlation none) _
                        (transition-frame id executing correlation none)
                        (λ _.
                          Sends-with (or_raise case.recommended_action value_error) _
                            (Preserves-or_raise case.recommended_action value_error)
                            (or_raise-Gives case.recommended_action value_error db.payments)
                            (λ action proposed.
                              proceed-Sends action decision found (approved_only case.status legal)
                                proposed checked decision.decision refl))))))

guard-sent : {A : Type 0} (r : Result A) (s : Session) → (guard_result (r, s)).1.sent ≡ s.sent
guard-sent (ok a) s = refl
guard-sent (err Error.stale_data) s = refl
guard-sent (err e) s = refl

execute_unguarded-Sent :
    (settings : Settings) (provider : PaymentProvider) (id : ℕ) (correlation : CorrelationId)
    (s : Session)
    → Sent
        (Warranted settings id s.work)
        s.sent
        (execute_unguarded settings provider id correlation s).1.sent
unfolding execute_unguarded load_case
execute_unguarded-Sent settings provider id correlation s =
    elim (Option-cases (get_case id s.work)) [
      | inl missing ↦ rw missing (inl refl)
      | inr (case, found) ↦
          let run =
            (execute_found-Sends settings provider id correlation s.work case found).at s refl in
          subst
            (λ o.
              Sent (Warranted settings id s.work) s.sent
                (bind_result (or_raise o not_found s).0
                  (λ c.
                    validate_transition c.status executing
                    >> (record_event (recovery_case id) system (execution_requested c.status)
                          correlation
                        >> (recheck_policy settings c >>= λ decision.
                            record_event (recovery_case id) policy_engine
                              (policy_rechecked decision.decision decision.reason_codes
                                decision.policy_version)
                              correlation
                            >> (transition id executing correlation none
                                >> (or_raise c.recommended_action value_error >>= λ action.
                                    proceed settings provider id c.payment_id action decision
                                      correlation decision.decision)))))
                  (or_raise o not_found s).1).1.sent)
            (sym found) run
    ]

-- In any state of the session, an execution asks the payment provider for no link or for exactly
-- one. If it asks, the case it was called for is in the tables with the status APPROVED and a
-- recommended action that the executor implements, the policy of the settings, checked again at
-- that time on the case and its payment, allows the action, and the request names the amount and
-- the currency of that payment.
pub execute_recovery_case-Sent :
    (settings : Settings) (provider : PaymentProvider) (id : ℕ) (correlation : CorrelationId)
    (s : Session)
    → Sent
        (Warranted settings id s.work)
        s.sent
        (execute_recovery_case settings provider id correlation s).1.sent
unfolding execute_recovery_case guard_against_concurrent_modification
execute_recovery_case-Sent settings provider id correlation s =
    let run = execute_unguarded settings provider id correlation s in
    subst (λ l. Sent (Warranted settings id s.work) s.sent l) (sym (guard-sent run.0 run.1))
      (execute_unguarded-Sent settings provider id correlation s)
