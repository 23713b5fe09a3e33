-- ===== src/Services/Orchestrator/Budget.antt =====
-- backend/app/services/orchestrator_service.py: the budget of executions of a cycle.
use revenue_ai.Store.Yields.{Yields, Yields-pure, Yields-if, Yields-any, Yields-bind}
use revenue_ai.Services.Ingestion.{DiscoveryReport, discover_failed_payments}
use revenue_ai.Domain.Enums.{status_eq, approved, system}
use revenue_ai.Store.Models.{CorrelationId, scoped, recovery_cycle, recovery_cycle_completed}
use revenue_ai.Domain.Providers.{PaymentProvider}
use revenue_ai.Ai.{AiRecommendationService}
use revenue_ai.Services.Settings.{Settings, get_policy_config}
use revenue_ai.Services.Orchestrator.{
  CycleCaseOutcome, failed_outcome, try_domain, current_status, handle_result, process_case,
  process_cases, spend, after_diagnosis, RecoveryCycleReport, cycle_report, drain_backlog,
  execute_backlog, run_recovery_cycle, approved_backlog, execute_approved_case, handled,
  cases_ready_for_diagnosis,
}
use revenue_ai.Services.Diagnosis.{diagnose_recovery_case}
use revenue_ai.Base.{
  ◌&&◌, ℕ, ◌≤◌, ◌+◌, ◌≡◌, [], ◌∷◌, false, true, if◌then◌else◌, ◌==◌, count, refl, Bool, List, arith,
  not, ◌++◌, suc, zero, ltb, count-append,
}
use revenue_ai.Store.Session.{
  ok, err, Error, Action, Result, Session, is_domain_error, new_uuid, query, record_event, commit,
}

module _ {A B : Type 0} {Q : B → Type 0} where
  handle_result-value :
      (r : Result A) (s s' : Session) (b : B) (caught : Error → Action B) (next : A → Action B)
      → ((e : Error) → Yields Q (caught e))
      → ((a : A) → Yields Q (next a))
      → handle_result (r, s) caught next ≡ (ok b, s')
      → Q b
  handle_result-value (ok a) s s' b caught next kc kn h = (kn a).at s s' b h
  handle_result-value (err e) s s' b caught next kc kn h =
      elim (is_domain_error e) as (λ d. (if d then caught e s else (err e, s)) ≡ (ok b, s') → Q b) [
        | true ↦ λ t. (kc e).at s s' b t
        | false ↦ λ t. cc
      ]
        h

  Yields-try_domain :
      (m : Action A) (caught : Error → Action B) (next : A → Action B)
      → ((e : Error) → Yields Q (caught e))
      → ((a : A) → Yields Q (next a))
      → Yields Q (try_domain m caught next)
  unfolding try_domain
  Yields-try_domain m caught next kc kn = record {
    at = λ s s' b h. handle_result-value (m s).0 (m s).1 s' b caught next kc kn h;
  }

abbrev is_executed : CycleCaseOutcome → Bool
is_executed o = o.executed

-- nothing is executed on an empty budget
abbrev Spends : ℕ → CycleCaseOutcome → Type 0
Spends budget o = budget ≡ 0 → o.executed ≡ false

failed_outcome-Spends :
    (budget : ℕ) (diagnosed : Bool) (id : ℕ) (e : Error)
    → Yields (Spends budget) (failed_outcome diagnosed id e)
unfolding failed_outcome
failed_outcome-Spends budget diagnosed id e =
    Yields-bind (current_status id) _ (Yields-any (current_status id))
      (λ status u. Yields-pure _ (λ h. refl))

module _ (settings : Settings) (ai : AiRecommendationService) (provider : PaymentProvider) where
  process_case-Spends :
      (auto_execute : Bool) (budget id : ℕ) (correlation : CorrelationId)
      → Yields
          (Spends budget)
          (process_case settings ai provider auto_execute budget id correlation)
  unfolding process_case after_diagnosis
  process_case-Spends auto_execute budget id correlation =
      Yields-try_domain
        (diagnose_recovery_case ai (get_policy_config settings) id (scoped correlation id))
        (failed_outcome false id)
        (after_diagnosis settings ai provider auto_execute budget id correlation)
        (failed_outcome-Spends budget false id)
        (λ diagnosis.
          Yields-if (not (status_eq diagnosis.case_status approved)) _ _
            (λ _. Yields-pure _ (λ h. refl))
            (λ _.
              Yields-if (not auto_execute) _ _ (λ _. Yields-pure _ (λ h. refl))
                (λ _.
                  Yields-if (budget == 0) _ _ (λ _. Yields-pure _ (λ h. refl))
                    (λ positive. record { at = λ s s' o e h. ground arith }))))

  spent :
      (outcome : CycleCaseOutcome) (budget rest : ℕ)
      → Spends budget outcome
      → rest ≤ spend settings ai provider outcome budget
      → (if outcome.executed then 1 else 0) + rest ≤ budget
  spent outcome budget rest h le = ground arith

  process_cases-within :
      (auto_execute : Bool) (budget : ℕ) (ids : List ℕ) (correlation : CorrelationId)
      → Yields
          (λ r. count is_executed r.0 + r.1 ≤ budget)
          (process_cases settings ai provider auto_execute budget ids correlation)
  unfolding process_cases
  process_cases-within auto_execute budget [] correlation = Yields-pure ([], budget) (omega arith)
  process_cases-within auto_execute budget (id ∷ ids) correlation =
      let rest = λ (outcome : CycleCaseOutcome).
        process_cases-within auto_execute (spend settings ai provider outcome budget) ids
          correlation in
      Yields-bind (process_case settings ai provider auto_execute budget id correlation) _
        (process_case-Spends auto_execute budget id correlation)
        (λ outcome spends.
          Yields-bind
            (process_cases settings ai provider auto_execute
              (spend settings ai provider outcome budget) ids correlation)
            _ (rest outcome)
            (λ others le.
              Yields-pure (outcome ∷ others.0, others.1)
                (omega
                  (arith, spent outcome budget (count is_executed others.0 + others.1) spends le))))

  execute_backlog-within :
      (budget : ℕ) (ids : List ℕ) (correlation : CorrelationId)
      → Yields
          (λ l. count is_executed l ≤ budget)
          (execute_backlog settings ai provider budget ids correlation)
  unfolding execute_backlog
  execute_backlog-within budget [] correlation = Yields-pure [] (omega arith)
  execute_backlog-within zero (id ∷ ids) correlation = Yields-pure [] (omega arith)
  execute_backlog-within (suc budget) (id ∷ ids) correlation =
      let rest = λ (outcome : CycleCaseOutcome).
        execute_backlog-within (spend settings ai provider outcome (suc budget)) ids correlation in
      Yields-bind (execute_approved_case settings ai provider id correlation) _
        (Yields-any (execute_approved_case settings ai provider id correlation))
        (λ outcome u.
          Yields-bind
            (execute_backlog settings ai provider (spend settings ai provider outcome (suc budget))
              ids correlation)
            _ (rest outcome)
            (λ others le.
              Yields-pure (outcome ∷ others)
                (spent outcome (suc budget) (count is_executed others) (λ h. ground arith) le)))

  drain_backlog-within :
      (auto_execute : Bool) (budget : ℕ) (outcomes : List CycleCaseOutcome)
      (correlation : CorrelationId)
      → Yields
          (λ l. count is_executed l ≤ budget)
          (drain_backlog settings ai provider auto_execute budget outcomes correlation)
  unfolding drain_backlog
  drain_backlog-within auto_execute budget outcomes correlation =
      let backlog = approved_backlog budget (handled settings ai provider outcomes) in
      Yields-if (auto_execute && ltb 0 budget) _ _
        (λ _.
          Yields-bind (query backlog) _ (Yields-any (query backlog))
            (λ ids u. execute_backlog-within budget ids correlation))
        (λ _. Yields-pure [] (omega arith))

  allowed_budget :
      (auto_execute : Bool) (max_execute : ℕ)
      → (if auto_execute then max_execute else 0) ≤ max_execute
  allowed_budget true max_execute = omega arith
  allowed_budget false max_execute = omega arith

  within_report :
      (max_execute : ℕ) (cycle_id : ℕ) (auto_execute : Bool) (discovery : DiscoveryReport)
      (first second : List CycleCaseOutcome) (left : ℕ)
      → count is_executed first + left ≤ (if auto_execute then max_execute else 0)
      → count is_executed second ≤ left
      → (cycle_report settings ai provider cycle_id auto_execute discovery
          (first ++ second)).cases_executed
        ≤ max_execute
  unfolding cycle_report
  within_report max_execute cycle_id auto_execute discovery first second left le more =
      omega
        (arith, count-append {0} is_executed first second, allowed_budget auto_execute max_execute)

  run_recovery_cycle-within :
      (auto_execute : Bool) (max_discover max_diagnose max_execute : ℕ)
      (correlation : CorrelationId)
      → Yields
          (λ (report : RecoveryCycleReport). report.cases_executed ≤ max_execute)
          (run_recovery_cycle settings ai provider auto_execute max_discover max_diagnose
            max_execute correlation)
  unfolding run_recovery_cycle
  run_recovery_cycle-within auto_execute max_discover max_diagnose max_execute correlation =
      let allowed = if auto_execute then max_execute else 0 in
      Yields-bind new_uuid _ (Yields-any new_uuid) (λ cycle_id u.
        Yields-bind (discover_failed_payments max_discover correlation) _
          (Yields-any (discover_failed_payments max_discover correlation))
          (λ discovery u.
            Yields-bind (query (cases_ready_for_diagnosis max_diagnose)) _
              (Yields-any (query (cases_ready_for_diagnosis max_diagnose)))
              (λ candidates u.
                Yields-bind
                  (process_cases settings ai provider auto_execute allowed candidates correlation) _
                  (process_cases-within auto_execute allowed candidates correlation)
                  (λ first le.
                    Yields-bind
                      (drain_backlog settings ai provider auto_execute first.1 first.0 correlation)
                      _ (drain_backlog-within auto_execute first.1 first.0 correlation)
                      (λ second more.
                        let report =
                          cycle_report settings ai provider cycle_id auto_execute discovery
                            (first.0 ++ second) in
                        Yields-bind
                          (record_event (recovery_cycle cycle_id) system
                            (recovery_cycle_completed auto_execute report.cases_discovered
                              report.cases_diagnosed report.cases_executed report.cases_failed
                              report.approved report.stopped report.escalated)
                            correlation)
                          _
                          (Yields-any (
                            record_event (recovery_cycle cycle_id) system
                              (recovery_cycle_completed auto_execute report.cases_discovered
                                report.cases_diagnosed report.cases_executed report.cases_failed
                                report.approved report.stopped report.escalated)
                              correlation))
                          (λ u u'. Yields-bind commit _ (Yields-any commit) (λ v v'.
                            Yields-pure report (
                              within_report max_execute cycle_id auto_execute discovery first.0
                                second first.1 le more))))))))

  -- A cycle that returns reports at most `max_execute` executions, those of the cases that it has
  -- diagnosed and those of the backlog together, whatever the providers answer.
  pub run_recovery_cycle-executed :
      (auto_execute : Bool) (max_discover max_diagnose max_execute : ℕ)
      (correlation : CorrelationId) (s s' : Session) (report : RecoveryCycleReport)
      → run_recovery_cycle settings ai provider auto_execute max_discover max_diagnose max_execute
          correlation s
        ≡ (ok report, s')
      → report.cases_executed ≤ max_execute
  run_recovery_cycle-executed auto_execute max_discover max_diagnose max_execute correlation s s'
        report h =
      (run_recovery_cycle-within auto_execute max_discover max_diagnose max_execute correlation).at
        s s' report h
