-- ===== src/Trail/Cycle.antt =====
-- `run_recovery_cycle` (backend/app/services/orchestrator_service.py) against the invariant.
use revenue_ai.Trail.Execution.{execute_recovery_case-Keeps}
use revenue_ai.Trail.Diagnosis.{diagnose_recovery_case-Keeps}
use revenue_ai.Trail.Ingestion.{discover_failed_payments-Keeps}
use revenue_ai.Services.Ingestion.{discover_failed_payments}
use revenue_ai.Trail.Primitives.{new_uuid-Keeps, record_event-Keeps, commit-Keeps}
use revenue_ai.Domain.Enums.{system, status_eq, approved}
use revenue_ai.Services.Execution.{execute_recovery_case}
use revenue_ai.Services.Diagnosis.{DiagnosisResponse, diagnose_recovery_case}
use revenue_ai.Store.Models.{
  CorrelationId, Payload, recovery_cycle_completed, recovery_cycle, scoped,
}
use revenue_ai.Trail.{IsValid}
use revenue_ai.Domain.Providers.{PaymentProvider}
use revenue_ai.Trail.Keeps.{
  Keeps, Keeps-bind, Keeps-pure, Keeps-try_domain, Keeps-if, Keeps-query, Keeps-then,
}
use revenue_ai.Store.Session.{Error, record_event, new_uuid, query, get_case, ◌>>◌, commit, pure}
use revenue_ai.Ai.{AiRecommendationService}
use revenue_ai.Services.Settings.{Settings, get_policy_config}
use revenue_ai.Services.Orchestrator.{
  current_status, failed_outcome, RecoveryCycleReport, after_diagnosis, drain_backlog,
  execute_approved_case, execute_backlog, execute_outcome, process_case, process_cases,
  run_recovery_cycle, CycleCaseOutcome, approved_backlog, spend, handled, status_or_discovered,
  cases_ready_for_diagnosis, executed_outcome, cycle_report,
}
use revenue_ai.Base.{
  ◌==◌, if◌then◌else◌, [], ◌∷◌, ◌&&◌, Bool, ℕ, List, false, some, suc, none, not, zero, ltb, ◌++◌,
  refl, true,
}

current_status-Keeps : (id : ℕ) → Keeps IsValid (current_status id)
unfolding current_status
current_status-Keeps id =
    Keeps-bind (query (get_case id)) _ (Keeps-query (get_case id))
      (λ c. Keeps-pure (status_or_discovered c))

failed_outcome-Keeps :
    (diagnosed : Bool) (id : ℕ) (e : Error) → Keeps IsValid (failed_outcome diagnosed id e)
unfolding failed_outcome
failed_outcome-Keeps diagnosed id e =
    Keeps-bind (current_status id) _ (current_status-Keeps id) (λ status. Keeps-pure (record {
      recovery_case_id = id;
      final_status = status;
      diagnosed = diagnosed;
      executed = false;
      error = some e;
      withheld_reason = none;
    }))

abbrev completed : Bool → RecoveryCycleReport → Payload
completed auto_execute report =
    recovery_cycle_completed auto_execute report.cases_discovered report.cases_diagnosed
      report.cases_executed report.cases_failed report.approved report.stopped report.escalated

report-Keeps :
    (cycle_id : ℕ) (report : RecoveryCycleReport) (auto_execute : Bool)
    (correlation : CorrelationId)
    → Keeps IsValid (
        record_event (recovery_cycle cycle_id) system (completed auto_execute report) correlation
        >> (commit >> pure report))
report-Keeps cycle_id report auto_execute correlation =
    Keeps-then
      (record_event (recovery_cycle cycle_id) system (completed auto_execute report) correlation) _
      (record_event-Keeps (recovery_cycle cycle_id) system (completed auto_execute report)
        correlation (λ j t. refl))
      (Keeps-then commit _ commit-Keeps (Keeps-pure report))

module _ (settings : Settings) (ai : AiRecommendationService) (provider : PaymentProvider) where
  execute_outcome-Keeps :
      (diagnosed : Bool) (id : ℕ) (correlation : CorrelationId)
      → Keeps IsValid (execute_outcome settings ai provider diagnosed id correlation)
  unfolding execute_outcome
  execute_outcome-Keeps diagnosed id correlation =
      Keeps-try_domain (execute_recovery_case settings provider id (scoped correlation id))
        (failed_outcome diagnosed id) (λ response. pure (executed_outcome diagnosed id response))
        (execute_recovery_case-Keeps settings provider id (scoped correlation id))
        (failed_outcome-Keeps diagnosed id)
        (λ response. Keeps-pure (executed_outcome diagnosed id response))

  execute_approved_case-Keeps :
      (id : ℕ) (correlation : CorrelationId)
      → Keeps IsValid (execute_approved_case settings ai provider id correlation)
  unfolding execute_approved_case
  execute_approved_case-Keeps id correlation = execute_outcome-Keeps false id correlation

  after_diagnosis-Keeps :
      (auto_execute : Bool) (budget id : ℕ) (correlation : CorrelationId)
      (diagnosis : DiagnosisResponse)
      → Keeps IsValid
          (after_diagnosis settings ai provider auto_execute budget id correlation diagnosis)
  unfolding after_diagnosis
  after_diagnosis-Keeps auto_execute budget id correlation diagnosis =
      Keeps-if (not (status_eq diagnosis.case_status approved)) _ _ (Keeps-pure _) (
        Keeps-if (not auto_execute) _ _ (Keeps-pure _)
          (Keeps-if (budget == 0) _ _ (Keeps-pure _) (execute_outcome-Keeps true id correlation)))

  process_case-Keeps :
      (auto_execute : Bool) (budget id : ℕ) (correlation : CorrelationId)
      → Keeps IsValid (process_case settings ai provider auto_execute budget id correlation)
  unfolding process_case
  process_case-Keeps auto_execute budget id correlation =
      Keeps-try_domain
        (diagnose_recovery_case ai (get_policy_config settings) id (scoped correlation id))
        (failed_outcome false id)
        (after_diagnosis settings ai provider auto_execute budget id correlation)
        (diagnose_recovery_case-Keeps ai (get_policy_config settings) id (scoped correlation id))
        (failed_outcome-Keeps false id) (after_diagnosis-Keeps auto_execute budget id correlation)

  process_cases-Keeps :
      (auto_execute : Bool) (budget : ℕ) (ids : List ℕ) (correlation : CorrelationId)
      → Keeps IsValid (process_cases settings ai provider auto_execute budget ids correlation)
  unfolding process_cases
  process_cases-Keeps auto_execute budget [] correlation = Keeps-pure ([], budget)
  process_cases-Keeps auto_execute budget (id ∷ ids) correlation =
      let rest = λ (outcome : CycleCaseOutcome).
        process_cases-Keeps auto_execute (spend settings ai provider outcome budget) ids
          correlation in
      Keeps-bind (process_case settings ai provider auto_execute budget id correlation) _
        (process_case-Keeps auto_execute budget id correlation)
        (λ outcome.
          Keeps-bind
            (process_cases settings ai provider auto_execute
              (spend settings ai provider outcome budget) ids correlation)
            _ (rest outcome) (λ others. Keeps-pure (outcome ∷ others.0, others.1)))

  execute_backlog-Keeps :
      (budget : ℕ) (ids : List ℕ) (correlation : CorrelationId)
      → Keeps IsValid (execute_backlog settings ai provider budget ids correlation)
  unfolding execute_backlog
  execute_backlog-Keeps budget [] correlation = Keeps-pure []
  execute_backlog-Keeps zero (id ∷ ids) correlation = Keeps-pure []
  execute_backlog-Keeps (suc budget) (id ∷ ids) correlation =
      let rest = λ (outcome : CycleCaseOutcome).
        execute_backlog-Keeps (spend settings ai provider outcome (suc budget)) ids correlation in
      Keeps-bind (execute_approved_case settings ai provider id correlation) _
        (execute_approved_case-Keeps id correlation)
        (λ outcome.
          Keeps-bind
            (execute_backlog settings ai provider (spend settings ai provider outcome (suc budget))
              ids correlation)
            _ (rest outcome) (λ others. Keeps-pure (outcome ∷ others)))

  drain_backlog-Keeps :
      (auto_execute : Bool) (budget : ℕ) (outcomes : List CycleCaseOutcome)
      (correlation : CorrelationId)
      → Keeps IsValid (drain_backlog settings ai provider auto_execute budget outcomes correlation)
  unfolding drain_backlog
  drain_backlog-Keeps auto_execute budget outcomes correlation =
      let backlog = approved_backlog budget (handled settings ai provider outcomes) in
      Keeps-if (auto_execute && ltb 0 budget) _ _
        (Keeps-bind (query backlog) _ (Keeps-query backlog)
          (λ ids. execute_backlog-Keeps budget ids correlation))
        (Keeps-pure [])

  pub run_recovery_cycle-Keeps :
      (auto_execute : Bool) (max_discover max_diagnose max_execute : ℕ)
      (correlation : CorrelationId)
      → Keeps IsValid (
          run_recovery_cycle settings ai provider auto_execute max_discover max_diagnose max_execute
            correlation)
  unfolding run_recovery_cycle
  run_recovery_cycle-Keeps auto_execute max_discover max_diagnose max_execute correlation =
      let allowed = if auto_execute then max_execute else 0 in
      Keeps-bind new_uuid _ new_uuid-Keeps (λ cycle_id.
        Keeps-bind (discover_failed_payments max_discover correlation) _
          (discover_failed_payments-Keeps max_discover correlation)
          (λ discovery.
            Keeps-bind (query (cases_ready_for_diagnosis max_diagnose)) _
              (Keeps-query (cases_ready_for_diagnosis max_diagnose))
              (λ candidates.
                Keeps-bind
                  (process_cases settings ai provider auto_execute allowed candidates correlation) _
                  (process_cases-Keeps auto_execute allowed candidates correlation)
                  (λ first.
                    Keeps-bind
                      (drain_backlog settings ai provider auto_execute first.1 first.0 correlation)
                      _ (drain_backlog-Keeps auto_execute first.1 first.0 correlation)
                      (λ second.
                        report-Keeps cycle_id
                          (cycle_report settings ai provider cycle_id auto_execute discovery
                            (first.0 ++ second))
                          auto_execute correlation)))))
