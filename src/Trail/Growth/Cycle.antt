-- ===== src/Trail/Growth/Cycle.antt =====
-- A cycle of backend/app/services/orchestrator_service.py against the events that the trail has.
use revenue_ai.Trail.Growth.Ingestion.{discover-grows}
use revenue_ai.Trail.Growth.{Extends, growth}
use revenue_ai.Trail.Keeps.{Keeps, Keeps-pure, Keeps-try_domain, Keeps-bind}
use revenue_ai.Store.Session.{Error}
use revenue_ai.Domain.Providers.{PaymentProvider}
use revenue_ai.Ai.{AiRecommendationService}
use revenue_ai.Services.Orchestrator.{
  failed_outcome, current_status, after_diagnosis, drain_backlog, execute_backlog, execute_outcome,
  process_case, process_cases, run_recovery_cycle, CycleCaseOutcome, execute_approved_case, spend,
}
use revenue_ai.Services.Settings.{Settings, get_policy_config}
use revenue_ai.Store.Models.{CorrelationId, scoped, Db}
use revenue_ai.Trail.Growth.Execution.{execute_recovery_case-grows}
use revenue_ai.Trail.Growth.Diagnosis.{diagnose_recovery_case-grows}
use revenue_ai.Base.{◌∷◌, [], zero, suc, List, Bool, ℕ, false}
use revenue_ai.Services.Execution.{execute_recovery_case}
use revenue_ai.Services.Diagnosis.{diagnose_recovery_case, DiagnosisResponse}

module _ {base : Db} where
  failed_outcome-grows :
      (diagnosed : Bool) (id : ℕ) (e : Error) → Keeps (Extends base) (failed_outcome diagnosed id e)
  unfolding failed_outcome current_status
  failed_outcome-grows diagnosed id e = search (growth) depth 30

module _ {base : Db} (settings : Settings) (ai : AiRecommendationService)
    (provider : PaymentProvider) where
  execute_outcome-grows :
      (diagnosed : Bool) (id : ℕ) (correlation : CorrelationId)
      → Keeps (Extends base) (execute_outcome settings ai provider diagnosed id correlation)
  unfolding execute_outcome
  execute_outcome-grows diagnosed id correlation =
      Keeps-try_domain (execute_recovery_case settings provider id (scoped correlation id)) _ _
        (execute_recovery_case-grows settings provider id (scoped correlation id))
        (failed_outcome-grows diagnosed id) (λ response. Keeps-pure _)

  after_diagnosis-grows :
      (auto_execute : Bool) (budget id : ℕ) (correlation : CorrelationId)
      (diagnosis : DiagnosisResponse)
      → Keeps
          (Extends base)
          (after_diagnosis settings ai provider auto_execute budget id correlation diagnosis)
  unfolding after_diagnosis
  after_diagnosis-grows auto_execute budget id correlation diagnosis =
      search (growth, execute_outcome-grows) depth 30

  process_case-grows :
      (auto_execute : Bool) (budget id : ℕ) (correlation : CorrelationId)
      → Keeps (Extends base) (process_case settings ai provider auto_execute budget id correlation)
  unfolding process_case
  process_case-grows auto_execute budget id correlation =
      Keeps-try_domain
        (diagnose_recovery_case ai (get_policy_config settings) id (scoped correlation id)) _ _
        (diagnose_recovery_case-grows ai (get_policy_config settings) id (scoped correlation id))
        (failed_outcome-grows false id) (after_diagnosis-grows auto_execute budget id correlation)

  process_cases-grows :
      (auto_execute : Bool) (budget : ℕ) (ids : List ℕ) (correlation : CorrelationId)
      → Keeps
          (Extends base)
          (process_cases settings ai provider auto_execute budget ids correlation)
  unfolding process_cases
  process_cases-grows auto_execute budget [] correlation = Keeps-pure _
  process_cases-grows auto_execute budget (id ∷ ids) correlation =
      let rest = λ (outcome : CycleCaseOutcome).
        process_cases-grows auto_execute (spend settings ai provider outcome budget) ids
          correlation in
      Keeps-bind _ _ (process_case-grows auto_execute budget id correlation)
        (λ outcome. Keeps-bind _ _ (rest outcome) (λ others. Keeps-pure _))

  execute_backlog-grows :
      (budget : ℕ) (ids : List ℕ) (correlation : CorrelationId)
      → Keeps (Extends base) (execute_backlog settings ai provider budget ids correlation)
  unfolding execute_backlog execute_approved_case
  execute_backlog-grows budget [] correlation = Keeps-pure _
  execute_backlog-grows zero (id ∷ ids) correlation = Keeps-pure _
  execute_backlog-grows (suc budget) (id ∷ ids) correlation =
      let rest = λ (outcome : CycleCaseOutcome).
        execute_backlog-grows (spend settings ai provider outcome (suc budget)) ids correlation in
      Keeps-bind _ _ (execute_outcome-grows false id correlation)
        (λ outcome. Keeps-bind _ _ (rest outcome) (λ others. Keeps-pure _))

  drain_backlog-grows :
      (auto_execute : Bool) (budget : ℕ) (outcomes : List CycleCaseOutcome)
      (correlation : CorrelationId)
      → Keeps
          (Extends base)
          (drain_backlog settings ai provider auto_execute budget outcomes correlation)
  unfolding drain_backlog
  drain_backlog-grows auto_execute budget outcomes correlation =
      search (growth, execute_backlog-grows) depth 30

  pub run_recovery_cycle-grows :
      (auto_execute : Bool) (max_discover max_diagnose max_execute : ℕ)
      (correlation : CorrelationId)
      → Keeps (Extends base) (
          run_recovery_cycle settings ai provider auto_execute max_discover max_diagnose max_execute
            correlation)
  unfolding run_recovery_cycle
  run_recovery_cycle-grows auto_execute max_discover max_diagnose max_execute correlation =
      search (growth, discover-grows, process_cases-grows, drain_backlog-grows) depth 40
