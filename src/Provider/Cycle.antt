-- ===== src/Provider/Cycle.antt =====
-- A cycle of backend/app/services/orchestrator_service.py that may not execute.
use revenue_ai.Domain.Enums.{system, status_eq, approved}
use revenue_ai.Provider.Frames.{frame, frames, diagnose_unguarded-frame, new_uuid-frame}
use revenue_ai.Domain.Policy.{PolicyConfig}
use revenue_ai.Provider.Quiet.{
  Preserves, Preserves-guard, Preserves-part, Preserves-pure, Preserves-try_domain, Preserves-bind,
  Preserves-if, Preserves-query,
}
use revenue_ai.Domain.Providers.{PaymentProvider, CreatePaymentLinkRequest}
use revenue_ai.Ai.{AiRecommendationService}
use revenue_ai.Services.Settings.{Settings, get_policy_config}
use revenue_ai.Store.Models.{
  RecoveryCase, CorrelationId, Payload, Payment, recovery_cycle_completed, recovery_cycle, scoped,
}
use revenue_ai.Store.Session.{
  Action, Session, Error, modify_work, record_event, new_uuid, ◌>>◌, commit, query, pure,
}
use revenue_ai.Services.Ingestion.{create_case, create_cases, discover_failed_payments, insert_case}
use revenue_ai.Services.Orchestrator.{
  RecoveryCycleReport, current_status, failed_outcome, after_diagnosis, process_case, process_cases,
  run_recovery_cycle, drain_backlog, CycleCaseOutcome, spend, cases_ready_for_diagnosis,
  cycle_report,
}
use revenue_ai.Base.{ℕ, [], ◌∷◌, false, ◌≡◌, ◌++◌, Bool, List, refl, not}
use revenue_ai.Services.Diagnosis.{diagnose_recovery_case, DiagnosisResponse, diagnose_unguarded}

abbrev links : Session → List CreatePaymentLinkRequest
links s = s.sent

links_of : {A : Type 0} (m : Action A) → Preserves frame m → Preserves links m
links_of m k = Preserves-part (λ f. f.0) m k

add_case-frame :
    (c : RecoveryCase)
    → Preserves frame (modify_work (λ db. record db { cases = db.cases ++ (c ∷ []) }))
add_case-frame c = record { at = λ s. refl }

insert_case-frame : (c : RecoveryCase) → Preserves frame (insert_case c)
unfolding insert_case
insert_case-frame c = search (frames, add_case-frame) depth 30

create_case-frame :
    (p : Payment) (correlation : CorrelationId) → Preserves frame (create_case p correlation)
unfolding create_case
create_case-frame p correlation = search (frames, insert_case-frame) depth 30

create_cases-frame :
    (ps : List Payment) (correlation : CorrelationId)
    → Preserves frame (create_cases ps correlation)
unfolding create_cases
create_cases-frame [] correlation = Preserves-pure []
create_cases-frame (p ∷ ps) correlation =
    let rest = create_cases-frame ps correlation in
    Preserves-bind (create_case p correlation) _ (create_case-frame p correlation)
      (λ c. Preserves-bind (create_cases ps correlation) _ rest (λ ids. Preserves-pure _))

discover-frame :
    (limit : ℕ) (correlation : CorrelationId)
    → Preserves frame (discover_failed_payments limit correlation)
unfolding discover_failed_payments
discover-frame limit correlation = search (frames, create_cases-frame) depth 30

current_status-frame : (id : ℕ) → Preserves frame (current_status id)
unfolding current_status
current_status-frame id = search (frames) depth 30

failed_outcome-frame :
    (diagnosed : Bool) (id : ℕ) (e : Error) → Preserves frame (failed_outcome diagnosed id e)
unfolding failed_outcome
failed_outcome-frame diagnosed id e = search (frames, current_status-frame) depth 30

diagnose_recovery_case-links :
    (ai : AiRecommendationService) (config : PolicyConfig) (id : ℕ) (correlation : CorrelationId)
    → Preserves links (diagnose_recovery_case ai config id correlation)
unfolding diagnose_recovery_case
diagnose_recovery_case-links ai config id correlation =
    Preserves-guard (diagnose_unguarded ai config id correlation) (λ t. refl)
      (links_of _ (diagnose_unguarded-frame ai config id correlation))

abbrev completed : Bool → RecoveryCycleReport → Payload
completed auto_execute report =
    recovery_cycle_completed auto_execute report.cases_discovered report.cases_diagnosed
      report.cases_executed report.cases_failed report.approved report.stopped report.escalated

report-frame :
    (cycle_id : ℕ) (report : RecoveryCycleReport) (auto_execute : Bool)
    (correlation : CorrelationId)
    → Preserves frame (
        record_event (recovery_cycle cycle_id) system (completed auto_execute report) correlation
        >> (commit >> pure report))
report-frame cycle_id report auto_execute correlation = search (frames) depth 30

module _ (settings : Settings) (ai : AiRecommendationService) (provider : PaymentProvider) where
  after_diagnosis-links :
      (budget id : ℕ) (correlation : CorrelationId) (diagnosis : DiagnosisResponse)
      → Preserves links (after_diagnosis settings ai provider false budget id correlation diagnosis)
  unfolding after_diagnosis
  after_diagnosis-links budget id correlation diagnosis =
      Preserves-if (not (status_eq diagnosis.case_status approved)) _ _ (Preserves-pure _)
        (Preserves-pure _)

  process_case-links :
      (budget id : ℕ) (correlation : CorrelationId)
      → Preserves links (process_case settings ai provider false budget id correlation)
  unfolding process_case
  process_case-links budget id correlation =
      Preserves-try_domain
        (diagnose_recovery_case ai (get_policy_config settings) id (scoped correlation id))
        (failed_outcome false id) (after_diagnosis settings ai provider false budget id correlation)
        (diagnose_recovery_case-links ai (get_policy_config settings) id (scoped correlation id))
        (λ e. links_of _ (failed_outcome-frame false id e))
        (after_diagnosis-links budget id correlation)

  process_cases-links :
      (budget : ℕ) (ids : List ℕ) (correlation : CorrelationId)
      → Preserves links (process_cases settings ai provider false budget ids correlation)
  unfolding process_cases
  process_cases-links budget [] correlation = Preserves-pure ([], budget)
  process_cases-links budget (id ∷ ids) correlation =
      let rest = λ (outcome : CycleCaseOutcome).
        process_cases-links (spend settings ai provider outcome budget) ids correlation in
      Preserves-bind (process_case settings ai provider false budget id correlation) _
        (process_case-links budget id correlation)
        (λ outcome.
          Preserves-bind
            (process_cases settings ai provider false (spend settings ai provider outcome budget)
              ids correlation)
            _ (rest outcome) (λ others. Preserves-pure _))

  -- With `auto_execute` off, a cycle asks the payment provider for no link, whatever its limits,
  -- the state of the tables, the answers of the AI and the errors on the way.
  pub run_recovery_cycle-links :
      (max_discover max_diagnose max_execute : ℕ) (correlation : CorrelationId) (s : Session)
      → (run_recovery_cycle settings ai provider false max_discover max_diagnose max_execute
          correlation s).1.sent
        ≡ s.sent
  unfolding run_recovery_cycle drain_backlog
  run_recovery_cycle-links max_discover max_diagnose max_execute correlation s =
      (Preserves-bind new_uuid _ (links_of _ new_uuid-frame) (λ cycle_id.
          Preserves-bind (discover_failed_payments max_discover correlation) _
            (links_of _ (discover-frame max_discover correlation))
            (λ discovery.
              Preserves-bind (query (cases_ready_for_diagnosis max_diagnose)) _
                (Preserves-query (cases_ready_for_diagnosis max_diagnose))
                (λ candidates.
                  Preserves-bind (process_cases settings ai provider false 0 candidates correlation)
                    _ (process_cases-links 0 candidates correlation)
                    (λ first. Preserves-bind (pure []) _ (Preserves-pure []) (λ second. links_of _ (
                      report-frame cycle_id
                        (cycle_report settings ai provider cycle_id false discovery
                          (first.0 ++ second))
                        false correlation))))))).at
        s
