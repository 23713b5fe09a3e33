-- ===== src/Services/Orchestrator.antt =====
-- backend/app/services/orchestrator_service.py and schemas/orchestrator.py: one autonomous cycle.
pub mod Budget
use revenue_ai.Base.{
  ℕ, zero, suc, ◌+◌, ◌-◌, ◌==◌, ltb, Bool, true, false, not, ◌&&◌, Option, none, some, List, [],
  ◌∷◌, ◌++◌, any, map, filter, count, length, take, is_some, if◌then◌else◌, String,
}
use revenue_ai.Domain.Enums.{
  RecoveryCaseStatus, discovered, eligible, failed, approved, status_eq, system,
}
use revenue_ai.Domain.Providers.{PaymentProvider}
use revenue_ai.Ai.{AiRecommendationService}
use revenue_ai.Store.Models.{
  RecoveryCase, recovery_cycle, recovery_cycle_completed, CorrelationId, scoped, Db,
}
use revenue_ai.Store.Session.{
  Session, Error, is_domain_error, Result, ok, err, Action, pure, query, ◌>>=◌, ◌>>◌, new_uuid,
  commit, record_event, get_case,
}
use revenue_ai.Store.Repositories.{list_paginated}
use revenue_ai.Services.Settings.{Settings, get_policy_config}
use revenue_ai.Services.Ingestion.{DiscoveryReport, discover_failed_payments}
use revenue_ai.Services.Diagnosis.{DiagnosisResponse, diagnose_recovery_case}
use revenue_ai.Services.Execution.{ExecutionResponse, execute_recovery_case}

pub record CycleCaseOutcome : Type 0 where
  pub recovery_case_id : ℕ
  pub final_status : RecoveryCaseStatus
  pub diagnosed : Bool
  pub executed : Bool
  pub error : Option Error
  pub withheld_reason : Option String

pub record RecoveryCycleReport : Type 0 where
  pub cycle_id : ℕ
  pub auto_execute : Bool
  pub cases_discovered : ℕ
  pub cases_diagnosed : ℕ
  pub cases_executed : ℕ
  pub cases_failed : ℕ
  pub approved : ℕ
  pub stopped : ℕ
  pub escalated : ℕ
  pub recovered : ℕ
  pub outcomes : List CycleCaseOutcome

-- `try: … except RecoverAIError`, and the way on
abbrev pub handle_result :
    {A B : Type 0} → Result A × Session → (Error → Action B) → (A → Action B) → Result B × Session
handle_result (ok a, s) caught next = next a s
handle_result (err e, s) caught next = if is_domain_error e then caught e s else (err e, s)

unfoldable pub try_domain :
    {A B : Type 0} → Action A → (Error → Action B) → (A → Action B) → Action B
try_domain m caught next s = handle_result (m s) caught next

abbrev pub status_or_discovered : Option RecoveryCase → RecoveryCaseStatus
status_or_discovered none = discovered
status_or_discovered (some c) = c.status

-- `_current_status`
unfoldable pub current_status : ℕ → Action RecoveryCaseStatus
current_status id = query (get_case id) >>= λ c. pure (status_or_discovered c)

-- `_READY_FOR_DIAGNOSIS`
abbrev pub ready_for_diagnosis : List RecoveryCaseStatus
ready_for_diagnosis = discovered ∷ eligible ∷ failed ∷ []

abbrev pub ids_of : List RecoveryCase → List ℕ
ids_of = map (λ (c : RecoveryCase). c.id)

-- the loop of `_cases_ready_for_diagnosis` over the statuses
unfoldable pub collect_ready : ℕ → List RecoveryCaseStatus → List ℕ → Db → List ℕ
collect_ready limit [] collected db = collected
collect_ready limit (status ∷ statuses) collected db =
    let more =
      collect_ready limit statuses
        (collected ++ ids_of (list_paginated 0 (limit - length collected) status db).0) db in
    if ltb (length collected) limit then more else collected

unfoldable pub cases_ready_for_diagnosis : ℕ → Db → List ℕ
cases_ready_for_diagnosis limit db = take limit (collect_ready limit ready_for_diagnosis [] db)

abbrev pub id_in : ℕ → List ℕ → Bool
id_in id ids = any (λ x. id == x) ids

-- `_approved_backlog`; `exclude` is a set, whose size is that of the list here only if it has no
-- repeats
unfoldable pub approved_backlog : ℕ → List ℕ → Db → List ℕ
approved_backlog limit exclude db = take limit (
    filter (λ id. not (id_in id exclude))
      (ids_of (list_paginated 0 (limit + length exclude) approved db).0))

abbrev pub withheld : Bool → Option String → Option String
withheld true reason = none
withheld false reason = reason

abbrev pub executed_outcome : Bool → ℕ → ExecutionResponse → CycleCaseOutcome
executed_outcome diagnosed id response = record {
  recovery_case_id = id;
  final_status = response.case_status;
  diagnosed = diagnosed;
  executed = response.executed;
  error = none;
  withheld_reason = withheld response.executed response.reason;
}

abbrev pub quiet_outcome : ℕ → RecoveryCaseStatus → Option String → CycleCaseOutcome
quiet_outcome id status reason = record {
  recovery_case_id = id;
  final_status = status;
  diagnosed = true;
  executed = false;
  error = none;
  withheld_reason = reason;
}

-- the outcome of a case whose error is caught
unfoldable pub failed_outcome : Bool → ℕ → Error → Action CycleCaseOutcome
failed_outcome diagnosed id e = do
  status ← current_status id
  pure (record {
    recovery_case_id = id;
    final_status = status;
    diagnosed = diagnosed;
    executed = false;
    error = some e;
    withheld_reason = none;
  })

module _ (settings : Settings) (ai : AiRecommendationService) (provider : PaymentProvider) where
  unfoldable pub execute_outcome : Bool → ℕ → CorrelationId → Action CycleCaseOutcome
  execute_outcome diagnosed id correlation =
      try_domain (execute_recovery_case settings provider id (scoped correlation id))
        (failed_outcome diagnosed id) (λ response. pure (executed_outcome diagnosed id response))

  -- `_execute_approved_case`
  unfoldable pub execute_approved_case : ℕ → CorrelationId → Action CycleCaseOutcome
  execute_approved_case id correlation = execute_outcome false id correlation

  -- what follows a diagnosis: whether the case is executed, or why not
  unfoldable pub after_diagnosis :
      Bool → ℕ → ℕ → CorrelationId → DiagnosisResponse → Action CycleCaseOutcome
  after_diagnosis auto_execute budget id correlation diagnosis =
      if not (status_eq diagnosis.case_status approved)
      then pure (quiet_outcome id diagnosis.case_status none)
      else (if not auto_execute
          then pure (
              quiet_outcome id diagnosis.case_status
                (some "auto_execute is disabled; approved case left for human review"))
          else (if budget == 0
              then pure (
                  quiet_outcome id diagnosis.case_status
                    (some "per-cycle execution budget exhausted; will be picked up next cycle"))
              else execute_outcome true id correlation))

  -- `_process_case`
  unfoldable pub process_case : Bool → ℕ → ℕ → CorrelationId → Action CycleCaseOutcome
  process_case auto_execute budget id correlation =
      try_domain (diagnose_recovery_case ai (get_policy_config settings) id (scoped correlation id))
        (failed_outcome false id) (after_diagnosis auto_execute budget id correlation)

  abbrev pub spend : CycleCaseOutcome → ℕ → ℕ
  spend outcome budget = if outcome.executed then budget - 1 else budget

  -- the loop over the candidates; the outcomes, and the budget that is left
  unfoldable pub process_cases :
      Bool → ℕ → List ℕ → CorrelationId → Action (List CycleCaseOutcome × ℕ)
  process_cases auto_execute budget [] correlation = pure ([], budget)
  process_cases auto_execute budget (id ∷ ids) correlation = do
    outcome ← process_case auto_execute budget id correlation
    rest ← process_cases auto_execute (spend outcome budget) ids correlation
    pure (outcome ∷ rest.0, rest.1)

  -- the loop over the backlog, which stops once the budget is spent
  unfoldable pub execute_backlog : ℕ → List ℕ → CorrelationId → Action (List CycleCaseOutcome)
  execute_backlog budget [] correlation = pure []
  execute_backlog zero (id ∷ ids) correlation = pure []
  execute_backlog (suc budget) (id ∷ ids) correlation = do
    outcome ← execute_approved_case id correlation
    rest ← execute_backlog (spend outcome (suc budget)) ids correlation
    pure (outcome ∷ rest)

  abbrev pub handled : List CycleCaseOutcome → List ℕ
  handled = map (λ (o : CycleCaseOutcome). o.recovery_case_id)

  -- step 3 of the cycle
  unfoldable pub drain_backlog :
      Bool → ℕ → List CycleCaseOutcome → CorrelationId → Action (List CycleCaseOutcome)
  drain_backlog auto_execute budget outcomes correlation =
      if auto_execute && ltb 0 budget
      then (query (approved_backlog budget (handled outcomes)) >>= λ ids.
          execute_backlog budget ids correlation)
      else pure []

  abbrev pub ended_in : RecoveryCaseStatus → List CycleCaseOutcome → ℕ
  ended_in status = count (λ o. status_eq o.final_status status)

  unfoldable pub cycle_report :
      ℕ → Bool → DiscoveryReport → List CycleCaseOutcome → RecoveryCycleReport
  cycle_report cycle_id auto_execute discovery outcomes = record {
    cycle_id = cycle_id;
    auto_execute = auto_execute;
    cases_discovered = discovery.created;
    cases_diagnosed = count (λ (o : CycleCaseOutcome). o.diagnosed) outcomes;
    cases_executed = count (λ (o : CycleCaseOutcome). o.executed) outcomes;
    cases_failed = count (λ (o : CycleCaseOutcome). is_some o.error) outcomes;
    approved = ended_in RecoveryCaseStatus.approved outcomes;
    stopped = ended_in RecoveryCaseStatus.stopped outcomes;
    escalated = ended_in RecoveryCaseStatus.escalated outcomes;
    recovered = ended_in RecoveryCaseStatus.recovered outcomes;
    outcomes = outcomes;
  }

  unfoldable pub run_recovery_cycle : Bool → ℕ → ℕ → ℕ → CorrelationId → Action RecoveryCycleReport
  run_recovery_cycle auto_execute max_discover max_diagnose max_execute correlation = do
    cycle_id ← new_uuid
    discovery ← discover_failed_payments max_discover correlation
    candidates ← query (cases_ready_for_diagnosis max_diagnose)
    first ←
        process_cases auto_execute (if auto_execute then max_execute else 0) candidates correlation
    second ← drain_backlog auto_execute first.1 first.0 correlation
    let report = cycle_report cycle_id auto_execute discovery (first.0 ++ second)
    record_event (recovery_cycle cycle_id) system
        (recovery_cycle_completed auto_execute report.cases_discovered report.cases_diagnosed
          report.cases_executed report.cases_failed report.approved report.stopped report.escalated)
        correlation
    commit
    pure report
