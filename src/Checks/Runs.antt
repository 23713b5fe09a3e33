-- ===== src/Checks/Runs.antt =====
-- Runs of the requests on concrete data, and the theorems on them at these runs.
use revenue_ai.Checks.Data.{
  world, slow_ai, lifecycle, paid_event, recovered_case, settings, approved_session, context,
  one_executed, paid_session, payment_row, provider, waiting_session, eligible_session,
  executed_session, outcome,
}
use revenue_ai.Provider.Events.{process_webhook_event-again}
use revenue_ai.Services.Orchestrator.Budget.{run_recovery_cycle-executed}
use revenue_ai.Provider.Cycle.{run_recovery_cycle-links}
use revenue_ai.Provider.Charges.{Warranted, execute_recovery_case-Sent}
use revenue_ai.Trail.Requests.{serve_all-IsValid, contacts_never_block}
use revenue_ai.Provider.Sends.{Sent}
use revenue_ai.Services.Orchestrator.{
  run_recovery_cycle, process_cases, drain_backlog, execute_backlog, execute_approved_case,
  execute_outcome, try_domain, cycle_report, cases_ready_for_diagnosis, collect_ready,
  approved_backlog,
}
use revenue_ai.Ai.Outcome.{Answers, get_recommendation-Answers}
use revenue_ai.Trail.{IsValid}
use revenue_ai.Store.Session.{
  now, new_uuid, load_case, assign_case, flush_row, flush_dirty, flush, commit, rollback,
  guard_against_concurrent_modification, record_event, validate_transition, transition, get_case,
  ok,
}
use revenue_ai.Domain.Enums.{code_in, max_contacts_reached}
use revenue_ai.Store.Models.{empty_db, given}
use revenue_ai.Services.Webhook.{
  pop_race, relevant_status, lost_race, insert_claim, claim_event, paid_amount, is_fully_paid,
  settle, apply_to_case, apply_payment_link_event, process_claimed, process_webhook_event,
  ProcessStatus,
}
use revenue_ai.Services.Ingestion.{
  add_customer, find_or_create_customer, new_case, insert_case, create_case, new_payment,
  ingest_new, ingest_payment, discover_failed_payments, create_cases,
}
use revenue_ai.Services.Settings.{get_policy_config, load_payment, load_customer}
use revenue_ai.Domain.StateMachine.{can_transition}
use revenue_ai.Domain.Policy.{default_policy_config, collect_reason_codes, evaluate_policy}
use revenue_ai.Store.Repositories.{
  get_by_provider_payment_id, list_failed_without_recovery_case, count_failed_with_recovery_case,
  list_paginated,
}
use revenue_ai.Ai.Service.{call_provider, answered, fell_back, attempt_loop, get_recommendation}
use revenue_ai.Services.Diagnosis.{
  resolve_next_status, is_eligible, evaluate_eligibility, ask_ai, policy_input, review,
  diagnosis_response, run_diagnosis, diagnose_discovered, diagnose_unguarded,
  diagnose_recovery_case,
}
use revenue_ai.Services.Execution.{
  failure_category, recheck_input, recheck_policy, insert_payment_request, new_payment_request,
  record_payment_link_created, call_create, handle_reply, new_attempt, link_request,
  create_payment_link, proceed, execute_unguarded, execute_recovery_case,
}
use revenue_ai.Base.{true, some, [], refl, ◌≡◌, arith, false, ◌≤◌}
use revenue_ai.Ai.{build_context, fallback_recommendation}
use revenue_ai.Api.{serve_all, serve, handle, open_session}

lifecycle_recovers : get_case 2 (serve_all lifecycle empty_db) ≡ some recovered_case
unfolding serve_all serve handle can_transition default_policy_config collect_reason_codes
    evaluate_policy now new_uuid load_case assign_case flush_row flush_dirty flush commit rollback
    guard_against_concurrent_modification record_event validate_transition transition
    get_by_provider_payment_id list_failed_without_recovery_case count_failed_with_recovery_case
    list_paginated build_context fallback_recommendation call_provider answered fell_back
    attempt_loop get_recommendation get_policy_config load_payment load_customer add_customer
    find_or_create_customer new_case insert_case create_case new_payment ingest_new ingest_payment
    resolve_next_status is_eligible evaluate_eligibility ask_ai policy_input review
    diagnosis_response run_diagnosis diagnose_discovered diagnose_unguarded diagnose_recovery_case
    failure_category recheck_input recheck_policy insert_payment_request new_payment_request
    record_payment_link_created call_create handle_reply new_attempt link_request
    create_payment_link proceed execute_unguarded execute_recovery_case relevant_status lost_race
    insert_claim claim_event paid_amount is_fully_paid settle apply_to_case apply_payment_link_event
    process_claimed process_webhook_event pop_race
lifecycle_recovers = refl

serve_all-IsValid_example : IsValid (serve_all lifecycle empty_db)
serve_all-IsValid_example = serve_all-IsValid lifecycle

execute_recovery_case-Sent_example :
    Sent
      (Warranted settings 2 approved_session.work)
      []
      (execute_recovery_case settings provider 2 (given "request") approved_session).1.sent
execute_recovery_case-Sent_example =
    execute_recovery_case-Sent settings provider 2 (given "request") approved_session

run_recovery_cycle-links_example :
    (run_recovery_cycle settings slow_ai provider false 50 20 10
      (given "request")
      approved_session).1.sent
    ≡ []
run_recovery_cycle-links_example =
    run_recovery_cycle-links settings slow_ai provider 50 20 10 (given "request") approved_session

get_recommendation-Answers_example :
    Answers slow_ai context 0 2 eligible_session
      (get_recommendation slow_ai context eligible_session)
get_recommendation-Answers_example = get_recommendation-Answers slow_ai context eligible_session

contacts_never_block_example :
    code_in max_contacts_reached
      (evaluate_policy
        (policy_input recovered_case payment_row outcome 60)
        default_policy_config).reason_codes
    ≡ false
unfolding default_policy_config
contacts_never_block_example =
    contacts_never_block lifecycle default_policy_config 2 recovered_case payment_row outcome 60
      lifecycle_recovers (omega arith)

first_delivery :
    process_webhook_event paid_event world.correlation waiting_session
    ≡ (ok ProcessStatus.processed, paid_session)
unfolding serve_all serve handle can_transition default_policy_config collect_reason_codes
    evaluate_policy now new_uuid load_case assign_case flush_row flush_dirty flush commit rollback
    guard_against_concurrent_modification record_event validate_transition transition
    get_by_provider_payment_id list_failed_without_recovery_case count_failed_with_recovery_case
    list_paginated build_context fallback_recommendation call_provider answered fell_back
    attempt_loop get_recommendation get_policy_config load_payment load_customer add_customer
    find_or_create_customer new_case insert_case create_case new_payment ingest_new ingest_payment
    resolve_next_status is_eligible evaluate_eligibility ask_ai policy_input review
    diagnosis_response run_diagnosis diagnose_discovered diagnose_unguarded diagnose_recovery_case
    failure_category recheck_input recheck_policy insert_payment_request new_payment_request
    record_payment_link_created call_create handle_reply new_attempt link_request
    create_payment_link proceed execute_unguarded execute_recovery_case relevant_status lost_race
    insert_claim claim_event paid_amount is_fully_paid settle apply_to_case apply_payment_link_event
    process_claimed process_webhook_event pop_race
first_delivery = refl

process_webhook_event-again_example :
    process_webhook_event paid_event world.correlation (open_session world paid_session.committed)
    ≡ (ok ProcessStatus.duplicate, open_session world paid_session.committed)
process_webhook_event-again_example =
    process_webhook_event-again world world paid_event waiting_session.work paid_session
      ProcessStatus.processed refl first_delivery

one_execution :
    run_recovery_cycle settings slow_ai provider true 50 20 10 (given "request") approved_session
    ≡ (ok one_executed, executed_session)
unfolding serve_all serve handle can_transition default_policy_config collect_reason_codes
    evaluate_policy now new_uuid load_case assign_case flush_row flush_dirty flush commit rollback
    guard_against_concurrent_modification record_event validate_transition transition
    get_by_provider_payment_id list_failed_without_recovery_case count_failed_with_recovery_case
    list_paginated build_context fallback_recommendation call_provider answered fell_back
    attempt_loop get_recommendation get_policy_config load_payment load_customer add_customer
    find_or_create_customer new_case insert_case create_case new_payment ingest_new ingest_payment
    resolve_next_status is_eligible evaluate_eligibility ask_ai policy_input review
    diagnosis_response run_diagnosis diagnose_discovered diagnose_unguarded diagnose_recovery_case
    failure_category recheck_input recheck_policy insert_payment_request new_payment_request
    record_payment_link_created call_create handle_reply new_attempt link_request
    create_payment_link proceed execute_unguarded execute_recovery_case relevant_status lost_race
    insert_claim claim_event paid_amount is_fully_paid settle apply_to_case apply_payment_link_event
    process_claimed process_webhook_event pop_race run_recovery_cycle process_cases drain_backlog
    execute_backlog execute_approved_case execute_outcome try_domain cycle_report
    discover_failed_payments create_cases cases_ready_for_diagnosis collect_ready approved_backlog
one_execution = refl

run_recovery_cycle-executed_example : one_executed.cases_executed ≤ 10
run_recovery_cycle-executed_example =
    run_recovery_cycle-executed settings slow_ai provider true 50 20 10 (given "request")
      approved_session executed_session one_executed one_execution
