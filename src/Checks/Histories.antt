-- ===== src/Checks/Histories.antt =====
-- A case over several histories of requests on concrete data, and the theorems on them there.
use revenue_ai.Trail.Growth.{Extends}
use revenue_ai.Domain.StateMachine.Graph.{◌⟶*◌}
use revenue_ai.Trail.Growth.Requests.{serve_all_appends, serve_all_refines, terminal_stays}
use revenue_ai.Checks.Data.{world, failed_payment, lifecycle, paid_event, recovered_case}
use revenue_ai.Store.Session.{
  now, new_uuid, load_case, assign_case, flush_row, flush_dirty, flush, commit, rollback,
  guard_against_concurrent_modification, record_event, validate_transition, transition, get_case,
}
use revenue_ai.Domain.Enums.{RecoveryCaseStatus}
use revenue_ai.Store.Models.{RecoveryCase, empty_db}
use revenue_ai.Services.Webhook.{
  pop_race, relevant_status, lost_race, insert_claim, claim_event, paid_amount, is_fully_paid,
  settle, apply_to_case, apply_payment_link_event, process_claimed, process_webhook_event,
}
use revenue_ai.Services.Ingestion.{
  add_customer, find_or_create_customer, new_case, insert_case, create_case, new_payment,
  ingest_new, ingest_payment,
}
use revenue_ai.Services.Settings.{get_policy_config, load_payment, load_customer}
use revenue_ai.Domain.StateMachine.{can_transition, is_terminal}
use revenue_ai.Domain.Policy.{default_policy_config, collect_reason_codes, evaluate_policy}
use revenue_ai.Store.Repositories.{
  get_by_provider_payment_id, list_failed_without_recovery_case, count_failed_with_recovery_case,
  list_paginated,
}
use revenue_ai.Ai.Service.{call_provider, answered, fell_back, attempt_loop, get_recommendation}
use revenue_ai.Services.Diagnosis.{
  resolve_next_status, is_eligible, evaluate_eligibility, ask_ai, policy_input, review,
  diagnosis_response, run_diagnosis, diagnose_discovered, diagnose_unguarded,
  diagnose_recovery_case,
}
use revenue_ai.Services.Execution.{
  failure_category, recheck_input, recheck_policy, insert_payment_request, new_payment_request,
  record_payment_link_created, call_create, handle_reply, new_attempt, link_request,
  create_payment_link, proceed, execute_unguarded, execute_recovery_case,
}
use revenue_ai.Base.{List, ◌∷◌, none, pos, true, some, [], refl, ◌≡◌, false}
use revenue_ai.Ai.{build_context, fallback_recommendation}
use revenue_ai.Api.{World, Request, serve_all, serve, handle}

-- the failed payment, and what follows it to the recovery
abbrev reported : List (World × Request)
reported = (world, Request.ingest_payment failed_payment) ∷ []

abbrev recovery : List (World × Request)
recovery =
    (world, Request.diagnose_recovery_case 2)
    ∷ (world, Request.execute_recovery_case 2)
    ∷ (world, Request.receive_razorpay_webhook paid_event)
    ∷ []

-- requests that come too late for the case
abbrev afterwards : List (World × Request)
afterwards =
    (world, Request.diagnose_recovery_case 2) ∷ (world, Request.execute_recovery_case 2) ∷ []

abbrev discovered_case : RecoveryCase
discovered_case = record recovered_case {
  status = RecoveryCaseStatus.discovered;
  version = 1;
  recovered_amount = pos 0;
  eligible = false;
  diagnosis_category = none;
  diagnosis_notes = none;
  recovery_confidence = none;
  recommended_action = none;
  current_attempt_number = 0;
  policy_version = none;
}

case_discovered : get_case 2 (serve_all reported empty_db) ≡ some discovered_case
unfolding serve_all serve handle can_transition default_policy_config collect_reason_codes
    evaluate_policy now new_uuid load_case assign_case flush_row flush_dirty flush commit rollback
    guard_against_concurrent_modification record_event validate_transition transition
    get_by_provider_payment_id list_failed_without_recovery_case count_failed_with_recovery_case
    list_paginated build_context fallback_recommendation call_provider answered fell_back
    attempt_loop get_recommendation get_policy_config load_payment load_customer add_customer
    find_or_create_customer new_case insert_case create_case new_payment ingest_new ingest_payment
    resolve_next_status is_eligible evaluate_eligibility ask_ai policy_input review
    diagnosis_response run_diagnosis diagnose_discovered diagnose_unguarded diagnose_recovery_case
    failure_category recheck_input recheck_policy insert_payment_request new_payment_request
    record_payment_link_created call_create handle_reply new_attempt link_request
    create_payment_link proceed execute_unguarded execute_recovery_case relevant_status lost_race
    insert_claim claim_event paid_amount is_fully_paid settle apply_to_case apply_payment_link_event
    process_claimed process_webhook_event pop_race
case_discovered = refl

case_recovers : get_case 2 (serve_all recovery (serve_all reported empty_db)) ≡ some recovered_case
unfolding serve_all serve handle can_transition default_policy_config collect_reason_codes
    evaluate_policy now new_uuid load_case assign_case flush_row flush_dirty flush commit rollback
    guard_against_concurrent_modification record_event validate_transition transition
    get_by_provider_payment_id list_failed_without_recovery_case count_failed_with_recovery_case
    list_paginated build_context fallback_recommendation call_provider answered fell_back
    attempt_loop get_recommendation get_policy_config load_payment load_customer add_customer
    find_or_create_customer new_case insert_case create_case new_payment ingest_new ingest_payment
    resolve_next_status is_eligible evaluate_eligibility ask_ai policy_input review
    diagnosis_response run_diagnosis diagnose_discovered diagnose_unguarded diagnose_recovery_case
    failure_category recheck_input recheck_policy insert_payment_request new_payment_request
    record_payment_link_created call_create handle_reply new_attempt link_request
    create_payment_link proceed execute_unguarded execute_recovery_case relevant_status lost_race
    insert_claim claim_event paid_amount is_fully_paid settle apply_to_case apply_payment_link_event
    process_claimed process_webhook_event pop_race
case_recovers = refl

case_recovered : get_case 2 (serve_all lifecycle empty_db) ≡ some recovered_case
unfolding serve_all serve handle can_transition default_policy_config collect_reason_codes
    evaluate_policy now new_uuid load_case assign_case flush_row flush_dirty flush commit rollback
    guard_against_concurrent_modification record_event validate_transition transition
    get_by_provider_payment_id list_failed_without_recovery_case count_failed_with_recovery_case
    list_paginated build_context fallback_recommendation call_provider answered fell_back
    attempt_loop get_recommendation get_policy_config load_payment load_customer add_customer
    find_or_create_customer new_case insert_case create_case new_payment ingest_new ingest_payment
    resolve_next_status is_eligible evaluate_eligibility ask_ai policy_input review
    diagnosis_response run_diagnosis diagnose_discovered diagnose_unguarded diagnose_recovery_case
    failure_category recheck_input recheck_policy insert_payment_request new_payment_request
    record_payment_link_created call_create handle_reply new_attempt link_request
    create_payment_link proceed execute_unguarded execute_recovery_case relevant_status lost_race
    insert_claim claim_event paid_amount is_fully_paid settle apply_to_case apply_payment_link_event
    process_claimed process_webhook_event pop_race
case_recovered = refl

case_stays : get_case 2 (serve_all afterwards (serve_all lifecycle empty_db)) ≡ some recovered_case
unfolding serve_all serve handle can_transition default_policy_config collect_reason_codes
    evaluate_policy now new_uuid load_case assign_case flush_row flush_dirty flush commit rollback
    guard_against_concurrent_modification record_event validate_transition transition
    get_by_provider_payment_id list_failed_without_recovery_case count_failed_with_recovery_case
    list_paginated build_context fallback_recommendation call_provider answered fell_back
    attempt_loop get_recommendation get_policy_config load_payment load_customer add_customer
    find_or_create_customer new_case insert_case create_case new_payment ingest_new ingest_payment
    resolve_next_status is_eligible evaluate_eligibility ask_ai policy_input review
    diagnosis_response run_diagnosis diagnose_discovered diagnose_unguarded diagnose_recovery_case
    failure_category recheck_input recheck_policy insert_payment_request new_payment_request
    record_payment_link_created call_create handle_reply new_attempt link_request
    create_payment_link proceed execute_unguarded execute_recovery_case relevant_status lost_race
    insert_claim claim_event paid_amount is_fully_paid settle apply_to_case apply_payment_link_event
    process_claimed process_webhook_event pop_race
case_stays = refl

serve_all_refines_example : RecoveryCaseStatus.discovered ⟶* RecoveryCaseStatus.recovered
serve_all_refines_example =
    serve_all_refines reported recovery 2 discovered_case recovered_case case_discovered
      case_recovers

recovered_terminal : is_terminal RecoveryCaseStatus.recovered ≡ true
unfolding is_terminal
recovered_terminal = refl

terminal_stays_example : recovered_case.status ≡ RecoveryCaseStatus.recovered
terminal_stays_example =
    terminal_stays lifecycle afterwards 2 recovered_case recovered_case recovered_terminal
      case_recovered case_stays

serve_all_appends_example :
    Extends (serve_all reported empty_db) (serve_all recovery (serve_all reported empty_db))
serve_all_appends_example = serve_all_appends recovery (serve_all reported empty_db)
