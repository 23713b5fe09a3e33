-- ===== src/Evaluation/Scenarios.antt =====
-- evaluation/generators/scenarios.py: the six generators, with their draws in the source's order.
pub mod Labels
use revenue_ai.Base.{
  ℕ, zero, suc, leb, ltb, Bool, true, false, String, List, [], ◌∷◌, ◌++◌, if◌then◌else◌,
}
use revenue_ai.Domain.Enums.{PaymentMethodType, RecoveryAction, FailureReason}
use revenue_ai.Evaluation.{SyntheticCase, GroundTruth, ScenarioType}
use revenue_ai.Evaluation.Random.{
  Random, Draw, ◌>>=◌, done, float_05, float_15, float_35, float_55, float_7,
}
use revenue_ai.Evaluation.Baseline.{
  float_3, float_4, float_5, float_6, float_9, float_95, min, is_temporary,
}
use revenue_ai.Evaluation.Safety.{high_value_amount_threshold}

-- `rng.choice(list(…))` of a list that is `first ∷ others`
abbrev pub get_or : {A : Type 0} → A → List A → ℕ → A
get_or first [] i = first
get_or first (x ∷ xs) zero = first
get_or first (x ∷ xs) (suc i) = get_or x xs i

abbrev pub payment_methods : List PaymentMethodType
payment_methods =
    PaymentMethodType.upi ∷ PaymentMethodType.netbanking ∷ PaymentMethodType.wallet
    ∷ PaymentMethodType.emi ∷ []

-- the two lists of failure reasons, each without its first member
abbrev pub temporary_others : List FailureReason
temporary_others = FailureReason.gateway_timeout ∷ FailureReason.provider_error ∷ []

abbrev pub customer_side_others : List FailureReason
customer_side_others = FailureReason.expired_instrument ∷ FailureReason.authentication_failed ∷ []

abbrev pub expected_label : RecoveryAction → Bool → String → GroundTruth
expected_label action recoverable rationale = record {
  expected_action = action;
  recoverable = recoverable;
  rationale = rationale;
}

module _ {S : Type 0} (rng : Random S) where
  unfoldable pub draw_amount : Bool → Draw S ℕ
  draw_amount high_value =
      if high_value then rng.randint 500000 3000000 else rng.randint 5000 150000

  unfoldable pub draw_method : Draw S PaymentMethodType
  draw_method = do i ← rng.choice_index 5; done (get_or PaymentMethodType.card payment_methods i)

  unfoldable pub draw_temporary : Draw S FailureReason
  draw_temporary = do
    i ← rng.choice_index 3
    done (get_or FailureReason.network_error temporary_others i)

  unfoldable pub draw_customer_side : Draw S FailureReason
  draw_customer_side = do
    i ← rng.choice_index 3
    done (get_or FailureReason.insufficient_funds customer_side_others i)

  -- of the temporary reasons, then those on the customer's side
  unfoldable pub draw_reason : Draw S FailureReason
  draw_reason = do
    i ← rng.choice_index 6
    done (
        get_or FailureReason.network_error
          (temporary_others ++ FailureReason.insufficient_funds ∷ customer_side_others) i)

  -- the same reasons, those on the customer's side first
  unfoldable pub draw_reason_swapped : Draw S FailureReason
  draw_reason_swapped = do
    i ← rng.choice_index 6
    done (
        get_or FailureReason.insufficient_funds
          (customer_side_others ++ FailureReason.network_error ∷ temporary_others) i)

  unfoldable pub generate_temporary_failure : ℕ → Draw S SyntheticCase
  generate_temporary_failure index = do
    attempt ← rng.randint 1 2
    days ← rng.randint 0 2
    amount ← draw_amount false
    method ← draw_method
    reason ← draw_temporary
    rate ← rng.uniform2 float_6 float_95
    done record {
      input = record {
        case_id = record { scenario = ScenarioType.temporary_failure; index = index };
        scenario_type = ScenarioType.temporary_failure;
        amount = amount;
        currency = "INR";
        payment_method_type = method;
        failure_reason = reason;
        attempt_number = attempt;
        days_since_first_attempt = days;
        previous_contact_count = 0;
        customer_payment_history_success_rate = rate;
        is_high_value = leb high_value_amount_threshold amount;
      };
      ground_truth =
          expected_label RecoveryAction.retry_payment true
            "Transient gateway/network failure with few prior attempts is typically recoverable via retry.";
    }

  unfoldable pub generate_repeated_failure : ℕ → Draw S SyntheticCase
  generate_repeated_failure index = do
    attempt ← rng.randint 3 6
    days ← rng.randint 7 20
    amount ← draw_amount false
    rate ← rng.uniform2 float_05 float_35
    method ← draw_method
    reason ← draw_reason
    drawn ← rng.randint 1 2
    done record {
      input = record {
        case_id = record { scenario = ScenarioType.repeated_failure; index = index };
        scenario_type = ScenarioType.repeated_failure;
        amount = amount;
        currency = "INR";
        payment_method_type = method;
        failure_reason = reason;
        attempt_number = attempt;
        days_since_first_attempt = days;
        previous_contact_count = min attempt drawn;
        customer_payment_history_success_rate = rate;
        is_high_value = leb high_value_amount_threshold amount;
      };
      ground_truth =
          (if ltb rate float_15
            then expected_label RecoveryAction.stop false
                "Retry limit effectively exhausted with very low recovery likelihood; stop further automation."
            else expected_label RecoveryAction.escalate false
                "Multiple failures but non-trivial recovery signal; escalate for human judgment rather than retry.");
    }

  unfoldable pub generate_customer_side_failure : ℕ → Draw S SyntheticCase
  generate_customer_side_failure index = do
    attempt ← rng.randint 1 2
    amount ← draw_amount false
    method ← draw_method
    reason ← draw_customer_side
    days ← rng.randint 0 3
    contacts ← rng.randint 0 1
    rate ← rng.uniform2 float_5 float_9
    done record {
      input = record {
        case_id = record { scenario = ScenarioType.customer_side_failure; index = index };
        scenario_type = ScenarioType.customer_side_failure;
        amount = amount;
        currency = "INR";
        payment_method_type = method;
        failure_reason = reason;
        attempt_number = attempt;
        days_since_first_attempt = days;
        previous_contact_count = contacts;
        customer_payment_history_success_rate = rate;
        is_high_value = leb high_value_amount_threshold amount;
      };
      ground_truth =
          expected_label RecoveryAction.send_payment_link true
            "Instrument-side failure (funds/expiry/auth) won't be fixed by an identical retry; offer a payment link so the customer can use a different instrument.";
    }

  unfoldable pub generate_high_value : ℕ → Draw S SyntheticCase
  generate_high_value index = do
    attempt ← rng.randint 1 2
    amount ← draw_amount true
    reason ← draw_reason
    method ← draw_method
    days ← rng.randint 0 3
    rate ← rng.uniform2 float_55 float_95
    done record {
      input = record {
        case_id = record { scenario = ScenarioType.high_value; index = index };
        scenario_type = ScenarioType.high_value;
        amount = amount;
        currency = "INR";
        payment_method_type = method;
        failure_reason = reason;
        attempt_number = attempt;
        days_since_first_attempt = days;
        previous_contact_count = 0;
        customer_payment_history_success_rate = rate;
        is_high_value = true;
      };
      ground_truth =
          expected_label
            (if is_temporary reason
              then RecoveryAction.retry_payment
              else RecoveryAction.send_payment_link)
            true
            "High-value payment: the underlying cause still points to a normal recovery action, but policy must apply a stricter confidence bar before acting.";
    }

  unfoldable pub generate_previously_contacted : ℕ → Draw S SyntheticCase
  generate_previously_contacted index = do
    attempt ← rng.randint 2 4
    amount ← draw_amount false
    method ← draw_method
    reason ← draw_reason_swapped
    days ← rng.randint 5 14
    contacts ← rng.randint 2 3
    rate ← rng.uniform2 float_3 float_7
    done record {
      input = record {
        case_id = record { scenario = ScenarioType.previously_contacted; index = index };
        scenario_type = ScenarioType.previously_contacted;
        amount = amount;
        currency = "INR";
        payment_method_type = method;
        failure_reason = reason;
        attempt_number = attempt;
        days_since_first_attempt = days;
        previous_contact_count = contacts;
        customer_payment_history_success_rate = rate;
        is_high_value = leb high_value_amount_threshold amount;
      };
      ground_truth =
          expected_label RecoveryAction.stop false
            "Customer contact cap already reached; further reminders/links would violate contact limits.";
    }

  unfoldable pub generate_ambiguous : ℕ → Draw S SyntheticCase
  generate_ambiguous index = do
    attempt ← rng.randint 1 3
    chance ← rng.random
    amount ← draw_amount (ltb chance float_15)
    method ← draw_method
    days ← rng.randint 1 10
    contacts ← rng.randint 0 1
    rate ← rng.uniform2 float_4 float_6
    done record {
      input = record {
        case_id = record { scenario = ScenarioType.ambiguous; index = index };
        scenario_type = ScenarioType.ambiguous;
        amount = amount;
        currency = "INR";
        payment_method_type = method;
        failure_reason = FailureReason.unknown;
        attempt_number = attempt;
        days_since_first_attempt = days;
        previous_contact_count = contacts;
        customer_payment_history_success_rate = rate;
        is_high_value = leb high_value_amount_threshold amount;
      };
      ground_truth =
          expected_label RecoveryAction.escalate false
            "Failure cause is unknown and signals are inconclusive; escalate rather than automate blindly.";
    }

  -- `SCENARIO_GENERATORS`
  unfoldable pub scenario_generators : ScenarioType → ℕ → Draw S SyntheticCase
  scenario_generators ScenarioType.temporary_failure = generate_temporary_failure
  scenario_generators ScenarioType.repeated_failure = generate_repeated_failure
  scenario_generators ScenarioType.customer_side_failure = generate_customer_side_failure
  scenario_generators ScenarioType.high_value = generate_high_value
  scenario_generators ScenarioType.previously_contacted = generate_previously_contacted
  scenario_generators ScenarioType.ambiguous = generate_ambiguous
