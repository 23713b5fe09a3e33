-- ===== src/Evaluation.antt =====
-- evaluation/schemas/dataset_schema.py: the synthetic cases and their held-out labels. The enums of
-- this package have the members of those of backend/app/domain/enums.py, whose types stand here
-- for both.
pub mod Baseline
pub mod Safety
pub mod Metrics
pub mod Random
pub mod Scenarios
pub mod BuildDataset
pub mod Split
pub mod AiStrategy
pub mod Comparison
use mathlib.Core.Option
use revenue_ai.Base.{ℕ, Bool, List, String, Option, some, none, [], ◌∷◌}
use revenue_ai.Domain.Enums.{FailureReason, PaymentMethodType, RecoveryAction}
use revenue_ai.Domain.Policy.{Confidence}

pub data ScenarioType : Type 0 where
  temporary_failure repeated_failure customer_side_failure : ScenarioType
  high_value previously_contacted ambiguous : ScenarioType

abbrev pub scenario_index : ScenarioType → ℕ
scenario_index temporary_failure = 0
scenario_index repeated_failure = 1
scenario_index customer_side_failure = 2
scenario_index high_value = 3
scenario_index previously_contacted = 4
scenario_index ambiguous = 5

-- The text of a case id is f"{scenario.value}_{index:04d}": its two parts are kept.
pub record CaseId : Type 0 where
  pub scenario : ScenarioType
  pub index : ℕ

-- A rate is a float that is not negative, on the scale of a `Confidence`.
pub record SyntheticCaseInput : Type 0 where
  pub case_id : CaseId
  pub scenario_type : ScenarioType
  pub amount : ℕ
  pub currency : String
  pub payment_method_type : PaymentMethodType
  pub failure_reason : FailureReason
  pub attempt_number : ℕ
  pub days_since_first_attempt : ℕ
  pub previous_contact_count : ℕ
  pub customer_payment_history_success_rate : Confidence
  pub is_high_value : Bool

pub record GroundTruth : Type 0 where
  pub expected_action : RecoveryAction
  pub recoverable : Bool
  pub rationale : String

pub record SyntheticCase : Type 0 where
  pub input : SyntheticCaseInput
  pub ground_truth : GroundTruth

pub record Dataset : Type 0 where
  pub seed : ℕ
  pub total : ℕ
  pub generated_at : String
  pub cases : List SyntheticCase

-- `zip(cases, decisions, strict=True)`, which raises for lists of different lengths
unfoldable pub zip_strict : {A B : Type 0} → List A → List B → Option (List (A × B))
zip_strict [] [] = some []
zip_strict (a ∷ l) (b ∷ r) = Option.map (λ ps. (a, b) ∷ ps) (zip_strict l r)
zip_strict _ _ = none
