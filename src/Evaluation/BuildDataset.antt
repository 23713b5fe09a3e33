-- ===== src/Evaluation/BuildDataset.antt =====
-- evaluation/generators/build_dataset.py: the cases of a data set. The seeded generator and the
-- clock's text are arguments.
pub mod Shares
pub mod Baseline
use revenue_ai.Base.{
  ℕ, zero, suc, ◌+◌, ◌/◌, ltb, List, [], ◌∷◌, ◌++◌, String, Option, none, some, if◌then◌else◌,
  length,
}
use revenue_ai.Evaluation.{ScenarioType, SyntheticCase, Dataset}
use revenue_ai.Evaluation.Random.{Random, Draw, ◌>>=◌, done}
use revenue_ai.Evaluation.Scenarios.{scenario_generators}
use Prim.Native.Nat.{◌%◌}

-- `list(ScenarioType)`
abbrev pub scenario_types : List ScenarioType
scenario_types =
    ScenarioType.temporary_failure ∷ ScenarioType.repeated_failure
    ∷ ScenarioType.customer_side_failure ∷ ScenarioType.high_value
    ∷ ScenarioType.previously_contacted ∷ ScenarioType.ambiguous ∷ []

-- over `enumerate(scenario_types)` from the index i
abbrev pub scenario_counts : ℕ → ℕ → ℕ → List ScenarioType → List (ScenarioType × ℕ)
scenario_counts base remainder i [] = []
scenario_counts base remainder i (t ∷ ts) =
    (t, base + (if ltb i remainder then 1 else 0)) ∷ scenario_counts base remainder (i + 1) ts

unfoldable pub per_scenario_counts : ℕ → List (ScenarioType × ℕ)
per_scenario_counts count = scenario_counts (count / 6) (count % 6) 0 scenario_types

module _ {S : Type 0} (rng : Random S) where
  -- `for i in range(scenario_count)`, with the rounds that are left
  unfoldable pub generate_scenario : ScenarioType → ℕ → ℕ → Draw S (List SyntheticCase)
  generate_scenario t i zero = done []
  generate_scenario t i (suc n) = do
    case ← scenario_generators rng t i
    rest ← generate_scenario t (i + 1) n
    done (case ∷ rest)

  unfoldable pub generate_all : List (ScenarioType × ℕ) → Draw S (List SyntheticCase)
  generate_all [] = done []
  generate_all ((t, n) ∷ counts) = do
    cases ← generate_scenario t 0 n
    rest ← generate_all counts
    done (cases ++ rest)

  unfoldable pub shuffled_cases : ℕ → Draw S (List SyntheticCase)
  shuffled_cases count = do cases ← generate_all (per_scenario_counts count); rng.shuffle cases

  -- `none` is the `ValueError` for a count below 1.
  unfoldable pub build_dataset : (ℕ → S) → String → ℕ → ℕ → Option Dataset
  build_dataset seeded now count seed =
      if ltb count 1
      then none
      else some record {
        seed = seed;
        total = length (shuffled_cases count (seeded seed)).0;
        generated_at = now;
        cases = (shuffled_cases count (seeded seed)).0;
      }
