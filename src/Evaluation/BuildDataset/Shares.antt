-- ===== src/Evaluation/BuildDataset/Shares.antt =====
-- evaluation/generators/build_dataset.py: how many cases of each scenario a data set has, and what
-- every case of it satisfies.
use revenue_ai.Evaluation.BuildDataset.{
  build_dataset, generate_all, generate_scenario, shuffled_cases, per_scenario_counts,
}
use revenue_ai.Base.{
  ℕ, zero, suc, ◌+◌, ◌/◌, ◌≤◌, ◌≡◌, ◌==◌, refl, arith, Bool, true, List, [], ◌∷◌, ◌++◌, All, length,
  count, length-append, String, some, if◌then◌else◌, ltb, count-append,
}
use revenue_ai.Evaluation.{ScenarioType, SyntheticCase, Dataset, scenario_index}
use revenue_ai.Evaluation.Random.{Random}
use revenue_ai.Evaluation.Scenarios.{
  scenario_generators, generate_temporary_failure, generate_repeated_failure,
  generate_customer_side_failure, generate_high_value, generate_previously_contacted,
  generate_ambiguous,
}
use revenue_ai.Evaluation.Scenarios.Labels.{IsRealistic, scenario_generators-IsRealistic}
use Prim.Native.Nat.{◌%◌}

abbrev pub is_of : ScenarioType → SyntheticCase → Bool
is_of t c = scenario_index c.input.scenario_type == scenario_index t

All-append : {A : Type 0} (P : A → Type 0) (xs ys : List A) → All P xs → All P ys → All P (xs ++ ys)
All-append P [] ys h k = k
All-append P (x ∷ xs) ys h k = (h.0, All-append P xs ys h.1 k)

count_all : {A : Type 0} (xs : List A) → count (λ x. true) xs ≡ length xs
count_all [] = refl
count_all (x ∷ xs) = omega (arith, count_all xs)

-- what a list of counts gives in all, and to one scenario
abbrev sum_counts : List (ScenarioType × ℕ) → ℕ
sum_counts [] = 0
sum_counts ((t, n) ∷ counts) = n + sum_counts counts

abbrev share_of : ScenarioType → List (ScenarioType × ℕ) → ℕ
share_of u [] = 0
share_of u ((t, n) ∷ counts) =
    (if scenario_index t == scenario_index u then n else 0) + share_of u counts

module _ {S : Type 0} (rng : Random S) where
  scenario_generators-type :
      (t : ScenarioType) (index : ℕ) (s : S)
      → (scenario_generators rng t index s).0.input.scenario_type ≡ t
  unfolding scenario_generators generate_temporary_failure generate_repeated_failure
      generate_customer_side_failure generate_high_value generate_previously_contacted
      generate_ambiguous
  scenario_generators-type ScenarioType.temporary_failure index s = refl
  scenario_generators-type ScenarioType.repeated_failure index s = refl
  scenario_generators-type ScenarioType.customer_side_failure index s = refl
  scenario_generators-type ScenarioType.high_value index s = refl
  scenario_generators-type ScenarioType.previously_contacted index s = refl
  scenario_generators-type ScenarioType.ambiguous index s = refl

  count-generate_scenario :
      (u t : ScenarioType) (i n : ℕ) (s : S)
      → count (is_of u) (generate_scenario rng t i n s).0
        ≡ (if scenario_index t == scenario_index u then n else 0)
  unfolding generate_scenario
  count-generate_scenario u t i zero s = ground arith
  count-generate_scenario u t i (suc n) s =
      rw (scenario_generators-type t i s)
        (ground (arith, count-generate_scenario u t (i + 1) n (scenario_generators rng t i s).1))

  -- what holds of every generated case holds of every case of a data set
  module _ (P : SyntheticCase → Type 0)
      (holds : (t : ScenarioType) (index : ℕ) (s : S)
        → P (scenario_generators rng t index s).0) where
    generate_scenario-All :
        (t : ScenarioType) (i n : ℕ) (s : S) → All P (generate_scenario rng t i n s).0
    unfolding generate_scenario
    generate_scenario-All t i zero s = tt
    generate_scenario-All t i (suc n) s =
        (holds t i s, generate_scenario-All t (i + 1) n (scenario_generators rng t i s).1)

    generate_all-All :
        (counts : List (ScenarioType × ℕ)) (s : S) → All P (generate_all rng counts s).0
    unfolding generate_all
    generate_all-All [] s = tt
    generate_all-All ((t, n) ∷ counts) s =
        All-append P _ _ (generate_scenario-All t 0 n s)
          (generate_all-All counts (generate_scenario rng t 0 n s).1)

    pub shuffled_cases-All : (total : ℕ) (s : S) → All P (shuffled_cases rng total s).0
    unfolding shuffled_cases
    shuffled_cases-All total s =
        rng.shuffle-All P _ _ (generate_all-All (per_scenario_counts total) s)

  length-generate_scenario :
      (t : ScenarioType) (i n : ℕ) (s : S) → length (generate_scenario rng t i n s).0 ≡ n
  unfolding generate_scenario
  length-generate_scenario t i zero s = refl
  length-generate_scenario t i (suc n) s =
      omega (arith, length-generate_scenario t (i + 1) n (scenario_generators rng t i s).1)

  length-generate_all :
      (counts : List (ScenarioType × ℕ)) (s : S)
      → length (generate_all rng counts s).0 ≡ sum_counts counts
  unfolding generate_all
  length-generate_all [] s = refl
  length-generate_all ((t, n) ∷ counts) s =
      let s1 = (generate_scenario rng t 0 n s).1 in
      omega (
        arith,
        length-append (generate_scenario rng t 0 n s).0 (generate_all rng counts s1).0,
        length-generate_scenario t 0 n s,
        length-generate_all counts s1,
      )

  count-generate_all :
      (u : ScenarioType) (counts : List (ScenarioType × ℕ)) (s : S)
      → count (is_of u) (generate_all rng counts s).0 ≡ share_of u counts
  unfolding generate_all
  count-generate_all u [] s = refl
  count-generate_all u ((t, n) ∷ counts) s =
      let s1 = (generate_scenario rng t 0 n s).1 in
      omega (
        arith,
        count-append (is_of u) (generate_scenario rng t 0 n s).0 (generate_all rng counts s1).0,
        count-generate_scenario u t 0 n s,
        count-generate_all u counts s1,
      )

  length-shuffled_cases : (total : ℕ) (s : S) → length (shuffled_cases rng total s).0 ≡ total
  unfolding shuffled_cases per_scenario_counts
  length-shuffled_cases total s =
      let counts = per_scenario_counts total in
      let cases = (generate_all rng counts s).0 in
      let s1 = (generate_all rng counts s).1 in
      ground (
        arith,
        rng.shuffle-count (λ c. true) cases s1,
        count_all cases,
        count_all (rng.shuffle cases s1).0,
        length-generate_all counts s,
      )

  count-shuffled_cases :
      (u : ScenarioType) (total : ℕ) (s : S)
      → count (is_of u) (shuffled_cases rng total s).0
        ≡ total / 6 + (if ltb (scenario_index u) (total % 6) then 1 else 0)
  unfolding shuffled_cases per_scenario_counts
  count-shuffled_cases u total s =
      let counts = per_scenario_counts total in
      let cases = (generate_all rng counts s).0 in
      let s1 = (generate_all rng counts s).1 in
      ground (arith, rng.shuffle-count (is_of u) cases s1, count-generate_all u counts s)

  -- Building a data set of at least one case succeeds for every seed and clock. The set has exactly
  -- the number of cases that was asked for, and says so; any two scenarios differ by at most one in
  -- how many cases they have; and every case is realistic (its amount between 1 and 3,000,000, at
  -- least one attempt, its high-value mark and its label coherent).
  pub build_dataset-balanced :
      (seeded : ℕ → S) (now : String) (total seed : ℕ)
      → 1 ≤ total
      → (d : Dataset) × (build_dataset rng seeded now total seed ≡ some d)
        × (d.total ≡ total)
        × (length d.cases ≡ total)
        × ((t u : ScenarioType) → count (is_of t) d.cases ≤ count (is_of u) d.cases + 1)
        × All IsRealistic d.cases
  unfolding build_dataset
  build_dataset-balanced seeded now total seed positive =
      let s = seeded seed in
      (
        record {
          seed = seed;
          total = length (shuffled_cases rng total s).0;
          generated_at = now;
          cases = (shuffled_cases rng total s).0;
        },
        ground arith,
        length-shuffled_cases total s,
        length-shuffled_cases total s,
        (λ t u. ground (arith, count-shuffled_cases t total s, count-shuffled_cases u total s)),
        shuffled_cases-All IsRealistic (scenario_generators-IsRealistic rng) total s,
      )
