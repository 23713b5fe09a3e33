-- ===== src/Evaluation/Random.antt =====
-- `random.Random` as the generators of evaluation/generators use it. The generator of Python's
-- library is an argument with a state; its laws are the documented ranges of its methods, and those
-- of `round(x, 2)`.
use revenue_ai.Base.{ℕ, ◌≤◌, ◌<◌, ◌≡◌, ◌==◌, ◌*◌, ◌^◌, Bool, true, count, All, List, [], ◌∷◌, any}
use revenue_ai.Domain.Policy.{Confidence}
use revenue_ai.Evaluation.{SyntheticCase}
use revenue_ai.Evaluation.Baseline.{float_3, float_4, float_5, float_6, float_9, float_95}

abbrev pub float_05 : Confidence
float_05 = 3602879701896397 * 2 ^ 1018

abbrev pub float_15 : Confidence
float_15 = 5404319552844595 * 2 ^ 1019

abbrev pub float_35 : Confidence
float_35 = 3152519739159347 * 2 ^ 1021

abbrev pub float_55 : Confidence
float_55 = 4953959590107546 * 2 ^ 1021

abbrev pub float_7 : Confidence
float_7 = 3152519739159347 * 2 ^ 1022

-- the doubles that the source writes with at most two decimals, as bounds of a rate
abbrev pub two_decimals : List Confidence
two_decimals =
    float_05 ∷ float_3 ∷ float_35 ∷ float_4 ∷ float_5 ∷ float_55 ∷ float_6 ∷ float_7 ∷ float_9
    ∷ float_95 ∷ []

abbrev pub has_two_decimals : Confidence → Bool
has_two_decimals x = any (λ y. x == y) two_decimals

-- A method returns its value and the generator's next state. `choice_index n` is the place that
-- `choice` takes in a list of n items, `uniform2 a b` is `round(rng.uniform(a, b), 2)`, and `random`
-- is in [0, 1). A shuffled list is a permutation: it keeps every count and every property of all.
pub record Random (S : Type 0) : Type 1 where
  pub randint : ℕ → ℕ → S → ℕ × S
  pub choice_index : ℕ → S → ℕ × S
  pub uniform2 : Confidence → Confidence → S → Confidence × S
  pub random : S → Confidence × S
  pub shuffle : List SyntheticCase → S → List SyntheticCase × S
  pub randint_bounds :
      (low high : ℕ) (s : S)
      → low ≤ high
      → (low ≤ (randint low high s).0) × ((randint low high s).0 ≤ high)
  pub choice_index_bounds : (n : ℕ) (s : S) → 1 ≤ n → (choice_index n s).0 < n
  pub uniform2_bounds :
      (low high : Confidence) (s : S)
      → has_two_decimals low ≡ true
      → has_two_decimals high ≡ true
      → low ≤ high
      → (low ≤ (uniform2 low high s).0) × ((uniform2 low high s).0 ≤ high)
  pub shuffle-count :
      (p : SyntheticCase → Bool) (cases : List SyntheticCase) (s : S)
      → count p (shuffle cases s).0 ≡ count p cases
  pub shuffle-All :
      (P : SyntheticCase → Type 0) (cases : List SyntheticCase) (s : S)
      → All P cases
      → All P (shuffle cases s).0

-- a draw from the generator in state `s`
abbrev pub Draw : Type 0 → Type 0 → Type 0
Draw S A = S → A × S

module _ {S : Type 0} where
  infixl 5 ◌>>=◌
  abbrev pub ◌>>=◌ : {A B : Type 0} → Draw S A → (A → Draw S B) → Draw S B
  ◌>>=◌ m f s = f (m s).0 (m s).1

  abbrev pub done : {A : Type 0} → A → Draw S A
  done a s = (a, s)
