-- ===== src/Evaluation/Split.antt =====
-- evaluation/generators/split.py: the split by the hash of a case id. The hash fraction (the first
-- digits of a SHA-256 digest) is an argument.
pub mod Partition
use revenue_ai.Base.{ℕ, ltb, ◌*◌, ◌^◌, ◌&&◌, Bool, List, [], ◌∷◌, Option, none, some, if◌then◌else◌}
use revenue_ai.Domain.Policy.{Confidence}
use revenue_ai.Evaluation.{CaseId, SyntheticCase, Dataset}

-- 0.2 and 1.0
abbrev pub default_holdout_fraction : Confidence
default_holdout_fraction = 3602879701896397 * 2 ^ 1020

abbrev pub float_one : Confidence
float_one = 2 ^ 1074

abbrev pub put_in_bucket :
    Bool
    → SyntheticCase
    → List SyntheticCase × List SyntheticCase
    → List SyntheticCase × List SyntheticCase
put_in_bucket held c (development, held_out) =
    if held then (development, c ∷ held_out) else (c ∷ development, held_out)

module _ (hash_fraction : CaseId → Confidence) where
  abbrev pub is_held_out : Confidence → SyntheticCase → Bool
  is_held_out fraction c = ltb (hash_fraction c.input.case_id) fraction

  -- the loop over the cases
  unfoldable pub split_cases :
      Confidence → List SyntheticCase → List SyntheticCase × List SyntheticCase
  split_cases fraction [] = ([], [])
  split_cases fraction (c ∷ cases) =
      put_in_bucket (is_held_out fraction c) c (split_cases fraction cases)

  -- `none` is the `ValueError`.
  unfoldable pub held_out_split :
      Dataset → Confidence → Option (List SyntheticCase × List SyntheticCase)
  held_out_split d fraction =
      if ltb 0 fraction && ltb fraction float_one then some (split_cases fraction d.cases) else none
