-- ===== src/Evaluation/Split/Partition.antt =====
-- evaluation/generators/split.py: the split is a partition of the data set.
use revenue_ai.Evaluation.Split.{held_out_split, split_cases, float_one, is_held_out}
use revenue_ai.Base.{
  ltb, ◌<◌, ◌≡◌, ◌+◌, arith, Bool, not, List, [], ◌∷◌, count, some, filter, Bool-cases, refl, inl,
  inr,
}
use revenue_ai.Domain.Policy.{Confidence}
use revenue_ai.Evaluation.{CaseId, SyntheticCase, Dataset}

module _ (hash_fraction : CaseId → Confidence) (fraction : Confidence) where
  split_cases-filter :
      (cases : List SyntheticCase)
      → split_cases hash_fraction fraction cases ≡ (
        filter (λ c. not (is_held_out hash_fraction fraction c)) cases,
        filter (is_held_out hash_fraction fraction) cases,
      )
  unfolding split_cases
  split_cases-filter [] = refl
  split_cases-filter (c ∷ cases) = elim (Bool-cases (is_held_out hash_fraction fraction c)) [
    | inl held ↦ rw (split_cases-filter cases, held) refl
    | inr kept ↦ rw (split_cases-filter cases, kept) refl
  ]

  filter-count :
      (p q : SyntheticCase → Bool) (cases : List SyntheticCase)
      → count q (filter (λ c. not (p c)) cases) + count q (filter p cases) ≡ count q cases
  filter-count p q [] = omega arith
  filter-count p q (c ∷ cases) = ground (arith, filter-count p q cases)

  -- For a fraction strictly between 0 and 1 the split succeeds. Its two sides are the cases in the
  -- data set's order whose hash fraction is not below the fraction, and those whose is; and together
  -- they hold every case as often as the data set does.
  pub held_out_split-partition :
      (d : Dataset)
      → 0 < fraction
      → fraction < float_one
      → (development held_out : List SyntheticCase) × (held_out_split hash_fraction d fraction
          ≡ some (development, held_out))
        × (development ≡ filter (λ c. not (ltb (hash_fraction c.input.case_id) fraction)) d.cases)
        × (held_out ≡ filter (λ c. ltb (hash_fraction c.input.case_id) fraction) d.cases)
        × ((q : SyntheticCase → Bool) → count q development + count q held_out ≡ count q d.cases)
  unfolding held_out_split
  held_out_split-partition d above below =
      let held = is_held_out hash_fraction fraction in
      (
        filter (λ c. not (held c)) d.cases,
        filter held d.cases,
        ground (arith, split_cases-filter d.cases),
        refl,
        refl,
        (λ q. filter-count held q d.cases),
      )
