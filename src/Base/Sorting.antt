-- ===== src/Base/Sorting.antt =====
-- What `sort_by` of Base/Lists gives: a list in order, with every item as often as before.
use Prim.Native.Nat.{ℕ, ◌+◌, ◌≤◌}
use mathlib.Core.Path.{◌≡◌, refl}
use mathlib.Core.Bool.{Bool}
use mathlib.Core.List.{List, [], ◌∷◌}
use mathlib.Core.Logic.{inl, inr}
use native.Mathlib.Omega.{arith}
use revenue_ai.Base.Tests.{if◌then◌else◌, leb, Bool-cases}
use revenue_ai.Base.Lists.{insert_by, sort_by, count, All}

module _ {A : Type 0} (key : A → ℕ) where
  abbrev pub no_later : A → A → Bool
  no_later a b = leb (key a) (key b)

  abbrev pub IsSorted : List A → Type 0
  IsSorted [] = Unit
  IsSorted (x ∷ xs) = All (λ y. key x ≤ key y) xs × IsSorted xs

  All-weaken :
      (low high : ℕ) (xs : List A)
      → low ≤ high
      → All (λ y. high ≤ key y) xs
      → All (λ y. low ≤ key y) xs
  All-weaken low high [] le h = tt
  All-weaken low high (x ∷ xs) le h = (omega (arith, h.0), All-weaken low high xs le h.1)

  All-insert_by :
      (low : ℕ) (a : A) (xs : List A)
      → low ≤ key a
      → All (λ y. low ≤ key y) xs
      → All (λ y. low ≤ key y) (insert_by no_later a xs)
  All-insert_by low a [] le h = (le, tt)
  All-insert_by low a (x ∷ xs) le h = elim (Bool-cases (no_later a x)) [
    | inl before ↦ rw before (le, h)
    | inr after ↦ rw after (h.0, All-insert_by low a xs le h.1)
  ]

  insert_by-IsSorted : (a : A) (xs : List A) → IsSorted xs → IsSorted (insert_by no_later a xs)
  insert_by-IsSorted a [] h = (tt, tt)
  insert_by-IsSorted a (x ∷ xs) h = elim (Bool-cases (no_later a x)) [
    | inl before ↦
        let le : key a ≤ key x = ground arith in
        rw before ((le, All-weaken (key a) (key x) xs le h.0), h)
    | inr after ↦
        let le : key x ≤ key a = ground arith in
        rw after (All-insert_by (key x) a xs le h.0, insert_by-IsSorted a xs h.1)
  ]

  pub sort_by-IsSorted : (xs : List A) → IsSorted (sort_by no_later xs)
  sort_by-IsSorted [] = tt
  sort_by-IsSorted (x ∷ xs) = insert_by-IsSorted x (sort_by no_later xs) (sort_by-IsSorted xs)

  count-insert_by :
      (p : A → Bool) (a : A) (xs : List A)
      → count p (insert_by no_later a xs) ≡ (if p a then 1 else 0) + count p xs
  count-insert_by p a [] = omega arith
  count-insert_by p a (x ∷ xs) = elim (Bool-cases (no_later a x)) [
    | inl before ↦ rw before refl
    | inr after ↦ rw after (omega (arith, count-insert_by p a xs))
  ]

  pub count-sort_by : (p : A → Bool) (xs : List A) → count p (sort_by no_later xs) ≡ count p xs
  count-sort_by p [] = refl
  count-sort_by p (x ∷ xs) =
      omega (arith, count-insert_by p x (sort_by no_later xs), count-sort_by p xs)
