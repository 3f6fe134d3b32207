-- ===== src/Base/Sort.antt =====
-- `sorted(rows, key=…)`: a stable insertion sort, and what it keeps.
use rubigram.Base.Tests.{if◌then◌else◌, Bool-cases}
use rubigram.Base.Lists.{length, count, All}
use Prim.Native.Nat.{suc}
use mathlib.Core.Path.{◌≡◌, refl}
use mathlib.Core.Logic.{inl, inr}
use mathlib.Core.Bool.{Bool}
use mathlib.Core.List.{List, [], ◌∷◌}
use native.Mathlib.Omega.{arith}

module _ {ℓ} {A : Type ℓ} (before : A → A → Bool) where
  -- `x` goes in front of the first element that does not come before it.
  unfoldable pub insert : A → List A → List A
  insert x [] = x ∷ []
  insert x (y ∷ ys) = if before y x then y ∷ insert x ys else x ∷ y ∷ ys

  unfoldable pub sort : List A → List A
  sort [] = []
  sort (x ∷ xs) = insert x (sort xs)

  pub count-insert : (p : A → Bool) (x : A) (ys : List A) → count p (insert x ys) ≡ count p (x ∷ ys)
  unfolding insert
  count-insert p x [] = refl
  count-insert p x (y ∷ ys) = ground (arith, count-insert p x ys)

  -- Sorting keeps how many elements satisfy any test.
  pub count-sort : (p : A → Bool) (xs : List A) → count p (sort xs) ≡ count p xs
  unfolding sort
  count-sort p [] = refl
  count-sort p (x ∷ xs) = omega (arith, count-insert p x (sort xs), count-sort p xs)

  length-insert : (x : A) (ys : List A) → length (insert x ys) ≡ suc (length ys)
  unfolding insert
  length-insert x [] = refl
  length-insert x (y ∷ ys) = ground (arith, length-insert x ys)

  pub length-sort : (xs : List A) → length (sort xs) ≡ length xs
  unfolding sort
  length-sort [] = refl
  length-sort (x ∷ xs) = omega (arith, length-insert x (sort xs), length-sort xs)

  All-insert {κ} : (P : A → Type κ) (x : A) (ys : List A) → P x → All P ys → All P (insert x ys)
  unfolding insert
  All-insert P x [] h hs = (h, tt)
  All-insert P x (y ∷ ys) h hs = elim (Bool-cases (before y x)) [
    | inl e ↦ rw e (hs.0, All-insert P x ys h hs.1)
    | inr e ↦ rw e (h, hs)
  ]

  pub All-sort {κ} : (P : A → Type κ) (xs : List A) → All P xs → All P (sort xs)
  unfolding sort
  All-sort P [] h = tt
  All-sort P (x ∷ xs) h = All-insert P x (sort xs) h.0 (All-sort P xs h.1)
