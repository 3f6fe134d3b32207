-- ===== src/Base/Leading.antt =====
-- Lists in which the elements that satisfy a test stand in front.
use Prim.Native.Nat.{ℕ, zero, suc, ◌-◌, ◌≤◌}
use mathlib.Core.Path.{◌≡◌, refl}
use mathlib.Core.Logic.{inl, inr}
use mathlib.Core.Bool.{Bool, true, false}
use mathlib.Core.List.{List, [], ◌∷◌}
use native.Mathlib.Omega.{arith}
use rubigram.Base.Tests.{Bool-cases}
use rubigram.Base.Lists.{take, drop, count, All}
use rubigram.Base.Sort.{insert, sort, count-insert}

module _ {ℓ} {A : Type ℓ} where
  -- After an element that fails the test, all fail it.
  abbrev pub Leading : (A → Bool) → List A → Type 0
  Leading p [] = Unit
  Leading p (x ∷ xs) = (p x ≡ false → count p xs ≡ 0) × Leading p xs

  pub count-drop :
      (p : A → Bool) (n : ℕ) (xs : List A) → Leading p xs → count p (drop n xs) ≡ count p xs - n
  count-drop p zero xs h = omega arith
  count-drop p (suc n) [] h = omega arith
  count-drop p (suc n) (x ∷ xs) h = ground (arith, h.0, count-drop p n xs h.1)

  pub All-take-Leading :
      (p : A → Bool) (n : ℕ) (xs : List A)
      → Leading p xs
      → n ≤ count p xs
      → All (λ x. p x ≡ true) (take n xs)
  All-take-Leading p zero xs h le = tt
  All-take-Leading p (suc n) [] h le = tt
  All-take-Leading p (suc n) (x ∷ xs) h le = elim (Bool-cases (p x)) [
    | inl t ↦ (t, All-take-Leading p n xs h.1 (ground arith))
    | inr u ↦ absurd (ground (arith, h.0 u))
  ]

  -- An order that puts what satisfies the test before what does not.
  module _ (before : A → A → Bool) (p : A → Bool)
      (first : (x y : A) → p x ≡ true → p y ≡ false → before x y ≡ true)
      (last : (x y : A) → p x ≡ true → p y ≡ false → before y x ≡ false) where
    insert-Leading : (x : A) (ys : List A) → Leading p ys → Leading p (insert before x ys)
    unfolding insert
    insert-Leading x [] h = (λ _. refl, tt)
    insert-Leading x (y ∷ ys) h = elim (Bool-cases (before y x)) [
      | inl e ↦ rw e (
        λ out. ground (arith, count-insert before p x ys, h.0 out, last x y),
        insert-Leading x ys h.1,
      )
      | inr e ↦ rw e (λ out. ground (arith, first y x, h.0), h)
    ]

    pub sort-Leading : (xs : List A) → Leading p (sort before xs)
    unfolding sort
    sort-Leading [] = tt
    sort-Leading (x ∷ xs) = insert-Leading x (sort before xs) (sort-Leading xs)

  pub count-same :
      (p q : A → Bool) (xs : List A) → All (λ x. p x ≡ q x) xs → count p xs ≡ count q xs
  count-same p q [] h = refl
  count-same p q (x ∷ xs) h = ground (arith, h.0, count-same p q xs h.1)
