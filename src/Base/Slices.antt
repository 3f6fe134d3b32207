-- ===== src/Base/Slices.antt =====
-- Lists: what `take` and `drop` make of each other.
use Prim.Native.Nat.{ℕ, zero, suc, ◌+◌, ◌≤◌}
use mathlib.Core.Path.{◌≡◌, refl, ap, sym, ◌∙◌}
use mathlib.Core.List.{List, [], ◌∷◌, ◌++◌}
use native.Mathlib.Omega.{arith}
use rubigram.Base.Lists.{length, take, drop}

module _ {ℓ} {A : Type ℓ} where
  take_nil : (n : ℕ) → take {A = A} n [] ≡ []
  take_nil zero = refl
  take_nil (suc n) = refl

  drop_nil : (n : ℕ) → drop {A = A} n [] ≡ []
  drop_nil zero = refl
  drop_nil (suc n) = refl

  pub take-append-drop : (m n : ℕ) (xs : List A) → take m xs ++ take n (drop m xs) ≡ take (m + n) xs
  take-append-drop zero n xs = ap (λ (k : ℕ). take k xs) (omega arith)
  take-append-drop (suc m) zero [] = sym (take_nil (suc m + 0))
  take-append-drop (suc m) (suc n) [] = sym (take_nil (suc m + suc n))
  take-append-drop (suc m) n (x ∷ xs) =
      ap (λ (ys : List A). x ∷ ys) (take-append-drop m n xs) ∙ ap (λ (k : ℕ). take k (x ∷ xs)) shift
    where
      shift : suc (m + n) ≡ suc m + n
      shift = omega arith

  pub drop-drop : (m n : ℕ) (xs : List A) → drop n (drop m xs) ≡ drop (m + n) xs
  drop-drop zero n xs = ap (λ (k : ℕ). drop k xs) same
    where
      same : n ≡ 0 + n
      same = omega arith
  drop-drop (suc m) n [] = drop_nil n ∙ sym (drop_nil (suc m + n))
  drop-drop (suc m) n (x ∷ xs) = drop-drop m n xs ∙ ap (λ (k : ℕ). drop k (x ∷ xs)) shift
    where
      shift : suc (m + n) ≡ suc m + n
      shift = omega arith

  pub take_all : (n : ℕ) (xs : List A) → length xs ≤ n → take n xs ≡ xs
  take_all zero [] h = refl
  take_all zero (x ∷ xs) h = absurd (omega (arith, h))
  take_all (suc n) [] h = refl
  take_all (suc n) (x ∷ xs) h = ap (λ ys. x ∷ ys) (take_all n xs (omega (arith, h)))
