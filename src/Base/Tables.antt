-- ===== src/Base/Tables.antt =====
-- Database tables as lists of rows: a query set is a filter, an update rewrites the rows it selects.
use Prim.Native.Nat.{suc, ◌+◌, ◌≤◌}
use mathlib.Core.Path.{◌≡◌, refl, ap, subst}
use mathlib.Core.Bool.{Bool, true, false, ◌||◌}
use mathlib.Core.List.{List, [], ◌∷◌, ◌++◌}
use native.Mathlib.Omega.{arith}
use rubigram.Base.Tests.{if◌then◌else◌, Bool-cases}
use mathlib.Core.Logic.{inl, inr}
use mathlib.Core.Option.{some}
use rubigram.Base.Lists.{length, any, find?, count, All}

module _ {ℓ} {A : Type ℓ} where
  -- `QuerySet.filter(p).update(f)`
  abbrev pub update_where : (A → Bool) → (A → A) → List A → List A
  update_where p f [] = []
  update_where p f (x ∷ xs) = (if p x then f x else x) ∷ update_where p f xs

  pub length-update_where :
      (p : A → Bool) (f : A → A) (xs : List A) → length (update_where p f xs) ≡ length xs
  length-update_where p f [] = refl
  length-update_where p f (x ∷ xs) = ap suc (length-update_where p f xs)

  pub count-append : (p : A → Bool) (xs ys : List A) → count p (xs ++ ys) ≡ count p xs + count p ys
  count-append p [] ys = omega arith
  count-append p (x ∷ xs) ys = omega (arith, count-append p xs ys)

  pub count-le-length : (p : A → Bool) (xs : List A) → count p xs ≤ length xs
  count-le-length p [] = omega arith
  count-le-length p (x ∷ xs) = ground (arith, count-le-length p xs)

  -- An update that does not change the test `q` changes no count of it.
  pub count-update_where_eq :
      (q p : A → Bool) (f : A → A) (xs : List A)
      → ((x : A) → q (f x) ≡ q x)
      → count q (update_where p f xs) ≡ count q xs
  count-update_where_eq q p f [] h = refl
  count-update_where_eq q p f (x ∷ xs) h = ground (arith, h x, count-update_where_eq q p f xs h)

  -- An update that makes the test `q` true of no new row does not raise its count.
  pub count-update_where_le :
      (q p : A → Bool) (f : A → A) (xs : List A)
      → ((x : A) → q (f x) ≡ true → q x ≡ true)
      → count q (update_where p f xs) ≤ count q xs
  count-update_where_le q p f [] h = omega arith
  count-update_where_le q p f (x ∷ xs) h = ground (arith, h x, count-update_where_le q p f xs h)

  pub All-update_where {κ μ} :
      {P : A → Type κ} {Q : A → Type μ} (p : A → Bool) (f : A → A) (xs : List A)
      → ((x : A) → P x → p x ≡ true → Q (f x))
      → ((x : A) → P x → p x ≡ false → Q x)
      → All P xs
      → All Q (update_where p f xs)
  All-update_where p f [] hit miss h = tt
  All-update_where {P = P} {Q = Q} p f (x ∷ xs) hit miss h =
      (here (p x) refl, All-update_where p f xs hit miss h.1)
    where
      here : (b : Bool) → p x ≡ b → Q (if b then f x else x)
      here true e = hit x h.0 e
      here false e = miss x h.0 e

  pub any-false-count : (p : A → Bool) (xs : List A) → any p xs ≡ false → count p xs ≡ 0
  any-false-count p [] h = refl
  any-false-count p (x ∷ xs) h = ground (arith, any-false-count p xs)

  -- An update of no row is none.
  pub update_where_none :
      (p : A → Bool) (f : A → A) (xs : List A) → count p xs ≡ 0 → update_where p f xs ≡ xs
  update_where_none p f [] h = refl
  update_where_none p f (x ∷ xs) h = ground (arith, update_where_none p f xs)

  pub count-update_where_each :
      (q p : A → Bool) (f : A → A) (xs : List A)
      → All (λ x. p x ≡ true → q (f x) ≡ true → q x ≡ true) xs
      → count q (update_where p f xs) ≤ count q xs
  count-update_where_each q p f [] h = omega arith
  count-update_where_each q p f (x ∷ xs) h =
      ground (arith, h.0, count-update_where_each q p f xs h.1)

  -- Where a test holds of one row at most, the row that a lookup finds is the only one.
  pub found-only :
      (p : A → Bool) (xs : List A) (x : A)
      → count p xs ≤ 1
      → find? p xs ≡ some x
      → All (λ y. p y ≡ true → y ≡ x) xs
  found-only p [] x u e = tt
  found-only p (y ∷ ys) x u e = elim (Bool-cases (p y)) [
    | inl same ↦ (λ h. ground arith, none_left ys (ground arith))
    | inr other ↦ (λ h. cc, found-only p ys x (ground arith) (rw other at e))
  ]
    where
      none_left : (zs : List A) → count p zs ≡ 0 → All (λ z. p z ≡ true → z ≡ x) zs
      none_left [] h = tt
      none_left (z ∷ zs) h = (λ h'. absurd (ground arith), none_left zs (ground arith))

  pub find?-holds : (p : A → Bool) (xs : List A) (x : A) → find? p xs ≡ some x → p x ≡ true
  find?-holds p [] x e = cc
  find?-holds p (y ∷ ys) x e = elim (Bool-cases (p y)) [
    | inl same ↦ ground arith
    | inr other ↦ find?-holds p ys x (rw other at e)
  ]

  -- A row that a lookup finds is counted; where none is counted, none satisfies the test.
  pub count-found : (p : A → Bool) (xs : List A) (x : A) → find? p xs ≡ some x → 1 ≤ count p xs
  count-found p [] x e = cc
  count-found p (y ∷ ys) x e = elim (Bool-cases (p y)) [
    | inl same ↦ ground arith
    | inr other ↦ ground (arith, count-found p ys x (rw other at e))
  ]

  pub All-none : (p : A → Bool) (xs : List A) → count p xs ≡ 0 → All (λ x. p x ≡ false) xs
  All-none p [] h = tt
  All-none p (x ∷ xs) h = elim (Bool-cases (p x)) [
    | inl yes_ ↦ absurd (ground arith)
    | inr no_ ↦ (no_, All-none p xs (ground arith))
  ]

  -- What holds of every row holds of the one found.
  pub All-found {κ} :
      (P : A → Type κ) (p : A → Bool) (xs : List A) (x : A) → All P xs → find? p xs ≡ some x → P x
  All-found P p [] x h e = absurd (cc)
  All-found P p (y ∷ ys) x h e = elim (Bool-cases (p y)) [
    | inl same ↦ subst P (ground arith) h.0
    | inr other ↦ All-found P p ys x h.1 (rw other at e)
  ]

  pub All-always {κ} : (P : A → Type κ) (xs : List A) → ((x : A) → P x) → All P xs
  All-always P [] h = tt
  All-always P (x ∷ xs) h = (h x, All-always P xs h)

  -- The row that a lookup finds is found after an update of the rows that it looks for.
  pub find?-update_where :
      (p : A → Bool) (f : A → A) (xs : List A) (x : A)
      → ((y : A) → p (f y) ≡ p y)
      → find? p xs ≡ some x
      → find? p (update_where p f xs) ≡ some (f x)
  find?-update_where p f [] x same e = absurd (cc)
  find?-update_where p f (y ∷ ys) x same e = elim (Bool-cases (p y)) [
    | inl t ↦ rw (t, same y, t) (found f y x (rw t at e))
    | inr u ↦ rw (u, u) (find?-update_where p f ys x same (rw u at e))
  ]
    where
      found : (f : A → A) (y x : A) → some y ≡ some x → some (f y) ≡ some (f x)
      found f y x e = cc

  pub find?-some : (p : A → Bool) (xs : List A) → any p xs ≡ true → (x : A) × (find? p xs ≡ some x)
  find?-some p [] h = absurd (cc)
  find?-some p (y ∷ ys) h = elim (Bool-cases (p y)) [
    | inl t ↦ (y, rw t refl)
    | inr u ↦ rw u (find?-some p ys (rw u at h))
  ]

  pub any-append-last :
      (p : A → Bool) (xs : List A) (x : A) → p x ≡ true → any p (xs ++ x ∷ []) ≡ true
  any-append-last p [] x h = ground arith
  any-append-last p (y ∷ ys) x h = ground (arith, any-append-last p ys x h)

  pub any-append-one :
      (p : A → Bool) (xs : List A) (x : A) → any p (xs ++ x ∷ []) ≡ (any p xs || p x)
  any-append-one p [] x = ground arith
  any-append-one p (y ∷ ys) x = ground (arith, any-append-one p ys x)

  -- An update of other rows leaves what a lookup finds.
  pub find?-update_other :
      (q p : A → Bool) (f : A → A) (xs : List A)
      → ((y : A) → p y ≡ true → (q y ≡ false) × (q (f y) ≡ false))
      → find? q (update_where p f xs) ≡ find? q xs
  find?-update_other q p f [] h = refl
  find?-update_other q p f (y ∷ ys) h = elim (Bool-cases (p y)) [
    | inl e ↦ rw (e, (h y e).0, (h y e).1) (find?-update_other q p f ys h)
    | inr e ↦ rw e (ap (λ o. if q y then some y else o) (find?-update_other q p f ys h))
  ]
