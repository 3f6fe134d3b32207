-- ===== src/Network/Pool/Rounds.antt =====
-- Rotations of a pool: they go round.
use native.Mathlib.Nat.{mod-add-mod, add-mod_right, mod-eq_of_lt}
use rubigram.Base.{
  length, ℕ, zero, suc, ◌+◌, ◌%◌, ◌≤◌, String, ◌≡◌, refl, sym, ap, ◌∙◌, List, [], ◌∷◌, arith,
}
use rubigram.Network.Pool.{UrlPool, force_rotate}
use rubigram.Network.Pool.Laws.{IsInRange}

-- `k` calls of `force_rotate`.
pub rotations : ℕ → ℕ → UrlPool → UrlPool
rotations now zero p = p
rotations now (suc k) p = (force_rotate now (rotations now k p)).1

rotations-urls : (now k : ℕ) (p : UrlPool) → (rotations now k p).urls ≡ p.urls
unfolding rotations force_rotate
rotations-urls now zero p = refl
rotations-urls now (suc k) p = go (rotations now k p).urls refl ∙ rotations-urls now k p
  where
    go :
        (us : List String)
        → (rotations now k p).urls ≡ us
        → (force_rotate now (rotations now k p)).1.urls ≡ (rotations now k p).urls
    go [] e = rw (e, force_rotate) e
    go (u ∷ us) e = rw (e, force_rotate) e

next_index :
    (now : ℕ) (p : UrlPool)
    → 1 ≤ length p.urls
    → (force_rotate now p).1.current_index ≡ (p.current_index + 1) % length p.urls
unfolding force_rotate
next_index now p some_ = go p.urls refl
  where
    go :
        (us : List String)
        → p.urls ≡ us
        → (force_rotate now p).1.current_index ≡ (p.current_index + 1) % length p.urls
    go [] e = absurd (omega (arith, some_, empty))
      where
        empty : length p.urls ≡ 0
        empty = rw e refl
    go (u ∷ us) e = rw (e, force_rotate) (ap (λ xs. (p.current_index + 1) % length xs) e)

rotations-index :
    (now k : ℕ) (p : UrlPool)
    → IsInRange p
    → 1 ≤ length p.urls
    → (rotations now k p).current_index ≡ (p.current_index + k) % length p.urls
unfolding rotations
rotations-index now zero p h some_ =
    sym (ap (λ i. i % length p.urls) nothing ∙ mod-eq_of_lt (omega (arith, h, some_)))
  where
    nothing : p.current_index + 0 ≡ p.current_index
    nothing = omega arith
rotations-index now (suc k) p h some_ =
    let size : length (rotations now k p).urls ≡ length p.urls =
      ap (λ us. length us) (rotations-urls now k p) in
    next_index now (rotations now k p) (omega (arith, size, some_))
    ∙ (ap (λ n. ((rotations now k p).current_index + 1) % n) size
        ∙ (ap (λ i. (i + 1) % length p.urls) (rotations-index now k p h some_)
            ∙ (mod-add-mod (p.current_index + k) (length p.urls) 1
                ∙ ap (λ i. i % length p.urls) (omega arith))))

-- After `k` rotations of a pool that is not empty, the URL in use is `k` places on, going round; as
-- many rotations as there are URLs lead back to the same one.
pub force_rotate_round :
    (now k : ℕ) (p : UrlPool)
    → IsInRange p
    → 1 ≤ length p.urls
    → ((rotations now k p).current_index ≡ (p.current_index + k) % length p.urls)
      × ((rotations now (length p.urls) p).current_index ≡ p.current_index)
force_rotate_round now k p h some_ = (
  rotations-index now k p h some_,
  rotations-index now (length p.urls) p h some_
      ∙ (add-mod_right p.current_index (length p.urls) ∙ mod-eq_of_lt (omega (arith, h, some_))),
)
