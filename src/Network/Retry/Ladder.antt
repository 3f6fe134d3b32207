-- ===== src/Network/Retry/Ladder.antt =====
-- The retry ladder: how often a request is tried, and how a run ends.
use mathlib.Core.Path.{subst}
use rubigram.Base.{
  ltb, leb, if◌then◌else◌, Bool-cases, length, ℕ, zero, suc, ◌+◌, ◌-◌, ◌≤◌, ◌≡◌, inl, inr, Bool,
  true, false, not, ◌||◌, ◌∷◌, arith,
}
use rubigram.Network.Retry.{
  RetryPolicy, retries, attempts, delay_for, Attempt, returned, cancelled, failed, Ending, gave,
  was_cancelled, raised, fell_through, Run, after_sleep, after_attempt, run_from, run_with_retries,
}

abbrev pub IsEnded : {E A : Type 0} → Ending E A → Type 0
IsEnded fell_through = ⊥
IsEnded (gave a) = Unit
IsEnded was_cancelled = Unit
IsEnded (raised e) = Unit

module _ {E A S : Type 0} (p : RetryPolicy) (retryable : E → Bool)
    (attempt : ℕ → S → Attempt E A × S) (on_retry : ℕ → E → S → S) where
  run : ℕ → ℕ → S → Run E A S
  run = run_from p retryable attempt on_retry

  pub InLadder : ℕ → Run E A S → Type 0
  InLadder left r =
      IsEnded r.ending × (1 ≤ r.tries) × (r.tries ≤ suc left) × (length r.slept ≤ r.tries - 1)

  after-InLadder :
      (left index : ℕ) (rest : E → S → Run E A S) (x : Attempt E A × S)
      → left + index ≡ retries p
      → ((e : E) (s : S) (k : ℕ) → suc k ≡ left → InLadder k (rest e s))
      → InLadder left (after_attempt p retryable attempt on_retry index rest x)
  unfolding after_attempt after_sleep InLadder
  after-InLadder left index rest (returned a, s) e h = (tt, omega arith, omega arith, omega arith)
  after-InLadder left index rest (cancelled, s) e h = (tt, omega arith, omega arith, omega arith)
  after-InLadder left index rest (failed x, s) e h =
      elim (Bool-cases (leb (retries p) index || not (retryable x))) [
        | inl t ↦ rw (t, after_attempt) (tt, omega arith, omega arith, omega arith)
        | inr t ↦
            let some_ : 1 ≤ left = ground (arith, e) in
            let r = h x s (left - 1) (omega (arith, some_)) in
            rw (t, after_attempt)
              (
                r.0,
                omega arith,
                omega (arith, r.2, some_),
                slept_bound (ltb 0 (delay_for p index)) (rest x s) r.1 r.3,
              )
      ]
    where
      slept_bound :
          (b : Bool) (r : Run E A S)
          → 1 ≤ r.tries
          → length r.slept ≤ r.tries - 1
          → length (if b then delay_for p index ∷ r.slept else r.slept) ≤ suc r.tries - 1
      slept_bound true r one h = omega (arith, h, one)
      slept_bound false r one h = omega (arith, h, one)

  run_from-InLadder :
      (left index : ℕ) (s : S) → left + index ≡ retries p → InLadder left (run (suc left) index s)
  unfolding run run_from
  run_from-InLadder zero index s e =
      after-InLadder zero index _ (attempt index s) e (λ x t k le. absurd (omega (arith, le)))
  run_from-InLadder (suc left) index s e =
      after-InLadder (suc left) index _ (attempt index s) e (λ x t k le.
        subst
          (λ n.
            InLadder n
              (run_from p retryable attempt on_retry (suc left) (suc index) (on_retry index x t)))
          (omega (arith, le))
          (run_from-InLadder left (suc index) (on_retry index x t) (omega (arith, e))))

  -- A run never falls through its loop. It makes one attempt at least and, at most, one more than the
  -- policy has retries; it sleeps at most once between two attempts.
  pub run_with_retries-InLadder :
      (s : S)
      → let r = run_with_retries p retryable attempt on_retry s in
        IsEnded r.ending × (1 ≤ r.tries) × (r.tries ≤ attempts p) × (length r.slept ≤ r.tries - 1)
  unfolding run_with_retries attempts run InLadder
  run_with_retries-InLadder s = run_from-InLadder (retries p) 0 s (omega arith)
