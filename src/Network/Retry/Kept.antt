-- ===== src/Network/Retry/Kept.antt =====
-- The retry ladder: what attempts and `on_retry` keep, a run keeps.
use rubigram.Base.{leb, Bool-cases, ℕ, zero, suc, inl, inr, Bool, not, ◌||◌}
use rubigram.Network.Retry.{
  RetryPolicy, retries, attempts, Attempt, returned, cancelled, failed, Run, after_sleep,
  after_attempt, run_from, run_with_retries,
}

module _ {E A S : Type 0} (p : RetryPolicy) (retryable : E → Bool)
    (attempt : ℕ → S → Attempt E A × S) (on_retry : ℕ → E → S → S) (P : S → Type 0)
    (attempt-keeps : (i : ℕ) (s : S) → P s → P (attempt i s).1)
    (on_retry-keeps : (i : ℕ) (e : E) (s : S) → P s → P (on_retry i e s)) where
  after-keeps :
      (i : ℕ) (rest : E → S → Run E A S) (x : Attempt E A × S)
      → P x.1
      → ((e : E) (s : S) → P s → P (rest e s).state)
      → P (after_attempt p retryable attempt on_retry i rest x).state
  unfolding after_attempt after_sleep
  after-keeps i rest (returned a, s) h keeps = h
  after-keeps i rest (cancelled, s) h keeps = h
  after-keeps i rest (failed e, s) h keeps =
      elim (Bool-cases (leb (retries p) i || not (retryable e))) [
        | inl t ↦ rw (t, after_attempt) h
        | inr t ↦ rw (t, after_attempt) (keeps e s h)
      ]

  run_from-keeps :
      (left i : ℕ) (s : S) → P s → P (run_from p retryable attempt on_retry left i s).state
  unfolding run_from
  run_from-keeps zero i s h = h
  run_from-keeps (suc left) i s h =
      after-keeps i _ (attempt i s) (attempt-keeps i s h)
        (λ e t k. run_from-keeps left (suc i) (on_retry i e t) (on_retry-keeps i e t k))

  pub run_with_retries-keeps :
      (s : S) → P s → P (run_with_retries p retryable attempt on_retry s).state
  unfolding run_with_retries
  run_with_retries-keeps s h = run_from-keeps (attempts p) 0 s h
