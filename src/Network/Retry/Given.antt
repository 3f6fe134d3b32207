-- ===== src/Network/Retry/Given.antt =====
-- The retry ladder: what a run gives, beside what its attempts return.
use rubigram.Base.{leb, Bool-cases, ℕ, zero, suc, inl, inr, Bool, not, ◌||◌}
use rubigram.Network.Retry.{
  RetryPolicy, retries, attempts, Attempt, returned, cancelled, failed, Ending, gave, was_cancelled,
  raised, fell_through, Run, after_sleep, after_attempt, run_from, run_with_retries,
}

abbrev pub Gives : {E A : Type 0} → (A → Type 0) → Ending E A → Type 0
Gives P (gave a) = P a
Gives P was_cancelled = Unit
Gives P (raised e) = Unit
Gives P fell_through = Unit

abbrev pub Returns : {E A : Type 0} → (A → Type 0) → Attempt E A → Type 0
Returns P (returned a) = P a
Returns P cancelled = Unit
Returns P (failed e) = Unit

module _ {E A S : Type 0} (p : RetryPolicy) (retryable : E → Bool)
    (attempt : ℕ → S → Attempt E A × S) (on_retry : ℕ → E → S → S) (P : A → Type 0)
    (attempt-Returns : (i : ℕ) (s : S) → Returns P (attempt i s).0) where
  after-Gives :
      (i : ℕ) (rest : E → S → Run E A S) (x : Attempt E A × S)
      → Returns P x.0
      → ((e : E) (s : S) → Gives P (rest e s).ending)
      → Gives P (after_attempt p retryable attempt on_retry i rest x).ending
  unfolding after_attempt after_sleep
  after-Gives i rest (returned a, s) h gives = h
  after-Gives i rest (cancelled, s) h gives = tt
  after-Gives i rest (failed e, s) h gives =
      elim (Bool-cases (leb (retries p) i || not (retryable e))) [
        | inl t ↦ rw (t, after_attempt) tt
        | inr t ↦ rw (t, after_attempt) (gives e s)
      ]

  run_from-Gives :
      (left i : ℕ) (s : S) → Gives P (run_from p retryable attempt on_retry left i s).ending
  unfolding run_from
  run_from-Gives zero i s = tt
  run_from-Gives (suc left) i s =
      after-Gives i _ (attempt i s) (attempt-Returns i s)
        (λ e t. run_from-Gives left (suc i) (on_retry i e t))

  pub run_with_retries-Gives :
      (s : S) → Gives P (run_with_retries p retryable attempt on_retry s).ending
  unfolding run_with_retries
  run_with_retries-Gives s = run_from-Gives (attempts p) 0 s
