-- ===== src/Network/Retry/Waits.antt =====
-- The retry ladder: what a run sleeps until an attempt returns.
use mathlib.Core.Path.{subst}
use rubigram.Base.{
  length, get_elem?, min, filter, ◌∙◌, ltb, leb, if◌then◌else◌, ℕ, zero, suc, ◌+◌, ◌-◌, ◌≤◌, ◌<◌,
  ◌≡◌, refl, ap, Bool, true, false, not, ◌||◌, List, [], ◌∷◌, arith,
}
use rubigram.Network.Retry.{
  RetryPolicy, retries, attempts, delay_or_zero, delay_for, Attempt, returned, cancelled, failed,
  gave, Run, after_sleep, after_attempt, run_from, run_with_retries,
}

-- The delays of a ladder, one after another; the last one is repeated, and no ladder has none.
pub ladder : List ℕ → ℕ → List ℕ
ladder [] k = []
ladder (d ∷ ds) zero = []
ladder (d ∷ []) (suc k) = d ∷ ladder (d ∷ []) k
ladder (d ∷ e ∷ ds) (suc k) = d ∷ ladder (e ∷ ds) k

-- The delays before `k` retries from the index `i` on, without those that are zero.
waits : RetryPolicy → ℕ → ℕ → List ℕ
waits p i zero = []
waits p i (suc k) =
    let rest = waits p (suc i) k in if ltb 0 (delay_for p i) then delay_for p i ∷ rest else rest

abbrev with_delays : RetryPolicy → List ℕ → RetryPolicy
with_delays p ds = record p { delays = ds }

delay_for-last : (p : RetryPolicy) (d i : ℕ) → delay_for (with_delays p (d ∷ [])) i ≡ d
unfolding delay_for
delay_for-last p d i = let e : min i 0 ≡ 0 = omega arith in rw e

delay_for-later :
    (p : RetryPolicy) (d e i : ℕ) (ds : List ℕ)
    → delay_for (with_delays p (d ∷ e ∷ ds)) (suc i) ≡ delay_for (with_delays p (e ∷ ds)) i
unfolding delay_for
delay_for-later p d e i ds =
    let q : min (suc i) (length (d ∷ e ∷ ds) - 1) ≡ suc (min i (length (e ∷ ds) - 1)) =
      omega arith in
    ap (λ n. delay_or_zero (get_elem? (d ∷ e ∷ ds) n)) q

waits-last :
    (p : RetryPolicy) (d i k : ℕ)
    → waits (with_delays p (d ∷ [])) i k ≡ filter (λ x. ltb 0 x) (ladder (d ∷ []) k)
unfolding waits ladder
waits-last p d i zero = refl
waits-last p d i (suc k) =
    rw (delay_for-last p d i) (ap (λ xs. if ltb 0 d then d ∷ xs else xs) (waits-last p d (suc i) k))

waits-later :
    (p : RetryPolicy) (d e i k : ℕ) (ds : List ℕ)
    → waits (with_delays p (d ∷ e ∷ ds)) (suc i) k ≡ waits (with_delays p (e ∷ ds)) i k
unfolding waits
waits-later p d e i zero ds = refl
waits-later p d e i (suc k) ds =
    rw (delay_for-later p d e i ds, waits-later p d e (suc i) k ds) refl

waits-none : (p : RetryPolicy) (i k : ℕ) → waits (with_delays p []) i k ≡ []
unfolding waits delay_for
waits-none p i zero = refl
waits-none p i (suc k) = waits-none p (suc i) k

delay_for-first : (p : RetryPolicy) (d : ℕ) (ds : List ℕ) → delay_for (with_delays p (d ∷ ds)) 0 ≡ d
unfolding delay_for
delay_for-first p d ds = let e : min 0 (suc (length ds) - 1) ≡ 0 = omega arith in rw e

waits-ladder :
    (p : RetryPolicy) (ds : List ℕ) (k : ℕ)
    → waits (with_delays p ds) 0 k ≡ filter (λ x. ltb 0 x) (ladder ds k)
unfolding waits ladder
waits-ladder p [] k = waits-none p 0 k
waits-ladder p (d ∷ []) k = waits-last p d 0 k
waits-ladder p (d ∷ e ∷ ds) zero = refl
waits-ladder p (d ∷ e ∷ ds) (suc k) = rw (delay_for-first p d (e ∷ ds)) (
    ap (λ xs. if ltb 0 d then d ∷ xs else xs)
      (waits-later p d e 0 k ds ∙ waits-ladder p (e ∷ ds) k))

module _ {E A S : Type 0} (p : RetryPolicy) (retryable : E → Bool)
    (attempt : ℕ → S → Attempt E A × S) (on_retry : ℕ → E → S → S) where
  Succeeds : A → ℕ → ℕ → Run E A S → Type 0
  Succeeds a i k r = (r.ending ≡ gave a) × (r.tries ≡ suc k) × (r.slept ≡ waits p i k)

  unfoldable pub IsRetryable : Attempt E A → Type 0
  IsRetryable (returned a) = ⊥
  IsRetryable cancelled = ⊥
  IsRetryable (failed e) = retryable e ≡ true

  returned-Succeeds :
      (a : A) (i : ℕ) (rest : E → S → Run E A S) (x : Attempt E A × S)
      → x.0 ≡ returned a
      → Succeeds a i 0 (after_attempt p retryable attempt on_retry i rest x)
  unfolding after_attempt Succeeds waits
  returned-Succeeds a i rest (returned b, s) e = (cc, refl, refl)
  returned-Succeeds a i rest (cancelled, s) e = absurd (cc)
  returned-Succeeds a i rest (failed b, s) e = absurd (cc)

  failed-Succeeds :
      (a : A) (i k : ℕ) (rest : E → S → Run E A S) (x : Attempt E A × S)
      → suc i + k ≤ retries p
      → IsRetryable x.0
      → ((e : E) (s : S) → Succeeds a (suc i) k (rest e s))
      → Succeeds a i (suc k) (after_attempt p retryable attempt on_retry i rest x)
  unfolding after_attempt after_sleep Succeeds waits IsRetryable
  failed-Succeeds a i k rest (returned b, s) le e h = elim e [ ]
  failed-Succeeds a i k rest (cancelled, s) le e h = elim e [ ]
  failed-Succeeds a i k rest (failed b, s) le e h =
      let r = h b s in
      rw (going, after_attempt)
        (r.0, ap suc r.1, ap (λ xs. if ltb 0 (delay_for p i) then delay_for p i ∷ xs else xs) r.2)
    where
      going : (leb (retries p) i || not (retryable b)) ≡ false
      going = ground (arith, le, e)

  run_from-Succeeds :
      (a : A) (left i k : ℕ) (s : S)
      → i + k ≤ retries p
      → left + i ≡ retries p
      → ((j : ℕ) (t : S) → j < i + k → IsRetryable (attempt j t).0)
      → ((t : S) → (attempt (i + k) t).0 ≡ returned a)
      → Succeeds a i k (run_from p retryable attempt on_retry (suc left) i s)
  unfolding run_from
  run_from-Succeeds a left i zero s le e bad good =
      returned-Succeeds a i _ (attempt i s)
        (subst (λ n. (attempt n s).0 ≡ returned a) (omega arith) (good s))
  run_from-Succeeds a zero i (suc k) s le e bad good = absurd (omega (arith, le, e))
  run_from-Succeeds a (suc left) i (suc k) s le e bad good =
      failed-Succeeds a i k _ (attempt i s) (omega (arith, le)) (bad i s (omega arith)) (λ x t.
        run_from-Succeeds a left (suc i) k (on_retry i x t) (omega (arith, le)) (omega (arith, e))
          (λ j u lt. bad j u (omega (arith, lt)))
          (λ u. subst (λ n. (attempt n u).0 ≡ returned a) (omega arith) (good u)))

  -- Suppose that the first `k` attempts fail in a way that may be retried, and that the next one
  -- returns, whatever the state; and that the policy has `k` retries at least. Then the run gives what
  -- was returned, after `k + 1` attempts, and has slept the first `k` delays of the ladder that are
  -- not zero, in order.
  pub run_with_retries-waits :
      (a : A) (k : ℕ) (s : S)
      → k ≤ retries p
      → ((j : ℕ) (t : S) → j < k → IsRetryable (attempt j t).0)
      → ((t : S) → (attempt k t).0 ≡ returned a)
      → let r = run_with_retries p retryable attempt on_retry s in
        (r.ending ≡ gave a)
        × (r.tries ≡ suc k)
        × (r.slept ≡ filter (λ x. ltb 0 x) (ladder p.delays k))
  unfolding run_with_retries attempts Succeeds
  run_with_retries-waits a k s le bad good =
      let r =
        run_from-Succeeds a (retries p) 0 k s (omega (arith, le)) (omega arith)
          (λ j t lt. bad j t (omega (arith, lt)))
          (λ t. subst (λ n. (attempt n t).0 ≡ returned a) (omega arith) (good t)) in
      (r.0, r.1, r.2 ∙ waits-ladder p p.delays k)
