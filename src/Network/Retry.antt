-- ===== src/Network/Retry.antt =====
-- rubigram/network/retry.py: `RetryPolicy` and `run_with_retries`.
use rubigram.Base.{
  ltb, leb, if◌then◌else◌, length, get_elem?, ℕ, zero, suc, ◌-◌, min, Bool, true, false, not, ◌||◌,
  Option, none, some, List, [], ◌∷◌,
}
use rubigram.Base.Int.{ℤ, pos, clamp, min_ℤ}
pub mod Kept
pub mod Given
pub mod Ladder
pub mod Waits

-- Spans are in microseconds.
pub record RetryPolicy : Type 0 where
  pub delays : List ℕ
  pub timeout : ℕ
  pub max_retries : Option ℤ

-- `WEB_RETRY_DELAYS`
abbrev pub web_retry_delays : List ℕ
web_retry_delays = 0 ∷ 2_000_000 ∷ 3_000_000 ∷ 5_000_000 ∷ 10_000_000 ∷ []

-- `DEFAULT_RETRY_POLICY`
abbrev pub default_retry_policy : RetryPolicy
default_retry_policy = record {
  delays = web_retry_delays;
  timeout = 20_000_000;
  max_retries = none;
}

-- `len(self.delays)`, or the cap: `min(max_retries, len(delays)) if delays else max_retries`
unfoldable pub retries : RetryPolicy → ℕ
retries p = elim p.max_retries [
  | none ↦ length p.delays
  | some m ↦ clamp (elim p.delays [ [] ↦ m | _ ∷ _ ↦ min_ℤ m (length p.delays) ])
]

unfoldable pub attempts : RetryPolicy → ℕ
attempts p = suc (retries p)

abbrev pub delay_or_zero : Option ℕ → ℕ
delay_or_zero none = 0
delay_or_zero (some d) = d

-- An index past the end takes the last delay; no delay is zero.
unfoldable pub delay_for : RetryPolicy → ℕ → ℕ
delay_for p i = delay_or_zero (get_elem? p.delays (min i (length p.delays - 1)))

unfoldable pub override_retries : Option ℤ → RetryPolicy → RetryPolicy
override_retries none p = p
override_retries (some n) p = record p { max_retries = some (pos (clamp n)) }

unfoldable pub override_timeout : Option ℕ → RetryPolicy → RetryPolicy
override_timeout none p = p
override_timeout (some t) p = record p { timeout = t }

unfoldable pub with_overrides : Option ℤ → Option ℕ → RetryPolicy → RetryPolicy
with_overrides n t p = override_timeout t (override_retries n p)

-- How one attempt ends; `cancelled` is `asyncio.CancelledError`.
pub data Attempt (E A : Type 0) : Type 0 where
  returned : A → Attempt E A
  cancelled : Attempt E A
  failed : E → Attempt E A

-- What a run comes to: how it ended, how many attempts it made, and how long it slept, in order.
-- `fell_through` is the assertion after the loop.
pub data Ending (E A : Type 0) : Type 0 where
  gave : A → Ending E A
  was_cancelled : Ending E A
  raised : E → Ending E A
  fell_through : Ending E A

pub record Run (E A S : Type 0) : Type 0 where
  pub ending : Ending E A
  pub tries : ℕ
  pub slept : List ℕ
  pub state : S

-- `S` is what the attempts and `on_retry` change: connections, and the pool of URLs.
module _ {E A S : Type 0} (p : RetryPolicy) (retryable : E → Bool)
    (attempt : ℕ → S → Attempt E A × S) (on_retry : ℕ → E → S → S) where
  -- `if delay > 0: await sleep(delay)`, then the rest of the run
  unfoldable pub after_sleep : ℕ → Run E A S → Run E A S
  after_sleep delay r = record r {
    tries = suc r.tries;
    slept = if ltb 0 delay then delay ∷ r.slept else r.slept;
  }

  abbrev pub stop : Ending E A → S → Run E A S
  stop e s = record { ending = e; tries = 1; slept = []; state = s }

  -- What follows an attempt; `rest` is the run from the next index on.
  unfoldable pub after_attempt : ℕ → (E → S → Run E A S) → Attempt E A × S → Run E A S
  after_attempt index rest (returned a, s) = stop (gave a) s
  after_attempt index rest (cancelled, s) = stop was_cancelled s
  after_attempt index rest (failed e, s) = elim (leb (retries p) index || not (retryable e)) [
    | true ↦ stop (raised e) s
    | false ↦ after_sleep (delay_for p index) (rest e s)
  ]

  -- `for index in range(policy.attempts)`: the first argument is how many turns are left.
  unfoldable pub run_from : ℕ → ℕ → S → Run E A S
  run_from zero index s = record { ending = fell_through; tries = 0; slept = []; state = s }
  run_from (suc left) index s =
      after_attempt index (λ e t. run_from left (suc index) (on_retry index e t)) (attempt index s)

  unfoldable pub run_with_retries : S → Run E A S
  run_with_retries s = run_from (attempts p) 0 s
