-- ===== src/Network/Http/Once.antt =====
-- Requests: how often one is attempted, and what it does to the pool of URLs.
use rubigram.Base.{
  leb, Bool-cases, length, ℕ, ◌+◌, ◌≤◌, String, ◌≡◌, refl, inl, inr, false, not, ◌&&◌, Option, none,
  some, List, [], ◌∷◌, arith,
}
use rubigram.Base.Errors.{Result, ok, err}
use rubigram.Base.Int.{ℤ}
use rubigram.Network.Pool.{PoolError, UrlPool}
use rubigram.Network.Retry.{
  retries, attempts, with_overrides, Ending, gave, was_cancelled, raised, fell_through,
}
use rubigram.Network.Retry.Ladder.{IsEnded, run_with_retries-InLadder}
use rubigram.Network.Retry.Kept.{run_with_retries-keeps}
use rubigram.Network.Http.{
  Transport, Reply, SendFailure, retryable_failure, plain_failure, is_retryable, unwrap, target,
  Sending, set_pool, adopt, ask, post_once, send_attempt, refresh_if_due, on_retry, send,
}

unwrap-IsEnded : {D : Type 0} (e : Ending SendFailure D) → IsEnded e → IsEnded (unwrap e)
unfolding unwrap
unwrap-IsEnded (gave a) h = tt
unwrap-IsEnded was_cancelled h = tt
unwrap-IsEnded fell_through h = h
unwrap-IsEnded (raised (retryable_failure e)) h = tt
unwrap-IsEnded (raised (plain_failure e)) h = tt

-- The URLs were refreshed at most once, and not at all while the flag is off.
Once : {W : Type 0} → Sending W → Type 0
Once s = (s.refreshes ≤ 1) × (s.refreshed ≡ false → s.refreshes ≡ 0)

-- The pool is the given one, and its URLs were not refreshed.
Aside : {W : Type 0} → UrlPool → Sending W → Type 0
Aside pool s = (s.transport.pool ≡ pool) × (s.refreshes ≡ 0)

adopt-Once :
    {W : Type 0} (urls : Option (List String)) (s : Sending W) → Once s → Once (adopt urls s)
unfolding adopt set_pool Once
adopt-Once none s h = h
adopt-Once (some []) s h = h
adopt-Once (some (u ∷ us)) s h = h

ask-Once :
    {W : Type 0} (refresh : Option (W → Option (List String) × W)) (s : Sending W)
    → s.refreshes ≡ 0
    → Once (ask refresh s)
unfolding ask Once
ask-Once none s zero_ = (omega (arith, zero_), λ off. zero_)
ask-Once (some refresh) s zero_ =
    adopt-Once (refresh s.world).0 _ (omega (arith, zero_), λ on. absurd (cc))

module _ {D W : Type 0} (post : String → String → List (String × String) → ℕ → W → Reply D × W)
    (clock : W → ℕ) (refresh_urls : Option (W → Option (List String) × W)) where
  attempt-Once :
      (url : Option String) (body : String) (timeout : ℕ) (extra : List (String × String))
      (s : Sending W)
      → Once s
      → Once (send_attempt post clock refresh_urls url body timeout extra s).1
  unfolding send_attempt post_once Once
  attempt-Once url body timeout extra s h = go (target url s.transport.pool) refl
    where
      go :
          (t : Result PoolError String)
          → target url s.transport.pool ≡ t
          → Once (send_attempt post clock refresh_urls url body timeout extra s).1
      go (err e) q = rw (q, send_attempt) h
      go (ok u) q = rw (q, send_attempt) h

  attempt-Aside :
      (pool : UrlPool) (url : Option String) (body : String) (timeout : ℕ)
      (extra : List (String × String)) (s : Sending W)
      → Aside pool s
      → Aside pool (send_attempt post clock refresh_urls url body timeout extra s).1
  unfolding send_attempt post_once Aside
  attempt-Aside pool url body timeout extra s h = go (target url s.transport.pool) refl
    where
      go :
          (t : Result PoolError String)
          → target url s.transport.pool ≡ t
          → Aside pool (send_attempt post clock refresh_urls url body timeout extra s).1
      go (err e) q = rw (q, send_attempt) h
      go (ok u) q = rw (q, send_attempt) h

  refresh-Once :
      (i : ℕ) (s : Sending W) → Once s → Once (refresh_if_due post clock refresh_urls i s)
  unfolding refresh_if_due Once
  refresh-Once i s h =
      elim (Bool-cases (not s.refreshed && leb (length s.transport.pool.urls) (i + 1))) [
        | inr e ↦ rw (e, refresh_if_due) h
        | inl e ↦
            let off : s.refreshed ≡ false = ground (arith, e) in
            rw (e, refresh_if_due) (ask-Once refresh_urls s (h.1 off))
      ]

  on_retry-Once :
      (url : Option String) (i : ℕ) (e : SendFailure) (s : Sending W)
      → Once s
      → Once (on_retry post clock refresh_urls url i e s)
  unfolding on_retry set_pool Once
  on_retry-Once (some url) i e s h = h
  on_retry-Once none i e s h = refresh-Once i _ h

  on_retry-Aside :
      (pool : UrlPool) (url : String) (i : ℕ) (e : SendFailure) (s : Sending W)
      → Aside pool s
      → Aside pool (on_retry post clock refresh_urls (some url) i e s)
  unfolding on_retry
  on_retry-Aside pool url i e s h = h

  -- A request ends with an answer, an error or a cancellation. It is attempted once at least and, at
  -- most, one more time than the policy has retries, and the URLs are refreshed at most once.
  pub send-IsBounded :
      (url : Option String) (body : String) (timeout : Option ℕ) (retries : Option ℤ)
      (extra : List (String × String)) (t : Transport) (w : W)
      → let r = send post clock refresh_urls url body timeout retries extra t w in
        IsEnded (unwrap r.ending)
        × (1 ≤ r.tries)
        × (r.tries ≤ attempts (with_overrides retries timeout t.retry_policy))
        × (r.state.refreshes ≤ 1)
  unfolding send Once
  send-IsBounded url body timeout retries extra t w =
      let policy = with_overrides retries timeout t.retry_policy in
      let attempt = λ (i : ℕ) (s : Sending W).
        send_attempt post clock refresh_urls url body policy.timeout extra s in
      let start : Sending W = record {
        transport = t;
        refreshed = false;
        refreshes = 0;
        world = w;
      } in
      let ladder =
        run_with_retries-InLadder policy is_retryable attempt (on_retry post clock refresh_urls url)
          start in
      let once =
        run_with_retries-keeps policy is_retryable attempt (on_retry post clock refresh_urls url)
          Once (λ i s. attempt-Once url body policy.timeout extra s)
          (λ i e s. on_retry-Once url i e s) start (omega arith, λ off. refl) in
      (unwrap-IsEnded _ ladder.0, ladder.1, ladder.2, once.0)

  -- A request to a URL of its own leaves the pool as it is and does not refresh the URLs.
  pub send-keeps_pool :
      (url : String) (body : String) (timeout : Option ℕ) (retries : Option ℤ)
      (extra : List (String × String)) (t : Transport) (w : W)
      → let s = (send post clock refresh_urls (some url) body timeout retries extra t w).state in
        (s.transport.pool ≡ t.pool) × (s.refreshes ≡ 0)
  unfolding send Aside
  send-keeps_pool url body timeout retries extra t w =
      let policy = with_overrides retries timeout t.retry_policy in
      run_with_retries-keeps policy is_retryable
        (λ i s. send_attempt post clock refresh_urls (some url) body policy.timeout extra s)
        (on_retry post clock refresh_urls (some url)) (Aside t.pool)
        (λ i s. attempt-Aside t.pool (some url) body policy.timeout extra s)
        (λ i e s. on_retry-Aside t.pool url i e s)
        (record { transport = t; refreshed = false; refreshes = 0; world = w }) (refl, refl)
