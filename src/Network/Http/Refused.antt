-- ===== src/Network/Http/Refused.antt =====
-- Requests that the server refuses: which answers end the run at once.
use rubigram.Base.{
  leb, cut, ℕ, ◌≤◌, ◌<◌, String, ◌≡◌, refl, ap, ◌∙◌, true, false, not, ◌||◌, Option, List, [],
  arith,
}
use rubigram.Base.Errors.{ok}
use rubigram.Base.Int.{ℤ}
use rubigram.Network.Pool.{UrlPool}
use rubigram.Network.Retry.{
  RetryPolicy, retries, attempts, with_overrides, Attempt, returned, cancelled, failed, raised, Run,
  after_attempt, run_from, run_with_retries,
}
use rubigram.Network.Http.{
  Transport, Response, Reply, answered, HttpError, bad_status, SendFailure, retryable_failure,
  plain_failure, merge_headers, judge, is_retryable, unwrap, target, Sending, post_once,
  send_attempt, on_retry, send,
}

judge-client_error :
    {D : Type 0} (url : String) (timeout : ℕ) (r : Response D) (reply : Reply D)
    → reply ≡ answered r
    → 400 ≤ r.status_code
    → r.status_code < 500
    → judge url timeout reply
      ≡ failed (plain_failure (bad_status r.status_code url (cut 200 r.text)))
unfolding judge
judge-client_error url timeout r reply e low high = rw (e, judge, below, above) refl
  where
    below : leb 500 r.status_code ≡ false
    below = ground (arith, high)

    above : leb 400 r.status_code ≡ true
    above = ground (arith, low)

-- A run that ended at its first attempt.
EndsWith : {D W : Type 0} → HttpError → UrlPool → Run SendFailure D (Sending W) → Type 0
EndsWith e pool r =
    (unwrap r.ending ≡ raised e) × (r.tries ≡ 1) × (r.slept ≡ []) × (r.state.transport.pool ≡ pool)

after-plain :
    {D W : Type 0} (p : RetryPolicy) (attempt : ℕ → Sending W → Attempt SendFailure D × Sending W)
    (again : ℕ → SendFailure → Sending W → Sending W) (e : HttpError) (pool : UrlPool)
    (rest : SendFailure → Sending W → Run SendFailure D (Sending W))
    (x : Attempt SendFailure D × Sending W)
    → x.0 ≡ failed (plain_failure e)
    → x.1.transport.pool ≡ pool
    → EndsWith e pool (after_attempt p is_retryable attempt again 0 rest x)
unfolding after_attempt EndsWith unwrap is_retryable
after-plain p attempt again e pool rest (returned a, s) h k = absurd (cc)
after-plain p attempt again e pool rest (cancelled, s) h k = absurd (cc)
after-plain p attempt again e pool rest (failed (retryable_failure f), s) h k = absurd (cc)
after-plain p attempt again e pool rest (failed (plain_failure f), s) h k =
    rw (ended, after_attempt) (ap raised same, refl, refl, k)
  where
    same : f ≡ e
    same = cc

    ended : (leb (retries p) 0 || not false) ≡ true
    ended = ground (arith)

run-plain :
    {D W : Type 0} (p : RetryPolicy) (attempt : ℕ → Sending W → Attempt SendFailure D × Sending W)
    (again : ℕ → SendFailure → Sending W → Sending W) (e : HttpError) (pool : UrlPool)
    (s : Sending W)
    → (attempt 0 s).0 ≡ failed (plain_failure e)
    → (attempt 0 s).1.transport.pool ≡ pool
    → EndsWith e pool (run_with_retries p is_retryable attempt again s)
unfolding run_with_retries run_from attempts
run-plain p attempt again e pool s h k =
    after-plain p attempt again e pool
      (λ x t. run_from p is_retryable attempt again (retries p) 1 (again 0 x t)) (attempt 0 s) h k

module _ {D W : Type 0} (post : String → String → List (String × String) → ℕ → W → Reply D × W)
    (clock : W → ℕ) (refresh_urls : Option (W → Option (List String) × W)) where
  attempt-at :
      (url : Option String) (there body : String) (timeout : ℕ) (extra : List (String × String))
      (s : Sending W)
      → target url s.transport.pool ≡ ok there
      → send_attempt post clock refresh_urls url body timeout extra s
        ≡ post_once post clock refresh_urls there body timeout extra s
  unfolding send_attempt
  attempt-at url there body timeout extra s e = rw (e, send_attempt) refl

  -- If the URL that a request goes to answers with a status from 400 to 499, that status is raised
  -- after one attempt, without a sleep, and the pool stays as it is.
  pub send-raises_at_once :
      (url : Option String) (there body : String) (timeout : Option ℕ) (n : Option ℤ)
      (extra : List (String × String)) (t : Transport) (w : W) (response : Response D)
      → target url t.pool ≡ ok there
      → (post there body
          (merge_headers t.headers extra)
          (with_overrides n timeout t.retry_policy).timeout
          w).0
        ≡ answered response
      → 400 ≤ response.status_code
      → response.status_code < 500
      → let r = send post clock refresh_urls url body timeout n extra t w in
        (unwrap r.ending ≡ raised (bad_status response.status_code there (cut 200 response.text)))
        × (r.tries ≡ 1)
        × (r.slept ≡ [])
        × (r.state.transport.pool ≡ t.pool)
  unfolding send post_once EndsWith
  send-raises_at_once url there body timeout n extra t w response e answer low high =
      let policy = with_overrides n timeout t.retry_policy in
      let start : Sending W = record {
        transport = t;
        refreshed = false;
        refreshes = 0;
        world = w;
      } in
      let sent = attempt-at url there body policy.timeout extra start e in
      run-plain policy (λ i s. send_attempt post clock refresh_urls url body policy.timeout extra s)
        (on_retry post clock refresh_urls url)
        (bad_status response.status_code there (cut 200 response.text)) t.pool start
        (ap (λ x. x.0) sent ∙ judge-client_error there policy.timeout response _ answer low high)
        (ap (λ x. x.1.transport.pool) sent)
