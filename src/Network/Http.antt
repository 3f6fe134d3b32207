-- ===== src/Network/Http.antt =====
-- rubigram/network/http.py: `_BaseHttpTransport`, its `_post_once` and `_send`.
use Prim.Native.Char.{code}
use rubigram.Base.Errors.{Result, ok, err}
use rubigram.Network.Retry.{
  Attempt, Ending, Run, failed, RetryPolicy, with_overrides, returned, cancelled, gave,
  was_cancelled, raised, fell_through, run_with_retries,
}
use rubigram.Base.Int.{ℤ}
use rubigram.Network.Pool.{UrlPool, force_rotate, PoolError, replace, get_current}
use rubigram.Base.{
  leb, ◌==◌, if◌then◌else◌, length, is_empty, cut, ℕ, suc, ◌+◌, String, append_text, Bool, true,
  false, not, ◌&&◌, Option, none, some, List, [], ◌∷◌, str_eq,
}
pub mod Once
pub mod Refused
mod Tests

-- `HttpRequestRecord`
pub record HttpRequestRecord : Type 0 where
  pub url : String
  pub body : String
  pub headers : List (String × String)

-- The fields that a request reads or changes.
pub record Transport : Type 0 where
  pub pool : UrlPool
  pub headers : List (String × String)
  pub retry_policy : RetryPolicy
  pub last_request : Option HttpRequestRecord

-- What `response.json()` gives: a `ValueError`, a dictionary, or a value of another type.
pub data Body (D : Type 0) : Type 0 where
  invalid_body : Body D
  dict_body : D → Body D
  other_body : String → Body D

pub record Response (D : Type 0) : Type 0 where
  pub status_code : ℕ
  pub text : String
  pub json : Body D

-- How `client.post` ends: `TimeoutException`, another `HTTPError`, a response, `CancelledError`.
pub data Reply (D : Type 0) : Type 0 where
  timed_out : Reply D
  http_error : String → Reply D
  answered : Response D → Reply D
  interrupted : Reply D

-- `RequestTimeout`, `NetworkError`, the texts of `TransportError`, and the errors of the pool.
pub data HttpError : Type 0 where
  request_timeout : String → ℕ → HttpError
  network_error : String → String → HttpError
  bad_status : ℕ → String → String → HttpError
  invalid_json : String → HttpError
  unexpected_type : String → String → HttpError
  pool_error : PoolError → HttpError

-- `_RetryableFailure(error)`, and an error that is raised as it is
pub data SendFailure : Type 0 where
  retryable_failure plain_failure : HttpError → SendFailure

-- `__init__`: the timeout overrides that of the policy.
unfoldable pub new_transport : UrlPool → ℕ → RetryPolicy → List (String × String) → Transport
new_transport pool timeout policy headers = record {
  pool = pool;
  headers = headers;
  retry_policy = with_overrides none (some timeout) policy;
  last_request = none;
}

-- `headers[key] = value`
unfoldable pub set_header : String → String → List (String × String) → List (String × String)
set_header key value [] = (key, value) ∷ []
set_header key value ((k, v) ∷ rest) =
    let others = set_header key value rest in
    if str_eq k key then (k, value) ∷ rest else (k, v) ∷ others

-- `{**headers, **extra}`
unfoldable pub merge_headers :
    List (String × String) → List (String × String) → List (String × String)
merge_headers headers [] = headers
merge_headers headers ((k, v) ∷ extra) = merge_headers (set_header k v headers) extra

unfoldable pub read_body : {D : Type 0} → String → Body D → Attempt SendFailure D
read_body url invalid_body = failed (retryable_failure (invalid_json url))
read_body url (other_body name) = failed (plain_failure (unexpected_type url name))
read_body url (dict_body data_) = returned data_

-- What `_post_once` makes of a reply.
unfoldable pub judge : {D : Type 0} → String → ℕ → Reply D → Attempt SendFailure D
judge url timeout timed_out = failed (retryable_failure (request_timeout url timeout))
judge url timeout (http_error message) = failed (retryable_failure (network_error url message))
judge url timeout interrupted = cancelled
judge url timeout (answered r) =
    if leb 500 r.status_code
    then failed (retryable_failure (bad_status r.status_code url (cut 200 r.text)))
    else if leb 400 r.status_code
    then failed (plain_failure (bad_status r.status_code url (cut 200 r.text)))
    else read_body url r.json

unfoldable pub is_retryable : SendFailure → Bool
is_retryable (retryable_failure e) = true
is_retryable (plain_failure e) = false

-- `raise failure.error`
unfoldable pub unwrap : {D : Type 0} → Ending SendFailure D → Ending HttpError D
unwrap (gave data_) = gave data_
unwrap was_cancelled = was_cancelled
unwrap fell_through = fell_through
unwrap (raised (retryable_failure e)) = raised e
unwrap (raised (plain_failure e)) = raised e

-- `s.rstrip("/")`
unfoldable pub strip_slashes : String → String
strip_slashes String.[] = ""
strip_slashes (String.◌∷◌ c s) =
    let rest = strip_slashes s in
    if (code c == 0x2f) && is_empty rest then "" else String.◌∷◌ c rest

-- `self._pool.get_current().rstrip("/") + "/"`
unfoldable pub pool_target : Result PoolError String → Result PoolError String
pool_target (err e) = err e
pool_target (ok url) = ok (append_text (strip_slashes url) "/")

-- `url if url else ...`: an empty URL counts as none here.
unfoldable pub target : Option String → UrlPool → Result PoolError String
target none pool = pool_target (get_current pool)
target (some url) pool = if is_empty url then pool_target (get_current pool) else ok url

-- What a call of `_send` changes; `W` is the world outside, and `refreshes` counts the calls of
-- `refresh_urls`.
pub record Sending (W : Type 0) : Type 0 where
  pub transport : Transport
  pub refreshed : Bool
  pub refreshes : ℕ
  pub world : W

unfoldable pub set_pool : {W : Type 0} → UrlPool → Sending W → Sending W
set_pool pool s = record s { transport = record (s.transport) { pool = pool } }

-- `if urls: self._pool.replace(urls, strict=False)`
unfoldable pub adopt : {W : Type 0} → Option (List String) → Sending W → Sending W
adopt none s = s
adopt (some []) s = s
adopt (some (u ∷ us)) s = set_pool (replace (u ∷ us) false s.transport.pool).1 s

-- `refresh_urls` is consulted, if there is one.
unfoldable pub ask : {W : Type 0} → Option (W → Option (List String) × W) → Sending W → Sending W
ask none s = s
ask (some refresh) s =
    let x = refresh s.world in
    adopt x.0 (record s { refreshed = true; refreshes = suc s.refreshes; world = x.1 })

-- `post` is `client.post` with url, body, headers and timeout; `clock` reads the monotonic clock;
-- `refresh_urls` gives `none` where it raises or has none to give.
module _ {D W : Type 0} (post : String → String → List (String × String) → ℕ → W → Reply D × W)
    (clock : W → ℕ) (refresh_urls : Option (W → Option (List String) × W)) where
  unfoldable pub post_once :
      String → String → ℕ → List (String × String) → Sending W → Attempt SendFailure D × Sending W
  post_once url body timeout extra s =
      let headers = merge_headers s.transport.headers extra in
      let reply = post url body headers timeout s.world in
      let sent : HttpRequestRecord = record { url = url; body = body; headers = headers } in
      (
        judge url timeout reply.0,
        record s { transport = record (s.transport) { last_request = some sent }; world = reply.1 },
      )

  -- `attempt`, without its index, which it does not read
  unfoldable pub send_attempt :
      Option String
      → String
      → ℕ
      → List (String × String)
      → Sending W
      → Attempt SendFailure D × Sending W
  send_attempt url body timeout extra s = elim (target url s.transport.pool) [
    | err e ↦ (failed (plain_failure (pool_error e)), s)
    | ok there ↦ post_once there body timeout extra s
  ]

  unfoldable pub refresh_if_due : ℕ → Sending W → Sending W
  refresh_if_due index s =
      if not s.refreshed && leb (length s.transport.pool.urls) (index + 1)
      then ask refresh_urls s
      else s

  -- `on_retry`. The rotation finds a URL: the attempt that failed had one of the pool.
  unfoldable pub on_retry : Option String → ℕ → SendFailure → Sending W → Sending W
  on_retry (some url) index e s = s
  on_retry none index e s =
      refresh_if_due index (set_pool (force_rotate (clock s.world) s.transport.pool).1 s)

  -- `_send`; the answer is `unwrap` of how the run ends.
  unfoldable pub send :
      Option String
      → String
      → Option ℕ
      → Option ℤ
      → List (String × String)
      → Transport
      → W
      → Run SendFailure D (Sending W)
  send url body timeout retries extra t w =
      let policy = with_overrides retries timeout t.retry_policy in
      run_with_retries policy is_retryable (λ i s. send_attempt url body policy.timeout extra s)
        (on_retry url) (record { transport = t; refreshed = false; refreshes = 0; world = w })
