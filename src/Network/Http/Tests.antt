-- ===== src/Network/Http/Tests.antt =====
-- A transport with two URLs: one server that is busy, and one that refuses the request.
use rubigram.Base.{
  ltb, if◌then◌else◌, cut, ℕ, suc, ◌≤◌, String, ◌≡◌, refl, Option, none, some, List, [], ◌∷◌, arith,
}
use rubigram.Base.Errors.{ok}
use rubigram.Network.Pool.{UrlPool, at_index, get_current}
use rubigram.Network.Retry.{default_retry_policy, attempts, with_overrides, raised}
use rubigram.Network.Retry.Ladder.{IsEnded}
use rubigram.Network.Http.{
  Transport, invalid_body, dict_body, Response, Reply, timed_out, answered, bad_status, unwrap,
  strip_slashes, pool_target, target, send,
}
use rubigram.Network.Http.Once.{send-IsBounded}
use rubigram.Network.Http.Refused.{send-raises_at_once}

abbrev urls : UrlPool
urls = record {
  urls = "https://a" ∷ "https://b/" ∷ [];
  current_index = 1;
  switch_lock = 2_000_000;
  last_rotation = none;
}

abbrev transport : Transport
transport = record {
  pool = urls;
  headers = ("origin", "web") ∷ [];
  retry_policy = default_retry_policy;
  last_request = none;
}

abbrev forbidden : Response String
forbidden = record { status_code = 403; text = "no"; json = invalid_body }

abbrev done : Response String
done = record { status_code = 200; text = "{}"; json = dict_body "done" }

-- The world counts the requests.
abbrev refuse : String → String → List (String × String) → ℕ → ℕ → Reply String × ℕ
refuse url body headers timeout w = (answered forbidden, suc w)

-- Two requests time out.
abbrev busy : String → String → List (String × String) → ℕ → ℕ → Reply String × ℕ
busy url body headers timeout w = (if ltb w 2 then timed_out else answered done, suc w)

abbrev tick : ℕ → ℕ
tick w = w

abbrev found : Option (ℕ → Option (List String) × ℕ)
found = some (λ w. (some ("https://c" ∷ []), w))

send-IsBounded_example :
    let r = send busy tick found none "{}" none none [] transport 0 in
    IsEnded (unwrap r.ending)
    × (1 ≤ r.tries)
    × (r.tries ≤ attempts (with_overrides none none transport.retry_policy))
    × (r.state.refreshes ≤ 1)
send-IsBounded_example = send-IsBounded busy tick found none "{}" none none [] transport 0

target-second : target none urls ≡ ok "https://b/"
unfolding target pool_target get_current at_index strip_slashes
target-second = refl

send-raises_at_once_example :
    let r = send refuse tick found none "{}" none none [] transport 0 in
    (unwrap r.ending ≡ raised (bad_status 403 "https://b/" (cut 200 "no")))
    × (r.tries ≡ 1)
    × (r.slept ≡ [])
    × (r.state.transport.pool ≡ urls)
send-raises_at_once_example =
    send-raises_at_once refuse tick found none "https://b/" "{}" none none [] transport 0 forbidden
      target-second refl (omega arith) (omega arith)
