-- ===== src/Network/Tests.antt =====
-- A pool of three URLs, and a request that succeeds at the third attempt.
use rubigram.Base.{
  filter, ltb, ltb, if◌then◌else◌, length, ℕ, zero, suc, ◌+◌, ◌-◌, ◌≤◌, ◌<◌, String, ◌≡◌, refl,
  Bool, true, none, List, [], ◌∷◌, arith,
}
use rubigram.Base.Errors.{ok}
use rubigram.Network.Pool.{UrlPool, at_index, get_current, has_url, replace, new_pool}
use rubigram.Network.Pool.Laws.{
  call_rotate, call_force_rotate, call_replace, after_calls, Answers, get_current-Answers,
}
use rubigram.Network.Pool.Replaced.{replace-keeps_current}
use rubigram.Network.Retry.{
  default_retry_policy, retries, attempts, Attempt, returned, failed, gave, run_with_retries,
}
use rubigram.Network.Retry.Ladder.{IsEnded, run_with_retries-InLadder}
use rubigram.Network.Retry.Waits.{ladder, IsRetryable, run_with_retries-waits}

abbrev first_url : String
first_url = "https://a"

abbrev second_url : String
second_url = "https://b"

abbrev three_urls : List String
three_urls = first_url ∷ second_url ∷ "https://c" ∷ []

abbrev pool : UrlPool
pool = record {
  urls = three_urls;
  current_index = 1;
  switch_lock = 2_000_000;
  last_rotation = none;
}

get_current-Answers_example : Answers (
    after_calls
      (call_rotate 5 ∷ call_replace (second_url ∷ []) true ∷ call_force_rotate 9 ∷ [])
      (new_pool three_urls 2_000_000))
get_current-Answers_example =
    get_current-Answers three_urls 2_000_000
      (call_rotate 5 ∷ call_replace (second_url ∷ []) true ∷ call_force_rotate 9 ∷ [])

current-second : get_current pool ≡ ok second_url
unfolding get_current at_index
current-second = refl

second-listed : has_url second_url (first_url ∷ second_url ∷ []) ≡ true
unfolding has_url
second-listed = refl

replace-keeps_current_example :
    get_current (replace (first_url ∷ second_url ∷ []) true pool).1 ≡ ok second_url
replace-keeps_current_example =
    replace-keeps_current second_url true pool (first_url ∷ second_url ∷ []) current-second refl
      second-listed

-- Two attempts fail; from then on they return.
abbrev third_time : ℕ → ℕ → Attempt String String × ℕ
third_time i s = if ltb i 2 then (failed "busy", s) else (returned "done", s)

abbrev anything : String → Bool
anything e = true

abbrev count_retry : ℕ → String → ℕ → ℕ
count_retry i e s = s + 1

run_with_retries-InLadder_example :
    let r = run_with_retries default_retry_policy anything third_time count_retry 0 in
    IsEnded r.ending
    × (1 ≤ r.tries)
    × (r.tries ≤ attempts default_retry_policy)
    × (length r.slept ≤ r.tries - 1)
run_with_retries-InLadder_example =
    run_with_retries-InLadder default_retry_policy anything third_time count_retry 0

enough-retries : 2 ≤ retries default_retry_policy
unfolding retries
enough-retries = omega arith

first-fail :
    (j t : ℕ)
    → j < 2
    → IsRetryable default_retry_policy anything third_time count_retry (third_time j t).0
unfolding IsRetryable
first-fail zero t lt = refl
first-fail (suc zero) t lt = refl
first-fail (suc (suc j)) t lt = absurd (omega (arith, lt))

run_with_retries-waits_example :
    let r = run_with_retries default_retry_policy anything third_time count_retry 0 in
    (r.ending ≡ gave "done")
    × (r.tries ≡ 3)
    × (r.slept ≡ filter (λ x. ltb 0 x) (ladder default_retry_policy.delays 2))
run_with_retries-waits_example =
    run_with_retries-waits default_retry_policy anything third_time count_retry "done" 2 0
      enough-retries first-fail (λ t. refl)
