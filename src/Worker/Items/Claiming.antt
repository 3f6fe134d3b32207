-- ===== src/Worker/Items/Claiming.antt =====
-- `claim_item_and_reserve_throttle`: mark the item RUNNING and pace its account.
use rubigram.Base.{
  ltb, ◌==◌, if◌then◌else◌, any, find?, update_where, ℕ, ◌+◌, ◌-◌, ◌*◌, ◌/◌, max, Bool, false,
  Option, none, some, [], ◌∷◌, ◌++◌,
}
use rubigram.Worker.Model.{view, ItemStatus, Throttle, Job, Item, same_action}
use rubigram.Worker.Db.{Db, Settings, second, older_than, find_job, find_item, update_item}

-- `RUNNING_ITEM_STALE_SECONDS`
abbrev pub running_item_stale_seconds : ℕ
running_item_stale_seconds = 300

-- `None` is `go`, `-1` is `dropped`, and `n` is `retry_in n`; `missing` is the raise of `get`.
pub data Claim : Type 0 where
  go dropped missing : Claim
  retry_in : ℕ → Claim

-- `item.started_at and item.started_at < stale_cutoff`
unfoldable pub is_stale : ℕ → Item → Bool
is_stale now i = elim i.started_at [
  | none ↦ false
  | some t ↦ older_than (running_item_stale_seconds * second) now t
]

-- The row that `AccountThrottle.objects.get_or_create(account=…)` finds or makes.
abbrev throttle_of : ℕ → Db → Option Throttle
throttle_of a db = find? (λ t. t.account_id == a) db.throttles

abbrev next_of : Option Throttle → Option ℕ
next_of none = none
next_of (some t) = t.next_available_at

unfoldable pub ensure_throttle : ℕ → Db → Db
ensure_throttle a db = if any (λ t. t.account_id == a) db.throttles then db else record db {
  throttles =
      db.throttles ++ record { account_id = a; next_available_at = none; locked_at = none } ∷ [];
}

unfoldable pub reserve_throttle : Settings → ℕ → ℕ → Db → Db
reserve_throttle s now a db = record db {
  throttles =
      update_where (λ t. t.account_id == a)
        (λ t. record t { next_available_at = some (now + s.action_delay); locked_at = some now })
        db.throttles;
}

-- `next_available_at > now`, with the wait in whole seconds, at least one
unfoldable pub wait_seconds : ℕ → ℕ → Db → Option ℕ
wait_seconds now a db = elim (next_of (throttle_of a db)) [
  | none ↦ none
  | some at ↦ if ltb now at then some (max 1 ((at - now) / second)) else none
]

unfoldable pub start_item : ℕ → ℕ → Db → Db
start_item now id = update_item id (λ i. record i {
  status = ItemStatus.running;
  attempts = i.attempts + 1;
  started_at = some now;
})

unfoldable pub reset_item : ℕ → Db → Db
reset_item id = update_item id (λ i. record i { status = ItemStatus.pending; started_at = none })

-- What pacing allows: the start of the item with the account reserved, or a wait.
unfoldable pub pace : Settings → ℕ → Item → Option ℕ → Db → Claim × Db
pace s now i (some n) db = (retry_in n, ensure_throttle i.account_id db)
pace s now i none db = (
  go,
  start_item now i.id (reserve_throttle s now i.account_id (ensure_throttle i.account_id db)),
)

-- The start of an item that may be started; views are not paced.
unfoldable pub start_paced : Settings → ℕ → Item → Job → Db → Claim × Db
start_paced s now i j db =
    if same_action j.action view
    then (go, start_item now i.id db)
    else pace s now i (wait_seconds now i.account_id db) db

-- An item that another task runs is left alone, unless that task must have died.
unfoldable pub claim_loaded : Settings → ℕ → Item → Job → ItemStatus → Db → Claim × Db
claim_loaded s now i j ItemStatus.pending db = start_paced s now i j db
claim_loaded s now i j ItemStatus.running db =
    if is_stale now i then start_paced s now i j (reset_item i.id db) else (dropped, db)
claim_loaded s now i j _ db = (dropped, db)

abbrev pub job_of : Option Item → Db → Option Job
job_of none db = none
job_of (some i) db = find_job i.job_id db

-- `get(id=item_id)` with the job beside the item raises when there is none.
unfoldable pub claim_row : Settings → ℕ → Option Item → Option Job → Db → Claim × Db
claim_row s now (some i) (some j) db = claim_loaded s now i j i.status db
claim_row s now _ _ db = (missing, db)

unfoldable pub claim_item_and_reserve_throttle : Settings → ℕ → ℕ → Db → Claim × Db
claim_item_and_reserve_throttle s now id db =
    claim_row s now (find_item id db) (job_of (find_item id db) db) db
