-- ===== src/Worker/Db.antt =====
-- The database of the worker, its broker queue, its settings, and the lookups that operations share.
use rubigram.Base.{
  ltb, ◌==◌, any, find?, update_where, ℕ, ◌+◌, String, Bool, false, ◌&&◌, Option, none, some, List,
  ◌++◌, str_eq,
}
use rubigram.Worker.Model.{
  Action, Account, Credential, Throttle, Membership, PostView, Job, Item, AutoLeave, same_action,
  is_open_status, is_reserved,
}

-- What an operation hands to Celery (membership_worker/worker/tasks.py). A delay is in seconds.
pub data Task : Type 0 where
  process_item : ℕ → Task
  process_item_in : ℕ → ℕ → Task
  send_callback : ℕ → String → Task
  retry_slot_fill_in : ℕ → ℕ → Task
  process_auto_leave : ℕ → Task

-- The tables, in the order of their ids, the next id of each, and the tasks that were enqueued.
pub record Db : Type 0 where
  pub accounts : List Account
  pub credentials : List Credential
  pub throttles : List Throttle
  pub memberships : List Membership
  pub post_views : List PostView
  pub jobs : List Job
  pub items : List Item
  pub schedules : List AutoLeave
  pub nonces : List String
  pub next_account_id : ℕ
  pub next_job_id : ℕ
  pub next_item_id : ℕ
  pub next_schedule_id : ℕ
  pub queue : List Task

-- The `WORKER_*` settings that the operations read. Spans are in microseconds. `has_bonus`
-- is `bonus > 0`, and `bonus_of n` what `math.ceil(n * bonus / 100)` comes to in floating point.
pub record Settings : Type 0 where
  pub has_bonus : Bool
  pub bonus_of : ℕ → ℕ
  pub action_delay : ℕ
  pub throttle_too_requests : ℕ
  pub throttle_conn_error : ℕ
  pub view_review_cooldown : ℕ
  pub job_max_wait : ℕ
  pub view_post_counts : List (String × ℕ)

abbrev pub second : ℕ
second = 1_000_000

abbrev pub day : ℕ
day = 86_400_000_000

-- `created < now - span`, for a span that may reach back before the epoch
abbrev pub older_than : ℕ → ℕ → ℕ → Bool
older_than span now t = ltb (t + span) now

-- `next_available_at > now`
abbrev pub is_throttled : ℕ → Throttle → Bool
is_throttled now t = elim t.next_available_at [ none ↦ false | some at ↦ ltb now at ]

abbrev pub find_job : ℕ → Db → Option Job
find_job id db = find? (λ j. j.id == id) db.jobs

abbrev pub find_item : ℕ → Db → Option Item
find_item id db = find? (λ i. i.id == id) db.items

abbrev pub find_account : ℕ → Db → Option Account
find_account id db = find? (λ a. a.id == id) db.accounts

-- `Model.objects.filter(id=id).update(…)`, and `save(update_fields=…)` of a loaded row
abbrev pub update_job : ℕ → (Job → Job) → Db → Db
update_job id f db = record db { jobs = update_where (λ j. j.id == id) f db.jobs }

abbrev pub update_item : ℕ → (Item → Item) → Db → Db
update_item id f db = record db { items = update_where (λ i. i.id == id) f db.items }

abbrev pub update_account : ℕ → (Account → Account) → Db → Db
update_account id f db = record db { accounts = update_where (λ a. a.id == id) f db.accounts }

abbrev pub enqueue : List Task → Db → Db
enqueue tasks db = record db { queue = db.queue ++ tasks }

-- `MembershipJobItem.objects.filter(job_id=id, status__in=RESERVED_ITEM_STATUSES)`
abbrev pub is_in_flight : ℕ → Item → Bool
is_in_flight id i = i.job_id == id && is_reserved i.status

-- The test that a JOIN or VIEW item of an open job reserves its account for a target.
abbrev pub job_reserves : Action → String → Job → Bool
job_reserves action key j =
    same_action j.action action && (str_eq j.target_key key && is_open_status j.status)

-- Whether some item reserves the account `a` for a job of `action` on the target `key`.
unfoldable pub is_reserved_for : Action → String → Db → ℕ → Bool
is_reserved_for action key db a =
    any
      (λ i.
        i.account_id == a
        && (is_reserved i.status
            && any (λ j. j.id == i.job_id && job_reserves action key j) db.jobs))
      db.items

-- Whether the account `a` is recorded as a member of the target `key`.
unfoldable pub is_joined : String → Db → ℕ → Bool
is_joined key db a =
    any (λ m. m.account_id == a && (str_eq m.target_key key && m.joined)) db.memberships

-- Whether the account `a` is paused at the time `now`.
unfoldable pub is_paused : ℕ → Db → ℕ → Bool
is_paused now db a = any (λ t. t.account_id == a && is_throttled now t) db.throttles

-- Whether the account `a` viewed the target `key` within the cooldown.
unfoldable pub has_viewed : Settings → ℕ → String → Db → ℕ → Bool
has_viewed s now key db a =
    any
      (λ v.
        v.account_id == a
        && (str_eq v.target_key key && ltb now (v.viewed_at + s.view_review_cooldown)))
      db.post_views
