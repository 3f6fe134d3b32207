-- ===== src/Worker/Jobs/Replacements.antt =====
-- `enqueue_replacement_items_if_needed`: fresh accounts for what the failed items did not deliver.
use rubigram.Base.{
  ltb, ◌==◌, if◌then◌else◌, length, filter, any, count, has_prefix, ℕ, ◌+◌, ◌-◌, Bool, true, false,
  not, ◌&&◌, ◌||◌, none, some, List, [], ◌∷◌, map,
}
use rubigram.Worker.Model.{
  join, leave, view, JobStatus, Account, Job, Item, is_active_account, same_action, is_skipped,
}
use rubigram.Worker.Db.{
  retry_slot_fill_in, Db, Settings, find_job, update_job, enqueue, is_in_flight, is_joined,
}
use rubigram.Worker.Selection.{select_accounts}
use rubigram.Worker.Jobs.Checks.{new_items, add_items}

-- `None` is `deferred`, a list of new item ids `refilled`.
pub data Refill : Type 0 where
  deferred : Refill
  refilled : List ℕ → Refill

-- `max(0, job.total_count - job.success_count - in_flight)`
unfoldable pub missing_count : Job → Db → ℕ
missing_count j db = j.total_count - j.success_count - count (is_in_flight j.id) db.items

-- A join item that does not use up its account: skipped for a reason that may pass.
abbrev pub is_retryable_skip : Item → Bool
is_retryable_skip i =
    is_skipped i.status && (has_prefix "conn_error:" i.message || has_prefix "throttled:" i.message)

-- The accounts that the job may not take again.
unfoldable pub used_accounts : Job → Db → List ℕ
used_accounts j db = elim j.action [
  | view ↦ map (λ i. i.account_id) (filter (λ i. i.job_id == j.id) db.items)
  | _ ↦
      map (λ i. i.account_id) (filter (λ i. i.job_id == j.id && not (is_retryable_skip i)) db.items)
]

-- How many accounts could join once they are no longer paused or reserved.
unfoldable pub potential_accounts : Job → List ℕ → Db → ℕ
potential_accounts j used db =
    count
      (λ a.
        is_active_account a
        && (not (is_joined j.target_key db a.id) && not (any (λ id. id == a.id) used)))
      db.accounts

-- `job.started_at and now - job.started_at < max_age`
abbrev pub is_young : Settings → ℕ → Job → Bool
is_young s now j = elim j.started_at [ none ↦ false | some t ↦ ltb now (t + s.job_max_wait) ]

abbrev pub reopened : ℕ → ℕ → Job → Job
reopened now n j = record j {
  accepted_count = j.accepted_count + n;
  status = JobStatus.inprogress;
  finished_at = none;
  updated_at = now;
}

-- The new rows for the accounts that were found, and the job reopened.
unfoldable pub add_replacements : ℕ → ℕ → List Account → Db → Refill × Db
add_replacements now id accounts db = (
  refilled (map (λ i. i.id) (new_items now id db.next_item_id accounts)),
  update_job id (reopened now (length accounts)) (add_items now id accounts db),
)

-- No account was found for a join: wait while one may come free, within the maximal age.
unfoldable pub wait_or_stop : Settings → ℕ → Job → Db → Refill × Db
wait_or_stop s now j db =
    if potential_accounts j (used_accounts j db) db == 0
    then (refilled [], db)
    else if is_young s now j
    then (deferred, enqueue (retry_slot_fill_in j.id 90 ∷ []) db)
    else (refilled [], db)

-- `job.status in {PENDING, INPROGRESS, ERROR}`
abbrev pub is_refillable : JobStatus → Bool
is_refillable JobStatus.pending = true
is_refillable JobStatus.inprogress = true
is_refillable JobStatus.error = true
is_refillable _ = false

unfoldable pub refill_accounts : Settings → (ℕ → Bool) → ℕ → Job → Db → List Account
refill_accounts s locked now j db =
    select_accounts s locked now true j.action j.target_key (missing_count j db)
      (used_accounts j db) db

-- What follows the choice of accounts, for a view and for a join.
unfoldable pub refill_with : Settings → ℕ → Job → List Account → Db → Refill × Db
refill_with s now j (a ∷ rest) db = add_replacements now j.id (a ∷ rest) db
refill_with s now j [] db =
    if same_action j.action join then wait_or_stop s now j db else (refilled [], db)

-- `_replace_view_items`, and the rest of the function for a join
unfoldable pub refill_job : Settings → (ℕ → Bool) → ℕ → Job → Db → Refill × Db
refill_job s locked now j db =
    if missing_count j db == 0
    then (refilled [], db)
    else refill_with s now j (refill_accounts s locked now j db) db

unfoldable pub enqueue_replacement_items_if_needed :
    Settings → (ℕ → Bool) → ℕ → ℕ → Db → Refill × Db
enqueue_replacement_items_if_needed s locked now id db = elim (find_job id db) [
  | none ↦ (refilled [], db)
  | some j ↦
      if is_refillable j.status && not (same_action j.action leave)
      then refill_job s locked now j db
      else (refilled [], db)
]
