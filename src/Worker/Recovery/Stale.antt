-- ===== src/Worker/Recovery/Stale.antt =====
-- The periodic recovery of items and jobs whose task was lost.
use rubigram.Base.{
  ◌==◌, take, filter, any, update_where, ℕ, ◌*◌, Bool, true, false, not, ◌&&◌, none, some, List, [],
  ◌∷◌, map,
}
use rubigram.Worker.Model.{JobStatus, ItemStatus, Throttle, Job, Item}
use rubigram.Worker.Db.{process_item, Db, Settings, second, older_than, enqueue, is_in_flight}
use rubigram.Worker.Jobs.{finalize_job_if_done}

-- RUNNING with `started_at < now - 60s`; a missing time compares to nothing
unfoldable pub is_stale_running : ℕ → Item → Bool
is_stale_running now i = elim i.status [
  | ItemStatus.running ↦ elim i.started_at [
    | none ↦ false
    | some t ↦ older_than (60 * second) now t
  ]
  | _ ↦ false
]

abbrev pub to_pending : Item → Item
to_pending i = record i { status = ItemStatus.pending }

abbrev pub unlocked : Throttle → Throttle
unlocked t = record t { next_available_at = none; locked_at = none }

-- `id__in` of the ids just read is the rows read: ids are unique. They go back to PENDING, their
-- accounts are released, and their tasks are sent again.
unfoldable pub recover_stale_running_items : ℕ → Db → Db
recover_stale_running_items now db =
    let stale = filter (is_stale_running now) db.items in
    enqueue (map (λ i. process_item i.id) stale) (record db {
      items = update_where (is_stale_running now) to_pending db.items;
      throttles =
          update_where (λ t. any (λ k. k.account_id == t.account_id) stale) unlocked db.throttles;
    })

abbrev is_pending_item : ItemStatus → Bool
is_pending_item ItemStatus.pending = true
is_pending_item _ = false

abbrev is_waiting : JobStatus → Bool
is_waiting JobStatus.pending = true
is_waiting JobStatus.inprogress = true
is_waiting _ = false

-- PENDING, never attempted, older than two minutes, of a job that is under way
unfoldable pub is_lost_pending : ℕ → Db → Item → Bool
is_lost_pending now db i =
    is_pending_item i.status
    && (older_than (120 * second) now i.created_at
        && (i.attempts == 0 && any (λ j. j.id == i.job_id && is_waiting j.status) db.jobs))

unfoldable pub recover_stale_pending_items : ℕ → Db → Db
recover_stale_pending_items now db =
    enqueue (map (λ i. process_item i.id) (take 200 (filter (is_lost_pending now db) db.items))) db

-- A job under way, untouched for thirty seconds, with no item pending or running.
unfoldable pub is_stuck : ℕ → Db → Job → Bool
is_stuck now db j =
    is_waiting j.status
    && (older_than (30 * second) now j.updated_at && not (any (is_in_flight j.id) db.items))

module _ (s : Settings) (locked : ℕ → Bool) (now : ℕ) where
  unfoldable pub finalize_all : List Job → Db → Db
  finalize_all [] db = db
  finalize_all (j ∷ rest) db = finalize_all rest (finalize_job_if_done s locked now j.id db)

  unfoldable pub recover_stale_inprogress_jobs : Db → Db
  recover_stale_inprogress_jobs db = finalize_all (filter (is_stuck now db) db.jobs) db
