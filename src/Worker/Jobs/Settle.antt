-- ===== src/Worker/Jobs/Settle.antt =====
-- `finalize_job_if_done`: fill the missing slots, or settle the job and tell the panel.
use rubigram.Base.{ltb, leb, if◌then◌else◌, any, ℕ, String, Bool, none, some, [], ◌∷◌, map}
use rubigram.Worker.Model.{JobStatus, Job, is_terminal_status}
use rubigram.Worker.Db.{
  process_item, send_callback, Db, Settings, find_job, update_job, enqueue, is_in_flight,
}
use rubigram.Worker.Jobs.Bookkeeping.{retention, refresh_job_counts}
use rubigram.Worker.Jobs.Replacements.{
  Refill, deferred, refilled, enqueue_replacement_items_if_needed,
}

-- The status of a job none of whose items is pending or running any more.
unfoldable pub settled_status : Job → JobStatus
settled_status j =
    if leb j.requested_count j.success_count
    then elim (retention j) [ some _ ↦ JobStatus.active | none ↦ JobStatus.completed ]
    else if ltb 0 j.success_count
    then JobStatus.partial
    else JobStatus.fail

unfoldable pub event_of : JobStatus → String
event_of JobStatus.completed = "order_completed"
event_of JobStatus.partial = "order_partial"
event_of JobStatus.fail = "order_failed"
event_of _ = "order_active"

abbrev pub settled : ℕ → Job → Job
settled now j = record j {
  status = settled_status j;
  finished_at = elim (settled_status j) [ JobStatus.active ↦ j.finished_at | _ ↦ some now ];
  updated_at = now;
}

-- The last transaction, and the callback.
unfoldable pub settle_job : ℕ → ℕ → Db → Db
settle_job now id db = elim (find_job id db) [
  | none ↦ db
  | some j ↦
      if is_terminal_status j.status
      then db
      else enqueue (send_callback id (event_of (settled_status j)) ∷ [])
          (update_job id (settled now) db)
]

-- What follows the refill: wait, dispatch the new items, or settle.
unfoldable pub after_refill : ℕ → ℕ → Refill × Db → Db
after_refill now id (deferred, db) = db
after_refill now id (refilled [], db) = settle_job now id db
after_refill now id (refilled (i ∷ ids), db) = enqueue (map process_item (i ∷ ids)) db

unfoldable pub finalize_job_if_done : Settings → (ℕ → Bool) → ℕ → ℕ → Db → Db
finalize_job_if_done s locked now id db =
    if any (is_in_flight id) db.items
    then db
    else after_refill now id
        (enqueue_replacement_items_if_needed s locked now id (refresh_job_counts now id db))
