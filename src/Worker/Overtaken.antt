-- ===== src/Worker/Overtaken.antt =====
-- Two tasks that finalize one job at the same time: the refill of one, then the rest of the other.
use rubigram.Base.{
  if◌then◌else◌, leb, ltb, ◌==◌, ==_iff, ==_self, Bool-cases, length, count, count-append,
  find?-holds, find?-update_where, ℕ, suc, ◌+◌, ◌≤◌, ◌<◌, ◌≡◌, refl, ◌⊎◌, inl, inr, Bool, true,
  false, not, some, List, [], ◌∷◌, arith,
}
use rubigram.Worker.Model.{leave, JobStatus, Account, Job, same_action}
use rubigram.Worker.Db.{Db, Settings, find_job, is_in_flight}
use rubigram.Worker.Jobs.{
  new_items, add_items, refilled, missing_count, reopened, add_replacements, refill_job,
  enqueue_replacement_items_if_needed, settled_status, settled, settle_job, after_refill,
}

new_items-in_flight :
    (now job_id id : ℕ) (accounts : List Account)
    → count (is_in_flight job_id) (new_items now job_id id accounts) ≡ length accounts
unfolding new_items
new_items-in_flight now job_id id [] = refl
new_items-in_flight now job_id id (a ∷ rest) =
    ground (arith, ==_self job_id, new_items-in_flight now job_id (suc id) rest)

few-Ends :
    (j : Job)
    → j.success_count < j.requested_count
    → (settled_status j ≡ JobStatus.partial) ⊎ (settled_status j ≡ JobStatus.fail)
unfolding settled_status
few-Ends j few = elim (Bool-cases (ltb 0 j.success_count)) [
  | inl e ↦ inl (rw (low, e) refl)
  | inr e ↦ inr (rw (low, e) refl)
]
  where
    low : leb j.requested_count j.success_count ≡ false
    low = ground arith

module _ (s : Settings) (locked : ℕ → Bool) (now now' id : ℕ) (accounts : List Account) (j : Job)
    (db : Db) (e : find_job id db ≡ some j) where
  abbrev replaced : Db
  replaced = (add_replacements now id accounts db).1

  abbrev opened : Job
  opened = reopened now (length accounts) j

  found : find_job id replaced ≡ some opened
  unfolding add_replacements add_items
  found =
      find?-update_where (λ k. k.id == id) (reopened now (length accounts)) db.jobs j (λ k. refl) e

  waiting : length accounts ≤ count (is_in_flight id) replaced.items
  unfolding add_replacements add_items
  waiting = omega (
    arith,
    count-append (is_in_flight id) db.items (new_items now id db.next_item_id accounts),
    new_items-in_flight now id db.next_item_id accounts,
  )

  named : j.id ≡ id
  named = (==_iff j.id id).0 (find?-holds (λ k. k.id == id) db.jobs j e)

  nothing_missing :
      j.total_count ≤ j.success_count + length accounts
      → enqueue_replacement_items_if_needed s locked now' id replaced ≡ (refilled [], replaced)
  unfolding enqueue_replacement_items_if_needed refill_job missing_count
  nothing_missing enough =
      rw (found, enqueue_replacement_items_if_needed) (pick (not (same_action j.action leave)))
    where
      none_missing : (missing_count opened replaced == 0) ≡ true
      none_missing = rw named (ground (arith, enough, waiting))

      pick :
          (b : Bool)
          → (if b then refill_job s locked now' opened replaced else (refilled [], replaced))
            ≡ (refilled [], replaced)
      pick true = rw (none_missing, refill_job) refl
      pick false = refl

  settles :
      j.total_count ≤ j.success_count + length accounts
      → j.success_count < j.requested_count
      → let db' =
          after_refill now' id (enqueue_replacement_items_if_needed s locked now' id replaced) in
        (k : Job) × (find_job id db' ≡ some k)
        × ((k.status ≡ JobStatus.partial) ⊎ (k.status ≡ JobStatus.fail))
        × (length accounts ≤ count (is_in_flight id) db'.items)
  unfolding after_refill settle_job
  settles enough few = rw (nothing_missing enough) (
      rw (found, settle_job)
        (
          settled now' opened,
          find?-update_where (λ k. k.id == id) (settled now') replaced.jobs opened (λ k. refl)
              found,
          few-Ends opened few,
          waiting,
        ))

-- Before a task that finalizes a job comes to its refill, another one has added replacement items for
-- all that was missing, and fewer accounts have succeeded than were requested. Then the task goes on
-- to settle the job as PARTIAL or FAIL, while at least as many items as were added are in flight.
pub after_refill-overtaken :
    (s : Settings) (locked : ℕ → Bool) (now now' id : ℕ) (accounts : List Account) (j : Job)
    (db : Db)
    → find_job id db ≡ some j
    → j.total_count ≤ j.success_count + length accounts
    → j.success_count < j.requested_count
    → let db1 = (add_replacements now id accounts db).1 in
      let db2 = after_refill now' id (enqueue_replacement_items_if_needed s locked now' id db1) in
      (k : Job) × (find_job id db2 ≡ some k)
      × ((k.status ≡ JobStatus.partial) ⊎ (k.status ≡ JobStatus.fail))
      × (length accounts ≤ count (is_in_flight id) db2.items)
after_refill-overtaken s locked now now' id accounts j db e enough few =
    settles s locked now now' id accounts j db e enough few
