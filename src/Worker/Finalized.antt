-- ===== src/Worker/Finalized.antt =====
-- `finalize_job_if_done` and what it leaves of a job.
use mathlib.Core.Path.{subst}
use rubigram.Base.{
  ◌==◌, ==_iff, if◌then◌else◌, leb, any, count, any-false-count, find?-holds, find?-update_where, ℕ,
  ◌≤◌, ◌<◌, ◌≡◌, refl, sym, ap, ◌⊎◌, inl, inr, Bool, true, false, not, ◌&&◌, none, some, List, [],
  ◌∷◌, ◌++◌, map, length, arith,
}
use rubigram.Worker.Model.{
  join, leave, JobStatus, Account, Job, is_terminal_status, is_success, same_action,
}
use rubigram.Worker.Db.{
  process_item, send_callback, retry_slot_fill_in, Db, Settings, find_job, enqueue, is_in_flight,
}
use rubigram.Worker.Jobs.{
  retention, count_items, refreshed, refresh_job_counts, Refill, deferred, refilled, new_items,
  add_items, reopened, missing_count, used_accounts, potential_accounts, is_young, add_replacements,
  wait_or_stop, is_refillable, refill_accounts, refill_with, refill_job,
  enqueue_replacement_items_if_needed, settled_status, event_of, settled, settle_job, after_refill,
  finalize_job_if_done,
}

-- The status of a job that ended with `n` successes.
abbrev pub IsJudged : Job → ℕ → JobStatus → Type 0
IsJudged j n status =
    ((j.requested_count ≤ n)
      → ((retention j ≡ none) → status ≡ JobStatus.completed)
        × ((days : ℕ) → retention j ≡ some days → status ≡ JobStatus.active))
    × ((n < j.requested_count)
        → ((1 ≤ n) → status ≡ JobStatus.partial) × ((n ≡ 0) → status ≡ JobStatus.fail))

-- The job is settled by the successes among its items, none of which is in flight.
pub record IsSettled (id : ℕ) (j k : Job) (db db' : Db) : Type 0 where
  pub items : db'.items ≡ db.items
  pub quiet : count (is_in_flight id) db.items ≡ 0
  pub counted : k.success_count ≡ count_items is_success id db.items
  pub judged : IsJudged j (count_items is_success id db.items) k.status
  pub told : db'.queue ≡ db.queue ++ send_callback id (event_of k.status) ∷ []

-- Missing slots are filled by new items, or are tried again later.
abbrev pub GoesOn : ℕ → Job → Job → Db → Db → Type 0
GoesOn id j k db db' =
    ((k.status ≡ JobStatus.inprogress)
      × ((i : ℕ) × (ids : List ℕ) × (db'.queue ≡ db.queue ++ map process_item (i ∷ ids))))
    ⊎ ((k.status ≡ j.status) × (db'.queue ≡ db.queue ++ retry_slot_fill_in id 90 ∷ []))

abbrev pub Finalized : ℕ → Job → Job → Db → Db → Type 0
Finalized id j k db db' =
    ((any (is_in_flight id) db.items ≡ true) × (db' ≡ db))
    ⊎ (GoesOn id j k db db' ⊎ IsSettled id j k db db')

-- What a refill answers, and what it leaves.
abbrev RefillShape : ℕ → Db → Refill × Db → Type 0
RefillShape id db (deferred, db') = db' ≡ enqueue (retry_slot_fill_in id 90 ∷ []) db
RefillShape id db (refilled [], db') = db' ≡ db
RefillShape id db (refilled (i ∷ ids), db') =
    (k : Job) × (find_job id db' ≡ some k)
    × (k.status ≡ JobStatus.inprogress)
    × (db'.queue ≡ db.queue)

Shape-if :
    (id : ℕ) (db : Db) (x y : Refill × Db) (b : Bool)
    → RefillShape id db x
    → RefillShape id db y
    → RefillShape id db (if b then x else y)
Shape-if id db x y true h g = h
Shape-if id db x y false h g = g

module _ (s : Settings) (now : ℕ) (j : Job) (db : Db) (e : find_job j.id db ≡ some j) where
  refill_with-Shape :
      (accounts : List Account) → RefillShape j.id db (refill_with s now j accounts db)
  unfolding refill_with add_replacements new_items add_items wait_or_stop
  refill_with-Shape (a ∷ rest) = (
    reopened now (length (a ∷ rest)) j,
    find?-update_where (λ k. k.id == j.id) (reopened now (length (a ∷ rest))) db.jobs j (λ k. refl)
        e,
    refl,
    refl,
  )
  refill_with-Shape [] =
      Shape-if j.id db _ _ (same_action j.action join)
        (Shape-if j.id db _ _ (potential_accounts j (used_accounts j db) db == 0) refl
          (Shape-if j.id db _ _ (is_young s now j) refl refl))
        refl

  refill-Shape :
      (locked : ℕ → Bool)
      → RefillShape j.id db (enqueue_replacement_items_if_needed s locked now j.id db)
  unfolding enqueue_replacement_items_if_needed refill_job
  refill-Shape locked =
      rw (e, enqueue_replacement_items_if_needed)
        (Shape-if j.id db _ _ (is_refillable j.status && not (same_action j.action leave))
          (Shape-if j.id db _ _ (missing_count j db == 0) refl
            (refill_with-Shape (refill_accounts s locked now j db)))
          refl)

settled-IsJudged : (j : Job) → IsJudged j j.success_count (settled_status j)
unfolding settled_status
settled-IsJudged j = (
  λ enough.
      rw (let t : leb j.requested_count j.success_count ≡ true = ground arith in t)
        ((λ e. rw e refl), (λ days e. rw e refl)),
  λ few.
      rw (let t : leb j.requested_count j.success_count ≡ false = ground arith in t)
        ((λ e. ground arith), (λ e. ground arith)),
)

abbrev pub Outcome : ℕ → Job → Db → Db → Type 0
Outcome id j db db' = (k : Job) × (find_job id db' ≡ some k) × Finalized id j k db db'

module _ (s : Settings) (locked : ℕ → Bool) (now : ℕ) (j : Job) (db : Db)
    (e : find_job j.id db ≡ some j) (live : is_terminal_status j.status ≡ false) where
  abbrev recounted : Db
  recounted = refresh_job_counts now j.id db

  found : find_job j.id recounted ≡ some (refreshed now db.items j)
  unfolding refresh_job_counts refreshed
  found = find?-update_where (λ k. k.id == j.id) (refreshed now db.items) db.jobs j (λ k. refl) e

  settle_job-Outcome :
      count (is_in_flight j.id) db.items ≡ 0 → Outcome j.id j db (settle_job now j.id recounted)
  unfolding refreshed retention settle_job refresh_job_counts
  settle_job-Outcome quiet =
      rw (found, settle_job, live)
        (
          settled now (refreshed now db.items j),
          find?-update_where (λ k. k.id == j.id) (settled now) recounted.jobs
              (refreshed now db.items j) (λ k. refl) found,
          inr (
              inr (record {
                items = refl;
                quiet = quiet;
                counted = refl;
                judged = settled-IsJudged (refreshed now db.items j);
                told = refl;
              })),
        )

  after_refill-Outcome :
      (r : Refill × Db)
      → count (is_in_flight j.id) db.items ≡ 0
      → RefillShape j.id recounted r
      → Outcome j.id j db (after_refill now j.id r)
  unfolding after_refill refreshed refresh_job_counts
  after_refill-Outcome (deferred, db') quiet shape =
      (refreshed now db.items j, rw shape found, inr (inl (inr (refl, rw shape refl))))
  after_refill-Outcome (refilled [], db') quiet shape = rw shape (settle_job-Outcome quiet)
  after_refill-Outcome (refilled (i ∷ ids), db') quiet (k, at, open_, same) =
      (k, at, inr (inl (inl (open_, (i, ids, ap (λ q. q ++ map process_item (i ∷ ids)) same)))))

  finalize-found : Outcome j.id j db (finalize_job_if_done s locked now j.id db)
  unfolding finalize_job_if_done refreshed
  finalize-found = pick (any (is_in_flight j.id) db.items) refl
    where
      refill : Refill × Db
      refill = enqueue_replacement_items_if_needed s locked now j.id recounted

      pick :
          (b : Bool)
          → any (is_in_flight j.id) db.items ≡ b
          → Outcome j.id j db (if b then db else after_refill now j.id refill)
      pick true t = (j, e, inl (t, refl))
      pick false u =
          after_refill-Outcome refill (any-false-count (is_in_flight j.id) db.items u)
            (refill-Shape s now (refreshed now db.items j) recounted found locked)

-- Finalizing a job that is not terminal does one of three things. If an item of it is pending or
-- running, nothing changes. Or the order goes on: the job is INPROGRESS and at least one item is
-- handed to a task, or its status stays and the refill is to be tried again in 90 seconds. Or no item
-- of it is in flight, the items stay, and it is settled by their successes: as many as requested make
-- it COMPLETED, or ACTIVE if the accounts are to leave again; fewer make it PARTIAL, none FAIL; its
-- counter tells them and a callback tells the panel.
pub finalize-Finalized :
    (s : Settings) (locked : ℕ → Bool) (now id : ℕ) (j : Job) (db : Db)
    → find_job id db ≡ some j
    → is_terminal_status j.status ≡ false
    → (k : Job) × (find_job id (finalize_job_if_done s locked now id db) ≡ some k)
      × Finalized id j k db (finalize_job_if_done s locked now id db)
finalize-Finalized s locked now id j db e live =
    subst (λ n. Outcome n j db (finalize_job_if_done s locked now n db)) named
      (finalize-found s locked now j db (subst (λ n. find_job n db ≡ some j) (sym named) e) live)
  where
    named : j.id ≡ id
    named = (==_iff j.id id).0 (find?-holds (λ k. k.id == id) db.jobs j e)
