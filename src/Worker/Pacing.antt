-- ===== src/Worker/Pacing.antt =====
-- What a claimed item keeps from other tasks: its own second run, and its account's other items.
use mathlib.Core.Path.{subst}
use rubigram.Base.{
  ltb, ◌==◌, find?, ℕ, ◌+◌, ◌-◌, ◌*◌, ◌/◌, ◌≤◌, ◌<◌, max, ◌≡◌, refl, sym, ◌∙◌, true, false, some,
  arith,
}
use rubigram.Worker.Model.{view, ItemStatus, Throttle, Job, Item, same_action}
use rubigram.Worker.Db.{Db, Settings, second, find_job, find_item}
use rubigram.Worker.Items.{
  running_item_stale_seconds, go, dropped, retry_in, is_stale, wait_seconds, pace, start_paced,
  claim_loaded, claim_row, claim_item_and_reserve_throttle,
}
use rubigram.Worker.Claimed.{Claimed, Claimed-of}

-- What a claim answers for an item that runs, and for one that must wait.
module _ (s : Settings) (now : ℕ) (i : Item) (j : Job) (db : Db) where
  running-dropped :
      (st : ItemStatus)
      → st ≡ ItemStatus.running
      → is_stale now i ≡ false
      → (claim_loaded s now i j st db).0 ≡ dropped
  unfolding claim_loaded
  running-dropped ItemStatus.running e young = rw (young, claim_loaded) refl
  running-dropped ItemStatus.success e young = refl
  running-dropped ItemStatus.failed e young = refl
  running-dropped ItemStatus.skipped e young = refl
  running-dropped ItemStatus.pending e young = absurd (cc)

  paced-waits :
      (st : ItemStatus) (n : ℕ)
      → st ≡ ItemStatus.pending
      → same_action j.action view ≡ false
      → wait_seconds now i.account_id db ≡ some n
      → (claim_loaded s now i j st db).0 ≡ retry_in n
  unfolding claim_loaded pace start_paced
  paced-waits ItemStatus.pending n e v w = rw (v, w, start_paced, pace) refl
  paced-waits ItemStatus.running n e v w = absurd (cc)
  paced-waits ItemStatus.success n e v w = absurd (cc)
  paced-waits ItemStatus.failed n e v w = absurd (cc)
  paced-waits ItemStatus.skipped n e v w = absurd (cc)

  claim-loaded :
      (id : ℕ)
      → find_item id db ≡ some i
      → find_job i.job_id db ≡ some j
      → claim_item_and_reserve_throttle s now id db ≡ claim_loaded s now i j i.status db
  unfolding claim_item_and_reserve_throttle claim_row
  claim-loaded id e e' = rw (e, e', claim_item_and_reserve_throttle) refl

young-since :
    (now now' : ℕ) (k : Item)
    → k.started_at ≡ some now
    → now' ≤ now + running_item_stale_seconds * second
    → is_stale now' k ≡ false
unfolding is_stale
young-since now now' k at le = rw (at, is_stale) (ground (arith, le))

wait-positive :
    (now a at : ℕ) (t : Throttle) (db : Db)
    → find? (λ t. t.account_id == a) db.throttles ≡ some t
    → t.next_available_at ≡ some at
    → now < at
    → (n : ℕ) × (wait_seconds now a db ≡ some n) × (1 ≤ n)
unfolding wait_seconds
wait-positive now a at t db e next soon =
    (max 1 ((at - now) / second), rw (e, next, wait_seconds) (rw later refl), omega arith)
  where
    later : ltb now at ≡ true
    later = ground (arith, soon)

module _ (s : Settings) (now now' id : ℕ) (i : Item) (j : Job) (db db' later : Db) where
  -- A task was told to go on with an item. In any later tables in which the item's row is as that
  -- claim left it, neither finished nor recovered, and in which its job exists, a second task for the
  -- item is dropped until more than 300 seconds have passed since.
  pub claim_twice :
      find_item id db ≡ some i
      → find_job i.job_id db ≡ some j
      → claim_item_and_reserve_throttle s now id db ≡ (go, db')
      → (j' : Job) → find_item id later ≡ find_item id db'
      → find_job i.job_id later ≡ some j'
      → now' ≤ now + running_item_stale_seconds * second
      → (claim_item_and_reserve_throttle s now' id later).0 ≡ dropped
  unfolding claim_item_and_reserve_throttle claim_row claim_loaded is_stale Claimed
  claim_twice e e' h j' row job le =
      let (k, found, running_, at, owned, jobs, r) =
        subst (Claimed s now id i j db) h (Claimed-of s now id i j db e e') in
      let found_job : find_job k.job_id later ≡ some j' = rw owned job in
      rw (claim-loaded s now' k j' later id (row ∙ found) found_job)
        (running-dropped s now' k j' later k.status running_ (young-since now now' k at le))

  -- A task was told to go on with an item of a join or a leave. In any later tables in which the
  -- account's throttle is as that claim left it, so that no failure and no recovery has set its time
  -- anew, a pending item of the same account for a join or a leave is told to wait, one second or
  -- more, until the action delay is over.
  pub claim-waits :
      (id2 : ℕ) (i2 : Item) (j2 : Job)
      → find_item id db ≡ some i
      → find_job i.job_id db ≡ some j
      → same_action j.action view ≡ false
      → claim_item_and_reserve_throttle s now id db ≡ (go, db')
      → find? (λ t. t.account_id == i.account_id) later.throttles
        ≡ find? (λ t. t.account_id == i.account_id) db'.throttles
      → find_item id2 later ≡ some i2
      → find_job i2.job_id later ≡ some j2
      → same_action j2.action view ≡ false
      → i2.status ≡ ItemStatus.pending
      → i2.account_id ≡ i.account_id
      → now' < now + s.action_delay
      → (n : ℕ) × ((claim_item_and_reserve_throttle s now' id2 later).0 ≡ retry_in n) × (1 ≤ n)
  unfolding claim_item_and_reserve_throttle claim_row claim_loaded start_paced pace wait_seconds
      Claimed
  claim-waits id2 i2 j2 e e' v h throttle e2 e2' v2 waiting same soon =
      let (k, found, running_, at, owned, jobs, r) =
        subst (Claimed s now id i j db) h (Claimed-of s now id i j db e e') in
      let (t, held, next) = r v in
      let (n, w, positive) =
        wait-positive now' i2.account_id (now + s.action_delay) t later
          (subst (λ a. find? (λ x. x.account_id == a) later.throttles ≡ some t) (sym same)
            (throttle ∙ held))
          next soon in
      (
        n,
        rw (claim-loaded s now' i2 j2 later id2 e2 e2')
            (paced-waits s now' i2 j2 later i2.status n waiting v2 w),
        positive,
      )
