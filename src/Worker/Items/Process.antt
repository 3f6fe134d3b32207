-- ===== src/Worker/Items/Process.antt =====
-- `process_membership_job_item`: claim, run, record, finalize.
use rubigram.Base.{ℕ, String, Bool, Option, none, some, [], ◌∷◌}
use rubigram.Worker.Db.{process_item_in, Db, Settings, find_job, find_item, find_account, enqueue}
use rubigram.Worker.Rubika.{classify_error, Runner}
use rubigram.Worker.Jobs.{finalize_job_if_done}
use rubigram.Worker.Items.Claiming.{
  Claim, go, dropped, missing, retry_in, claim_item_and_reserve_throttle,
}
use rubigram.Worker.Items.Run.{Loaded, Ran, ran, raised, run_action}
use rubigram.Worker.Items.Failure.{handle_failure}

-- `MembershipJobItem.objects.select_related("job", "account").get(id=item_id)`
unfoldable pub load : ℕ → Db → Option Loaded
load id db = elim (find_item id db) [
  | none ↦ none
  | some i ↦ elim (find_job i.job_id db) [
    | none ↦ none
    | some j ↦ elim (find_account i.account_id db) [
      | none ↦ none
      | some a ↦ some (record { item = i; job = j; account = a })
    ]
  ]
]

module _ (s : Settings) (r : Runner) (locked : ℕ → Bool) (now : ℕ) where
  -- A cancelled job is not finalized again.
  unfoldable pub after_failure : Loaded → Option String × Db → Db
  after_failure l (none, db) = db
  after_failure l (some event, db) = finalize_job_if_done s locked now l.item.job_id db

  unfoldable pub after_action : Loaded → Db → Ran → Db
  after_action l db (ran event db') = finalize_job_if_done s locked now l.item.job_id db'
  after_action l db (raised f) = after_failure l (handle_failure s now l (classify_error f) db)

  unfoldable pub run_loaded : Option Loaded → Db → Db
  run_loaded none db = db
  run_loaded (some l) db = after_action l db (run_action r now l db)

  unfoldable pub after_claim : ℕ → Claim × Db → Db
  after_claim id (go, db) = run_loaded (load id db) db
  after_claim id (retry_in n, db) = enqueue (process_item_in id n ∷ []) db
  after_claim id (dropped, db) = db
  after_claim id (missing, db) = db

  unfoldable pub process_membership_job_item : ℕ → Db → Db
  process_membership_job_item id db = after_claim id (claim_item_and_reserve_throttle s now id db)
