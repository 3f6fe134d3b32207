-- ===== src/Worker/Tests/Items.antt =====
-- Items and auto-leaves.
use rubigram.Base.{ℕ, suc, ◌≤◌, ◌≡◌, refl, ◌≢◌, some, [], ◌∷◌, arith}
use rubigram.Worker.Model.{ItemStatus, Job, processed_count}
use rubigram.Worker.Db.{Db, find_job, find_item}
use rubigram.Worker.Items.{
  Claim, go, dropped, retry_in, ensure_throttle, reserve_throttle, wait_seconds, start_item, pace,
  start_paced, claim_loaded, claim_row, claim_item_and_reserve_throttle, finish_item, run_action,
}
use rubigram.Worker.Jobs.{finalize_job_if_done}
use rubigram.Worker.Finalized.{Finalized, finalize-Finalized}
use rubigram.Worker.Recovery.{process_auto_leave_schedule}
use rubigram.Worker.Pacing.{claim_twice, claim-waits}
use rubigram.Worker.Counted.{finish_item-counts}
use rubigram.Worker.Ended.{Settled, run_action-Settled}
use rubigram.Worker.Leaves.{IsClosed, process_auto_leave-IsClosed}
use rubigram.Worker.Tests.Data.{
  settings, busy, unlocked_rows, account, placed, found-ordered, first_item, second_item,
  two_orders, loaded, due_leave, with_leave, ordered,
}

abbrev claimed : Claim × Db
claimed = claim_item_and_reserve_throttle settings 2000 1 two_orders

claimed-go : claimed ≡ (go, claimed.1)
unfolding claim_item_and_reserve_throttle claim_row claim_loaded start_paced pace wait_seconds
claimed-go = refl

found-first : find_job 1 claimed.1 ≡ some ordered
unfolding claim_item_and_reserve_throttle claim_row claim_loaded start_paced pace wait_seconds
    start_item reserve_throttle ensure_throttle
found-first = refl

claim_twice_example : (claim_item_and_reserve_throttle settings 3000 1 claimed.1).0 ≡ dropped
claim_twice_example =
    claim_twice settings 2000 3000 1 first_item ordered two_orders claimed.1 claimed.1 refl refl
      claimed-go ordered refl found-first (omega arith)

found-second : find_item 2 claimed.1 ≡ some second_item
unfolding claim_item_and_reserve_throttle claim_row claim_loaded start_paced pace wait_seconds
    start_item reserve_throttle ensure_throttle
found-second = refl

found-other : find_job 2 claimed.1 ≡ some (record ordered { id = 2; target_key = "user:other" })
unfolding claim_item_and_reserve_throttle claim_row claim_loaded start_paced pace wait_seconds
    start_item reserve_throttle ensure_throttle
found-other = refl

claim-waits_example :
    (n : ℕ) × ((claim_item_and_reserve_throttle settings 3000 2 claimed.1).0 ≡ retry_in n) × (1 ≤ n)
claim-waits_example =
    claim-waits settings 2000 3000 1 first_item ordered two_orders claimed.1 claimed.1 2 second_item
      (record ordered { id = 2; target_key = "user:other" }) refl refl refl claimed-go refl
      found-second found-other refl refl refl (omega arith)

finish_item-counts_example :
    ((k : Job) × (find_job 1 (finish_item 4000 first_item ItemStatus.success "Channel" "" placed.1)
        ≡ some k)
      × (processed_count k ≡ suc (processed_count ordered)))
    × ((id : ℕ)
        → id ≢ 1
        → find_job id (finish_item 4000 first_item ItemStatus.success "Channel" "" placed.1)
          ≡ find_job id placed.1)
finish_item-counts_example =
    finish_item-counts 4000 first_item ItemStatus.success "Channel" "" ordered placed.1
      found-ordered refl

run_action-Settled_example :
    Settled settings 4000 loaded two_orders (run_action busy 4000 loaded two_orders)
run_action-Settled_example = run_action-Settled settings 4000 loaded busy two_orders

process_auto_leave-IsClosed_example :
    IsClosed 1 1 (process_auto_leave_schedule busy 6000 1 with_leave)
process_auto_leave-IsClosed_example =
    process_auto_leave-IsClosed busy 6000 1 due_leave (account 1) with_leave refl refl (omega arith)
      refl

-- Both joins of the order succeeded.
abbrev joined_both : Db
joined_both = record two_orders {
  jobs = ordered ∷ [];
  items =
      record first_item { status = ItemStatus.success }
      ∷ record first_item { id = 2; account_id = 2; status = ItemStatus.success }
      ∷ [];
}

finalize-Finalized_example :
    (k : Job) × (find_job 1 (finalize_job_if_done settings unlocked_rows 9000 1 joined_both)
      ≡ some k)
    × Finalized 1 ordered k joined_both
        (finalize_job_if_done settings unlocked_rows 9000 1 joined_both)
finalize-Finalized_example =
    finalize-Finalized settings unlocked_rows 9000 1 ordered joined_both refl refl
