-- ===== src/Worker/Tests/Orders.antt =====
-- Orders, from their request to later states.

use rubigram.Base.{
  count, ◌⊎◌, arith, length, All, ◌≤◌, min, String, ◌≡◌, refl, true, false, some, none, [], ◌≢◌,
}
use rubigram.Base.Errors.{ok, err}
use rubigram.Worker.Model.{JobStatus, join, leave, Job}
use rubigram.Worker.Db.{is_in_flight, Db, find_job}
use rubigram.Worker.Selection.{select_accounts, count_free_accounts}
use rubigram.Worker.Selection.Allowed.{MayAct}
use rubigram.Worker.Selection.Eligible.{select_accounts-eligible, select_accounts-count}
use rubigram.Worker.Jobs.{
  add_replacements, after_refill, enqueue_replacement_items_if_needed, settle_job, pool_busy,
  create_membership_job,
}
use rubigram.Worker.Items.{claim_item_and_reserve_throttle}
use rubigram.Worker.Recovery.{recover_stale_running_items}
use rubigram.Worker.Transactions.Runs.{Runs}
use rubigram.Worker.Transactions.{claim, delete, settle}
use rubigram.Worker.Accounts.Rows.{delete_worker_account}
use rubigram.Worker.Overtaken.{after_refill-overtaken}
use rubigram.Worker.Steps.{create, one, recover_running, Reach, here, next}
use rubigram.Worker.Guarantees.{reachable-IsSound, reachable-job_stays}
use rubigram.Worker.Placement.{Outcome, create-Outcome, create_twice}
use rubigram.Worker.Contention.{create-not_busy}
use rubigram.Worker.Invariant.{IsSound, JobAdvances}
use rubigram.Worker.Tests.Data.{
  settings, two_accounts, payload, unlocked_rows, placed, ordered, placed-ordered, found-ordered,
}

-- One task has started the item when its account is deleted; it goes on, and settles the order.
Reach-placed : Reach settings two_accounts placed.1
Reach-placed = next here (create unlocked_rows 1000 payload two_accounts)

abbrev claimed : Db
claimed = (claim_item_and_reserve_throttle settings 2000 1 placed.1).1

abbrev deleted : Db
deleted = (delete_worker_account (some 1) none none claimed).1

abbrev later : Db
later = settle_job 3000 1 deleted

Reach-later : Reach settings placed.1 (recover_stale_running_items 9000 later)
Reach-later =
    next
      (next (next (next here (one (claim 2000 1))) (one (delete (some 1) none none)))
        (one (settle 3000 1)))
      (recover_running 9000 later)

after_refill-overtaken_example :
    let db1 = (add_replacements 2000 1 two_accounts.accounts placed.1).1 in
    let db2 =
      after_refill 2001 1 (enqueue_replacement_items_if_needed settings unlocked_rows 2001 1 db1) in
    (k : Job) × (find_job 1 db2 ≡ some k)
    × ((k.status ≡ JobStatus.partial) ⊎ (k.status ≡ JobStatus.fail))
    × (length two_accounts.accounts ≤ count (is_in_flight 1) db2.items)
after_refill-overtaken_example =
    after_refill-overtaken settings unlocked_rows 2000 2001 1 two_accounts.accounts ordered placed.1
      found-ordered (omega arith) (omega arith)

reachable-IsSound_example : IsSound placed.1
reachable-IsSound_example = reachable-IsSound settings (refl, refl) Reach-placed

reachable-job_stays_example :
    (k : Job) × (find_job 1 (recover_stale_running_items 9000 later) ≡ some k)
    × JobAdvances ordered k
reachable-job_stays_example =
    reachable-job_stays settings 1 ordered (refl, refl) Reach-placed Reach-later found-ordered

create-Outcome_example : Outcome two_accounts placed
create-Outcome_example = create-Outcome settings unlocked_rows 1000 payload two_accounts

create_twice_example :
    create_membership_job settings (λ id. true) 5000 payload placed.1 ≡ (ok ordered, placed.1)
create_twice_example =
    create_twice settings payload unlocked_rows (λ id. true) 1000 5000 two_accounts placed.1 ordered
      placed-ordered

create-not_busy_example :
    create_membership_job settings unlocked_rows 1000 payload two_accounts
    ≢ (err (pool_busy 1 2), two_accounts)
create-not_busy_example = create-not_busy settings 1000 payload 1 2 two_accounts two_accounts

select_accounts-eligible_example :
    (length (select_accounts settings unlocked_rows 1000 true join "@channel" 1 [] two_accounts)
      ≤ 1)
    × All
        (λ a.
          MayAct settings 1000 join "@channel" two_accounts a
          × (join ≢ leave → (true ≡ true → unlocked_rows a.id ≡ false) × All (λ id. id ≢ a.id) []))
        (select_accounts settings unlocked_rows 1000 true join "@channel" 1 [] two_accounts)
select_accounts-eligible_example =
    select_accounts-eligible settings unlocked_rows 1000 true join "@channel" 1 [] two_accounts

select_accounts-count_example :
    length (select_accounts settings (λ id. false) 1000 true join "@channel" 3 [] two_accounts)
    ≡ min 3 (count_free_accounts settings 1000 join "@channel" two_accounts)
select_accounts-count_example =
    select_accounts-count settings 1000 true join "@channel" 3 two_accounts refl

abbrev first_nonce : String
first_nonce = "a"

abbrev second_nonce : String
second_nonce = "b"
