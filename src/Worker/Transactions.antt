-- ===== src/Worker/Transactions.antt =====
-- The single transactions that the tasks and requests consist of. Each is given what its task has
-- read, at whatever time: other transactions may have run since.
use rubigram.Base.{
  update_where, none, true, ◌==◌, cut, ℕ, String, ◌≡◌, refl, Bool, false, Option, some, List, arith,
}
use rubigram.Worker.Model.{
  LeaveStatus, AutoLeave, Throttle, ItemStatus, Account, Job, Item, is_terminal_status,
}
use rubigram.Worker.Db.{Task, Db, Settings, find_job, update_job, update_item, enqueue}
use rubigram.Worker.Jobs.{
  Seen, mark_membership, save_job_member_counts, create_auto_leave_if_needed, refreshed,
  cancel_rows, enqueue_replacement_items_if_needed, settle_job, Order, find_key, insert_order,
  is_refillable, add_replacements,
}
use rubigram.Worker.Items.{
  Loaded, claim_item_and_reserve_throttle, bump_count, throttle_account, disable_account,
  refresh_credential, record_view, fill_object_guid, note_error,
}
use rubigram.Worker.Recovery.{
  is_stale_running, to_pending, unlocked, begin_leave, fail_leave,
  complete_active_job_if_auto_leaves_done,
}
use rubigram.Worker.Nonces.{remember_nonce}
use rubigram.Worker.Accounts.Rows.{Signed, save_account, delete_worker_account}
use rubigram.Worker.Invariant.{
  insert_order-Fine, add_replacements-Fine, Calm-same, Calm-items, IsSound, Fine, Fine-Calm,
  update_job-Calm, enqueue-Calm, claim-Calm, refresh_credential-Calm, save_job_member_counts-Calm,
  mark_membership-Calm, fill_object_guid-Calm, create_auto_leave-Calm, record_view-Calm,
  bump_count-kept, refreshed-kept, throttle_account-Calm, disable_account-Calm, cancel_rows-Fine,
  refill_any-Fine, settle_job-Fine, complete_active-Fine, fail_leave-Calm, delete-Calm, save-Calm,
}
pub mod Runs
pub mod Actions
pub mod Tasks

-- The first write of `finish_item`
abbrev ended : ℕ → ItemStatus → String → String → Item → Item
ended now st title message i = record i {
  status = st;
  group_title = cut 255 title;
  message = message;
  finished_at = some now;
}

-- Its second write
abbrev counted : ℕ → ItemStatus → Job → Job
counted now st j = record (bump_count st j) { updated_at = now }

-- An auto-leave is over.
abbrev closed : ℕ → AutoLeave → AutoLeave
closed now l = record l { status = LeaveStatus.completed; processed_at = some now; last_error = "" }

module _ (s : Settings) where
  pub data Transaction (db : Db) : Db → Type 0 where
    -- An order's job and items are written under the unique index of its key, for the accounts that
    -- the transaction has selected and locked.
    place :
        (now : ℕ) (o : Order) (accounts : List Account)
        → find_key o.idempotency_key db ≡ none
        → Transaction db (insert_order s now o accounts db)
    claim : (now id : ℕ) → Transaction db (claim_item_and_reserve_throttle s now id db).1
    session : (a : ℕ) (text : Option String) → Transaction db (refresh_credential a text db)
    member_counts :
        (now : ℕ) (j : Job) (before after : Option ℕ)
        → Transaction db (save_job_member_counts now j before after db)
    membership :
        (now a : ℕ) (key target : String) (joined : Bool) (seen : Seen)
        → Transaction db (mark_membership now a key target joined seen db)
    object_guid : (id : ℕ) (guid : String) → Transaction db (fill_object_guid id guid db)
    auto_leave :
        (now : ℕ) (j : Job) (i : Item) → Transaction db (create_auto_leave_if_needed now j i db)
    post_view : (now a : ℕ) (key : String) → Transaction db (record_view now a key db)
    end_item :
        (now id : ℕ) (st : ItemStatus) (title message : String)
        → Transaction db (update_item id (ended now st title message) db)
    count_item : (now id : ℕ) (st : ItemStatus) → Transaction db (update_job id (counted now st) db)
    throttle : (now a span : ℕ) → Transaction db (throttle_account now a span db)
    disable : (a : ℕ) (reason : String) → Transaction db (disable_account a reason db)
    note :
        (now : ℕ) (l : Loaded) (message : String) → Transaction db (note_error s now l message db)
    -- The job is locked while its status is looked at and its rows are written.
    cancel :
        (now id : ℕ) (reason : String) (j : Job)
        → find_job id db ≡ some j
        → is_terminal_status j.status ≡ false
        → Transaction db (cancel_rows now id reason db)
    -- The items were counted before the transaction began.
    refresh :
        (now id : ℕ) (items : List Item) → Transaction db (update_job id (refreshed now items) db)
    refill :
        (locked : ℕ → Bool) (now id : ℕ)
        → Transaction db (enqueue_replacement_items_if_needed s locked now id db).1
    -- The same, for any accounts that the transaction has selected and locked.
    replace :
        (now id : ℕ) (accounts : List Account) (j : Job)
        → find_job id db ≡ some j
        → is_refillable j.status ≡ true
        → Transaction db (add_replacements now id accounts db).1
    settle : (now id : ℕ) → Transaction db (settle_job now id db)
    send : (tasks : List Task) → Transaction db (enqueue tasks db)
    begin : (id : ℕ) → Transaction db (begin_leave id db)
    give_up : (id : ℕ) (message : String) → Transaction db (fail_leave id message db)
    complete : (now id : ℕ) → Transaction db (complete_active_job_if_auto_leaves_done now id db)
    leave_done :
        (now id : ℕ)
        → Transaction db (record db {
          schedules = update_where (λ (l : AutoLeave). l.id == id) (closed now) db.schedules;
        })
    nonce : (n : String) → Transaction db (remember_nonce n db).1
    reset_stale :
        (now : ℕ)
        → Transaction db
            (record db { items = update_where (is_stale_running now) to_pending db.items })
    unlock :
        (p : Throttle → Bool)
        → Transaction db (record db { throttles = update_where p unlocked db.throttles })
    save : (now : ℕ) (x : Signed) → Transaction db (save_account now x db).1
    delete :
        (id : Option ℕ) (session phone : Option String)
        → Transaction db (delete_worker_account id session phone db).1

  pub Transaction-Fine : {a b : Db} → Transaction a b → IsSound a → Fine a b
  unfolding begin_leave note_error remember_nonce
  Transaction-Fine {a} (place now o accounts new) h = insert_order-Fine s now o accounts a new h
  Transaction-Fine {a} (claim now id) h = Fine-Calm h (claim-Calm s now id a)
  Transaction-Fine {a} (session x text) h = Fine-Calm h (refresh_credential-Calm x text a)
  Transaction-Fine {a} (member_counts now j before after) h =
      Fine-Calm h (save_job_member_counts-Calm now j before after a)
  Transaction-Fine {a} (membership now x key target joined seen) h =
      Fine-Calm h (mark_membership-Calm now x key target joined seen a)
  Transaction-Fine {a} (object_guid id guid) h = Fine-Calm h (fill_object_guid-Calm id guid a)
  Transaction-Fine {a} (auto_leave now j i) h = Fine-Calm h (create_auto_leave-Calm now j i a)
  Transaction-Fine {a} (post_view now x key) h = Fine-Calm h (record_view-Calm now x key a)
  Transaction-Fine {a} (end_item now id st title message) h =
      Fine-Calm h (Calm-items (λ i. i.id == id) (ended now st title message) a (λ i. (refl, refl)))
  Transaction-Fine {a} (count_item now id st) h =
      Fine-Calm h (update_job-Calm id (counted now st) a (bump_count-kept now st))
  Transaction-Fine {a} (throttle now x span) h = Fine-Calm h (throttle_account-Calm now x span a)
  Transaction-Fine {a} (disable x reason) h = Fine-Calm h (disable_account-Calm x reason a)
  Transaction-Fine (note now l message) h = Fine-Calm h (Calm-same refl refl refl refl)
  Transaction-Fine {a} (cancel now id reason j e open_) h =
      cancel_rows-Fine now id reason j a e open_ h
  Transaction-Fine {a} (refresh now id items) h =
      Fine-Calm h (update_job-Calm id (refreshed now items) a (refreshed-kept now items))
  Transaction-Fine {a} (refill locked now id) h = refill_any-Fine s locked now id a h
  Transaction-Fine {a} (replace now id accounts j e open_) h =
      add_replacements-Fine now id accounts j a e (ground arith) h
  Transaction-Fine {a} (settle now id) h = settle_job-Fine now id a h
  Transaction-Fine {a} (send tasks) h = Fine-Calm h (enqueue-Calm tasks a)
  Transaction-Fine (begin id) h = Fine-Calm h (Calm-same refl refl refl refl)
  Transaction-Fine {a} (give_up id message) h = Fine-Calm h (fail_leave-Calm id message a)
  Transaction-Fine {a} (complete now id) h = complete_active-Fine now id a h
  Transaction-Fine (leave_done now id) h = Fine-Calm h (Calm-same refl refl refl refl)
  Transaction-Fine (nonce n) h =
      Fine-Calm h (Calm-same (ground arith) (ground arith) (ground arith) (ground arith))
  Transaction-Fine {a} (reset_stale now) h =
      Fine-Calm h (Calm-items (is_stale_running now) to_pending a (λ i. (refl, refl)))
  Transaction-Fine (unlock p) h = Fine-Calm h (Calm-same refl refl refl refl)
  Transaction-Fine {a} (save now x) h = Fine-Calm h (save-Calm now x a)
  Transaction-Fine {a} (delete id name phone) h = Fine-Calm h (delete-Calm id name phone a)
