-- ===== src/Worker/Jobs/Create.antt =====
-- `create_membership_job`: idempotency, the choice of accounts, and the rows of an accepted order.
use rubigram.Base.{
  ltb, ◌==◌, if◌then◌else◌, length, filter, find?, ℕ, suc, ◌-◌, String, Bool, true, false, ◌&&◌,
  Option, none, some, List, [], ◌∷◌, ◌++◌, map, str_eq,
}
use rubigram.Base.Errors.{Result, ok, err}
use rubigram.Worker.Model.{Action, join, leave, JobStatus, Account, Job}
use rubigram.Worker.Db.{process_item, send_callback, Db, Settings, enqueue}
use rubigram.Worker.Selection.{select_accounts, count_free_accounts}
use rubigram.Worker.Jobs.Checks.{
  ServiceError, insufficient_capacity, pool_busy, Payload, apply_bonus, add_items, Order, validate,
}

-- `MembershipJob.objects.filter(idempotency_key=…).first()`
abbrev pub find_key : String → Db → Option Job
find_key key db = find? (λ j. str_eq j.idempotency_key key) db.jobs

-- Join orders get the bonus.
unfoldable pub target_count : Settings → Order → ℕ
target_count s o = elim o.action [ join ↦ apply_bonus s o.requested_count | _ ↦ o.requested_count ]

unfoldable pub new_job : Settings → ℕ → ℕ → Order → List Account → Job
new_job s now id o accounts = record {
  id = id;
  external_order_id = o.external_order_id;
  idempotency_key = o.idempotency_key;
  action = o.action;
  target = o.target;
  target_key = o.target_key;
  object_guid = "";
  requested_count = o.requested_count;
  total_count = target_count s o;
  accepted_count = length accounts;
  success_count = 0;
  failed_count = 0;
  skipped_count = target_count s o - length accounts;
  member_count_before = none;
  member_count_after = none;
  status = elim accounts [ [] ↦ JobStatus.fail | _ ∷ _ ↦ JobStatus.inprogress ];
  service_id = o.service_id;
  retention_days = o.retention_days;
  callback_url = o.callback_url;
  last_error = "";
  started_at = elim accounts [ [] ↦ none | _ ∷ _ ↦ some now ];
  finished_at = elim accounts [ [] ↦ some now | _ ∷ _ ↦ none ];
  updated_at = now;
}

-- The job and its items, as the transaction commits them.
unfoldable pub insert_order : Settings → ℕ → Order → List Account → Db → Db
insert_order s now o accounts db = add_items now db.next_job_id accounts (record db {
  jobs = db.jobs ++ new_job s now db.next_job_id o accounts ∷ [];
  next_job_id = suc db.next_job_id;
})

-- The callbacks and the tasks that follow the commit.
unfoldable pub announce_order : ℕ → List Account → Db → Db
announce_order job_id accounts db =
    enqueue
      (send_callback job_id "order_accepted"
        ∷ (map (λ i. process_item i.id) (filter (λ i. i.job_id == job_id) db.items)
            ++ elim accounts [ [] ↦ send_callback job_id "order_failed" ∷ [] | _ ∷ _ ↦ [] ]))
      db

-- The raise inside the transaction, for a join or a view that found no account.
unfoldable pub capacity_error : Settings → ℕ → Order → Db → ServiceError
capacity_error s now o db =
    let free_now = count_free_accounts s now o.action o.target_key db in
    if ltb 0 free_now
    then pool_busy o.requested_count free_now
    else insufficient_capacity o.requested_count 0

abbrev pub needs_accounts : Action → Bool
needs_accounts leave = false
needs_accounts _ = true

abbrev pub is_none : List Account → Bool
is_none [] = true
is_none (_ ∷ _) = false

-- The transaction, and what follows its commit, for the accounts that were chosen.
unfoldable pub place_with : Settings → ℕ → Order → List Account → Db → Result ServiceError Job × Db
place_with s now o accounts db =
    if needs_accounts o.action && is_none accounts then (err (capacity_error s now o db), db) else (
      ok (new_job s now db.next_job_id o accounts),
      announce_order db.next_job_id accounts (insert_order s now o accounts db),
    )

-- `locked` tells which account rows other transactions hold.
unfoldable pub chosen_accounts : Settings → (ℕ → Bool) → ℕ → Order → Db → List Account
chosen_accounts s locked now o db =
    select_accounts s locked now true o.action o.target_key (target_count s o) [] db

-- After the checks: an order whose key is known is answered by its job, any other is placed.
unfoldable pub place_once :
    Settings → (ℕ → Bool) → ℕ → Order → Option Job → Db → Result ServiceError Job × Db
place_once s locked now o (some existing) db = (ok existing, db)
place_once s locked now o none db = place_with s now o (chosen_accounts s locked now o db) db

unfoldable pub place_valid :
    Settings → (ℕ → Bool) → ℕ → Result ServiceError Order → Db → Result ServiceError Job × Db
place_valid s locked now (err e) db = (err e, db)
place_valid s locked now (ok o) db = place_once s locked now o (find_key o.idempotency_key db) db

unfoldable pub create_membership_job :
    Settings → (ℕ → Bool) → ℕ → Payload → Db → Result ServiceError Job × Db
create_membership_job s locked now p db = place_valid s locked now (validate s p) db
