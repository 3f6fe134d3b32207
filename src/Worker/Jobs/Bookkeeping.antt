-- ===== src/Worker/Jobs/Bookkeeping.antt =====
-- The bookkeeping of jobs.py: member counts, memberships, auto-leave rows and the job's counters.
use rubigram.Base.{
  ltb, ◌==◌, if◌then◌else◌, any, count, update_where, or_text, prepend, ℕ, suc, ◌+◌, ◌-◌, ◌*◌, max,
  String, Bool, true, false, ◌&&◌, Option, none, some, List, [], ◌∷◌, ◌++◌, str_eq,
}
use rubigram.Worker.Model.{
  join, JobStatus, ItemStatus, LeaveStatus, Membership, Job, Item, AutoLeave, is_terminal_status,
  is_skipped, is_success, is_failed,
}
use rubigram.Worker.Db.{send_callback, Db, day, find_job, update_job, enqueue, is_in_flight}

abbrev or_else : Option ℕ → Option ℕ → Option ℕ
or_else none b = b
or_else (some a) b = some a

-- `before is not None and job.member_count_before is None`
abbrev pub first_count : Job → Option ℕ → Option ℕ
first_count job before = elim job.member_count_before [ none ↦ before | some _ ↦ none ]

abbrev both_none : Option ℕ → Option ℕ → Bool
both_none none none = true
both_none _ _ = false

unfoldable pub with_counts : ℕ → Option ℕ → Option ℕ → Job → Job
with_counts now before after j = record j {
  member_count_before = or_else before j.member_count_before;
  member_count_after = or_else after j.member_count_after;
  updated_at = now;
}

-- The job passed in is the row as it was loaded, which may be older than the table's.
unfoldable pub save_job_member_counts : ℕ → Job → Option ℕ → Option ℕ → Db → Db
save_job_member_counts now job before after db =
    if both_none (first_count job before) after
    then db
    else update_job job.id (with_counts now (first_count job before) after) db

abbrev is_membership_of : ℕ → String → Membership → Bool
is_membership_of a key m = m.account_id == a && str_eq m.target_key key

-- A row that `get_or_create` makes; the fields that `mark_membership` sets follow.
abbrev blank_membership : ℕ → String → String → Membership
blank_membership a key target = record {
  account_id = a;
  target_key = key;
  target_display = target;
  object_guid = "";
  object_type = "";
  group_title = "";
  joined = false;
  joined_at = none;
  left_at = none;
  updated_at = 0;
}

-- What an action found out about a target: the title, the guid and the type, empty when unknown.
pub record Seen : Type 0 where
  pub title : String
  pub object_guid : String
  pub object_type : String

abbrev pub nothing_seen : Seen
nothing_seen = record { title = ""; object_guid = ""; object_type = "" }

unfoldable pub set_membership : ℕ → String → Bool → Seen → Membership → Membership
set_membership now target joined seen m = record m {
  target_display = target;
  joined = joined;
  group_title = or_text seen.title m.group_title;
  object_guid = or_text seen.object_guid m.object_guid;
  object_type = or_text seen.object_type m.object_type;
  joined_at = if joined then some now else m.joined_at;
  left_at = if joined then none else some now;
  updated_at = now;
}

unfoldable pub mark_membership : ℕ → ℕ → String → String → Bool → Seen → Db → Db
mark_membership now a key target joined seen db =
    if any (is_membership_of a key) db.memberships
    then record db {
      memberships =
          update_where (is_membership_of a key) (set_membership now target joined seen)
            db.memberships;
    }
    else record db {
      memberships =
          db.memberships
          ++ set_membership now target joined seen (blank_membership a key target) ∷ [];
    }

abbrev new_auto_leave : ℕ → ℕ → Job → Item → ℕ → AutoLeave
new_auto_leave now id job item days = record {
  id = id;
  source_job_id = job.id;
  source_item_id = item.id;
  account_id = item.account_id;
  target = job.target;
  target_key = job.target_key;
  due_at = now + days * day;
  status = LeaveStatus.pending;
  attempts = 0;
  last_error = "";
  processed_at = none;
}

abbrev has_auto_leave : ℕ → Db → Bool
has_auto_leave item_id db = any (λ l. l.source_item_id == item_id) db.schedules

-- `not job.retention_days` holds of a missing number and of zero
unfoldable pub retention : Job → Option ℕ
retention job = elim job.action [
  | join ↦ elim job.retention_days [ some (suc d) ↦ some (suc d) | _ ↦ none ]
  | _ ↦ none
]

unfoldable pub create_auto_leave_if_needed : ℕ → Job → Item → Db → Db
create_auto_leave_if_needed now job item db = elim (retention job) [
  | none ↦ db
  | some days ↦ if has_auto_leave item.id db then db else record db {
    schedules = db.schedules ++ new_auto_leave now db.next_schedule_id job item days ∷ [];
    next_schedule_id = suc db.next_schedule_id;
  }
]

-- How many items of a job are in a status that `p` accepts.
abbrev pub count_items : (ItemStatus → Bool) → ℕ → List Item → ℕ
count_items p id = count (λ i. i.job_id == id && p i.status)

-- The counters recomputed from the items; the skipped counter never falls.
unfoldable pub refreshed : ℕ → List Item → Job → Job
refreshed now items j = record j {
  success_count = count_items is_success j.id items;
  failed_count = count_items is_failed j.id items;
  skipped_count =
      max j.skipped_count ((j.total_count - j.accepted_count) + count_items is_skipped j.id items);
  updated_at = now;
}

unfoldable pub refresh_job_counts : ℕ → ℕ → Db → Db
refresh_job_counts now id db = update_job id (refreshed now db.items) db

abbrev pub cancelled_item : ℕ → String → Item → Item
cancelled_item now reason i = record i {
  status = ItemStatus.skipped;
  message = prepend "invalid_target: " reason;
  finished_at = some now;
}

abbrev pub cancelled_job : ℕ → String → Job → Job
cancelled_job now reason j = record j {
  status = if ltb 0 j.success_count then JobStatus.partial else JobStatus.fail;
  last_error = prepend "invalid_target: " reason;
  finished_at = some now;
  updated_at = now;
}

-- The transaction of `cancel_job_invalid_target`.
unfoldable pub cancel_rows : ℕ → ℕ → String → Db → Db
cancel_rows now id reason db = record db {
  items = update_where (is_in_flight id) (cancelled_item now reason) db.items;
  jobs = update_where (λ j. j.id == id) (cancelled_job now reason) db.jobs;
}

unfoldable pub cancel_job_invalid_target : ℕ → ℕ → String → Db → Db
cancel_job_invalid_target now id reason db = elim (find_job id db) [
  | none ↦ db
  | some j ↦
      if is_terminal_status j.status
      then db
      else enqueue
          (send_callback id (if ltb 0 j.success_count then "order_partial" else "order_failed")
            ∷ [])
          (refresh_job_counts now id (cancel_rows now id reason db))
]
