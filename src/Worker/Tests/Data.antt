-- ===== src/Worker/Tests/Data.antt =====
-- Small tables: two accounts and one join order.
use rubigram.Worker.Targets.{
  is_username, is_guid_of, is_guid, key, username_of, classify, parse_target, normalize_target_key,
}
use rubigram.Base.{
  true, ◌+◌, ◌/◌, concat, has_prefix, strip, ℕ, ◌*◌, ◌≡◌, refl, Bool, false, none, some, [], ◌∷◌,
}
use rubigram.Base.Texts.{all_chars, strip_left_of, drop_chars, text_length, lower}
use rubigram.Base.Sort.{insert, sort}
use rubigram.Worker.Services.{knows_service}
use rubigram.Base.Int.{pos}
use rubigram.Base.Errors.{Result, ok, err}
use rubigram.Worker.Model.{
  AccountStatus, join, JobStatus, ItemStatus, LeaveStatus, Account, Job, Item, AutoLeave,
}
use rubigram.Worker.Db.{Db, Settings, second, find_job, is_reserved_for, is_joined, is_paused}
use rubigram.Worker.Rubika.{target_error, too_requests, Runner}
use rubigram.Worker.Selection.{may_join, select_accounts}
use rubigram.Worker.Jobs.{
  ServiceError, Payload, apply_bonus, optional_positive_int, parse_action, new_items, add_items,
  validate, target_count, new_job, insert_order, announce_order, place_with, chosen_accounts,
  place_once, place_valid, create_membership_job,
}
use rubigram.Worker.Items.{Loaded}

abbrev pub settings : Settings
settings = record {
  has_bonus = true;
  bonus_of = λ n. (n + 4) / 5;
  action_delay = 20 * second;
  throttle_too_requests = 600 * second;
  throttle_conn_error = 60 * second;
  view_review_cooldown = 3600 * second;
  job_max_wait = 900 * second;
  view_post_counts = ("1", 1) ∷ [];
}

-- Rubika refuses every join as throttled, and everything else as a wrong target.
abbrev pub busy : Runner
busy = record {
  run_join = λ name session target probe. err (too_requests none "slow down");
  run_leave = λ name session target. err (target_error "gone");
  run_view = λ name session target key. err (target_error "gone");
}

abbrev pub account : ℕ → Account
account id = record {
  id = id;
  username = "panel";
  session_name = "worker";
  phone = "98912";
  user_guid = "";
  display_name = "";
  status = AccountStatus.active;
  last_error = "";
  created_at = 0;
}

abbrev pub two_accounts : Db
two_accounts = record {
  accounts = account 1 ∷ account 2 ∷ [];
  credentials = record { account_id = 1; session_string = "one" } ∷ [];
  throttles = [];
  memberships = [];
  post_views = [];
  jobs = [];
  items = [];
  schedules = [];
  nonces = [];
  next_account_id = 3;
  next_job_id = 1;
  next_item_id = 1;
  next_schedule_id = 1;
  queue = [];
}

abbrev pub payload : Payload
payload = record {
  external_order_id = some (pos 7);
  count = some (pos 1);
  action = "join";
  service_id = "";
  target = "@channel";
  callback_url = "https://panel";
  idempotency_key = "order-7";
  retention_days = none;
}

abbrev pub unlocked_rows : ℕ → Bool
unlocked_rows id = false

abbrev pub placed : Result ServiceError Job × Db
placed = create_membership_job settings unlocked_rows 1000 payload two_accounts

abbrev pub ordered : Job
ordered = record {
  id = 1;
  external_order_id = pos 7;
  idempotency_key = "order-7";
  action = join;
  target = "@channel";
  target_key = "user:channel";
  object_guid = "";
  requested_count = 1;
  total_count = 2;
  accepted_count = 2;
  success_count = 0;
  failed_count = 0;
  skipped_count = 0;
  member_count_before = none;
  member_count_after = none;
  status = JobStatus.inprogress;
  service_id = "";
  retention_days = none;
  callback_url = "https://panel";
  last_error = "";
  started_at = some 1000;
  finished_at = none;
  updated_at = 1000;
}

pub placed-ordered : placed ≡ (ok ordered, placed.1)
unfolding create_membership_job place_valid validate place_once place_with chosen_accounts
    select_accounts may_join is_paused is_joined is_reserved_for target_count apply_bonus new_job
    parse_action strip knows_service sort insert optional_positive_int normalize_target_key
    parse_target classify is_guid is_guid_of has_prefix username_of is_username strip_left_of
    drop_chars all_chars text_length key concat lower
placed-ordered = refl

pub found-ordered : find_job 1 placed.1 ≡ some ordered
unfolding create_membership_job place_valid validate place_once place_with chosen_accounts
    select_accounts may_join is_paused is_joined is_reserved_for target_count apply_bonus new_job
    parse_action strip knows_service sort insert optional_positive_int announce_order insert_order
    add_items new_items normalize_target_key parse_target classify is_guid is_guid_of has_prefix
    username_of is_username strip_left_of drop_chars all_chars text_length key concat lower
found-ordered = refl

abbrev pub first_item : Item
first_item = record {
  id = 1;
  job_id = 1;
  account_id = 1;
  status = ItemStatus.pending;
  group_title = "";
  message = "";
  attempts = 0;
  started_at = none;
  finished_at = none;
  created_at = 1000;
}

-- Two orders, with an item of the first account each.
abbrev pub second_item : Item
second_item = record first_item { id = 2; job_id = 2 }

abbrev pub two_orders : Db
two_orders = record two_accounts {
  jobs = ordered ∷ record ordered { id = 2; target_key = "user:other" } ∷ [];
  items = first_item ∷ second_item ∷ [];
}

abbrev pub loaded : Loaded
loaded = record { item = first_item; job = ordered; account = account 1 }

-- A join of the first account that is to be undone.
abbrev pub due_leave : AutoLeave
due_leave = record {
  id = 1;
  source_job_id = 1;
  source_item_id = 1;
  account_id = 1;
  target = "@channel";
  target_key = "user:channel";
  due_at = 5000;
  status = LeaveStatus.pending;
  attempts = 0;
  last_error = "";
  processed_at = none;
}

abbrev pub with_leave : Db
with_leave = record two_accounts { schedules = due_leave ∷ [] }
