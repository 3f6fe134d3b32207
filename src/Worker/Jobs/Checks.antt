-- ===== src/Worker/Jobs/Checks.antt =====
-- `create_membership_job`: the checks of the payload and the rows that it makes.
use rubigram.Worker.Targets.{TargetFailure, bad_target, value_error, key, normalize_target_key}
use rubigram.Base.{
  ltb, if◌then◌else◌, length, is_empty, strip, ℕ, suc, ◌+◌, String, Bool, true, false, not, Option,
  none, some, List, [], ◌∷◌, ◌++◌, str_eq,
}
use rubigram.Base.Int.{ℤ, pos, negsuc, clamp}
use rubigram.Base.Errors.{Result, ok, err, ◌>>=◌}
use rubigram.Worker.Model.{Action, join, leave, view, ItemStatus, Account, Item}
use rubigram.Worker.Db.{Db, Settings}
use rubigram.Worker.Services.{knows_service}

-- `WorkerServiceError` and its two subclasses
pub data ServiceError : Type 0 where
  invalid : String → ServiceError
  insufficient_capacity : ℕ → ℕ → ServiceError
  pool_busy : ℕ → ℕ → ServiceError
  unhandled_value_error : ServiceError

-- A panel order, after Python's `int` and `str`: `none` where a number is missing or is not one.
pub record Payload : Type 0 where
  pub external_order_id : Option ℤ
  pub count : Option ℤ
  pub action : String
  pub service_id : String
  pub target : String
  pub callback_url : String
  pub idempotency_key : String
  pub retention_days : Option ℤ

-- `count + math.ceil(count * bonus / 100) if bonus > 0 else count`
unfoldable pub apply_bonus : Settings → ℕ → ℕ
apply_bonus s n = if s.has_bonus then n + s.bonus_of n else n

unfoldable pub optional_positive_int : Option ℤ → Option ℕ
optional_positive_int none = none
optional_positive_int (some (pos n)) = if ltb 0 n then some n else none
optional_positive_int (some (negsuc n)) = none

unfoldable pub parse_action : String → Option Action
parse_action text =
    if str_eq text "join"
    then some join
    else if str_eq text "leave"
    then some leave
    else if str_eq text "view"
    then some view
    else none

-- `MembershipJobItem(job=job, account=account)`, with the ids that the table hands out
unfoldable pub new_items : ℕ → ℕ → ℕ → List Account → List Item
new_items now job_id id [] = []
new_items now job_id id (a ∷ rest) =
    record {
      id = id;
      job_id = job_id;
      account_id = a.id;
      status = ItemStatus.pending;
      group_title = "";
      message = "";
      attempts = 0;
      started_at = none;
      finished_at = none;
      created_at = now;
    }
    ∷ new_items now job_id (suc id) rest

unfoldable pub add_items : ℕ → ℕ → List Account → Db → Db
add_items now job_id accounts db = record db {
  items = db.items ++ new_items now job_id db.next_item_id accounts;
  next_item_id = db.next_item_id + length accounts;
}

-- What the checks of a payload leave: the arguments of the row that is written.
pub record Order : Type 0 where
  pub external_order_id : ℤ
  pub requested_count : ℕ
  pub action : Action
  pub service_id : String
  pub target : String
  pub target_key : String
  pub callback_url : String
  pub idempotency_key : String
  pub retention_days : Option ℕ

abbrev pub require : Bool → String → Result ServiceError (Unit {0})
require true message = ok tt
require false message = err (invalid message)

abbrev pub or_invalid {ℓ} : {A : Type ℓ} → Option A → String → Result ServiceError A
or_invalid none message = err (invalid message)
or_invalid (some a) message = ok a

-- `except TargetError`; another `ValueError` is not caught.
abbrev pub or_target_error : Result TargetFailure String → Result ServiceError String
or_target_error (ok key) = ok key
or_target_error (err (bad_target message)) = err (invalid message)
or_target_error (err value_error) = err unhandled_value_error

module _ (s : Settings) where
  -- The checks, in the order of the source.
  unfoldable pub validate : Payload → Result ServiceError Order
  validate p = do
    external_order_id ←
        or_invalid p.external_order_id "external_order_id and count are required integers"
    requested ← or_invalid p.count "external_order_id and count are required integers"
    _ ← require (ltb 0 (clamp requested)) "count must be positive"
    action ← or_invalid (parse_action (strip p.action)) "unsupported action"
    _ ← require (knows_service s action (strip p.service_id)) "unknown view service_id"
    key ← or_target_error (normalize_target_key (strip p.target))
    _ ← require (not (is_empty (strip p.callback_url))) "callback_url is required"
    _ ← require (not (is_empty (strip p.idempotency_key))) "idempotency_key is required"
    ok (record {
      external_order_id = external_order_id;
      requested_count = clamp requested;
      action = action;
      service_id = strip p.service_id;
      target = strip p.target;
      target_key = key;
      callback_url = strip p.callback_url;
      idempotency_key = strip p.idempotency_key;
      retention_days = optional_positive_int p.retention_days;
    })
