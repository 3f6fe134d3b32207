-- ===== src/Worker/Model.antt =====
-- The rows of membership_worker/worker/models.py, with the fields that the operations read or write.
-- A time is a number of microseconds.
use rubigram.Base.{ℕ, ◌+◌, String, Bool, true, false, Option}
use rubigram.Base.Int.{ℤ}

pub data AccountStatus : Type 0 where
  active disabled error : AccountStatus

pub data Action : Type 0 where
  join leave view : Action

pub data JobStatus : Type 0 where
  pending inprogress active completed partial fail error : JobStatus

pub data ItemStatus : Type 0 where
  pending running success failed skipped : ItemStatus

pub data LeaveStatus : Type 0 where
  pending processing completed fail : LeaveStatus

-- `WorkerAccount`
pub record Account : Type 0 where
  pub id : ℕ
  pub username : String
  pub session_name : String
  pub phone : String
  pub user_guid : String
  pub display_name : String
  pub status : AccountStatus
  pub last_error : String
  pub created_at : ℕ

-- `WorkerAccountCredential`
pub record Credential : Type 0 where
  pub account_id : ℕ
  pub session_string : String

-- `AccountThrottle`
pub record Throttle : Type 0 where
  pub account_id : ℕ
  pub next_available_at : Option ℕ
  pub locked_at : Option ℕ

-- `WorkerMembership`; `joined` is the status JOINED, its absence LEFT
pub record Membership : Type 0 where
  pub account_id : ℕ
  pub target_key : String
  pub target_display : String
  pub object_guid : String
  pub object_type : String
  pub group_title : String
  pub joined : Bool
  pub joined_at : Option ℕ
  pub left_at : Option ℕ
  pub updated_at : ℕ

-- `WorkerPostView`
pub record PostView : Type 0 where
  pub account_id : ℕ
  pub target_key : String
  pub viewed_at : ℕ

-- `MembershipJob`
pub record Job : Type 0 where
  pub id : ℕ
  pub external_order_id : ℤ
  pub idempotency_key : String
  pub action : Action
  pub target : String
  pub target_key : String
  pub object_guid : String
  pub requested_count : ℕ
  pub total_count : ℕ
  pub accepted_count : ℕ
  pub success_count : ℕ
  pub failed_count : ℕ
  pub skipped_count : ℕ
  pub member_count_before : Option ℕ
  pub member_count_after : Option ℕ
  pub status : JobStatus
  pub service_id : String
  pub retention_days : Option ℕ
  pub callback_url : String
  pub last_error : String
  pub started_at : Option ℕ
  pub finished_at : Option ℕ
  pub updated_at : ℕ

-- `MembershipJob.processed_count`
unfoldable pub processed_count : Job → ℕ
processed_count j = j.success_count + j.failed_count + j.skipped_count

-- `MembershipJobItem`
pub record Item : Type 0 where
  pub id : ℕ
  pub job_id : ℕ
  pub account_id : ℕ
  pub status : ItemStatus
  pub group_title : String
  pub message : String
  pub attempts : ℕ
  pub started_at : Option ℕ
  pub finished_at : Option ℕ
  pub created_at : ℕ

-- `WorkerAutoLeaveSchedule`
pub record AutoLeave : Type 0 where
  pub id : ℕ
  pub source_job_id : ℕ
  pub source_item_id : ℕ
  pub account_id : ℕ
  pub target : String
  pub target_key : String
  pub due_at : ℕ
  pub status : LeaveStatus
  pub attempts : ℕ
  pub last_error : String
  pub processed_at : Option ℕ

abbrev pub is_active_account : Account → Bool
is_active_account a = elim a.status [ AccountStatus.active ↦ true | _ ↦ false ]

abbrev pub same_action : Action → Action → Bool
same_action join join = true
same_action leave leave = true
same_action view view = true
same_action _ _ = false

-- `ACTIVE_JOB_STATUSES`
abbrev pub is_open_status : JobStatus → Bool
is_open_status JobStatus.active = true
is_open_status JobStatus.inprogress = true
is_open_status JobStatus.pending = true
is_open_status _ = false

-- `TERMINAL_JOB_STATUSES`
abbrev pub is_terminal_status : JobStatus → Bool
is_terminal_status JobStatus.fail = true
is_terminal_status JobStatus.partial = true
is_terminal_status JobStatus.completed = true
is_terminal_status JobStatus.error = true
is_terminal_status _ = false

-- `RESERVED_ITEM_STATUSES`
abbrev pub is_reserved : ItemStatus → Bool
is_reserved ItemStatus.pending = true
is_reserved ItemStatus.running = true
is_reserved _ = false

abbrev pub is_skipped : ItemStatus → Bool
is_skipped ItemStatus.skipped = true
is_skipped _ = false

abbrev pub is_success : ItemStatus → Bool
is_success ItemStatus.success = true
is_success _ = false

abbrev pub is_failed : ItemStatus → Bool
is_failed ItemStatus.failed = true
is_failed _ = false
