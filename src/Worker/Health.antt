-- ===== src/Worker/Health.antt =====
-- membership_worker/worker/health.py: what a probe of an account records, and the snapshot.
use rubigram.Base.{
  leb, ◌==◌, if◌then◌else◌, length, any, find?, count, update_where, cut, ℕ, ◌+◌, ◌-◌, String, Bool,
  true, false, not, ◌&&◌, Option, none, some, List, [], ◌∷◌, ◌++◌,
}
use rubigram.Base.Texts.{contains, lower}
use rubigram.Worker.Model.{AccountStatus, Account, Credential}
pub mod Verdicts
pub mod Scans
pub mod Order
pub mod Queue
pub mod Fairness
pub mod Starvation
mod Tests

pub data Availability : Type 0 where
  available at_capacity dead unknown : Availability

pub data Outcome : Type 0 where
  alive auth_fail transient : Outcome

-- `WorkerAccountHealth`; a row that was never probed has no outcome.
pub record Health : Type 0 where
  pub account_id : ℕ
  pub availability : Availability
  pub outcome : Option Outcome
  pub detail : String
  pub consecutive_auth_failures : ℕ
  pub last_checked_at : Option ℕ

-- The tables that a probe reads and writes.
pub record HealthDb : Type 0 where
  pub accounts : List Account
  pub credentials : List Credential
  pub health : List Health

-- `_Target`: the account as it was before the probe started
pub record Target : Type 0 where
  pub account_id : ℕ
  pub session_name : String
  pub phone : String
  pub session_string : String
  pub status : AccountStatus
  pub last_error : String

pub record ProbeResult : Type 0 where
  pub account_id : ℕ
  pub session_name : String
  pub phone : String
  pub outcome : Outcome
  pub detail : String
  pub availability : Availability

-- `DEAD_THRESHOLD`
abbrev pub dead_threshold : ℕ
dead_threshold = 2

abbrev pub is_auth_fail : Outcome → Bool
is_auth_fail auth_fail = true
is_auth_fail _ = false

abbrev pub is_alive : Outcome → Bool
is_alive alive = true
is_alive _ = false

abbrev pub is_dead : Availability → Bool
is_dead dead = true
is_dead _ = false

abbrev pub is_active : AccountStatus → Bool
is_active AccountStatus.active = true
is_active _ = false

-- The row that `get_or_create` makes.
abbrev pub blank_health : ℕ → Health
blank_health a = record {
  account_id = a;
  availability = unknown;
  outcome = none;
  detail = "";
  consecutive_auth_failures = 0;
  last_checked_at = none;
}

abbrev or_blank : ℕ → Option Health → Health
or_blank a none = blank_health a
or_blank a (some h) = h

unfoldable pub health_of : ℕ → HealthDb → Health
health_of a db = or_blank a (find? (λ h. h.account_id == a) db.health)

unfoldable pub ensure_health : ℕ → HealthDb → List Health
ensure_health a db =
    if any (λ h. h.account_id == a) db.health then db.health else db.health ++ blank_health a ∷ []

-- `_CAPACITY_KEYWORDS`; the last one is Persian, in the order of its letters.
abbrev capacity_keywords : List String
capacity_keywords =
    "join_limit" ∷ "max_group" ∷ "maximum" ∷ "capacity" ∷ "\u{638}\u{631}\u{641}\u{6cc}\u{62a}" ∷ []

unfoldable pub is_capacity_error : String → Bool
is_capacity_error last_error =
    let text = lower last_error in any (λ word. contains text word) capacity_keywords

-- `_availability_for`; `none` is the empty text
unfoldable pub availability_for : Target → Outcome → ℕ → Option Availability
availability_for t alive failures =
    some (if is_capacity_error t.last_error then at_capacity else available)
availability_for t auth_fail failures = some (if leb dead_threshold failures then dead else unknown)
availability_for t transient failures = none

abbrev or_known : Option Availability → Availability → Availability
or_known none a = a
or_known (some a) b = a

unfoldable pub failures_after : Outcome → Health → ℕ
failures_after o h = if is_auth_fail o then h.consecutive_auth_failures + 1 else 0

unfoldable pub availability_after : Target → Outcome → Health → Availability
availability_after t o h = or_known (availability_for t o (failures_after o h)) h.availability

unfoldable pub checked : ℕ → Target → Outcome → String → Health → Health
checked now t o detail h = record h {
  outcome = some o;
  detail = cut 2000 detail;
  consecutive_auth_failures = failures_after o h;
  availability = availability_after t o h;
  last_checked_at = some now;
}

-- The update of the account, if the verdict contradicts its status.
unfoldable pub corrected : Target → Outcome → Availability → String → List Account → List Account
corrected t o a detail accounts =
    if is_alive o && not (is_active t.status)
    then update_where (λ r. r.id == t.account_id)
        (λ r. record r { status = AccountStatus.active; last_error = "" }) accounts
    else if is_auth_fail o && (is_dead a && is_active t.status)
    then update_where (λ r. r.id == t.account_id)
        (λ r. record r { status = AccountStatus.disabled; last_error = cut 2000 detail }) accounts
    else accounts

-- `_record`
unfoldable pub record_probe : ℕ → Target → Outcome → String → HealthDb → ProbeResult × HealthDb
record_probe now t o detail db =
    let a = availability_after t o (health_of t.account_id db) in
    (
      record {
        account_id = t.account_id;
        session_name = t.session_name;
        phone = t.phone;
        outcome = o;
        detail = detail;
        availability = a;
      },
      record db {
        accounts = corrected t o a detail db.accounts;
        health =
            update_where (λ h. h.account_id == t.account_id) (checked now t o detail)
              (ensure_health t.account_id db);
      },
    )

pub record Snapshot : Type 0 where
  pub total : ℕ
  pub available_count : ℕ
  pub at_capacity_count : ℕ
  pub dead_count : ℕ
  pub unknown_count : ℕ

abbrev pub is_available_row : Health → Bool
is_available_row h = elim h.availability [ available ↦ true | _ ↦ false ]

abbrev pub is_full_row : Health → Bool
is_full_row h = elim h.availability [ at_capacity ↦ true | _ ↦ false ]

abbrev pub is_dead_row : Health → Bool
is_dead_row h = is_dead h.availability

-- `availability_snapshot`, without the time of the last scan
unfoldable pub availability_snapshot : HealthDb → Snapshot
availability_snapshot db = record {
  total = length db.accounts;
  available_count = count is_available_row db.health;
  at_capacity_count = count is_full_row db.health;
  dead_count = count is_dead_row db.health;
  unknown_count =
      length db.accounts
      - (count is_available_row db.health
          + count is_full_row db.health
          + count is_dead_row db.health);
}
