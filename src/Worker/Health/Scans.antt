-- ===== src/Worker/Health/Scans.antt =====
-- health.py: a probe, the accounts that are probed, and the two entry points.
use rubigram.Base.{
  ltb, ◌==◌, if◌then◌else◌, take, any, find?, filter, cut, is_empty, length, ℕ, zero, suc, String,
  str_eq, Bool, true, false, not, ◌&&◌, ◌||◌, Option, none, some, List, [], ◌∷◌, map,
}
use rubigram.Base.Sort.{sort}
use rubigram.Worker.Model.{Account, Credential}
use rubigram.Worker.Rubika.{ErrorKind, Failure, classify_error}
use rubigram.Worker.Health.{
  Outcome, alive, auth_fail, transient, Health, HealthDb, Target, ProbeResult, record_probe,
}

-- What the client of a probe comes to: `start` or `get_me` raises, or there is an answer, with the
-- guid of its user.
pub data Probe : Type 0 where
  raised : Failure → Probe
  answered : Option String → Probe

abbrev is_session_dead : ErrorKind → Bool
is_session_dead ErrorKind.session_dead = true
is_session_dead _ = false

unfoldable pub judge_probe : Probe → Outcome × String
judge_probe (raised e) =
    let action = classify_error e in
    (if is_session_dead action.kind then auth_fail else transient, cut 2000 action.message)
judge_probe (answered none) = (transient, "getUserInfo answered without a user")
judge_probe (answered (some guid)) =
    if is_empty guid then (transient, "getUserInfo answered without a user") else (alive, "")

-- `_probe_one`
unfoldable pub probe_one : (Target → Probe) → Target → Outcome × String
probe_one client t =
    if is_empty t.session_string
    then (auth_fail, "account has no stored session")
    else judge_probe (client t)

-- `_probe_all`: the outcomes by account
unfoldable pub probe_all : (Target → Probe) → List Target → List (ℕ × (Outcome × String))
probe_all client ts = map (λ t. (t.account_id, probe_one client t)) ts

abbrev or_not_run : Option (ℕ × (Outcome × String)) → Outcome × String
or_not_run none = (transient, "probe did not run")
or_not_run (some (_, outcome)) = outcome

-- `outcomes.get(target.account_id, …)`
unfoldable pub outcome_of : List (ℕ × (Outcome × String)) → ℕ → Outcome × String
outcome_of outcomes a = or_not_run (find? (λ o. o.0 == a) outcomes)

abbrev pub checked_at : Option Health → Option ℕ
checked_at none = none
checked_at (some h) = h.last_checked_at

-- `health__last_checked_at`, which is NULL without a row.
unfoldable pub last_check : List Health → ℕ → Option ℕ
last_check health a = checked_at (find? (λ h. h.account_id == a) health)

-- An ascending order; a database puts NULL in front (SQLite) or behind (PostgreSQL).
unfoldable pub comes_before : Bool → Option ℕ → Option ℕ → Bool
comes_before nulls_first none none = false
comes_before nulls_first none (some t) = nulls_first
comes_before nulls_first (some t) none = not nulls_first
comes_before nulls_first (some t) (some u) = ltb t u

-- `order_by("health__last_checked_at", "id")`
unfoldable pub waits_longer : Bool → List Health → Account → Account → Bool
waits_longer nulls_first health a b =
    comes_before nulls_first (last_check health a.id) (last_check health b.id)
    || (not (comes_before nulls_first (last_check health b.id) (last_check health a.id))
        && ltb a.id b.id)

abbrev session_of : Option Credential → String
session_of none = ""
session_of (some c) = c.session_string

unfoldable pub target_of : HealthDb → Account → Target
target_of db a = record {
  account_id = a.id;
  session_name = a.session_name;
  phone = a.phone;
  session_string = session_of (find? (λ c. c.account_id == a.id) db.credentials);
  status = a.status;
  last_error = a.last_error;
}

-- `rows[:limit]`, if there is a limit.
unfoldable pub limited : Option ℕ → List Account → List Account
limited none rows = rows
limited (some zero) rows = rows
limited (some (suc n)) rows = take (suc n) rows

-- The rows by name come in the order of the model, the newest first.
unfoldable pub rows_for : Bool → Option (List String) → HealthDb → List Account
rows_for nulls_first none db = sort (waits_longer nulls_first db.health) db.accounts
rows_for nulls_first (some names) db =
    sort (λ a b. ltb b.created_at a.created_at)
      (filter (λ a. any (str_eq a.session_name) names) db.accounts)

-- `_targets_for`
unfoldable pub targets_for : Bool → Option (List String) → Option ℕ → HealthDb → List Target
targets_for nulls_first names limit db =
    map (target_of db) (limited limit (rows_for nulls_first names db))

-- The loop over the targets, and its results in their order.
unfoldable pub record_all :
    ℕ → List (ℕ × (Outcome × String)) → List Target → HealthDb → List ProbeResult × HealthDb
record_all now outcomes [] db = ([], db)
record_all now outcomes (t ∷ ts) db =
    let (outcome, detail) = outcome_of outcomes t.account_id in
    let (result, next) = record_probe now t outcome detail db in
    let (results, last) = record_all now outcomes ts next in (result ∷ results, last)

-- The results are those of the sessions found; the other names are missing.
unfoldable pub probe_sessions :
    Bool
    → ℕ
    → (Target → Probe)
    → List String
    → HealthDb
    → (List ProbeResult × List String) × HealthDb
probe_sessions nulls_first now client names db =
    let targets = targets_for nulls_first (some names) none db in
    let missing = filter (λ name. not (any (λ t. str_eq t.session_name name) targets)) names in
    let (results, last) = record_all now (probe_all client targets) targets db in
    ((results, missing), last)

unfoldable pub scan_accounts : Bool → ℕ → (Target → Probe) → ℕ → HealthDb → ℕ × HealthDb
scan_accounts nulls_first now client limit db =
    let targets = targets_for nulls_first none (some limit) db in
    (length targets, (record_all now (probe_all client targets) targets db).1)
