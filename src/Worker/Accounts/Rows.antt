-- ===== src/Worker/Accounts/Rows.antt =====
-- accounts.py: the rows of accounts, save_account, delete_worker_account and the statistics.
use rubigram.Base.{
  ltb, ◌==◌, if◌then◌else◌, length, filter, any, count, update_where, is_empty, or_text, ℕ, suc,
  String, Bool, true, false, not, ◌&&◌, ◌||◌, Option, none, some, List, [], ◌∷◌, ◌++◌, map, str_eq,
}
use rubigram.Worker.Model.{AccountStatus, Account, Credential, Throttle, is_active_account}
use rubigram.Worker.Db.{Db, update_account}
pub mod Keyed
pub mod Saved
pub mod Deleted

-- `order_by("-created_at").first()`
unfoldable pub newest : List Account → Option Account
newest [] = none
newest (a ∷ as_) = elim (newest as_) [
  | none ↦ some a
  | some b ↦ if ltb a.created_at b.created_at then some b else some a
]

abbrev pub has_phone : String → Account → Bool
has_phone phone a = str_eq a.phone phone

-- The arguments of `save_account`.
pub record Signed : Type 0 where
  pub username : String
  pub phone : String
  pub session_name : String
  pub session_string : String
  pub user_guid : String
  pub display_name : String

unfoldable pub refreshed_account : Signed → Account → Account
refreshed_account x a = record a {
  username = or_text x.username a.username;
  session_name = x.session_name;
  user_guid = or_text x.user_guid a.user_guid;
  display_name = or_text x.display_name a.display_name;
  status = AccountStatus.active;
  last_error = "";
}

unfoldable pub created : ℕ → ℕ → Signed → Account
created now id x = record {
  id = id;
  username = x.username;
  session_name = x.session_name;
  phone = x.phone;
  user_guid = x.user_guid;
  display_name = x.display_name;
  status = AccountStatus.active;
  last_error = "";
  created_at = now;
}

abbrev pub is_credential_of : ℕ → Credential → Bool
is_credential_of id c = c.account_id == id

abbrev pub is_throttle_of : ℕ → Throttle → Bool
is_throttle_of id t = t.account_id == id

abbrev pub credential : ℕ → String → Credential
credential id session = record { account_id = id; session_string = session }

-- `update_or_create(account=…)`
unfoldable pub put_credential : ℕ → String → List Credential → List Credential
put_credential id session cs =
    if any (is_credential_of id) cs
    then update_where (is_credential_of id) (λ c. record c { session_string = session }) cs
    else cs ++ credential id session ∷ []

abbrev pub fresh_throttle : ℕ → Throttle
fresh_throttle id = record { account_id = id; next_available_at = none; locked_at = none }

-- `get_or_create(account=…)`
unfoldable pub ensure_throttle_row : ℕ → List Throttle → List Throttle
ensure_throttle_row id ts = if any (is_throttle_of id) ts then ts else ts ++ fresh_throttle id ∷ []

-- The unique key of the session name, for the row `id`.
unfoldable pub is_taken : String → ℕ → List Account → Bool
is_taken session id accounts = any (λ a. str_eq a.session_name session && not (a.id == id)) accounts

unfoldable pub save_existing : Signed → Account → Db → Option Account × Db
save_existing x a db = if is_taken x.session_name a.id db.accounts then (none, db) else (
  some (refreshed_account x a),
  record (update_account a.id (refreshed_account x) db) {
    credentials = put_credential a.id x.session_string db.credentials;
    throttles = ensure_throttle_row a.id db.throttles;
  },
)

unfoldable pub save_new : ℕ → Signed → Db → Option Account × Db
save_new now x db = if is_taken x.session_name db.next_account_id db.accounts then (none, db) else (
  some (created now db.next_account_id x),
  record db {
    accounts = db.accounts ++ created now db.next_account_id x ∷ [];
    credentials = db.credentials ++ credential db.next_account_id x.session_string ∷ [];
    throttles = db.throttles ++ fresh_throttle db.next_account_id ∷ [];
    next_account_id = suc db.next_account_id;
  },
)

-- `save_account`; `none` is the `IntegrityError` of a session name that another row has.
unfoldable pub save_account : ℕ → Signed → Db → Option Account × Db
save_account now x db = elim (newest (filter (has_phone x.phone) db.accounts)) [
  | some a ↦ save_existing x a db
  | none ↦ save_new now x db
]

abbrev full : Option String → Option String
full none = none
full (some s) = if is_empty s then none else some s

abbrev named_by : Option String → Option String → Option (Account → Bool)
named_by (some session) phone = some (λ a. str_eq a.session_name session)
named_by none (some phone) = some (has_phone phone)
named_by none none = none

-- The keys of `delete_worker_account`, the most specific one first; `none` where there is no key.
unfoldable pub selects : Option ℕ → Option String → Option String → Option (Account → Bool)
selects (some id) session phone = some (λ a. a.id == id)
selects none session phone = named_by (full session) (full phone)

abbrev pub is_one_of : List Account → ℕ → Bool
is_one_of doomed id = any (λ a. a.id == id) doomed

-- The deletion of rows, with what hangs off them by ON DELETE CASCADE.
unfoldable pub cascade : List Account → Db → Db
cascade doomed db =
    let items = filter (λ i. not (is_one_of doomed i.account_id)) db.items in
    record db {
      accounts = filter (λ a. not (is_one_of doomed a.id)) db.accounts;
      credentials = filter (λ c. not (is_one_of doomed c.account_id)) db.credentials;
      throttles = filter (λ t. not (is_one_of doomed t.account_id)) db.throttles;
      memberships = filter (λ m. not (is_one_of doomed m.account_id)) db.memberships;
      post_views = filter (λ v. not (is_one_of doomed v.account_id)) db.post_views;
      items = items;
      schedules =
          filter
            (λ l. not (is_one_of doomed l.account_id) && any (λ i. i.id == l.source_item_id) items)
            db.schedules;
    }

abbrev pub delete_doomed : List Account → Db → Db
delete_doomed [] db = db
delete_doomed (a ∷ as_) db = cascade (a ∷ as_) db

-- The answer of `delete_worker_account`, without the number of rows that hung off the accounts and
-- their phones.
pub record Deletion : Type 0 where
  pub deleted : ℕ
  pub sessions : List String

unfoldable pub delete_rows : (Account → Bool) → Db → Deletion × Db
delete_rows p db =
    let doomed = filter p db.accounts in
    (
      record { deleted = length doomed; sessions = map (λ (a : Account). a.session_name) doomed },
      delete_doomed doomed db,
    )

-- `delete_worker_account`; `none` is its `WorkerServiceError`.
unfoldable pub delete_worker_account :
    Option ℕ → Option String → Option String → Db → Option Deletion × Db
delete_worker_account id session phone db = elim (selects id session phone) [
  | none ↦ (none, db)
  | some p ↦ let (d, db') = delete_rows p db in (some d, db')
]

abbrev pub is_disabled : Account → Bool
is_disabled a = elim a.status [ AccountStatus.disabled ↦ true | _ ↦ false ]

abbrev pub is_in_error : Account → Bool
is_in_error a = elim a.status [ AccountStatus.error ↦ true | _ ↦ false ]

unfoldable pub available_account_count : Db → ℕ
available_account_count db = count is_active_account db.accounts

abbrev asked {ℓ} : {A : Type ℓ} → Option (List A) → List A
asked none = []
asked (some xs) = xs

-- The rows that `account_stats` is asked about: all of them only if it is given no list.
unfoldable pub wanted : Option (List String) → Option (List ℕ) → List Account → List Account
wanted none none accounts = accounts
wanted names ids accounts =
    filter (λ a. any (str_eq a.session_name) (asked names) || any (λ id. a.id == id) (asked ids))
      accounts

unfoldable pub joined_count : ℕ → Db → ℕ
joined_count id db = count (λ m. m.account_id == id && m.joined) db.memberships

-- One entry of `per_account`
pub record AccountStats : Type 0 where
  pub account : Account
  pub joined : ℕ

pub record Aggregate : Type 0 where
  pub total : ℕ
  pub active_count : ℕ
  pub disabled_count : ℕ
  pub error_count : ℕ
  pub total_joined : ℕ

abbrev stats_of : Db → Account → AccountStats
stats_of db a = record { account = a; joined = joined_count a.id db }

-- `account_stats`, by account and over all of them
unfoldable pub per_account : Option (List String) → Option (List ℕ) → Db → List AccountStats
per_account names ids db = map (stats_of db) (wanted names ids db.accounts)

unfoldable pub aggregate : Db → Aggregate
aggregate db = record {
  total = length db.accounts;
  active_count = count is_active_account db.accounts;
  disabled_count = count is_disabled db.accounts;
  error_count = count is_in_error db.accounts;
  total_joined = count (λ m. m.joined) db.memberships;
}
