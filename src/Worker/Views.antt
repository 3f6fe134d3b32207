-- ===== src/Worker/Views.antt =====
-- membership_worker/worker/views.py: the signed HTTP API for the panel.
use rubigram.Base.{
  ltb, if◌then◌else◌, length, filter, all, is_empty, strip, ℕ, ◌/◌, String, Bool, true, false, not,
  Option, none, some, List, [], ◌∷◌, map,
}
use rubigram.Base.Errors.{Result, ok, err}
use rubigram.Base.Int.{ℤ, pos, negsuc}
use rubigram.Internal.Signing.{
  SignatureFailure, signature_error, unicode_error, type_error, VerifiedSignature, message,
  verify_body,
}
use rubigram.Worker.Model.{Job}
use rubigram.Worker.Db.{Db, Settings, find_job}
use rubigram.Worker.Nonces.{remember_nonce}
use rubigram.Worker.Jobs.{
  ServiceError, invalid, insufficient_capacity, pool_busy, unhandled_value_error, Payload,
  create_membership_job,
}
use rubigram.Worker.Callbacks.{Json, job_status_payload}
use rubigram.Worker.Accounts.Rows.{
  Deletion, delete_worker_account, available_account_count, AccountStats, Aggregate, per_account,
  aggregate,
}
pub mod Replayed
mod Tests

pub data Method : Type 0 where
  get post other_method : Method

pub record HttpRequest : Type 0 where
  pub method : Method
  pub headers : List (String × String)
  pub body : List ℕ

-- What `json.loads` of the decoded body comes to.
pub data Parsed (J : Type 0) : Type 0 where
  bad_json not_object : Parsed J
  object : J → Parsed J

-- The keys of a deletion: `account_id` as absent, not a number, or a number.
pub record Keys : Type 0 where
  pub account_id : Option (Option ℤ)
  pub session_name : String
  pub phone : String

-- A query for statistics; `none` is what is not a list, or an entry that is not a number.
pub record Query : Type 0 where
  pub session_names : Option (List String)
  pub account_ids : Option (List (Option ℤ))
  pub include_aggregate : Bool

-- The answers: the statuses and what they carry. `crash` is an exception that no view catches.
pub data Reply : Type 0 where
  error_reply : ℕ → String → Reply
  capacity_reply : ℕ → String → ℕ → ℕ → Reply
  order_accepted : Job → Reply
  order_status : List (String × Json) → Reply
  available : ℕ → Reply
  statistics : List AccountStats → Option Aggregate → Reply
  deletion : Deletion → Reply
  crash : Reply

unfoldable pub status_of : Reply → ℕ
status_of (error_reply status reason) = status
status_of (capacity_reply status kind requested free) = status
status_of (order_accepted j) = 202
status_of crash = 500
status_of _ = 200

-- The views, with the id in the path of an order's status.
pub data View : Type 0 where
  internal_orders_view internal_available_accounts_view internal_health_view : View
  internal_account_stats_view internal_delete_account_view : View
  internal_order_status_view : ℕ → View

abbrev is_get : Method → Bool
is_get get = true
is_get _ = false

abbrev is_post : Method → Bool
is_post post = true
is_post _ = false

-- `request.method != …` of each view
unfoldable pub allows : View → Method → Bool
allows internal_orders_view m = is_post m
allows internal_available_accounts_view m = is_get m
allows internal_health_view m = is_get m
allows internal_account_stats_view m = is_post m
allows internal_delete_account_view m = is_post m
allows (internal_order_status_view id) m = is_get m

-- The answer to what `create_membership_job` came to.
unfoldable pub order_reply : Result ServiceError Job → Reply
order_reply (ok j) = order_accepted j
order_reply (err (invalid message)) = error_reply 422 message
order_reply (err (insufficient_capacity requested free)) =
    capacity_reply 422 "insufficient_capacity" requested free
order_reply (err (pool_busy requested free)) = capacity_reply 503 "pool_busy" requested free
order_reply (err unhandled_value_error) = crash

abbrev status_reply : Option Job → Reply
status_reply none = error_reply 404 "order not found"
status_reply (some j) = order_status (job_status_payload j)

-- `MAX_STATS_BATCH`
abbrev pub max_stats_batch : ℕ
max_stats_batch = 500

-- `_session_names`
unfoldable pub session_names : ℕ → Option (List String) → Result Reply (List String)
session_names limit none = err (error_reply 422 "session_names must be a list")
session_names limit (some raw) =
    let names = filter (λ s. not (is_empty s)) (map strip raw) in
    if ltb limit (length names) then err (error_reply 413 "too many session names") else ok names

-- `[int(value) for value in raw_ids]`
unfoldable pub all_numbers : List (Option ℤ) → Option (List ℤ)
all_numbers [] = some []
all_numbers (none ∷ raw) = none
all_numbers (some n ∷ raw) = elim (all_numbers raw) [ none ↦ none | some ns ↦ some (n ∷ ns) ]

-- The ids that a row can have.
unfoldable pub natural_ids : List ℤ → List ℕ
natural_ids [] = []
natural_ids (pos n ∷ ids) = n ∷ natural_ids ids
natural_ids (negsuc n ∷ ids) = natural_ids ids

abbrev stats_answer : Bool → List String → List ℕ → Db → Reply
stats_answer all names ids db =
    statistics (per_account (some names) (some ids) db) (if all then some (aggregate db) else none)

abbrev with_numbers : Bool → List String → Option (List ℤ) → Db → Reply
with_numbers all names none db = error_reply 422 "account_ids must be integers"
with_numbers all names (some ids) db =
    if ltb max_stats_batch (length ids)
    then error_reply 413 "too many account ids"
    else stats_answer all names (natural_ids ids) db

abbrev with_ids : Bool → List String → Option (List (Option ℤ)) → Db → Reply
with_ids all names none db = error_reply 422 "account_ids must be a list"
with_ids all names (some raw) db = with_numbers all names (all_numbers raw) db

abbrev with_names : Query → Result Reply (List String) → Db → Reply
with_names q (err r) db = r
with_names q (ok names) db = with_ids q.include_aggregate names q.account_ids db

unfoldable pub stats_reply : Query → Db → Reply
stats_reply q db = with_names q (session_names max_stats_batch q.session_names) db

abbrev pub text_key : String → Option String
text_key s = let t = strip s in if is_empty t then none else some t

abbrev no_rows : Deletion
no_rows = record { deleted = 0; sessions = [] }

abbrev pub deletion_reply : Option Deletion × Db → Reply × Db
deletion_reply (none, db) =
    (error_reply 422 "one of account_id, session_name or phone is required", db)
deletion_reply (some d, db) = (deletion d, db)

-- `internal_delete_account_view` of a payload; no row has a negative id.
unfoldable pub delete_reply : Keys → Db → Reply × Db
delete_reply k db = elim k.account_id [
  | none ↦
      deletion_reply (delete_worker_account none (text_key k.session_name) (text_key k.phone) db)
  | some none ↦ (error_reply 422 "account_id must be an integer", db)
  | some (some (pos n)) ↦
      deletion_reply
        (delete_worker_account (some n) (text_key k.session_name) (text_key k.phone) db)
  | some (some (negsuc n)) ↦ (deletion no_rows, db)
]

unfoldable pub payload_of : {J : Type 0} → Parsed J → Result Reply J
payload_of bad_json = err (error_reply 422 "invalid JSON")
payload_of not_object = err (error_reply 422 "request body must be an object")
payload_of (object j) = ok j

-- `hmac` is HMAC-SHA256, `loads` is `json.loads`, and the next three read the fields of a payload;
-- `secret` and `max_age` are settings, `locked` tells which rows other transactions hold.
module _ {J : Type 0} (hmac : String → List ℕ → String) (loads : List ℕ → Parsed J)
    (order_of : J → Payload) (keys_of : J → Keys) (query_of : J → Query) (secret : String)
    (max_age : ℕ) (s : Settings) (locked : ℕ → Bool) where
  abbrev pub verified : ℕ → HttpRequest → Result SignatureFailure VerifiedSignature
  verified now q = verify_body hmac q.body q.headers secret max_age (now / 1_000_000)

  abbrev after_nonce : HttpRequest → Bool × Db → Result Reply J × Db
  after_nonce q (false, db) = (err (error_reply 409 "duplicate request nonce"), db)
  after_nonce q (true, db) = (payload_of (loads q.body), db)

  abbrev after_verify :
      HttpRequest → Db → Result SignatureFailure VerifiedSignature → Result Reply J × Db
  after_verify q db (err (signature_error message)) = (err (error_reply 401 message), db)
  after_verify q db (err unicode_error) = (err crash, db)
  after_verify q db (err type_error) = (err crash, db)
  after_verify q db (ok v) = after_nonce q (remember_nonce v.nonce db)

  -- `_signed_payload`
  unfoldable pub signed_payload : ℕ → HttpRequest → Db → Result Reply J × Db
  signed_payload now q db = after_verify q db (verified now q)

  -- A view, once its request is let through.
  unfoldable pub handle : View → ℕ → J → Db → Reply × Db
  handle internal_orders_view now j db =
      let x = create_membership_job s locked now (order_of j) db in (order_reply x.0, x.1)
  handle internal_available_accounts_view now j db = (available (available_account_count db), db)
  handle internal_health_view now j db = (available (available_account_count db), db)
  handle internal_account_stats_view now j db = (stats_reply (query_of j) db, db)
  handle internal_delete_account_view now j db = delete_reply (keys_of j) db
  handle (internal_order_status_view id) now j db = (status_reply (find_job id db), db)

  abbrev with_payload : View → ℕ → Result Reply J × Db → Reply × Db
  with_payload v now (err r, db) = (r, db)
  with_payload v now (ok j, db) = handle v now j db

  -- A request to a view.
  unfoldable pub serve : View → ℕ → HttpRequest → Db → Reply × Db
  serve v now q db =
      if allows v q.method
      then with_payload v now (signed_payload now q db)
      else (error_reply 405 "Method not allowed.", db)
