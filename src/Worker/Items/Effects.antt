-- ===== src/Worker/Items/Effects.antt =====
-- The single effects of items.py: finishing an item, pausing or disabling an account, its session.
use rubigram.Base.{
  ◌==◌, if◌then◌else◌, any, find?, update_where, is_empty, cut, ℕ, ◌+◌, String, Bool, not, ◌&&◌,
  Option, none, some, [], ◌∷◌, ◌++◌, str_eq,
}
use rubigram.Worker.Model.{AccountStatus, ItemStatus, Credential, Job, Item, is_reserved}
use rubigram.Worker.Db.{Db, update_job, update_item, update_account}

-- The counter that `finish_item` raises by one, if any.
unfoldable pub bump_count : ItemStatus → Job → Job
bump_count ItemStatus.success j = record j { success_count = j.success_count + 1 }
bump_count ItemStatus.failed j = record j { failed_count = j.failed_count + 1 }
bump_count ItemStatus.skipped j = record j { skipped_count = j.skipped_count + 1 }
bump_count _ j = j

abbrev pub is_counted : ItemStatus → Bool
is_counted st = not (is_reserved st)

unfoldable pub finish_item : ℕ → Item → ItemStatus → String → String → Db → Db
finish_item now item st group_title message db =
    let done : Db =
      update_item item.id
        (λ i. record i {
          status = st;
          group_title = cut 255 group_title;
          message = message;
          finished_at = some now;
        })
        db in
    if is_counted st
    then update_job item.job_id (λ j. record (bump_count st j) { updated_at = now }) done
    else done

-- `update_or_create(account=account, defaults={"next_available_at": …})`
unfoldable pub throttle_account : ℕ → ℕ → ℕ → Db → Db
throttle_account now a span db =
    if any (λ t. t.account_id == a) db.throttles
    then record db {
      throttles =
          update_where (λ t. t.account_id == a)
            (λ t. record t { next_available_at = some (now + span) }) db.throttles;
    }
    else record db {
      throttles =
          db.throttles
          ++ record { account_id = a; next_available_at = some (now + span); locked_at = none }
            ∷ [];
    }

unfoldable pub disable_account : ℕ → String → Db → Db
disable_account a reason =
    update_account a
      (λ r. record r { status = AccountStatus.disabled; last_error = cut 2000 reason })

unfoldable pub store_session : ℕ → String → Db → Db
store_session a session db =
    if any (λ c. c.account_id == a) db.credentials
    then record db {
      credentials =
          update_where (λ c. c.account_id == a) (λ c. record c { session_string = session })
            db.credentials;
    }
    else record db {
      credentials = db.credentials ++ record { account_id = a; session_string = session } ∷ [];
    }

-- `None` and the empty text leave the stored session alone.
unfoldable pub refresh_credential : ℕ → Option String → Db → Db
refresh_credential a none db = db
refresh_credential a (some session) db = if is_empty session then db else store_session a session db

abbrev pub find_credential : ℕ → Db → Option Credential
find_credential a db = find? (λ c. c.account_id == a) db.credentials

-- `WorkerPostView.objects.update_or_create(…, defaults={"viewed_at": now})`
unfoldable pub record_view : ℕ → ℕ → String → Db → Db
record_view now a key db =
    if any (λ v. v.account_id == a && str_eq v.target_key key) db.post_views
    then record db {
      post_views =
          update_where (λ v. v.account_id == a && str_eq v.target_key key)
            (λ v. record v { viewed_at = now }) db.post_views;
    }
    else record db {
      post_views =
          db.post_views ++ record { account_id = a; target_key = key; viewed_at = now } ∷ [];
    }
