-- ===== src/Worker/Accounts/Login/Verify.antt =====
-- accounts.py: verify_phone_code and complete_phone_signup, up to the account that is stored.
use Prim.Native.Char.{code}
use rubigram.Base.{
  if◌then◌else◌, is_empty, or_text, concat, ℕ, String, Bool, true, false, Option, none, some,
}
use rubigram.Base.Errors.{Result, ok, err}
use rubigram.Utils.Phone.{normalize_phone_number}
use rubigram.Worker.Model.{Account}
use rubigram.Worker.Db.{Db}
use rubigram.Worker.Accounts.Rows.{save_account}
use rubigram.Worker.Accounts.Login.State.{
  Answer, answered, refused, crashed, cancelled, LoginFailure, digits_only, name_missing,
  signup_incomplete, save_too_slow, unexpected, integrity_error, timed_out, login_error,
  keeps_login, Pending, Logins, normalize_verification_code, normalize_display_name, forget,
}
use rubigram.Worker.Accounts.Login.Resume.{Remote, Request, login_client}

-- `VerifyOutcome`
pub data VerifyOutcome : Type 0 where
  requires_signup : String → String → VerifyOutcome
  logged_in : Account → VerifyOutcome

abbrev pub joined_name : String → String → String
joined_name first last =
    if is_empty first then last else if is_empty last then first else concat first (concat " " last)

-- The answer to what was saved; a save that takes too long still comes to its end.
abbrev pub after_save :
    Bool → Logins → Option Account × Db → Result LoginFailure VerifyOutcome × Logins
after_save false l (o, db) = (err save_too_slow, record l { db = db })
after_save true l (none, db) = (err integrity_error, record l { db = db })
after_save true l (some a, db) = (ok (logged_in a), record l { db = db })

abbrev pub store_login :
    ℕ
    → Remote
    → String
    → String
    → String
    → String
    → String
    → Logins
    → Result LoginFailure VerifyOutcome × Logins
store_login now r username phone name guid display l =
    let done = forget name l in
    after_save r.in_time done (
      save_account now
        (record {
          username = username;
          phone = phone;
          session_name = name;
          session_string = r.session_string;
          user_guid = guid;
          display_name = display;
        })
        done.db)

abbrev pub with_me :
    ℕ
    → Remote
    → String
    → String
    → String
    → Logins
    → Answer (Option (String × String × String))
    → Result LoginFailure VerifyOutcome × Logins
with_me now r username phone name l (answered (some (guid, first, last))) =
    store_login now r username phone name (or_text guid r.stored_guid) (joined_name first last) l
with_me now r username phone name l (answered none) =
    store_login now r username phone name r.stored_guid "" l
with_me now r username phone name l (refused e) =
    store_login now r username phone name r.stored_guid "" l
with_me now r username phone name l crashed = (err unexpected, l)
with_me now r username phone name l cancelled = (err timed_out, l)

-- `_finish_login`
unfoldable pub finish_login :
    ℕ → Remote → String → String → String → Logins → Result LoginFailure VerifyOutcome × Logins
finish_login now r username phone name l = with_me now r username phone name l r.me

-- The username and the phone that a call goes on with.
abbrev pub username_for : Request → Pending → String
username_for q p = or_text q.username p.username

abbrev pub phone_for : Request → Pending → String
phone_for q p = normalize_phone_number (or_text q.phone p.phone)

abbrev pub after_sign_in :
    ℕ
    → Remote
    → Request
    → Pending
    → Logins
    → Answer (Unit {0})
    → Result LoginFailure VerifyOutcome × Logins
after_sign_in now r q p l (refused e) =
    (err (login_error e), (if keeps_login e then l else forget q.session_name l))
after_sign_in now r q p l crashed = (err unexpected, forget q.session_name l)
after_sign_in now r q p l cancelled = (err timed_out, l)
after_sign_in now r q p l (answered u) =
    if r.has_auth
    then finish_login now r (username_for q p) (phone_for q p) q.session_name l
    else (ok (requires_signup (phone_for q p) q.session_name), l)

abbrev pub signing_in :
    ℕ
    → Remote
    → Request
    → String
    → Result LoginFailure Pending × Logins
    → Result LoginFailure VerifyOutcome × Logins
signing_in now r q code (err e, l) = (err e, l)
signing_in now r q code (ok p, l) =
    after_sign_in now r q p l (r.sign_in (phone_for q p) q.transaction_hash code)

-- `verify_phone_code`; the lock of the session name lets one call run at a time.
unfoldable pub verify_phone_code :
    ℕ → Remote → Request → String → Logins → Result LoginFailure VerifyOutcome × Logins
verify_phone_code now r q code l =
    let digits = normalize_verification_code code in
    if is_empty digits then (err digits_only, l) else signing_in now r q digits (login_client r q l)

abbrev pub after_sign_up :
    ℕ
    → Remote
    → Request
    → Pending
    → Logins
    → Answer (Unit {0})
    → Result LoginFailure VerifyOutcome × Logins
after_sign_up now r q p l (refused e) = (err (login_error e), forget q.session_name l)
after_sign_up now r q p l crashed = (err unexpected, forget q.session_name l)
after_sign_up now r q p l cancelled = (err timed_out, l)
after_sign_up now r q p l (answered u) =
    if r.has_auth
    then finish_login now r (username_for q p) (phone_for q p) q.session_name l
    else (err signup_incomplete, forget q.session_name l)

abbrev pub signing_up :
    ℕ
    → Remote
    → Request
    → String
    → Result LoginFailure Pending × Logins
    → Result LoginFailure VerifyOutcome × Logins
signing_up now r q name (err e, l) = (err e, l)
signing_up now r q name (ok p, l) = after_sign_up now r q p l (r.sign_up name)

-- `complete_phone_signup`
unfoldable pub complete_phone_signup :
    ℕ → Remote → Request → String → Logins → Result LoginFailure VerifyOutcome × Logins
complete_phone_signup now r q display_name l =
    let name = normalize_display_name display_name in
    if is_empty name then (err name_missing, l) else signing_up now r q name (login_client r q l)

-- `cancel_pending_login`
unfoldable pub cancel_pending_login : String → Logins → Logins
cancel_pending_login name l = if is_empty name then l else forget name l
