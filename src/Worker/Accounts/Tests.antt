-- ===== src/Worker/Accounts/Tests.antt =====
-- Accounts and logins on a table of one row.
use rubigram.Worker.Accounts.Clients.Apart.{Distinct}
use rubigram.Base.{
  ◌==◌, if◌then◌else◌, suc, ◌≡◌, refl, true, none, some, [], ◌∷◌, map, arith, str_eq,
}
use rubigram.Worker.Model.{AccountStatus, Account}
use rubigram.Worker.Db.{Db}
use rubigram.Worker.Accounts.Rows.{
  newest, Signed, refreshed_account, is_taken, save_existing, save_new, save_account, selects,
  delete_worker_account, available_account_count, aggregate,
}
use rubigram.Worker.Accounts.Rows.Keyed.{IsKeyed}
use rubigram.Worker.Accounts.Rows.Saved.{SavedOrSame, save_account-SavedOrSame}
use rubigram.Worker.Accounts.Rows.Deleted.{IsDeleted, nothing, delete_worker_account-IsDeleted}
use rubigram.Worker.Accounts.Login.{
  code_is_invalid, Answer, answered, refused, Pending, Logins, normalize_verification_code,
  normalize_display_name, find_pending, Sent, start_phone_login, Remote, Request, verify_phone_code,
}
use rubigram.Worker.Accounts.Clients.{start, verify, at_start, after, Calls-clients}
use rubigram.Worker.Accounts.Outcomes.{VerifyShows, verify_phone_code-Shows}

abbrev row : Account
row = record {
  id = 1;
  username = "panel";
  session_name = "one";
  phone = "98912";
  user_guid = "u1";
  display_name = "A";
  status = AccountStatus.error;
  last_error = "gone";
  created_at = 5;
}

abbrev one_row : Db
one_row = record {
  accounts = row ∷ [];
  credentials = record { account_id = 1; session_string = "old" } ∷ [];
  throttles = [];
  memberships = [];
  post_views = [];
  jobs = [];
  items = [];
  schedules = [];
  nonces = [];
  next_account_id = 2;
  next_job_id = 1;
  next_item_id = 1;
  next_schedule_id = 1;
  queue = [];
}

one_row-IsKeyed : IsKeyed one_row
one_row-IsKeyed = record {
  unique = λ id. ground arith;
  accounts_below = (ground arith, tt);
  credentials_below = (ground arith, tt);
}

abbrev again : Signed
again = record {
  username = "";
  phone = "98912";
  session_name = "two";
  session_string = "new";
  user_guid = "";
  display_name = "B";
}

save_account-SavedOrSame_example : SavedOrSame again one_row (save_account 9 again one_row)
save_account-SavedOrSame_example = save_account-SavedOrSame 9 again one_row one_row-IsKeyed

-- The row of the phone is active again, under the new session name and the old username.
refreshed_row :
    map (λ (a : Account). a.session_name) (save_account 9 again one_row).1.accounts ≡ "two" ∷ []
unfolding save_account newest save_existing is_taken refreshed_account
refreshed_row = refl

-- Another phone under the session name of the row is refused.
taken_name :
    save_account 9 (record again { phone = "98935"; session_name = "one" }) one_row
    ≡ (none, one_row)
unfolding save_account newest save_new is_taken
taken_name = refl

delete_worker_account-IsDeleted_example :
    let db' = (delete_worker_account (some 1) (some "two") none one_row).1 in
    IsDeleted (λ a. a.id == 1) one_row db'
    × (delete_worker_account (some 1) (some "two") none db' ≡ (some nothing, db'))
unfolding selects
delete_worker_account-IsDeleted_example =
    delete_worker_account-IsDeleted (some 1) (some "two") none (λ a. a.id == 1) one_row refl

without_key : delete_worker_account none (some "") (some "") one_row ≡ (none, one_row)
unfolding delete_worker_account selects
without_key = refl

counted : (aggregate one_row).error_count ≡ suc (available_account_count one_row)
unfolding available_account_count aggregate
counted = refl

abbrev idle : Logins
idle = record { pending = []; running = []; next_client = 7; db = one_row }

abbrev sent : Answer Sent
sent = answered (record { status = "OK"; phone_code_hash = "h"; send_type = "SMS" })

abbrev waiting : Logins
waiting = (start_phone_login "panel" "0912" "" "two" "state" sent idle).1

abbrev request : Request
request = record {
  username = "";
  phone = "";
  transaction_hash = "h";
  session_name = "two";
  login_state = none;
  proxy = "";
}

-- Rubika takes the code 12345 only.
abbrev rubika : Remote
rubika = record {
  started = answered tt;
  sign_in = λ phone hash code. if str_eq code "12345" then answered tt else refused code_is_invalid;
  sign_up = λ name. answered tt;
  has_auth = true;
  stored_guid = "u2";
  me = answered (some ("", "B", "C"));
  session_string = "new";
  in_time = true;
}

Calls-clients_example :
    let m = (verify_phone_code 9 rubika request "1" waiting).1 in
    (m.running ≡ map (λ (p : Pending). p.client) m.pending) × Distinct m.pending
unfolding find_pending
Calls-clients_example = Calls-clients refl refl (
    after (after at_start (start "panel" "0912" "" "two" "state" sent refl (λ e. ground arith)))
      (verify 9 rubika request "1" (λ e. ground arith)))

verify_phone_code-Shows_example :
    VerifyShows 9 rubika "two" one_row (verify_phone_code 9 rubika request "۱۲۳۴۵" idle)
verify_phone_code-Shows_example =
    verify_phone_code-Shows 9 rubika request "۱۲۳۴۵" idle one_row-IsKeyed

-- A wrong code leaves the client that was started, the right one stops it.
wrong_then_right :
    let wrong = verify_phone_code 9 rubika request "1" waiting in
    (wrong.1.running ≡ 7 ∷ [])
    × ((verify_phone_code 9 rubika request "1 2345" wrong.1).1.running ≡ [])
unfolding verify_phone_code start_phone_login normalize_verification_code
    rubigram.Base.Digits.digit_value rubigram.Base.Digits.value_in
    rubigram.Worker.Accounts.Login.login_client find_pending
    rubigram.Utils.Phone.normalize_phone_number rubigram.Utils.Phone.international
    rubigram.Base.has_prefix rubigram.Base.Texts.filter_chars rubigram.Utils.Phone.ascii_digits
    rubigram.Base.Texts.translate rubigram.Base.Digits.is_digit rubigram.Base.Texts.translate_char
    rubigram.Base.concat rubigram.Base.Texts.drop_chars rubigram.Worker.Accounts.Login.code_sent
    rubigram.Worker.Accounts.Login.set_pending rubigram.Worker.Accounts.Login.finish_login
    rubigram.Worker.Accounts.Login.forget rubigram.Worker.Accounts.Login.keeps_login
    rubigram.Worker.Accounts.Login.login_error rubigram.Worker.Accounts.Login.open_client
    rubigram.Worker.Accounts.Login.stop_client save_account newest save_existing is_taken
wrong_then_right = (refl, refl)

normalized :
    (normalize_verification_code "۱a۲ 3" ≡ "123") × (normalize_display_name "  a   b " ≡ "a b")
unfolding normalize_verification_code normalize_display_name rubigram.Base.Digits.digit_value
    rubigram.Base.Digits.value_in rubigram.Worker.Accounts.Login.single_spaces rubigram.Base.strip
normalized = (refl, refl)
