-- ===== src/Worker/Accounts/Login/State.antt =====
-- accounts.py: the pending logins, their clients, and the errors of a login.
use Prim.Native.Char.{code}
use rubigram.Base.{
  ◌==◌, if◌then◌else◌, filter, find?, is_space, strip, digit_char, ℕ, suc, String, Bool, true,
  false, not, Option, none, some, List, [], ◌∷◌, ◌++◌, str_eq,
}
use rubigram.Base.Digits.{digit_value}
use rubigram.Worker.Db.{Db}

-- The errors of rubigram that the login tells apart; the wait of TooRequests is in seconds.
pub data RubigramError : Type 0 where
  code_is_invalid code_is_expired code_is_used invalid_input connection_error : RubigramError
  too_requests : Option ℕ → RubigramError
  other_error : String → RubigramError

-- What a call of the client comes to; `crashed` is an exception that is not one of rubigram, and
-- `cancelled` the CancelledError of a call whose time is over, which `except Exception` lets by.
pub data Answer (A : Type 0) : Type 0 where
  answered : A → Answer A
  refused : RubigramError → Answer A
  crashed cancelled : Answer A

-- `WorkerServiceError`, one constructor for each of its Persian texts; then the exceptions that
-- pass through: of rubigram, any other, the `IntegrityError` of `save_account`, and the `TimeoutError`
-- for a call that was cancelled.
pub data LoginFailure : Type 0 where
  wrong_code expired_code used_code invalid_number_or_code no_connection : LoginFailure
  invalid_phone has_pass_key session_expired digits_only name_missing : LoginFailure
  signup_incomplete save_too_slow : LoginFailure
  too_many : Option ℕ → LoginFailure
  reported : String → LoginFailure
  code_not_sent : String → LoginFailure
  passed_on : RubigramError → LoginFailure
  unexpected integrity_error timed_out : LoginFailure

-- `_login_error`
unfoldable pub login_error : RubigramError → LoginFailure
login_error code_is_invalid = wrong_code
login_error code_is_expired = expired_code
login_error code_is_used = used_code
login_error (too_requests wait) = too_many wait
login_error invalid_input = invalid_number_or_code
login_error connection_error = no_connection
login_error (other_error message) = reported message

-- The errors after which the pending login is kept.
unfoldable pub keeps_login : RubigramError → Bool
keeps_login code_is_invalid = true
keeps_login code_is_expired = true
keeps_login code_is_used = true
keeps_login (too_requests wait) = true
keeps_login _ = false

-- A value of `_PENDING`, with its key.
pub record Pending : Type 0 where
  pub session_name : String
  pub client : ℕ
  pub phone : String
  pub username : String
  pub proxy : String

-- `login_state`: what the panel carries from one call to the next
pub record LoginState : Type 0 where
  pub login_state : String
  pub phone : String
  pub username : String
  pub proxy : String

-- `_PENDING`, the clients that were started and not stopped, and the tables.
pub record Logins : Type 0 where
  pub pending : List Pending
  pub running : List ℕ
  pub next_client : ℕ
  pub db : Db

unfoldable pub normalize_verification_code : String → String
normalize_verification_code String.[] = ""
normalize_verification_code (String.◌∷◌ c s) = elim (digit_value (code c)) [
  | some v ↦ String.◌∷◌ (digit_char v) (normalize_verification_code s)
  | none ↦ normalize_verification_code s
]

-- `s.split()`, joined by single spaces again, of a text that does not end in a space
unfoldable pub single_spaces : Bool → String → String
single_spaces after String.[] = ""
single_spaces after (String.◌∷◌ c s) =
    let skipped = single_spaces true s in
    let kept = single_spaces false s in
    if is_space (code c)
    then (if after then skipped else String.◌∷◌ " " skipped)
    else String.◌∷◌ c kept

unfoldable pub normalize_display_name : String → String
normalize_display_name raw_value = single_spaces false (strip raw_value)

unfoldable pub find_pending : String → Logins → Option Pending
find_pending name l = find? (λ p. str_eq p.session_name name) l.pending

-- `await client.stop()`
unfoldable pub stop_client : ℕ → Logins → Logins
stop_client c l = record l { running = filter (λ d. not (d == c)) l.running }

-- A client that was built and started; it has the number `l.next_client`.
unfoldable pub open_client : Logins → Logins
open_client l = record l {
  running = l.running ++ l.next_client ∷ [];
  next_client = suc l.next_client;
}

abbrev pub other_than : String → Pending → Bool
other_than name p = not (str_eq p.session_name name)

-- `_PENDING[session_name] = …`
unfoldable pub set_pending : Pending → Logins → Logins
set_pending p l = record l { pending = filter (other_than p.session_name) l.pending ++ p ∷ [] }

abbrev pub forget_pending : String → Logins → Option Pending → Logins
forget_pending name l none = l
forget_pending name l (some p) =
    stop_client p.client (record l { pending = filter (other_than name) l.pending })

-- `_forget`
unfoldable pub forget : String → Logins → Logins
forget name l = forget_pending name l (find_pending name l)
