-- ===== src/Worker/Accounts/Login/Resume.antt =====
-- accounts.py: _login_client, the client of a pending login or of one that is resumed.
use rubigram.Base.{if◌then◌else◌, is_empty, or_text, ℕ, String, Bool, Option, none, some}
use rubigram.Base.Errors.{Result, ok, err}
use rubigram.Worker.Accounts.Login.State.{
  Answer, answered, refused, crashed, cancelled, LoginFailure, session_expired, passed_on,
  unexpected, timed_out, Pending, LoginState, Logins, find_pending, stop_client, open_client,
  set_pending,
}

-- What Rubika and the client's storage answer during one call.
pub record Remote : Type 0 where
  pub started : Answer (Unit {0})
  -- `sign_in` of a phone, a hash and a code, and `sign_up` of a name
  pub sign_in : String → String → String → Answer (Unit {0})
  pub sign_up : String → Answer (Unit {0})
  pub has_auth : Bool
  pub stored_guid : String
  -- the guid, the first name and the last name of `get_me().user`
  pub me : Answer (Option (String × String × String))
  pub session_string : String
  pub in_time : Bool

-- What a call is given: the texts of the request, and the state that the panel carried.
pub record Request : Type 0 where
  pub username : String
  pub phone : String
  pub transaction_hash : String
  pub session_name : String
  pub login_state : Option LoginState
  pub proxy : String

abbrev pub no_state : LoginState
no_state = record { login_state = ""; phone = ""; username = ""; proxy = "" }

abbrev pub state_of : Option LoginState → LoginState
state_of none = no_state
state_of (some s) = s

abbrev pub resumed : Request → ℕ → Pending
resumed q c = record {
  session_name = q.session_name;
  client = c;
  phone = (state_of q.login_state).phone;
  username = (state_of q.login_state).username;
  proxy = or_text q.proxy (state_of q.login_state).proxy;
}

-- A start that fails closes the client.
abbrev pub resume : Request → Logins → Answer (Unit {0}) → Result LoginFailure Pending × Logins
resume q l (answered u) = let p = resumed q l.next_client in (ok p, set_pending p (open_client l))
resume q l (refused e) = (err (passed_on e), stop_client l.next_client (open_client l))
resume q l crashed = (err unexpected, stop_client l.next_client (open_client l))
resume q l cancelled = (err timed_out, open_client l)

abbrev pub client_or_resume :
    Remote → Request → Logins → Option Pending → Result LoginFailure Pending × Logins
client_or_resume r q l (some p) = (ok p, l)
client_or_resume r q l none =
    if is_empty (state_of q.login_state).login_state
    then (err session_expired, l)
    else resume q l r.started

-- `_login_client`
unfoldable pub login_client : Remote → Request → Logins → Result LoginFailure Pending × Logins
login_client r q l = client_or_resume r q l (find_pending q.session_name l)
