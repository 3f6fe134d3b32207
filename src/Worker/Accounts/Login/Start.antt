-- ===== src/Worker/Accounts/Login/Start.antt =====
-- accounts.py: start_phone_login, which has a code sent.
use rubigram.Base.{if◌then◌else◌, is_empty, ℕ, String, Bool, Option, none, some, str_eq}
use rubigram.Base.Errors.{Result, ok, err}
use rubigram.Utils.Phone.{normalize_phone_number}
use rubigram.Worker.Accounts.Login.State.{
  Answer, answered, refused, crashed, cancelled, LoginFailure, invalid_phone, has_pass_key,
  code_not_sent, unexpected, timed_out, login_error, LoginState, Logins, stop_client, open_client,
  set_pending,
}

-- The answer of `sendCode`, the absent texts as empty ones.
pub record Sent : Type 0 where
  pub status : String
  pub phone_code_hash : String
  pub send_type : String

-- `StartAuthOutcome`, without what is passed on from settings, the echo service and `sendCode`
pub record StartAuthOutcome : Type 0 where
  pub transaction_hash : String
  pub phone : String
  pub session_name : String
  pub login_state : LoginState
  pub sent_code_type : Option String
  pub code_already_sent : Bool

abbrev pub text_or_none : String → Option String
text_or_none s = if is_empty s then none else some s

-- `start_phone_login`, once the code was sent by the client `c`; `state` is the exported session.
unfoldable pub code_sent :
    ℕ
    → String
    → String
    → String
    → String
    → String
    → Sent
    → Logins
    → Result LoginFailure StartAuthOutcome × Logins
code_sent c username phone proxy session_name state sent l =
    if str_eq sent.status "SendPassKey"
    then (err has_pass_key, stop_client c l)
    else if is_empty sent.phone_code_hash
    then (err (code_not_sent sent.status), stop_client c l)
    else (
      ok (record {
        transaction_hash = sent.phone_code_hash;
        phone = phone;
        session_name = session_name;
        login_state = record {
          login_state = state;
          phone = phone;
          username = username;
          proxy = proxy;
        };
        sent_code_type = text_or_none sent.send_type;
        code_already_sent = is_empty sent.send_type;
      }),
      set_pending
          (record {
            session_name = session_name;
            client = c;
            phone = phone;
            username = username;
            proxy = proxy;
          })
          l,
    )

abbrev pub after_code :
    ℕ
    → String
    → String
    → String
    → String
    → String
    → Logins
    → Answer Sent
    → Result LoginFailure StartAuthOutcome × Logins
after_code c username phone proxy session_name state l (answered sent) =
    code_sent c username phone proxy session_name state sent l
after_code c username phone proxy session_name state l (refused e) =
    (err (login_error e), stop_client c l)
after_code c username phone proxy session_name state l crashed = (err unexpected, stop_client c l)
after_code c username phone proxy session_name state l cancelled = (err timed_out, l)

-- `start_phone_login`, under the session name that `build_session_name` made; `sent` is what
-- `start` and `send_code` come to.
unfoldable pub start_phone_login :
    String
    → String
    → String
    → String
    → String
    → Answer Sent
    → Logins
    → Result LoginFailure StartAuthOutcome × Logins
start_phone_login username phone proxy session_name state sent l =
    let number = normalize_phone_number phone in
    if is_empty number
    then (err invalid_phone, l)
    else after_code l.next_client username number proxy session_name state (open_client l) sent
