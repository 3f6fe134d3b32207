-- ===== src/Worker/Rubika.antt =====
-- The part of rubika.py that the job pipeline sees: the kinds of failure, their classification, and
-- the outcomes of the three actions. The actions themselves, which talk to Rubika, are a parameter.
use rubigram.Base.{or_text, prepend, ℕ, String, Bool, Option, none, List}
use rubigram.Base.Errors.{Result}

-- `ActionError.kind`
pub data ErrorKind : Type 0 where
  invalid_target session_dead throttled conn_error already_done failed : ErrorKind

-- `retry_after` is in microseconds.
pub record ActionError : Type 0 where
  pub kind : ErrorKind
  pub message : String
  pub retry_after : Option ℕ

pub record JoinOutcome : Type 0 where
  pub object_guid : String
  pub object_type : String
  pub title : String
  pub member_count_before : Option ℕ
  pub member_count_after : Option ℕ
  pub session_string : Option String

pub record LeaveOutcome : Type 0 where
  pub object_guid : String
  pub object_type : String
  pub title : String
  pub session_string : Option String

pub record ViewOutcome : Type 0 where
  pub object_guid : String
  pub message_ids : List String
  pub session_string : Option String

-- The exceptions that `classify_error` tells apart, by their classes, with their texts.
pub data Failure : Type 0 where
  action_error : ActionError → Failure
  target_error : String → Failure
  invalid_auth not_registered login_required session_expired : String → Failure
  too_requests : Option ℕ → String → Failure
  network_error transport_error decode_error timeout_error os_error : String → Failure
  other : String → String → Failure

abbrev action_error_of : ErrorKind → String → ActionError
action_error_of kind message = record { kind = kind; message = message; retry_after = none }

-- `other name text` is an exception of another class; `str(exc) or type(exc).__name__`
unfoldable pub classify_error : Failure → ActionError
classify_error (action_error e) = e
classify_error (target_error m) = action_error_of invalid_target m
classify_error (invalid_auth m) = action_error_of session_dead (prepend "session rejected: " m)
classify_error (not_registered m) = action_error_of session_dead (prepend "session rejected: " m)
classify_error (login_required m) = action_error_of session_dead (prepend "session rejected: " m)
classify_error (session_expired m) = action_error_of session_dead (prepend "session rejected: " m)
classify_error (too_requests retry m) = record {
  kind = throttled;
  message = prepend "too many requests: " m;
  retry_after = retry;
}
classify_error (network_error m) = action_error_of conn_error (prepend "connection error: " m)
classify_error (transport_error m) = action_error_of conn_error (prepend "connection error: " m)
classify_error (decode_error m) = action_error_of conn_error (prepend "connection error: " m)
classify_error (timeout_error m) = action_error_of conn_error (prepend "connection error: " m)
classify_error (os_error m) = action_error_of conn_error (prepend "connection error: " m)
classify_error (other name m) = action_error_of failed (or_text m name)

-- What one call of `run_join`, `run_leave` or `run_view` comes to, given its arguments: the session,
-- the stored session string, the target, and for a join whether to probe the member count after it.
pub record Runner : Type 0 where
  pub run_join : String → String → String → Bool → Result Failure JoinOutcome
  pub run_leave : String → String → String → Result Failure LeaveOutcome
  pub run_view : String → String → String → String → Result Failure ViewOutcome
