-- ===== src/Worker/Items/Failure.antt =====
-- `_handle_failure`: what a failed action does to the item, the account and the job.
use rubigram.Base.{
  ltb, if◌then◌else◌, prepend, cut, ℕ, suc, String, true, false, Option, none, some,
}
use rubigram.Worker.Model.{Action, join, leave, view, ItemStatus}
use rubigram.Worker.Db.{Db, Settings, update_account}
use rubigram.Worker.Rubika.{
  ErrorKind, invalid_target, session_dead, throttled, conn_error, already_done, ActionError,
}
use rubigram.Worker.Jobs.{
  Seen, nothing_seen, mark_membership, create_auto_leave_if_needed, cancel_job_invalid_target,
}
use rubigram.Worker.Items.Effects.{finish_item, throttle_account, disable_account}
use rubigram.Worker.Items.Run.{Loaded}

module _ (s : Settings) (now : ℕ) (l : Loaded) where
  abbrev skip : String → String → Db → Db
  skip prefix message = finish_item now l.item ItemStatus.skipped "" (prepend prefix message)

  -- A target that is wrong: the job is cancelled, unless some account has succeeded on it.
  unfoldable pub handle_invalid_target : String → Db → Option String × Db
  handle_invalid_target message db =
      if ltb 0 l.job.success_count
      then (some "item_skipped", skip "transient_target_error: " message db)
      else (
        none,
        cancel_job_invalid_target now l.job.id message (skip "invalid_target: " message db),
      )

  abbrev pub target_as_title : Seen
  target_as_title = record { title = l.job.target; object_guid = ""; object_type = "" }

  -- The account had joined, or had left, before the action ran.
  unfoldable pub handle_already_done : Action → String → Db → Option String × Db
  handle_already_done join message db = (
    some "item_success",
    finish_item now l.item ItemStatus.success l.job.target "" (
        create_auto_leave_if_needed now l.job l.item
          (mark_membership now l.account.id l.job.target_key l.job.target true target_as_title db)),
  )
  handle_already_done leave message db = (
    some "item_skipped",
    finish_item now l.item ItemStatus.skipped "" message
        (mark_membership now l.account.id l.job.target_key l.job.target false nothing_seen db),
  )
  handle_already_done view message db =
      (some "item_skipped", finish_item now l.item ItemStatus.skipped "" message db)

  -- `error.retry_after or float(settings.WORKER_THROTTLE_TOO_REQUESTS_SECONDS)`
  abbrev pub retry_span : Option ℕ → ℕ
  retry_span (some (suc n)) = suc n
  retry_span _ = s.throttle_too_requests

  -- `account.last_error = message[:2000]`
  unfoldable pub note_error : String → Db → Db
  note_error message = update_account l.account.id (λ a. record a { last_error = cut 2000 message })

  unfoldable pub handle_kind : ErrorKind → ActionError → Db → Option String × Db
  handle_kind invalid_target e db = handle_invalid_target e.message db
  handle_kind already_done e db = handle_already_done l.job.action e.message db
  handle_kind session_dead e db = (
    some "item_skipped",
    disable_account l.account.id e.message (skip "session_dead: " e.message db),
  )
  handle_kind throttled e db = (
    some "item_skipped",
    throttle_account now l.account.id (retry_span e.retry_after) (skip "throttled: " e.message db),
  )
  handle_kind conn_error e db = (
    some "item_skipped",
    throttle_account now l.account.id s.throttle_conn_error (skip "conn_error: " e.message db),
  )
  handle_kind ErrorKind.failed e db = (
    some "item_failed",
    note_error e.message (finish_item now l.item ItemStatus.failed "" e.message db),
  )

  unfoldable pub handle_failure : ActionError → Db → Option String × Db
  handle_failure e db = handle_kind e.kind e db
