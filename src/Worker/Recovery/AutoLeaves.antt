-- ===== src/Worker/Recovery/AutoLeaves.antt =====
-- The retention auto-leave: due schedules, one leave, and the completion of an ACTIVE job.
use rubigram.Base.{
  ltb, leb, ◌==◌, if◌then◌else◌, take, filter, any, find?, update_where, cut, ℕ, ◌+◌, String, Bool,
  true, false, ◌&&◌, ◌||◌, none, some, [], ◌∷◌, map,
}
use rubigram.Base.Errors.{Result, ok, err}
use rubigram.Base.Sort.{sort}
use rubigram.Worker.Model.{JobStatus, LeaveStatus, Job, AutoLeave}
use rubigram.Worker.Db.{
  send_callback, process_auto_leave, Db, find_job, find_account, update_job, enqueue,
}
use rubigram.Worker.Rubika.{
  already_done, LeaveOutcome, Failure, action_error, target_error, invalid_auth, not_registered,
  login_required, session_expired, too_requests, network_error, transport_error, decode_error,
  timeout_error, os_error, other, Runner,
}
use rubigram.Worker.Jobs.{nothing_seen, mark_membership}
use rubigram.Worker.Items.{refresh_credential, find_credential, no_session, seen_leave}

abbrev pub is_pending_leave : LeaveStatus → Bool
is_pending_leave LeaveStatus.pending = true
is_pending_leave _ = false

abbrev pub is_open_leave : LeaveStatus → Bool
is_open_leave LeaveStatus.pending = true
is_open_leave LeaveStatus.processing = true
is_open_leave _ = false

abbrev due_before : AutoLeave → AutoLeave → Bool
due_before a b = ltb a.due_at b.due_at || (a.due_at == b.due_at && ltb a.id b.id)

unfoldable pub enqueue_due_auto_leaves : ℕ → ℕ → Db → Db
enqueue_due_auto_leaves now limit db =
    enqueue
      (map (λ l. process_auto_leave l.id)
        (take limit (
          sort due_before
            (filter (λ l. is_pending_leave l.status && leb l.due_at now) db.schedules))))
      db

abbrev update_schedule : ℕ → (AutoLeave → AutoLeave) → Db → Db
update_schedule id f db = record db { schedules = update_where (λ l. l.id == id) f db.schedules }

abbrev pub completed_job : ℕ → Job → Job
completed_job now j = record j {
  status = JobStatus.completed;
  finished_at = some now;
  updated_at = now;
}

abbrev pub is_active_status : JobStatus → Bool
is_active_status JobStatus.active = true
is_active_status _ = false

unfoldable pub complete_active_job_if_auto_leaves_done : ℕ → ℕ → Db → Db
complete_active_job_if_auto_leaves_done now id db =
    if any (λ l. l.source_job_id == id && is_open_leave l.status) db.schedules
    then db
    else elim (find_job id db) [
      | none ↦ db
      | some j ↦
          if is_active_status j.status
          then enqueue (send_callback id "order_completed" ∷ [])
              (update_job id (completed_job now) db)
          else db
    ]

-- `str(exc)`
abbrev pub failure_text : Failure → String
failure_text (action_error e) = e.message
failure_text (target_error m) = m
failure_text (invalid_auth m) = m
failure_text (not_registered m) = m
failure_text (login_required m) = m
failure_text (session_expired m) = m
failure_text (too_requests retry m) = m
failure_text (network_error m) = m
failure_text (transport_error m) = m
failure_text (decode_error m) = m
failure_text (timeout_error m) = m
failure_text (os_error m) = m
failure_text (other name m) = m

-- An `ActionError` of the kind ALREADY_DONE: the account had left.
abbrev pub is_already_done : Failure → Bool
is_already_done (action_error e) = elim e.kind [ already_done ↦ true | _ ↦ false ]
is_already_done _ = false

unfoldable pub begin_leave : ℕ → Db → Db
begin_leave id =
    update_schedule id
      (λ l. record l { status = LeaveStatus.processing; attempts = l.attempts + 1 })

unfoldable pub fail_leave : ℕ → String → Db → Db
fail_leave id message =
    update_schedule id (λ l. record l { status = LeaveStatus.fail; last_error = cut 2000 message })

-- COMPLETED, and the job with it when no other schedule of it is open.
unfoldable pub finish_leave : ℕ → AutoLeave → Db → Db
finish_leave now l db = complete_active_job_if_auto_leaves_done now l.source_job_id (
    update_schedule l.id
      (λ r. record r { status = LeaveStatus.completed; processed_at = some now; last_error = "" })
      db)

module _ (r : Runner) (now : ℕ) where
  -- The leave of one account, as `run_leave` answers it.
  unfoldable pub settle_leave : AutoLeave → Result Failure LeaveOutcome → Db → Db
  settle_leave l (ok o) db = finish_leave now l (
      mark_membership now l.account_id l.target_key l.target false (seen_leave o)
        (refresh_credential l.account_id o.session_string db))
  settle_leave l (err f) db =
      if is_already_done f
      then finish_leave now l
          (mark_membership now l.account_id l.target_key l.target false nothing_seen db)
      else fail_leave l.id (failure_text f) db

  -- The call of `run_leave`, of a schedule that is now PROCESSING.
  unfoldable pub run_leave_of : AutoLeave → Db → Db
  run_leave_of l db = elim (find_account l.account_id db) [
    | none ↦ db
    | some a ↦ elim (find_credential a.id db) [
      | none ↦ settle_leave l (err (action_error no_session)) db
      | some c ↦ settle_leave l (r.run_leave a.session_name c.session_string l.target) db
    ]
  ]

  unfoldable pub process_auto_leave_schedule : ℕ → Db → Db
  process_auto_leave_schedule id db = elim (find? (λ l. l.id == id) db.schedules) [
    | none ↦ db
    | some l ↦
        if is_pending_leave l.status && leb l.due_at now
        then run_leave_of l (begin_leave id db)
        else db
  ]
