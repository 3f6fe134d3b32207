-- ===== src/Worker/Invariant/Leaving.antt =====
-- The retention auto-leave of recovery.py is fine.
use rubigram.Worker.Invariant.Recovered.{complete_active-Fine}
use rubigram.Base.{leb, ◌==◌, Option-cases, find?, ℕ, String, refl, inl, inr, false, ◌&&◌}
use rubigram.Base.Errors.{Result, ok, err}
use rubigram.Worker.Model.{AutoLeave}
use rubigram.Worker.Db.{Db, find_account}
use rubigram.Worker.Rubika.{LeaveOutcome, Failure, Runner}
use rubigram.Worker.Jobs.{nothing_seen}
use rubigram.Worker.Items.{find_credential, seen_leave}
use rubigram.Worker.Recovery.{
  is_pending_leave, failure_text, is_already_done, begin_leave, fail_leave, finish_leave,
  settle_leave, run_leave_of, process_auto_leave_schedule,
}
use rubigram.Worker.Invariant.Kept.{Calm, Calm-trans, Calm-same}
use rubigram.Worker.Invariant.Sound.{IsSound}
use rubigram.Worker.Invariant.Effects.{refresh_credential-Calm, mark_membership-Calm}
use rubigram.Worker.Invariant.Changes.{Fine, Fine-Calm, Fine-refl, Fine-trans}
use rubigram.Worker.Invariant.Settling.{Fine-if}

pub fail_leave-Calm : (id : ℕ) (m : String) (db : Db) → Calm db (fail_leave id m db)
unfolding fail_leave
fail_leave-Calm id m db = Calm-same refl refl refl refl

finish_leave-Fine :
    (now : ℕ) (l : AutoLeave) (db db' : Db)
    → IsSound db
    → Calm db db'
    → Fine db (finish_leave now l db')
unfolding finish_leave
finish_leave-Fine now l db db' h c =
    Fine-trans (Fine-Calm h (Calm-trans c (Calm-same refl refl refl refl)))
      (λ h'. complete_active-Fine now l.source_job_id _ h')

module _ (r : Runner) (now : ℕ) where
  settle_leave-Fine :
      (l : AutoLeave) (x : Result Failure LeaveOutcome) (db : Db)
      → IsSound db
      → Fine db (settle_leave r now l x db)
  unfolding settle_leave
  settle_leave-Fine l (ok o) db h = finish_leave-Fine now l db _ h (
      Calm-trans (refresh_credential-Calm l.account_id o.session_string db)
        (mark_membership-Calm now l.account_id l.target_key l.target false (seen_leave o) _))
  settle_leave-Fine l (err f) db h =
      Fine-if (is_already_done f)
        (λ t.
          finish_leave-Fine now l db _ h
            (mark_membership-Calm now l.account_id l.target_key l.target false nothing_seen db))
        (λ t. Fine-Calm h (fail_leave-Calm l.id (failure_text f) db))

  run_leave_of-Fine : (l : AutoLeave) (db : Db) → IsSound db → Fine db (run_leave_of r now l db)
  unfolding run_leave_of
  run_leave_of-Fine l db h = elim (Option-cases (find_account l.account_id db)) [
    | inl e ↦ rw (e, run_leave_of) (Fine-refl h)
    | inr (a, e) ↦ elim (Option-cases (find_credential a.id db)) [
      | inl e' ↦ rw (e, e', run_leave_of) (settle_leave-Fine l _ db h)
      | inr (c, e') ↦ rw (e, e', run_leave_of) (settle_leave-Fine l _ db h)
    ]
  ]

  pub process_leave-Fine :
      (id : ℕ) (db : Db) → IsSound db → Fine db (process_auto_leave_schedule r now id db)
  unfolding process_auto_leave_schedule begin_leave
  process_leave-Fine id db h = elim (Option-cases (find? (λ l. l.id == id) db.schedules)) [
    | inl e ↦ rw (e, process_auto_leave_schedule) (Fine-refl h)
    | inr (l, e) ↦
        rw (e, process_auto_leave_schedule)
          (Fine-if (is_pending_leave l.status && leb l.due_at now)
            (λ t.
              Fine-trans (Fine-Calm h (Calm-same refl refl refl refl))
                (λ h'. run_leave_of-Fine l _ h'))
            (λ t. Fine-refl h))
  ]
