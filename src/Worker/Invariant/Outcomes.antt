-- ===== src/Worker/Invariant/Outcomes.antt =====
-- What an item's action writes when it succeeds, and when it fails, is a fine change.
use rubigram.Base.{
  if◌then◌else◌, Bool-cases, is_empty, ℕ, String, refl, inl, inr, Bool, true, false,
}
use rubigram.Base.Errors.{Result, ok, err}
use rubigram.Worker.Model.{Action, join, leave, view, ItemStatus}
use rubigram.Worker.Db.{Db, is_joined}
use rubigram.Worker.Rubika.{JoinOutcome, LeaveOutcome, ViewOutcome, Failure, Runner}
use rubigram.Worker.Items.{
  Loaded, session_string, seen_join, seen_leave, fill_object_guid, record_join, record_leave,
  record_post_view, Ran, ran, raised, after_join, after_view, after_leave, run_with_session,
  with_session, run_action,
}
use rubigram.Worker.Invariant.Kept.{Calm, Calm-trans, Calm-refl, Calm-if}
use rubigram.Worker.Invariant.Effects.{
  finish_item-Calm, refresh_credential-Calm, record_view-Calm, mark_membership-Calm,
  create_auto_leave-Calm, save_job_member_counts-Calm, fill_object_guid-Calm,
}

module _ (now : ℕ) (l : Loaded) where
  record_join-Calm : (o : JoinOutcome) (db : Db) → Calm db (record_join now l o db)
  unfolding record_join
  record_join-Calm o db = Calm-trans (refresh_credential-Calm l.account.id o.session_string db) (
      Calm-trans
        (save_job_member_counts-Calm now l.job o.member_count_before o.member_count_after _)
        (Calm-trans
          (mark_membership-Calm now l.account.id l.job.target_key l.job.target true (seen_join o) _)
          (Calm-trans (guid (is_empty l.job.object_guid) _) (
            Calm-trans (create_auto_leave-Calm now l.job l.item _)
              (finish_item-Calm now l.item ItemStatus.success o.title "" _ refl)))))
    where
      guid :
          (b : Bool) (x : Db) → Calm x (if b then fill_object_guid l.job.id o.object_guid x else x)
      guid b x = Calm-if b (fill_object_guid-Calm l.job.id o.object_guid x) (Calm-refl x)

  record_leave-Calm : (o : LeaveOutcome) (db : Db) → Calm db (record_leave now l o db)
  unfolding record_leave
  record_leave-Calm o db = Calm-trans (refresh_credential-Calm l.account.id o.session_string db) (
      Calm-trans
        (mark_membership-Calm now l.account.id l.job.target_key l.job.target false (seen_leave o) _)
        (finish_item-Calm now l.item ItemStatus.success o.title "" _ refl))

  record_post_view-Calm : (o : ViewOutcome) (db : Db) → Calm db (record_post_view now l o db)
  unfolding record_post_view
  record_post_view-Calm o db =
      Calm-trans (refresh_credential-Calm l.account.id o.session_string db) (
        Calm-trans (record_view-Calm now l.account.id l.job.target_key _)
          (finish_item-Calm now l.item ItemStatus.success "" _ _ refl))

-- What the rows written by an action keep; a failure has written none.
abbrev pub RanCalm : Db → Ran → Type 0
RanCalm db (ran event db') = Calm db db'
RanCalm db (raised f) = Unit

after_join-Calm :
    (now : ℕ) (l : Loaded) (db : Db) (x : Result Failure JoinOutcome)
    → RanCalm db (after_join now l db x)
unfolding after_join
after_join-Calm now l db (ok o) = record_join-Calm now l o db
after_join-Calm now l db (err e) = tt

after_view-Calm :
    (now : ℕ) (l : Loaded) (db : Db) (x : Result Failure ViewOutcome)
    → RanCalm db (after_view now l db x)
unfolding after_view
after_view-Calm now l db (ok o) = record_post_view-Calm now l o db
after_view-Calm now l db (err e) = tt

after_leave-Calm :
    (now : ℕ) (l : Loaded) (db : Db) (x : Result Failure LeaveOutcome)
    → RanCalm db (after_leave now l db x)
unfolding after_leave
after_leave-Calm now l db (ok o) = record_leave-Calm now l o db
after_leave-Calm now l db (err e) = tt

run_with_session-Calm :
    (r : Runner) (now : ℕ) (l : Loaded) (a : Action) (session : String) (db : Db)
    → RanCalm db (run_with_session r now l a session db)
unfolding run_with_session
run_with_session-Calm r now l join session db = after_join-Calm now l db _
run_with_session-Calm r now l view session db = after_view-Calm now l db _
run_with_session-Calm r now l leave session db =
    elim (Bool-cases (is_joined l.job.target_key db l.account.id)) [
      | inl e ↦ rw e (after_leave-Calm now l db _)
      | inr e ↦ rw e (
          finish_item-Calm now l.item ItemStatus.skipped "" "account is not joined to target" db
            refl)
    ]

with_session-Calm :
    (r : Runner) (now : ℕ) (l : Loaded) (x : Result Failure String) (db : Db)
    → RanCalm db (with_session r now l x db)
unfolding with_session
with_session-Calm r now l (ok session) db = run_with_session-Calm r now l l.job.action session db
with_session-Calm r now l (err e) db = tt

-- Whatever Rubika answers, an action that returns has only made a calm change.
pub run_action-Calm :
    (r : Runner) (now : ℕ) (l : Loaded) (db : Db) → RanCalm db (run_action r now l db)
unfolding run_action
run_action-Calm r now l db = with_session-Calm r now l (session_string l.account.id db) db
