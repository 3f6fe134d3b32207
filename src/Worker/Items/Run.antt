-- ===== src/Worker/Items/Run.antt =====
-- `_session_string` and `_run_action`: the action of an item, and what its success writes.
use rubigram.Base.{
  ◌==◌, if◌then◌else◌, length, update_where, is_empty, prepend, decimal, ℕ, String, append_text,
  Bool, true, false, ◌&&◌, none, some,
}
use rubigram.Base.Errors.{Result, ok, err}
use rubigram.Worker.Model.{Action, join, leave, view, ItemStatus, Account, Job, Item}
use rubigram.Worker.Db.{Db, is_joined}
use rubigram.Worker.Rubika.{
  session_dead, ActionError, JoinOutcome, LeaveOutcome, ViewOutcome, Failure, action_error, Runner,
}
use rubigram.Worker.Jobs.{
  save_job_member_counts, Seen, mark_membership, create_auto_leave_if_needed,
}
use rubigram.Worker.Items.Effects.{finish_item, refresh_credential, find_credential, record_view}

-- An item with its job and its account, as they were loaded before the action ran.
pub record Loaded : Type 0 where
  pub item : Item
  pub job : Job
  pub account : Account

abbrev pub no_session : ActionError
no_session = record {
  kind = session_dead;
  message = "account has no stored session";
  retry_after = none;
}

-- `_session_string`
unfoldable pub session_string : ℕ → Db → Result Failure String
session_string a db = elim (find_credential a db) [
  | none ↦ err (action_error no_session)
  | some c ↦
      if is_empty c.session_string then err (action_error no_session) else ok c.session_string
]

abbrev pub seen_join : JoinOutcome → Seen
seen_join o = record { title = o.title; object_guid = o.object_guid; object_type = o.object_type }

abbrev pub seen_leave : LeaveOutcome → Seen
seen_leave o = record { title = o.title; object_guid = o.object_guid; object_type = o.object_type }

abbrev pub lacks_guid : ℕ → Job → Bool
lacks_guid id j = j.id == id && is_empty j.object_guid

abbrev pub with_guid : String → Job → Job
with_guid guid j = record j { object_guid = guid }

-- `MembershipJob.objects.filter(id=…, object_guid="").update(object_guid=…)`
unfoldable pub fill_object_guid : ℕ → String → Db → Db
fill_object_guid id guid db = record db {
  jobs = update_where (lacks_guid id) (with_guid guid) db.jobs;
}

module _ (now : ℕ) (l : Loaded) where
  -- What a join that succeeded writes, in the order of the source.
  unfoldable pub record_join : JoinOutcome → Db → Db
  record_join o db0 =
      let db1 = refresh_credential l.account.id o.session_string db0 in
      let db2 = save_job_member_counts now l.job o.member_count_before o.member_count_after db1 in
      let db3 =
        mark_membership now l.account.id l.job.target_key l.job.target true (seen_join o) db2 in
      let db4 : Db =
        if is_empty l.job.object_guid then fill_object_guid l.job.id o.object_guid db3 else db3 in
      let db5 = create_auto_leave_if_needed now l.job l.item db4 in
      finish_item now l.item ItemStatus.success o.title "" db5

  unfoldable pub record_leave : LeaveOutcome → Db → Db
  record_leave o db0 =
      let db1 = refresh_credential l.account.id o.session_string db0 in
      let db2 =
        mark_membership now l.account.id l.job.target_key l.job.target false (seen_leave o) db1 in
      finish_item now l.item ItemStatus.success o.title "" db2

  unfoldable pub record_post_view : ViewOutcome → Db → Db
  record_post_view o db0 =
      let db1 = refresh_credential l.account.id o.session_string db0 in
      let db2 = record_view now l.account.id l.job.target_key db1 in
      finish_item now l.item ItemStatus.success ""
        (prepend "viewed " (append_text (decimal (length o.message_ids)) " post(s)")) db2

-- The callback event with the rows written, or the failure of the session or of the action.
pub data Ran : Type 0 where
  ran : String → Db → Ran
  raised : Failure → Ran

module _ (now : ℕ) (l : Loaded) (db : Db) where
  unfoldable pub after_join : Result Failure JoinOutcome → Ran
  after_join (ok o) = ran "item_success" (record_join now l o db)
  after_join (err e) = raised e

  unfoldable pub after_view : Result Failure ViewOutcome → Ran
  after_view (ok o) = ran "item_success" (record_post_view now l o db)
  after_view (err e) = raised e

  unfoldable pub after_leave : Result Failure LeaveOutcome → Ran
  after_leave (ok o) = ran "item_success" (record_leave now l o db)
  after_leave (err e) = raised e

module _ (r : Runner) (now : ℕ) (l : Loaded) where
  unfoldable pub run_with_session : Action → String → Db → Ran
  run_with_session join session db = after_join now l db (
      r.run_join l.account.session_name session l.job.target
        (elim l.job.member_count_before [ none ↦ true | some _ ↦ false ]))
  run_with_session view session db =
      after_view now l db (r.run_view l.account.session_name session l.job.target l.job.service_id)
  run_with_session leave session db =
      if is_joined l.job.target_key db l.account.id
      then after_leave now l db (r.run_leave l.account.session_name session l.job.target)
      else ran "item_skipped"
          (finish_item now l.item ItemStatus.skipped "" "account is not joined to target" db)

  unfoldable pub with_session : Result Failure String → Db → Ran
  with_session (err e) db = raised e
  with_session (ok session) db = run_with_session l.job.action session db

  unfoldable pub run_action : Db → Ran
  run_action db = with_session (session_string l.account.id db) db
