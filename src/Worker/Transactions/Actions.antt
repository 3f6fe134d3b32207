-- ===== src/Worker/Transactions/Actions.antt =====
-- The task of an item, as transactions.
use rubigram.Base.{
  ltb, Bool-cases, is_empty, ℕ, String, inl, inr, Bool, true, false, Option, some, none,
}
use rubigram.Base.Errors.{Result, ok, err}
use rubigram.Worker.Model.{Action, join, leave, view, ItemStatus}
use rubigram.Worker.Db.{Db, Settings, is_joined}
use rubigram.Worker.Rubika.{
  ErrorKind, invalid_target, session_dead, throttled, conn_error, already_done, ActionError,
  JoinOutcome, LeaveOutcome, ViewOutcome, Failure, classify_error, Runner,
}
use rubigram.Worker.Jobs.{nothing_seen}
use rubigram.Worker.Items.{
  finish_item, Loaded, session_string, seen_join, seen_leave, record_join, record_leave,
  record_post_view, Ran, ran, raised, after_join, after_view, after_leave, run_with_session,
  with_session, run_action, Claim, go, dropped, missing, retry_in, claim_item_and_reserve_throttle,
  handle_invalid_target, target_as_title, handle_already_done, retry_span, handle_kind,
  handle_failure, load, after_failure, after_action, run_loaded, after_claim,
  process_membership_job_item,
}
use rubigram.Worker.Transactions.{
  claim, session, member_counts, membership, object_guid, auto_leave, post_view, throttle, disable,
  note, send,
}
use rubigram.Worker.Transactions.Runs.{
  Runs, nothing, more, Runs-one, Runs-trans, Runs-if, finish_item-Runs, cancel-Runs, finalize-Runs,
}

module _ (s : Settings) (now : ℕ) (l : Loaded) where
  record_join-Runs : (o : JoinOutcome) (db : Db) → Runs s db (record_join now l o db)
  unfolding record_join
  record_join-Runs o db =
      Runs-trans s
        (Runs-trans s
          (more
            (more (Runs-one s (session l.account.id o.session_string))
              (member_counts now l.job o.member_count_before o.member_count_after))
            (membership now l.account.id l.job.target_key l.job.target true (seen_join o)))
          (Runs-if s (is_empty l.job.object_guid)
            (λ t. Runs-one s (object_guid l.job.id o.object_guid)) (λ t. nothing)))
        (Runs-trans s (Runs-one s (auto_leave now l.job l.item))
          (finish_item-Runs s now l.item ItemStatus.success o.title "" _))

  record_leave-Runs : (o : LeaveOutcome) (db : Db) → Runs s db (record_leave now l o db)
  unfolding record_leave
  record_leave-Runs o db =
      Runs-trans s
        (more (Runs-one s (session l.account.id o.session_string))
          (membership now l.account.id l.job.target_key l.job.target false (seen_leave o)))
        (finish_item-Runs s now l.item ItemStatus.success o.title "" _)

  record_post_view-Runs : (o : ViewOutcome) (db : Db) → Runs s db (record_post_view now l o db)
  unfolding record_post_view
  record_post_view-Runs o db =
      Runs-trans s
        (more (Runs-one s (session l.account.id o.session_string))
          (post_view now l.account.id l.job.target_key))
        (finish_item-Runs s now l.item ItemStatus.success "" _ _)

  skip-Runs :
      (message : String) (db : Db)
      → Runs s db (finish_item now l.item ItemStatus.skipped "" message db)
  skip-Runs message db = finish_item-Runs s now l.item ItemStatus.skipped "" message db

  -- A failed action has written nothing.
  abbrev RanRuns : Db → Ran → Type 0
  RanRuns db (ran event db') = Runs s db db'
  RanRuns db (raised f) = Unit

  after_join-Runs : (db : Db) (x : Result Failure JoinOutcome) → RanRuns db (after_join now l db x)
  unfolding after_join
  after_join-Runs db (ok o) = record_join-Runs o db
  after_join-Runs db (err e) = tt

  after_view-Runs : (db : Db) (x : Result Failure ViewOutcome) → RanRuns db (after_view now l db x)
  unfolding after_view
  after_view-Runs db (ok o) = record_post_view-Runs o db
  after_view-Runs db (err e) = tt

  after_leave-Runs :
      (db : Db) (x : Result Failure LeaveOutcome) → RanRuns db (after_leave now l db x)
  unfolding after_leave
  after_leave-Runs db (ok o) = record_leave-Runs o db
  after_leave-Runs db (err e) = tt

  run_with_session-Runs :
      (r : Runner) (a : Action) (text : String) (db : Db)
      → RanRuns db (run_with_session r now l a text db)
  unfolding run_with_session
  run_with_session-Runs r join text db = after_join-Runs db _
  run_with_session-Runs r view text db = after_view-Runs db _
  run_with_session-Runs r leave text db =
      elim (Bool-cases (is_joined l.job.target_key db l.account.id)) [
        | inl e ↦ rw e (after_leave-Runs db _)
        | inr e ↦ rw e (skip-Runs "account is not joined to target" db)
      ]

  with_session-Runs :
      (r : Runner) (x : Result Failure String) (db : Db) → RanRuns db (with_session r now l x db)
  unfolding with_session
  with_session-Runs r (ok text) db = run_with_session-Runs r l.job.action text db
  with_session-Runs r (err e) db = tt

  run_action-Runs : (r : Runner) (db : Db) → RanRuns db (run_action r now l db)
  unfolding run_action
  run_action-Runs r db = with_session-Runs r (session_string l.account.id db) db

  invalid-Runs :
      (message : String) (db : Db) → Runs s db (handle_invalid_target s now l message db).1
  unfolding handle_invalid_target
  invalid-Runs message db = elim (Bool-cases (ltb 0 l.job.success_count)) [
    | inl e ↦ rw e (skip-Runs _ db)
    | inr e ↦ rw e (Runs-trans s (skip-Runs _ db) (cancel-Runs s now l.job.id message _))
  ]

  already_done-Runs :
      (message : String) (a : Action) (db : Db)
      → Runs s db (handle_already_done s now l a message db).1
  unfolding handle_already_done
  already_done-Runs message join db =
      Runs-trans s
        (more
          (Runs-one s (
            membership now l.account.id l.job.target_key l.job.target true
              (target_as_title s now l)))
          (auto_leave now l.job l.item))
        (finish_item-Runs s now l.item ItemStatus.success l.job.target "" _)
  already_done-Runs message leave db =
      Runs-trans s
        (Runs-one s (membership now l.account.id l.job.target_key l.job.target false nothing_seen))
        (skip-Runs message _)
  already_done-Runs message view db = skip-Runs message db

  handle_kind-Runs :
      (k : ErrorKind) (e : ActionError) (db : Db) → Runs s db (handle_kind s now l k e db).1
  unfolding handle_kind
  handle_kind-Runs invalid_target e db = invalid-Runs e.message db
  handle_kind-Runs already_done e db = already_done-Runs e.message l.job.action db
  handle_kind-Runs session_dead e db = more (skip-Runs _ db) (disable l.account.id e.message)
  handle_kind-Runs throttled e db =
      more (skip-Runs _ db) (throttle now l.account.id (retry_span s now l e.retry_after))
  handle_kind-Runs conn_error e db =
      more (skip-Runs _ db) (throttle now l.account.id s.throttle_conn_error)
  handle_kind-Runs ErrorKind.failed e db =
      more (finish_item-Runs s now l.item ItemStatus.failed "" e.message db) (note now l e.message)

module _ (s : Settings) (r : Runner) (locked : ℕ → Bool) (now : ℕ) where
  after_failure-Runs :
      (l : Loaded) (db : Db) (x : Option String × Db)
      → Runs s db x.1
      → Runs s db (after_failure s r locked now l x)
  unfolding after_failure
  after_failure-Runs l db (none, db') q = q
  after_failure-Runs l db (some event, db') q =
      Runs-trans s q (finalize-Runs s locked now l.item.job_id db')

  after_action-Runs :
      (l : Loaded) (db : Db) (x : Ran)
      → RanRuns s now l db x
      → Runs s db (after_action s r locked now l db x)
  unfolding after_action handle_failure
  after_action-Runs l db (ran event db') q =
      Runs-trans s q (finalize-Runs s locked now l.item.job_id db')
  after_action-Runs l db (raised f) q =
      after_failure-Runs l db _
        (handle_kind-Runs s now l (classify_error f).kind (classify_error f) db)

  run_loaded-Runs : (l : Option Loaded) (db : Db) → Runs s db (run_loaded s r locked now l db)
  unfolding run_loaded
  run_loaded-Runs none db = nothing
  run_loaded-Runs (some l) db =
      after_action-Runs l db (run_action r now l db) (run_action-Runs s now l r db)

  after_claim-Runs :
      (id : ℕ) (db : Db) (x : Claim × Db)
      → Runs s db x.1
      → Runs s db (after_claim s r locked now id x)
  unfolding after_claim
  after_claim-Runs id db (go, db') q = Runs-trans s q (run_loaded-Runs (load id db') db')
  after_claim-Runs id db (retry_in n, db') q = more q (send _)
  after_claim-Runs id db (dropped, db') q = q
  after_claim-Runs id db (missing, db') q = q

  -- The task of an item, whatever Rubika answers.
  pub process-Runs :
      (id : ℕ) (db : Db) → Runs s db (process_membership_job_item s r locked now id db)
  unfolding process_membership_job_item
  process-Runs id db =
      after_claim-Runs id db (claim_item_and_reserve_throttle s now id db)
        (Runs-one s (claim now id))
