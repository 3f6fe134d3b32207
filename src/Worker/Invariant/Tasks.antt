-- ===== src/Worker/Invariant/Tasks.antt =====
-- Processing an item, and creating an order, are fine changes.
use rubigram.Base.{
  ◌≡◌, ltb, Bool-cases, ℕ, String, refl, inl, inr, Bool, true, false, ◌&&◌, Option, none, some,
  List,
}
use rubigram.Base.Errors.{Result, ok, err}
use rubigram.Worker.Model.{Action, join, leave, view, ItemStatus, Account, Job}
use rubigram.Worker.Db.{Db, Settings}
use rubigram.Worker.Rubika.{
  ErrorKind, invalid_target, session_dead, throttled, conn_error, already_done, ActionError,
  classify_error, Runner,
}
use rubigram.Worker.Jobs.{
  ServiceError, Payload, Order, validate, find_key, insert_order, announce_order, needs_accounts,
  is_none, place_with, chosen_accounts, place_once, place_valid, create_membership_job,
  nothing_seen,
}
use rubigram.Worker.Items.{
  Claim, go, dropped, missing, retry_in, claim_item_and_reserve_throttle, finish_item, Loaded, Ran,
  ran, raised, run_action, handle_invalid_target, target_as_title, handle_already_done, retry_span,
  note_error, handle_kind, handle_failure, load, after_failure, after_action, run_loaded,
  after_claim, process_membership_job_item,
}
use rubigram.Worker.Invariant.Kept.{Calm, Calm-trans, Calm-same}
use rubigram.Worker.Invariant.Sound.{IsSound}
use rubigram.Worker.Invariant.Effects.{
  enqueue-Calm, finish_item-Calm, throttle_account-Calm, disable_account-Calm, mark_membership-Calm,
  create_auto_leave-Calm,
}
use rubigram.Worker.Invariant.Claims.{claim-Calm}
use rubigram.Worker.Invariant.Changes.{Fine, Fine-Calm, Fine-refl, Fine-trans}
use rubigram.Worker.Invariant.Outcomes.{RanCalm, run_action-Calm}
use rubigram.Worker.Invariant.Settling.{cancel-Fine}
use rubigram.Worker.Invariant.Adding.{insert_order-Fine}
use rubigram.Worker.Invariant.Operations.{finalize-Fine}

module _ (s : Settings) (now : ℕ) (l : Loaded) where
  skip-Calm :
      (message : String) (db : Db)
      → Calm db (finish_item now l.item ItemStatus.skipped "" message db)
  skip-Calm message db = finish_item-Calm now l.item ItemStatus.skipped "" message db refl

  handle_invalid_target-Fine :
      (message : String) (db : Db)
      → IsSound db
      → Fine db (handle_invalid_target s now l message db).1
  unfolding handle_invalid_target
  handle_invalid_target-Fine message db h = elim (Bool-cases (ltb 0 l.job.success_count)) [
    | inl e ↦ rw e (Fine-Calm h (skip-Calm _ db))
    | inr e ↦
        rw e
          (Fine-trans (Fine-Calm h (skip-Calm _ db)) (λ h'. cancel-Fine now l.job.id message _ h'))
  ]

  already_done-Calm :
      (message : String) (a : Action) (db : Db)
      → Calm db (handle_already_done s now l a message db).1
  unfolding handle_already_done
  already_done-Calm message join db =
      Calm-trans
        (mark_membership-Calm now l.account.id l.job.target_key l.job.target true
          (target_as_title s now l) db)
        (Calm-trans (create_auto_leave-Calm now l.job l.item _)
          (finish_item-Calm now l.item ItemStatus.success l.job.target "" _ refl))
  already_done-Calm message leave db =
      Calm-trans
        (mark_membership-Calm now l.account.id l.job.target_key l.job.target false nothing_seen db)
        (skip-Calm message _)
  already_done-Calm message view db = skip-Calm message db

  handle_kind-Fine :
      (k : ErrorKind) (e : ActionError) (db : Db)
      → IsSound db
      → Fine db (handle_kind s now l k e db).1
  unfolding handle_kind note_error
  handle_kind-Fine invalid_target e db h = handle_invalid_target-Fine e.message db h
  handle_kind-Fine already_done e db h = Fine-Calm h (already_done-Calm e.message l.job.action db)
  handle_kind-Fine session_dead e db h =
      Fine-Calm h (Calm-trans (skip-Calm _ db) (disable_account-Calm l.account.id e.message _))
  handle_kind-Fine throttled e db h = Fine-Calm h (
      Calm-trans (skip-Calm _ db)
        (throttle_account-Calm now l.account.id (retry_span s now l e.retry_after) _))
  handle_kind-Fine conn_error e db h =
      Fine-Calm h (
        Calm-trans (skip-Calm _ db)
          (throttle_account-Calm now l.account.id s.throttle_conn_error _))
  handle_kind-Fine ErrorKind.failed e db h = Fine-Calm h (
      Calm-trans (finish_item-Calm now l.item ItemStatus.failed "" e.message db refl)
        (Calm-same refl refl refl refl))

module _ (s : Settings) (r : Runner) (locked : ℕ → Bool) (now : ℕ) where
  after_failure-Fine :
      (l : Loaded) (db : Db) (x : Option String × Db)
      → Fine db x.1
      → Fine db (after_failure s r locked now l x)
  unfolding after_failure
  after_failure-Fine l db (none, db') f = f
  after_failure-Fine l db (some event, db') f =
      Fine-trans f (λ h. finalize-Fine s locked now l.item.job_id db' h)

  after_action-Fine :
      (l : Loaded) (db : Db) (x : Ran)
      → IsSound db
      → RanCalm db x
      → Fine db (after_action s r locked now l db x)
  unfolding after_action handle_failure
  after_action-Fine l db (ran event db') h c =
      Fine-trans (Fine-Calm h c) (λ h'. finalize-Fine s locked now l.item.job_id db' h')
  after_action-Fine l db (raised f) h c =
      after_failure-Fine l db _
        (handle_kind-Fine s now l (classify_error f).kind (classify_error f) db h)

  run_loaded-Fine :
      (l : Option Loaded) (db : Db) → IsSound db → Fine db (run_loaded s r locked now l db)
  unfolding run_loaded
  run_loaded-Fine none db h = Fine-refl h
  run_loaded-Fine (some l) db h =
      after_action-Fine l db (run_action r now l db) h (run_action-Calm r now l db)

  after_claim-Fine :
      (id : ℕ) (db : Db) (x : Claim × Db) → Fine db x.1 → Fine db (after_claim s r locked now id x)
  unfolding after_claim
  after_claim-Fine id db (go, db') f = Fine-trans f (λ h. run_loaded-Fine (load id db') db' h)
  after_claim-Fine id db (retry_in n, db') f = Fine-trans f (λ h. Fine-Calm h (enqueue-Calm _ db'))
  after_claim-Fine id db (dropped, db') f = f
  after_claim-Fine id db (missing, db') f = f

  -- Processing an item, whatever Rubika answers.
  pub process-Fine :
      (id : ℕ) (db : Db) → IsSound db → Fine db (process_membership_job_item s r locked now id db)
  unfolding process_membership_job_item
  process-Fine id db h =
      after_claim-Fine id db (claim_item_and_reserve_throttle s now id db)
        (Fine-Calm h (claim-Calm s now id db))

module _ (s : Settings) (locked : ℕ → Bool) (now : ℕ) where
  place_with-Fine :
      (o : Order) (accounts : List Account) (db : Db)
      → find_key o.idempotency_key db ≡ none
      → IsSound db
      → Fine db (place_with s now o accounts db).1
  unfolding place_with announce_order
  place_with-Fine o accounts db new h =
      elim (Bool-cases (needs_accounts o.action && is_none accounts)) [
        | inl e ↦ rw e (Fine-refl h)
        | inr e ↦ rw e (
            Fine-trans (insert_order-Fine s now o accounts db new h)
              (λ h'. Fine-Calm h' (enqueue-Calm _ (insert_order s now o accounts db))))
      ]

  place_once-Fine :
      (o : Order) (known : Option Job) (db : Db)
      → find_key o.idempotency_key db ≡ known
      → IsSound db
      → Fine db (place_once s locked now o known db).1
  unfolding place_once
  place_once-Fine o (some j) db e h = Fine-refl h
  place_once-Fine o none db e h = place_with-Fine o (chosen_accounts s locked now o db) db e h

  place_valid-Fine :
      (o : Result ServiceError Order) (db : Db)
      → IsSound db
      → Fine db (place_valid s locked now o db).1
  unfolding place_valid
  place_valid-Fine (ok o) db h = place_once-Fine o (find_key o.idempotency_key db) db refl h
  place_valid-Fine (err e) db h = Fine-refl h

  -- Creating an order, accepted or refused.
  pub create-Fine :
      (p : Payload) (db : Db) → IsSound db → Fine db (create_membership_job s locked now p db).1
  unfolding create_membership_job
  create-Fine p db h = place_valid-Fine (validate s p) db h
