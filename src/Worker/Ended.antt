-- ===== src/Worker/Ended.antt =====
-- What an item's action leaves of its item, before the job is finalized.
use rubigram.Base.{
  ltb, ◌==◌, Bool-cases, Option-cases, All, update_where, ℕ, String, ◌≡◌, refl, inl, inr, true,
  false, List, [], ◌∷◌, arith,
}
use rubigram.Base.Errors.{Result, ok, err}
use rubigram.Worker.Model.{
  Action, join, leave, view, ItemStatus, Item, is_terminal_status, is_reserved,
}
use rubigram.Worker.Db.{Db, Settings, find_job, is_in_flight, is_joined}
use rubigram.Worker.Rubika.{
  ErrorKind, invalid_target, session_dead, throttled, conn_error, already_done, ActionError,
  JoinOutcome, LeaveOutcome, ViewOutcome, Failure, classify_error, Runner,
}
use rubigram.Worker.Jobs.{
  refresh_job_counts, cancelled_item, cancel_rows, cancel_job_invalid_target,
}
use rubigram.Worker.Items.{
  finish_item, throttle_account, disable_account, Loaded, session_string, record_join, record_leave,
  record_post_view, Ran, ran, raised, after_join, after_view, after_leave, run_with_session,
  with_session, run_action, handle_invalid_target, handle_already_done, retry_span, note_error,
  handle_kind, handle_failure,
}

-- No row with this id is pending or running.
abbrev pub IsEnded : ℕ → List Item → Type 0
IsEnded id = All (λ i. (i.id == id) ≡ true → is_reserved i.status ≡ false)

update-IsEnded :
    (id : ℕ) (f : Item → Item) (items : List Item)
    → ((i : Item) → is_reserved (f i).status ≡ false)
    → IsEnded id (update_where (λ i. i.id == id) f items)
update-IsEnded id f [] h = tt
update-IsEnded id f (i ∷ items) h = elim (Bool-cases (i.id == id)) [
  | inl e ↦ rw e (λ t. h i, update-IsEnded id f items h)
  | inr e ↦ rw e (λ t. absurd (cc), update-IsEnded id f items h)
]

finish_item-IsEnded :
    (now : ℕ) (i : Item) (st : ItemStatus) (title message : String) (db : Db)
    → is_reserved st ≡ false
    → IsEnded i.id (finish_item now i st title message db).items
unfolding finish_item
finish_item-IsEnded now i st title message db ended =
    rw ended (update-IsEnded i.id _ db.items (λ k. ended))

-- Other effects leave the items.
throttle_account-items :
    (now a span : ℕ) (db : Db) → (throttle_account now a span db).items ≡ db.items
unfolding throttle_account
throttle_account-items now a span db = ground arith

cancelled-IsEnded :
    (id job now : ℕ) (reason : String) (items : List Item)
    → IsEnded id items
    → IsEnded id (update_where (is_in_flight job) (cancelled_item now reason) items)
cancelled-IsEnded id job now reason [] h = tt
cancelled-IsEnded id job now reason (i ∷ items) (h, hs) = elim (Bool-cases (is_in_flight job i)) [
  | inl e ↦ rw e (λ t. refl, cancelled-IsEnded id job now reason items hs)
  | inr e ↦ rw e (h, cancelled-IsEnded id job now reason items hs)
]

cancel-IsEnded :
    (id now job : ℕ) (reason : String) (db : Db)
    → IsEnded id db.items
    → IsEnded id (cancel_job_invalid_target now job reason db).items
unfolding cancel_job_invalid_target cancel_rows refresh_job_counts
cancel-IsEnded id now job reason db h = elim (Option-cases (find_job job db)) [
  | inl e ↦ rw (e, cancel_job_invalid_target) h
  | inr (j, e) ↦ elim (Bool-cases (is_terminal_status j.status)) [
    | inl t ↦ rw (e, t, cancel_job_invalid_target) h
    | inr t ↦ rw (e, t, cancel_job_invalid_target) (cancelled-IsEnded id job now reason db.items h)
  ]
]

module _ (s : Settings) (now : ℕ) (l : Loaded) where
  skip-IsEnded :
      (message : String) (db : Db)
      → IsEnded l.item.id (finish_item now l.item ItemStatus.skipped "" message db).items
  skip-IsEnded message db = finish_item-IsEnded now l.item ItemStatus.skipped "" message db refl

  invalid_target-IsEnded :
      (message : String) (db : Db)
      → IsEnded l.item.id (handle_invalid_target s now l message db).1.items
  unfolding handle_invalid_target
  invalid_target-IsEnded message db = elim (Bool-cases (ltb 0 l.job.success_count)) [
    | inl e ↦ rw e (skip-IsEnded _ db)
    | inr e ↦ rw e (cancel-IsEnded l.item.id now l.job.id message _ (skip-IsEnded _ db))
  ]

  already_done-IsEnded :
      (a : Action) (message : String) (db : Db)
      → IsEnded l.item.id (handle_already_done s now l a message db).1.items
  unfolding handle_already_done
  already_done-IsEnded join message db =
      finish_item-IsEnded now l.item ItemStatus.success l.job.target "" _ refl
  already_done-IsEnded leave message db = skip-IsEnded message _
  already_done-IsEnded view message db = skip-IsEnded message db

  kind-IsEnded :
      (k : ErrorKind) (e : ActionError) (db : Db)
      → IsEnded l.item.id (handle_kind s now l k e db).1.items
  unfolding handle_kind note_error disable_account
  kind-IsEnded invalid_target e db = invalid_target-IsEnded e.message db
  kind-IsEnded already_done e db = already_done-IsEnded l.job.action e.message db
  kind-IsEnded session_dead e db = skip-IsEnded _ db
  kind-IsEnded throttled e db =
      rw (throttle_account-items now l.account.id (retry_span s now l e.retry_after))
        (skip-IsEnded _ db)
  kind-IsEnded conn_error e db =
      rw (throttle_account-items now l.account.id s.throttle_conn_error) (skip-IsEnded _ db)
  kind-IsEnded ErrorKind.failed e db =
      finish_item-IsEnded now l.item ItemStatus.failed "" e.message db refl

  -- The tables once the action has run, its failure handled if it failed.
  abbrev pub Settled : Db → Ran → Type 0
  Settled db (ran event db') = IsEnded l.item.id db'.items
  Settled db (raised f) = IsEnded l.item.id (handle_failure s now l (classify_error f) db).1.items

  failed-Settled : (f : Failure) (db : Db) → Settled db (raised f)
  unfolding handle_failure
  failed-Settled f db = kind-IsEnded (classify_error f).kind (classify_error f) db

  join-Settled : (x : Result Failure JoinOutcome) (db : Db) → Settled db (after_join now l db x)
  unfolding after_join record_join
  join-Settled (ok o) db = finish_item-IsEnded now l.item ItemStatus.success o.title "" _ refl
  join-Settled (err f) db = failed-Settled f db

  view-Settled : (x : Result Failure ViewOutcome) (db : Db) → Settled db (after_view now l db x)
  unfolding after_view record_post_view
  view-Settled (ok o) db = finish_item-IsEnded now l.item ItemStatus.success "" _ _ refl
  view-Settled (err f) db = failed-Settled f db

  leave-Settled : (x : Result Failure LeaveOutcome) (db : Db) → Settled db (after_leave now l db x)
  unfolding after_leave record_leave
  leave-Settled (ok o) db = finish_item-IsEnded now l.item ItemStatus.success o.title "" _ refl
  leave-Settled (err f) db = failed-Settled f db

  session-Settled :
      (r : Runner) (a : Action) (session : String) (db : Db)
      → Settled db (run_with_session r now l a session db)
  unfolding run_with_session
  session-Settled r join session db = join-Settled _ db
  session-Settled r view session db = view-Settled _ db
  session-Settled r leave session db =
      elim (Bool-cases (is_joined l.job.target_key db l.account.id)) [
        | inl e ↦ rw e (leave-Settled _ db)
        | inr e ↦ rw e (skip-IsEnded "account is not joined to target" db)
      ]

  opened-Settled :
      (r : Runner) (x : Result Failure String) (db : Db) → Settled db (with_session r now l x db)
  unfolding with_session
  opened-Settled r (ok session) db = session-Settled r l.job.action session db
  opened-Settled r (err f) db = failed-Settled f db

  -- Whatever Rubika answers, and whether or not the account has a session: once the action has run,
  -- and its failure is handled if it failed, no item with the id that was processed is pending or
  -- running.
  pub run_action-Settled : (r : Runner) (db : Db) → Settled db (run_action r now l db)
  unfolding run_action
  run_action-Settled r db = opened-Settled r (session_string l.account.id db) db
