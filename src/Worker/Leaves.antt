-- ===== src/Worker/Leaves.antt =====
-- `process_auto_leave` and the schedules it works through.
use mathlib.Core.Path.{subst}
use rubigram.Base.{
  leb, ◌==◌, ==_iff, Bool-cases, Option-cases, any, find?, update_where, find?-holds,
  find?-update_where, cut, ℕ, ◌+◌, ◌≤◌, String, ◌≡◌, refl, sym, ap, ◌∙◌, inl, inr, Bool, true,
  false, ◌&&◌, Option, none, some, List, arith,
}
use rubigram.Base.Errors.{Result, ok, err}
use rubigram.Worker.Model.{LeaveStatus, Account, AutoLeave}
use rubigram.Worker.Db.{Db, find_job, find_account}
use rubigram.Worker.Rubika.{LeaveOutcome, Failure, Runner}
use rubigram.Worker.Jobs.{Seen, nothing_seen, mark_membership}
use rubigram.Worker.Items.{store_session, refresh_credential, find_credential, seen_leave}
use rubigram.Worker.Recovery.{
  is_pending_leave, is_open_leave, is_active_status, complete_active_job_if_auto_leaves_done,
  failure_text, is_already_done, begin_leave, fail_leave, finish_leave, settle_leave, run_leave_of,
  process_auto_leave_schedule,
}

abbrev pub find_schedule : ℕ → Db → Option AutoLeave
find_schedule id db = find? (λ l. l.id == id) db.schedules

-- The schedule is COMPLETED or FAIL after so many attempts.
abbrev pub IsClosed : ℕ → ℕ → Db → Type 0
IsClosed id n db =
    (k : AutoLeave) × (find_schedule id db ≡ some k)
    × (is_open_leave k.status ≡ false)
    × (k.attempts ≡ n)

mark-schedules :
    (now a : ℕ) (key target : String) (joined : Bool) (seen : Seen) (db : Db)
    → (mark_membership now a key target joined seen db).schedules ≡ db.schedules
unfolding mark_membership
mark-schedules now a key target joined seen db = ground arith

credential-schedules :
    (a : ℕ) (session : Option String) (db : Db)
    → (refresh_credential a session db).schedules ≡ db.schedules
unfolding refresh_credential store_session
credential-schedules a none db = refl
credential-schedules a (some session) db = ground arith

complete-schedules :
    (now id : ℕ) (db : Db)
    → (complete_active_job_if_auto_leaves_done now id db).schedules ≡ db.schedules
unfolding complete_active_job_if_auto_leaves_done
complete-schedules now id db =
    elim (Bool-cases (any (λ l. l.source_job_id == id && is_open_leave l.status) db.schedules)) [
      | inl b ↦ rw (b, complete_active_job_if_auto_leaves_done) refl
      | inr b ↦ elim (Option-cases (find_job id db)) [
        | inl e ↦ rw (b, e, complete_active_job_if_auto_leaves_done) refl
        | inr (j, e) ↦ elim (Bool-cases (is_active_status j.status)) [
          | inl t ↦ rw (b, e, t, complete_active_job_if_auto_leaves_done) refl
          | inr t ↦ rw (b, e, t, complete_active_job_if_auto_leaves_done) refl
        ]
      ]
    ]

-- The schedule `k` in the table, once it is PROCESSING.
module _ (id : ℕ) (k : AutoLeave) where
  updated :
      (n : ℕ) (f : AutoLeave → AutoLeave) (xs : List AutoLeave)
      → find? (λ x. x.id == id) xs ≡ some k
      → n ≡ id
      → ((y : AutoLeave) → (f y).id ≡ y.id)
      → find? (λ x. x.id == id) (update_where (λ x. x.id == n) f xs) ≡ some (f k)
  updated n f xs e named same =
      subst (λ m. find? (λ x. x.id == id) (update_where (λ x. x.id == m) f xs) ≡ some (f k))
        (sym named)
        (find?-update_where (λ (x : AutoLeave). x.id == id) f xs k (λ y. ap (λ m. m == id) (same y))
          e)

  finish-IsClosed :
      (now : ℕ) (l : AutoLeave) (db db' : Db)
      → l.id ≡ id
      → find_schedule id db ≡ some k
      → db'.schedules ≡ db.schedules
      → IsClosed id k.attempts (finish_leave now l db')
  unfolding finish_leave
  finish-IsClosed now l db db' named e same =
      let f : AutoLeave → AutoLeave = λ x. record x {
        status = LeaveStatus.completed;
        processed_at = some now;
        last_error = "";
      } in
      (
        f k,
        subst (λ xs. find? (λ x. x.id == id) xs ≡ some (f k))
            (sym (complete-schedules now l.source_job_id _))
            (updated l.id f _ (subst (λ xs. find? (λ x. x.id == id) xs ≡ some k) (sym same) e) named
              (λ y. refl)),
        refl,
        refl,
      )

  fail-IsClosed :
      (message : String) (l : AutoLeave) (db : Db)
      → l.id ≡ id
      → find_schedule id db ≡ some k
      → IsClosed id k.attempts (fail_leave l.id message db)
  unfolding fail_leave
  fail-IsClosed message l db named e =
      let f : AutoLeave → AutoLeave =
        λ x. record x { status = LeaveStatus.fail; last_error = cut 2000 message } in
      (f k, updated l.id f _ e named (λ y. refl), refl, refl)

  settle-IsClosed :
      (r : Runner) (now : ℕ) (l : AutoLeave) (x : Result Failure LeaveOutcome) (db : Db)
      → l.id ≡ id
      → find_schedule id db ≡ some k
      → IsClosed id k.attempts (settle_leave r now l x db)
  unfolding settle_leave
  settle-IsClosed r now l (ok o) db named e = finish-IsClosed now l db _ named e (
      mark-schedules now l.account_id l.target_key l.target false (seen_leave o) _
      ∙ credential-schedules l.account_id o.session_string db)
  settle-IsClosed r now l (err f) db named e = elim (Bool-cases (is_already_done f)) [
    | inl t ↦
        rw (t, settle_leave)
          (finish-IsClosed now l db _ named e
            (mark-schedules now l.account_id l.target_key l.target false nothing_seen db))
    | inr t ↦ rw (t, settle_leave) (fail-IsClosed (failure_text f) l db named e)
  ]

run-IsClosed :
    (r : Runner) (now id : ℕ) (k l : AutoLeave) (a : Account) (db : Db)
    → l.id ≡ id
    → find_schedule id db ≡ some k
    → find_account l.account_id db ≡ some a
    → IsClosed id k.attempts (run_leave_of r now l db)
unfolding run_leave_of
run-IsClosed r now id k l a db named e e' = elim (Option-cases (find_credential a.id db)) [
  | inl c ↦ rw (e', c, run_leave_of) (settle-IsClosed id k r now l _ db named e)
  | inr (x, c) ↦ rw (e', c, run_leave_of) (settle-IsClosed id k r now l _ db named e)
]

-- A schedule that is PENDING and due, of an account that exists, is COMPLETED or FAIL after its task,
-- whatever Rubika answers, with one attempt more.
pub process_auto_leave-IsClosed :
    (r : Runner) (now id : ℕ) (l : AutoLeave) (a : Account) (db : Db)
    → find_schedule id db ≡ some l
    → l.status ≡ LeaveStatus.pending
    → l.due_at ≤ now
    → find_account l.account_id db ≡ some a
    → IsClosed id (l.attempts + 1) (process_auto_leave_schedule r now id db)
unfolding process_auto_leave_schedule run_leave_of begin_leave
process_auto_leave-IsClosed r now id l a db e waiting due e' =
    let started : AutoLeave = record l {
      status = LeaveStatus.processing;
      attempts = l.attempts + 1;
    } in
    let goes : (is_pending_leave l.status && leb l.due_at now) ≡ true =
      ground (arith, waiting, due) in
    let named : l.id ≡ id =
      (==_iff l.id id).0 (find?-holds (λ (x : AutoLeave). x.id == id) db.schedules l e) in
    rw (e, goes, process_auto_leave_schedule)
      (run-IsClosed r now id started l a (begin_leave id db) named
        (find?-update_where (λ (x : AutoLeave). x.id == id) _ db.schedules l (λ y. refl) e) e')
