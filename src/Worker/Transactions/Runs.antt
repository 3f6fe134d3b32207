-- ===== src/Worker/Transactions/Runs.antt =====
-- Sequences of transactions, and the operations of jobs.py that are made of them.
use rubigram.Base.{
  if◌then◌else◌, Option-cases, any, ℕ, String, ◌≡◌, refl, inl, inr, Bool, true, false, [], ◌∷◌,
}
use rubigram.Worker.Model.{ItemStatus, Item, is_terminal_status}
use rubigram.Worker.Db.{Db, Settings, find_job, is_in_flight}
use rubigram.Worker.Jobs.{
  refresh_job_counts, cancel_rows, cancel_job_invalid_target, Refill, deferred, refilled,
  enqueue_replacement_items_if_needed, after_refill, finalize_job_if_done,
}
use rubigram.Worker.Items.{is_counted, finish_item}
use rubigram.Worker.Transactions.{
  Transaction, end_item, count_item, cancel, refresh, refill, settle, send,
}

module _ (s : Settings) where
  pub data Runs (a : Db) : Db → Type 0 where
    nothing : Runs a a
    more : {b c : Db} → Runs a b → Transaction s b c → Runs a c

  pub Runs-one : {a b : Db} → Transaction s a b → Runs a b
  Runs-one t = more nothing t

  pub Runs-trans : {a b c : Db} → Runs a b → Runs b c → Runs a c
  Runs-trans r nothing = r
  Runs-trans r (more q t) = more (Runs-trans r q) t

  pub Runs-if :
      {a x y : Db} (b : Bool)
      → (b ≡ true → Runs a x)
      → (b ≡ false → Runs a y)
      → Runs a (if b then x else y)
  Runs-if true hx hy = hx refl
  Runs-if false hx hy = hy refl

  pub finish_item-Runs :
      (now : ℕ) (i : Item) (st : ItemStatus) (title message : String) (db : Db)
      → Runs db (finish_item now i st title message db)
  unfolding finish_item
  finish_item-Runs now i st title message db =
      Runs-if (is_counted st)
        (λ e. more (Runs-one (end_item now i.id st title message)) (count_item now i.job_id st))
        (λ e. Runs-one (end_item now i.id st title message))

  pub cancel-Runs :
      (now id : ℕ) (reason : String) (db : Db)
      → Runs db (cancel_job_invalid_target now id reason db)
  unfolding cancel_job_invalid_target refresh_job_counts
  cancel-Runs now id reason db = elim (Option-cases (find_job id db)) [
    | inl e ↦ rw (e, cancel_job_invalid_target) nothing
    | inr (j, e) ↦
        rw (e, cancel_job_invalid_target)
          (Runs-if (is_terminal_status j.status) (λ t. nothing)
            (λ t.
              more
                (more (Runs-one (cancel now id reason j e t))
                  (refresh now id (cancel_rows now id reason db).items))
                (send _)))
  ]

  after_refill-Runs :
      (now id : ℕ) (db : Db) (x : Refill × Db) → Runs db x.1 → Runs db (after_refill now id x)
  unfolding after_refill
  after_refill-Runs now id db (deferred, db') r = r
  after_refill-Runs now id db (refilled [], db') r = more r (settle now id)
  after_refill-Runs now id db (refilled (i ∷ ids), db') r = more r (send _)

  pub finalize-Runs :
      (locked : ℕ → Bool) (now id : ℕ) (db : Db) → Runs db (finalize_job_if_done s locked now id db)
  unfolding finalize_job_if_done refresh_job_counts
  finalize-Runs locked now id db =
      Runs-if (any (is_in_flight id) db.items) (λ t. nothing)
        (λ t.
          after_refill-Runs now id db
            (enqueue_replacement_items_if_needed s locked now id (refresh_job_counts now id db))
            (more (Runs-one (refresh now id db.items)) (refill locked now id)))
