-- ===== src/Worker/Invariant/Settling.antt =====
-- Cancelling, refilling and settling a job are fine changes.
use rubigram.Worker.Invariant.Effects.{enqueue-Calm, refresh_job_counts-Calm}
use rubigram.Base.{
  if◌then◌else◌, Option-cases, update_where, ℕ, String, ◌≡◌, refl, inl, inr, Bool, true, false,
  some, arith,
}
use rubigram.Worker.Model.{Job, is_terminal_status}
use rubigram.Worker.Db.{Db, find_job, is_in_flight}
use rubigram.Worker.Jobs.{
  cancelled_item, cancelled_job, cancel_rows, cancel_job_invalid_target, settled, settle_job,
}
use rubigram.Worker.Invariant.Kept.{Calm, Calm-trans, Calm-items}
use rubigram.Worker.Invariant.Sound.{IsSound}
use rubigram.Worker.Invariant.Changes.{Fine, Fine-Calm, Fine-refl, Fine-trans, Fine-update_job}

pub Fine-if :
    {db x y : Db} (b : Bool)
    → (b ≡ true → Fine db x)
    → (b ≡ false → Fine db y)
    → Fine db (if b then x else y)
Fine-if true hx hy = hx refl
Fine-if false hx hy = hy refl

-- The items first; those of other jobs are as they were.
items_cancelled : ℕ → ℕ → String → Db → Db
items_cancelled now id reason db = record db {
  items = update_where (is_in_flight id) (cancelled_item now reason) db.items;
}

cancelled-Calm :
    (now id : ℕ) (reason : String) (db : Db) → Calm db (items_cancelled now id reason db)
unfolding items_cancelled
cancelled-Calm now id reason db =
    Calm-items (is_in_flight id) (cancelled_item now reason) db (λ i. (refl, refl))

pub cancel_rows-Fine :
    (now id : ℕ) (reason : String) (j : Job) (db : Db)
    → find_job id db ≡ some j
    → is_terminal_status j.status ≡ false
    → IsSound db
    → Fine db (cancel_rows now id reason db)
unfolding cancel_rows items_cancelled
cancel_rows-Fine now id reason j db e open_ h =
    Fine-trans (Fine-Calm h (cancelled-Calm now id reason db)) λ h'.
      Fine-update_job id (cancelled_job now reason) j (items_cancelled now id reason db) e
        (λ k. ground arith) (λ f. ground arith) h'

pub cancel-Fine :
    (now id : ℕ) (reason : String) (db : Db)
    → IsSound db
    → Fine db (cancel_job_invalid_target now id reason db)
unfolding cancel_job_invalid_target
cancel-Fine now id reason db h = elim (Option-cases (find_job id db)) [
  | inl e ↦ rw (e, cancel_job_invalid_target) (Fine-refl h)
  | inr (j, e) ↦
      rw (e, cancel_job_invalid_target)
        (Fine-if (is_terminal_status j.status) (λ t. Fine-refl h)
          (λ t. Fine-trans (cancel_rows-Fine now id reason j db e t h) (λ h'. Fine-Calm h' (
            Calm-trans (refresh_job_counts-Calm now id (cancel_rows now id reason db))
              (enqueue-Calm _ _)))))
]

-- Settling a job.
pub settle_job-Fine : (now id : ℕ) (db : Db) → IsSound db → Fine db (settle_job now id db)
unfolding settle_job
settle_job-Fine now id db h = elim (Option-cases (find_job id db)) [
  | inl e ↦ rw (e, settle_job) (Fine-refl h)
  | inr (j, e) ↦
      rw (e, settle_job)
        (Fine-if (is_terminal_status j.status) (λ t. Fine-refl h)
          (λ t.
            Fine-trans
              (Fine-update_job id (settled now) j db e (λ k. ground arith) (λ f. ground arith) h)
              (λ h'. Fine-Calm h' (enqueue-Calm _ _))))
]
