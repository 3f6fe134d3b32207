-- ===== src/Worker/Guarantees.antt =====
-- The states that the operations of the worker reach.
use mathlib.Core.Path.{subst}
use rubigram.Base.{◌==◌, Bool-cases, find?, ℕ, ◌≡◌, refl, inl, inr, some, List, [], ◌∷◌, arith}
use rubigram.Worker.Model.{Job}
use rubigram.Worker.Db.{Db, Settings, find_job}
use rubigram.Worker.Invariant.{IsSound, JobAdvances, JobsAdvance}
use rubigram.Worker.Steps.{Reach, Reach-Fine}

-- No order was taken yet; the accounts and everything else about them are free.
abbrev pub IsFresh : Db → Type 0
IsFresh db = (db.jobs ≡ []) × (db.items ≡ [])

fresh-IsSound : (db : Db) → IsFresh db → IsSound db
fresh-IsSound db (no_jobs, no_items) = record {
  jobs = rw no_jobs tt;
  unique_job = λ k. rw no_jobs (omega arith);
  unique_key = λ key. rw no_jobs (omega arith);
  fresh_job = λ k le. rw no_jobs refl;
  fresh = λ k le. rw no_items refl;
  unique = λ k. rw no_items (omega arith);
  fresh_item = λ k le. rw no_items refl;
}

advance-find :
    (id : ℕ) (js ks : List Job) (j : Job)
    → JobsAdvance js ks
    → find? (λ k. k.id == id) js ≡ some j
    → (k : Job) × (find? (λ k. k.id == id) ks ≡ some k) × JobAdvances j k
advance-find id [] ks j h e = absurd (cc)
advance-find id (i ∷ js) [] j h e = elim h [ ]
advance-find id (i ∷ js) (k ∷ ks) j (h, hs) e = elim (Bool-cases (i.id == id)) [
  | inl same ↦ (k, rw (h.order.id, same) refl, subst (λ x. JobAdvances x k) (ground arith) h)
  | inr other ↦ rw (h.order.id, other) (advance-find id js ks j hs (rw other at e))
]

module _ (s : Settings) where
  -- From tables without orders, in every state that requests, tasks and recoveries reach, in any
  -- interleaving of their transactions and with accounts saved and deleted meanwhile: no job has
  -- more items than its accepted counter says, no two jobs have the same idempotency key, and ids of
  -- jobs and of items are unique.
  pub reachable-IsSound : {a b : Db} → IsFresh a → Reach s a b → IsSound b
  reachable-IsSound {a} h r = (Reach-Fine s (fresh-IsSound a h) r).sound

  -- Take a job of a state that was reached. In every later state a job with its id is found, with
  -- the same key, action, target, requested and total count, and no smaller accepted count; if it
  -- was COMPLETED, PARTIAL or FAIL, it still has that status.
  pub reachable-job_stays :
      {a b c : Db} (id : ℕ) (j : Job)
      → IsFresh a
      → Reach s a b
      → Reach s b c
      → find_job id b ≡ some j
      → (k : Job) × (find_job id c ≡ some k) × JobAdvances j k
  reachable-job_stays {a} {b} {c} id j h r t e =
      advance-find id b.jobs c.jobs j (Reach-Fine s (reachable-IsSound h r) t).advance e
