-- ===== src/Worker/Steps.antt =====
-- The worker's operations as steps on its tables, in any order, and the states that they reach: a task
-- that no other interrupts, or one transaction among those of others.
use rubigram.Base.{ℕ, String, Bool, arith}
use rubigram.Worker.Db.{Db, Settings}
use rubigram.Worker.Rubika.{Runner}
use rubigram.Worker.Jobs.{Payload, create_membership_job, finalize_job_if_done}
use rubigram.Worker.Items.{process_membership_job_item}
use rubigram.Worker.Recovery.{
  recover_stale_running_items, recover_stale_pending_items, recover_stale_inprogress_jobs,
  enqueue_due_auto_leaves, process_auto_leave_schedule,
}
use rubigram.Worker.Transactions.{Transaction, Transaction-Fine}
use rubigram.Worker.Nonces.{remember_nonce}
use rubigram.Worker.Invariant.{
  Calm, Calm-same, IsSound, Fine, Fine-Calm, Fine-refl, Fine-trans, finalize-Fine, process-Fine,
  create-Fine, recover_running-Calm, recover_pending-Calm, enqueue_due-Calm, finalize_all-Fine,
  process_leave-Fine,
}

module _ (s : Settings) where
  -- One request of the panel or one task (tasks.py) without interruption, or a single transaction,
  -- with which tasks interleave; its time, the rows that other transactions hold, what it has read
  -- before and what Rubika answers are free.
  pub data Step : Db → Db → Type 0 where
    create :
        (locked : ℕ → Bool) (now : ℕ) (p : Payload) (db : Db)
        → Step db (create_membership_job s locked now p db).1
    nonce : (n : String) (db : Db) → Step db (remember_nonce n db).1
    process :
        (r : Runner) (locked : ℕ → Bool) (now id : ℕ) (db : Db)
        → Step db (process_membership_job_item s r locked now id db)
    slot_fill :
        (locked : ℕ → Bool) (now id : ℕ) (db : Db)
        → Step db (finalize_job_if_done s locked now id db)
    recover_running : (now : ℕ) (db : Db) → Step db (recover_stale_running_items now db)
    recover_pending : (now : ℕ) (db : Db) → Step db (recover_stale_pending_items now db)
    recover_jobs :
        (locked : ℕ → Bool) (now : ℕ) (db : Db)
        → Step db (recover_stale_inprogress_jobs s locked now db)
    due_leaves : (now limit : ℕ) (db : Db) → Step db (enqueue_due_auto_leaves now limit db)
    one : {a b : Db} → Transaction s a b → Step a b
    leave_one :
        (r : Runner) (now id : ℕ) (db : Db) → Step db (process_auto_leave_schedule r now id db)

  pub data Reach (a : Db) : Db → Type 0 where
    here : Reach a a
    next : {b c : Db} → Reach a b → Step b c → Reach a c

  nonce-Calm : (n : String) (db : Db) → Calm db (remember_nonce n db).1
  unfolding remember_nonce
  nonce-Calm n db = Calm-same (ground arith) (ground arith) (ground arith) (ground arith)

  Step-Fine : {a b : Db} → Step a b → IsSound a → Fine a b
  unfolding recover_stale_inprogress_jobs
  Step-Fine (create locked now p db) h = create-Fine s locked now p db h
  Step-Fine (nonce n db) h = Fine-Calm h (nonce-Calm n db)
  Step-Fine (process r locked now id db) h = process-Fine s r locked now id db h
  Step-Fine (slot_fill locked now id db) h = finalize-Fine s locked now id db h
  Step-Fine (recover_running now db) h = Fine-Calm h (recover_running-Calm now db)
  Step-Fine (recover_pending now db) h = Fine-Calm h (recover_pending-Calm now db)
  Step-Fine (recover_jobs locked now db) h = finalize_all-Fine s locked now _ db h
  Step-Fine (due_leaves now limit db) h = Fine-Calm h (enqueue_due-Calm now limit db)
  Step-Fine (one t) h = Transaction-Fine s t h
  Step-Fine (leave_one r now id db) h = process_leave-Fine r now id db h

  pub Reach-Fine : {a b : Db} → IsSound a → Reach a b → Fine a b
  Reach-Fine h here = Fine-refl h
  Reach-Fine h (next r t) = Fine-trans (Reach-Fine h r) (Step-Fine t)
