-- ===== src/Worker/Invariant/Recovered.antt =====
-- The periodic work of recovery.py is fine.
use rubigram.Base.{
  ◌==◌, if◌then◌else◌, Option-cases, any, ℕ, ◌≡◌, refl, inl, inr, Bool, ◌&&◌, some, List, [], ◌∷◌,
  arith,
}
use rubigram.Worker.Model.{Job}
use rubigram.Worker.Db.{send_callback, Db, Settings, find_job, update_job, enqueue}
use rubigram.Worker.Recovery.{
  is_stale_running, to_pending, recover_stale_running_items, recover_stale_pending_items,
  finalize_all, is_open_leave, enqueue_due_auto_leaves, completed_job, is_active_status,
  complete_active_job_if_auto_leaves_done,
}
use rubigram.Worker.Invariant.Kept.{Calm-items, Calm, Calm-trans, Calm-same}
use rubigram.Worker.Invariant.Sound.{IsSound}
use rubigram.Worker.Invariant.Effects.{enqueue-Calm}
use rubigram.Worker.Invariant.Changes.{Fine, Fine-Calm, Fine-refl, Fine-trans, Fine-update_job}
use rubigram.Worker.Invariant.Settling.{Fine-if}
use rubigram.Worker.Invariant.Operations.{finalize-Fine}

pub recover_running-Calm : (now : ℕ) (db : Db) → Calm db (recover_stale_running_items now db)
unfolding recover_stale_running_items
recover_running-Calm now db =
    Calm-trans (Calm-items (is_stale_running now) to_pending db (λ i. (refl, refl)))
      (Calm-same refl refl refl refl)

pub recover_pending-Calm : (now : ℕ) (db : Db) → Calm db (recover_stale_pending_items now db)
unfolding recover_stale_pending_items
recover_pending-Calm now db = enqueue-Calm _ db

pub enqueue_due-Calm : (now limit : ℕ) (db : Db) → Calm db (enqueue_due_auto_leaves now limit db)
unfolding enqueue_due_auto_leaves
enqueue_due-Calm now limit db = enqueue-Calm _ db

pub finalize_all-Fine :
    (s : Settings) (locked : ℕ → Bool) (now : ℕ) (js : List Job) (db : Db)
    → IsSound db
    → Fine db (finalize_all s locked now js db)
unfolding finalize_all
finalize_all-Fine s locked now [] db h = Fine-refl h
finalize_all-Fine s locked now (j ∷ rest) db h =
    Fine-trans (finalize-Fine s locked now j.id db h)
      (λ h'. finalize_all-Fine s locked now rest _ h')

complete_found-Fine :
    (now id : ℕ) (j : Job) (db : Db)
    → IsSound db
    → find_job id db ≡ some j
    → Fine db (
        if is_active_status j.status
        then enqueue
            (send_callback id "order_completed" ∷ [])
            (update_job id (completed_job now) db)
        else db)
complete_found-Fine now id j db h e =
    Fine-if (is_active_status j.status)
      (λ t.
        Fine-trans
          (Fine-update_job id (completed_job now) j db e (λ k. (ground arith, refl))
            (λ f. ground arith) h)
          (λ h'. Fine-Calm h' (enqueue-Calm _ (update_job id (completed_job now) db))))
      (λ t. Fine-refl h)

pub complete_active-Fine :
    (now id : ℕ) (db : Db)
    → IsSound db
    → Fine db (complete_active_job_if_auto_leaves_done now id db)
unfolding complete_active_job_if_auto_leaves_done
complete_active-Fine now id db h =
    Fine-if (any (λ l. l.source_job_id == id && is_open_leave l.status) db.schedules)
      (λ t. Fine-refl h)
      (λ t. elim (Option-cases (find_job id db)) [
        | inl e ↦ rw e (Fine-refl h)
        | inr (j, e) ↦ rw e (complete_found-Fine now id j db h e)
      ])
