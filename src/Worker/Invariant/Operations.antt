-- ===== src/Worker/Invariant/Operations.antt =====
-- The operations of jobs.py and items.py, seen as fine changes.
use mathlib.Core.Path.{subst}
use rubigram.Base.{
  ◌==◌, if◌then◌else◌, ==_iff, Option-cases, any, find?-holds, ℕ, ◌≡◌, refl, sym, inl, inr, Bool,
  true, false, not, ◌&&◌, some, List, [], ◌∷◌, arith,
}
use rubigram.Worker.Model.{join, leave, Account, Job, same_action}
use rubigram.Worker.Db.{retry_slot_fill_in, Db, Settings, find_job, enqueue, is_in_flight}
use rubigram.Worker.Jobs.{
  new_items, refresh_job_counts, Refill, deferred, refilled, missing_count, used_accounts,
  potential_accounts, is_young, add_replacements, wait_or_stop, is_refillable, refill_accounts,
  refill_with, refill_job, enqueue_replacement_items_if_needed, after_refill, finalize_job_if_done,
}
use rubigram.Worker.Invariant.Sound.{IsSound}
use rubigram.Worker.Invariant.Effects.{enqueue-Calm, refresh_job_counts-Calm}
use rubigram.Worker.Invariant.Changes.{is_final, Fine, Fine-Calm, Fine-refl, Fine-trans}
use rubigram.Worker.Invariant.Settling.{Fine-if, settle_job-Fine}
use rubigram.Worker.Invariant.Adding.{add_replacements-Fine}

-- A refill is a fine change, and leaves the tables alone when it found nothing to do.
abbrev RefillFine : Db → Refill × Db → Type 0
RefillFine db (deferred, db') = Fine db db'
RefillFine db (refilled [], db') = db' ≡ db
RefillFine db (refilled (i ∷ ids), db') = Fine db db'

RefillFine-if :
    (db : Db) (x y : Refill × Db) (b : Bool)
    → (b ≡ true → RefillFine db x)
    → RefillFine db y
    → RefillFine db (if b then x else y)
RefillFine-if db x y true h g = h refl
RefillFine-if db x y false h g = g

module _ (s : Settings) (now : ℕ) (j : Job) (db : Db) (h : IsSound db) where
  wait_or_stop-Fine : RefillFine db (wait_or_stop s now j db)
  unfolding wait_or_stop
  wait_or_stop-Fine =
      RefillFine-if db (refilled [], db) waiting (potential_accounts j (used_accounts j db) db == 0)
        (λ t. refl)
        (RefillFine-if db (deferred, enqueue (retry_slot_fill_in j.id 90 ∷ []) db) (refilled [], db)
          (is_young s now j) (λ t. Fine-Calm h (enqueue-Calm (retry_slot_fill_in j.id 90 ∷ []) db))
          refl)
    where
      waiting : Refill × Db
      waiting =
          if is_young s now j
          then (deferred, enqueue (retry_slot_fill_in j.id 90 ∷ []) db)
          else (refilled [], db)

  refill_with-Fine :
      (accounts : List Account)
      → find_job j.id db ≡ some j
      → is_final j.status ≡ false
      → RefillFine db (refill_with s now j accounts db)
  unfolding refill_with add_replacements new_items
  refill_with-Fine (a ∷ rest) e live = add_replacements-Fine now j.id (a ∷ rest) j db e live h
  refill_with-Fine [] e live =
      RefillFine-if db (wait_or_stop s now j db) (refilled [], db) (same_action j.action join)
        (λ t. wait_or_stop-Fine) refl

refill_found-Fine :
    (s : Settings) (locked : ℕ → Bool) (now : ℕ) (j : Job) (db : Db)
    → IsSound db
    → find_job j.id db ≡ some j
    → RefillFine db (
        if is_refillable j.status && not (same_action j.action leave)
        then refill_job s locked now j db
        else (refilled [], db))
unfolding refill_job
refill_found-Fine s locked now j db h e =
    RefillFine-if db (refill_job s locked now j db) (refilled [], db)
      (is_refillable j.status && not (same_action j.action leave))
      (λ t.
        RefillFine-if db (refilled [], db)
          (refill_with s now j (refill_accounts s locked now j db) db) (missing_count j db == 0)
          (λ z. refl)
          (refill_with-Fine s now j db h (refill_accounts s locked now j db) e (ground arith)))
      refl

refill-Fine :
    (s : Settings) (locked : ℕ → Bool) (now id : ℕ) (db : Db)
    → IsSound db
    → RefillFine db (enqueue_replacement_items_if_needed s locked now id db)
unfolding enqueue_replacement_items_if_needed refill_job
refill-Fine s locked now id db h = elim (Option-cases (find_job id db)) [
  | inl e ↦ rw (e, enqueue_replacement_items_if_needed) refl
  | inr (j, e) ↦
      rw (e, enqueue_replacement_items_if_needed)
        (refill_found-Fine s locked now j db h (
          subst (λ n. find_job n db ≡ some j)
            (sym ((==_iff j.id id).0 (find?-holds (λ k. k.id == id) db.jobs j e))) e))
]

RefillFine-Fine : (db : Db) (x : Refill × Db) → IsSound db → RefillFine db x → Fine db x.1
RefillFine-Fine db (deferred, db') h f = f
RefillFine-Fine db (refilled [], db') h e = rw e (Fine-refl h)
RefillFine-Fine db (refilled (i ∷ ids), db') h f = f

-- Refilling a job, at any time.
pub refill_any-Fine :
    (s : Settings) (locked : ℕ → Bool) (now id : ℕ) (db : Db)
    → IsSound db
    → Fine db (enqueue_replacement_items_if_needed s locked now id db).1
refill_any-Fine s locked now id db h = RefillFine-Fine db _ h (refill-Fine s locked now id db h)

after_refill-Fine :
    (now id : ℕ) (db : Db) (r : Refill × Db)
    → IsSound db
    → RefillFine db r
    → Fine db (after_refill now id r)
unfolding after_refill
after_refill-Fine now id db (deferred, db') h f = f
after_refill-Fine now id db (refilled [], db') h e = rw e (settle_job-Fine now id db h)
after_refill-Fine now id db (refilled (i ∷ ids), db') h f =
    Fine-trans f (λ h'. Fine-Calm h' (enqueue-Calm _ db'))

-- Finalizing a job is a fine change.
pub finalize-Fine :
    (s : Settings) (locked : ℕ → Bool) (now id : ℕ) (db : Db)
    → IsSound db
    → Fine db (finalize_job_if_done s locked now id db)
unfolding finalize_job_if_done
finalize-Fine s locked now id db h =
    Fine-if (any (is_in_flight id) db.items) (λ t. Fine-refl h)
      (λ e. Fine-trans (Fine-Calm h (refresh_job_counts-Calm now id db)) (λ h'.
        after_refill-Fine now id (refresh_job_counts now id db) _ h'
          (refill-Fine s locked now id (refresh_job_counts now id db) h')))
