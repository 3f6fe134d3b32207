-- ===== src/Worker/Counted.antt =====
-- `finish_item` and the counters of the job.
use rubigram.Base.{
  ◌==◌, find?-update_where, find?-update_other, ℕ, suc, String, ◌≡◌, refl, ap, ◌≢◌, true, false,
  some, arith,
}
use rubigram.Worker.Model.{ItemStatus, Job, processed_count, Item, is_reserved}
use rubigram.Worker.Db.{Db, find_job}
use rubigram.Worker.Items.{bump_count, finish_item}

counted : ℕ → ItemStatus → Job → Job
counted now st j = record (bump_count st j) { updated_at = now }

counted-id : (now : ℕ) (st : ItemStatus) (j : Job) → (counted now st j).id ≡ j.id
unfolding counted bump_count
counted-id now ItemStatus.success j = refl
counted-id now ItemStatus.failed j = refl
counted-id now ItemStatus.skipped j = refl
counted-id now ItemStatus.pending j = refl
counted-id now ItemStatus.running j = refl

counted-processed :
    (now : ℕ) (st : ItemStatus) (j : Job)
    → is_reserved st ≡ false
    → processed_count (counted now st j) ≡ suc (processed_count j)
unfolding counted bump_count processed_count
counted-processed now ItemStatus.success j e = omega arith
counted-processed now ItemStatus.failed j e = omega arith
counted-processed now ItemStatus.skipped j e = omega arith
counted-processed now ItemStatus.pending j e = absurd (cc)
counted-processed now ItemStatus.running j e = absurd (cc)

-- Finishing an item as SUCCESS, FAILED or SKIPPED raises its job's processed count by one and
-- leaves every other job as it was.
pub finish_item-counts :
    (now : ℕ) (i : Item) (st : ItemStatus) (title message : String) (j : Job) (db : Db)
    → find_job i.job_id db ≡ some j
    → is_reserved st ≡ false
    → ((k : Job) × (find_job i.job_id (finish_item now i st title message db) ≡ some k)
        × (processed_count k ≡ suc (processed_count j)))
      × ((id : ℕ)
          → id ≢ i.job_id
          → find_job id (finish_item now i st title message db) ≡ find_job id db)
unfolding finish_item counted
finish_item-counts now i st title message j db e ended =
    rw (ended, finish_item)
      (
        (
          counted now st j,
          find?-update_where (λ (k : Job). k.id == i.job_id) (counted now st) db.jobs j
              (λ y. ap (λ n. n == i.job_id) (counted-id now st y)) e,
          counted-processed now st j ended,
        ),
        λ id other.
            find?-update_other (λ (k : Job). k.id == id) (λ k. k.id == i.job_id) (counted now st)
              db.jobs (λ y t. away id other y t),
      )
  where
    away :
        (id : ℕ)
        → id ≢ i.job_id
        → (y : Job) → (y.id == i.job_id) ≡ true
        → ((y.id == id) ≡ false) × (((counted now st y).id == id) ≡ false)
    away id other y t = (differs y.id t, rw (counted-id now st y) (differs y.id t))
      where
        differs : (n : ℕ) → (n == i.job_id) ≡ true → (n == id) ≡ false
        differs n h = ground (arith, other)
