-- ===== src/Worker/Invariant/Adding.antt =====
-- New items: an order that is placed, and a refill, are fine changes.
use mathlib.Core.Path.{subst}
use rubigram.Worker.Invariant.Changes.{is_final, JobsAdvance-append, JobsAdvance-update_where, Fine}
use native.Mathlib.Decide.{ℕ_discrete}
use rubigram.Base.{
  String, find?, none, eq_iff, Bool-cases, inl, inr, ==_iff, length, count, All, All-append,
  All-map-fun, All-both, update_where, count-append, count-update_where_eq, All-update_where,
  found-only, count-found, All-none, ℕ, ◌+◌, ◌≤◌, ◌≡◌, refl, ◌≢◌, false, some, List, [], ◌∷◌, ◌++◌,
  arith,
}
use rubigram.Worker.Model.{Account, Job, Item}
use rubigram.Worker.Db.{Db, Settings, find_job}
use rubigram.Worker.Jobs.{
  new_items, add_items, Order, new_job, find_key, insert_order, reopened, add_replacements,
}
use rubigram.Worker.Invariant.NewItems.{
  new_items-owned, new_items-others, unique_append, fresh_append, fresh_item_append,
}
use rubigram.Worker.Invariant.Kept.{SameOrder, of_job}
use rubigram.Worker.Invariant.Sound.{JobSound, is_job, has_key, IsSound}

-- The rows of a job to which items are appended, given its new accepted counter.
JobSound-extended :
    (now id next : ℕ) (accounts : List Account) (items : List Item) (j k : Job)
    → JobSound items j
    → k.id ≡ j.id
    → (j.id ≡ id → k.accepted_count ≡ j.accepted_count + length accounts)
    → (j.id ≢ id → k.accepted_count ≡ j.accepted_count)
    → JobSound (items ++ new_items now id next accounts) k
JobSound-extended now id next accounts items j k owned named mine other =
    elim (ℕ_discrete j.id id) [
      | yes e ↦
          rw (named, e, count-append (of_job id) items (new_items now id next accounts))
            (omega (arith, mine e, rw e at owned, new_items-owned now id next accounts))
      | no ne ↦
          rw (named, count-append (of_job j.id) items (new_items now id next accounts))
            (omega (arith, other ne, owned, new_items-others now id j.id next accounts ne))
    ]

-- A job table changed row by row by `f`, whose items grow by those of the job `id`.
extended :
    (now id : ℕ) (f : Job → Job) (accounts : List Account) (db : Db)
    → ((k : Job) → SameOrder k (f k) × ((f k).accepted_count ≡ k.accepted_count + length accounts))
    → IsSound db
    → All
        (JobSound (db.items ++ new_items now id db.next_item_id accounts))
        (update_where (is_job id) f db.jobs)
extended now id f accounts db grows h =
    All-update_where (is_job id) f db.jobs
      (λ k o p.
        let named : k.id ≡ id = (==_iff k.id id).0 p in
        JobSound-extended now id db.next_item_id accounts db.items k (f k) o (grows k).0.id
          (λ e. (grows k).1) (λ ne. absurd (ne named)))
      (λ k o p.
        JobSound-extended now id db.next_item_id accounts db.items k k o refl
          (λ e. absurd (ground (arith, e, p))) (λ ne. refl))
      h.jobs

-- Fresh accounts for a job that is not final: its accepted counter grows with its items.
pub add_replacements-Fine :
    (now id : ℕ) (accounts : List Account) (j : Job) (db : Db)
    → find_job id db ≡ some j
    → is_final j.status ≡ false
    → IsSound db
    → Fine db (add_replacements now id accounts db).1
unfolding add_replacements add_items
add_replacements-Fine now id accounts j db e live h =
    let f = reopened now (length accounts) in
    let only = found-only (is_job id) db.jobs j (h.unique_job id) e in
    record {
      sound = record {
        jobs = extended now id f accounts db (λ k. ground arith) h;
        unique_job = λ k. omega (arith, renamed k, h.unique_job k);
        unique_key = λ key. omega (arith, same_keys key, h.unique_key key);
        fresh_job = λ k le. omega (arith, renamed k, h.fresh_job k);
        fresh = λ k le. fresh_append now id k accounts db h le (λ e'. missing (rw e' at le));
        unique = λ k. unique_append now id k accounts db h;
        fresh_item = λ k. fresh_item_append now id k accounts db h;
      };
      advance = JobsAdvance-update_where (is_job id) f db.jobs (
          All-map-fun
            (λ k o p. record {
              order = ground arith;
              accepted = omega arith;
              final = λ fin. ground (arith, o p, live);
            })
            db.jobs only);
    }
  where
    same_keys :
        (key : String)
        → count (has_key key) (update_where (is_job id) (reopened now (length accounts)) db.jobs)
          ≡ count (has_key key) db.jobs
    same_keys key =
        count-update_where_eq (has_key key) (is_job id) (reopened now (length accounts)) db.jobs
          (λ x. refl)

    missing : db.next_job_id ≤ id → ⊥
    missing le = omega (arith, h.fresh_job id le, count-found (is_job id) db.jobs j e)

    renamed :
        (k : ℕ)
        → count (is_job k) (update_where (is_job id) (reopened now (length accounts)) db.jobs)
          ≡ count (is_job k) db.jobs
    renamed k =
        count-update_where_eq (is_job k) (is_job id) (reopened now (length accounts)) db.jobs
          (λ x. refl)

-- The job that `insert_order` writes has accepted all its items.
new_job_sound :
    (s : Settings) (now next : ℕ) (o : Order) (accounts : List Account) (db : Db)
    → IsSound db
    → JobSound
        (db.items ++ new_items now db.next_job_id next accounts)
        (new_job s now db.next_job_id o accounts)
unfolding new_job
new_job_sound s now next o accounts db h = omega (
  arith,
  count-append (of_job db.next_job_id) db.items (new_items now db.next_job_id next accounts),
  new_items-owned now db.next_job_id next accounts,
  h.fresh db.next_job_id (omega arith),
)

no_key : (key : String) (js : List Job) → find? (has_key key) js ≡ none → count (has_key key) js ≡ 0
no_key key [] e = refl
no_key key (j ∷ js) e = elim (Bool-cases (has_key key j)) [
  | inl y ↦ cc
  | inr n ↦ ground (arith, no_key key js (rw n at e))
]

-- A job is added to those of which none has its key.
key_append :
    (key : String) (j : Job) (js : List Job)
    → find? (has_key j.idempotency_key) js ≡ none
    → count (has_key key) js ≤ 1
    → count (has_key key) (js ++ j ∷ []) ≤ 1
key_append key j js e le = elim (Bool-cases (has_key key j)) [
  | inl y ↦
      let same : j.idempotency_key ≡ key = (eq_iff j.idempotency_key key).0 y in
      let gone : count (has_key key) js ≡ 0 =
        subst (λ k. count (has_key k) js ≡ 0) same (no_key j.idempotency_key js e) in
      ground (arith, count-append (has_key key) js (j ∷ []))
  | inr n ↦ ground (arith, count-append (has_key key) js (j ∷ []))
]

-- An order that is placed under a new key: its job and its items stand behind all others.
pub insert_order-Fine :
    (s : Settings) (now : ℕ) (o : Order) (accounts : List Account) (db : Db)
    → find_key o.idempotency_key db ≡ none
    → IsSound db
    → Fine db (insert_order s now o accounts db)
unfolding insert_order add_items new_job
insert_order-Fine s now o accounts db e h =
    let id = db.next_job_id in
    let old : All (λ j. is_job id j ≡ false) db.jobs =
      All-none (is_job id) db.jobs (h.fresh_job id (omega arith)) in
    let job = new_job s now id o accounts in
    record {
      sound = record {
        jobs =
            All-append (JobSound (db.items ++ new_items now id db.next_item_id accounts)) db.jobs
              (job ∷ [])
              (All-map-fun
                (λ k both.
                  JobSound-extended now id db.next_item_id accounts db.items k k both.0 refl
                    (λ e. absurd (ground (arith, e, both.1))) (λ ne. refl))
                db.jobs
                (All-both (JobSound db.items) (λ j. is_job id j ≡ false) db.jobs h.jobs old))
              (new_job_sound s now db.next_item_id o accounts db h, tt);
        unique_job = λ k.
            ground
              (arith, count-append (is_job k) db.jobs (job ∷ []), h.unique_job k, h.fresh_job k);
        unique_key = λ key. key_append key job db.jobs e (h.unique_key key);
        fresh_job =
            λ k le. ground (arith, count-append (is_job k) db.jobs (job ∷ []), h.fresh_job k);
        fresh = λ k le. fresh_append now id k accounts db h (omega arith) (omega arith);
        unique = λ k. unique_append now id k accounts db h;
        fresh_item = λ k. fresh_item_append now id k accounts db h;
      };
      advance = JobsAdvance-append db.jobs (job ∷ []);
    }
