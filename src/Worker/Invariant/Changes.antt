-- ===== src/Worker/Invariant/Changes.antt =====
-- A fine change: it keeps the invariant, drops no job, and changes no job that is final.
use mathlib.Core.Path.{subst}
use rubigram.Base.{
  String, str_eq, ◌==◌, if◌then◌else◌, count, All, All-map-fun, update_where, count-update_where_eq,
  All-update_where, found-only, ℕ, ◌≤◌, ◌≡◌, refl, sym, ap, Bool, true, false, some, List, [], ◌∷◌,
  ◌++◌, arith,
}
use rubigram.Worker.Model.{JobStatus, Job}
use rubigram.Worker.Db.{Db, find_job, update_job}
use rubigram.Worker.Invariant.Kept.{SameOrder, JobsKept, Calm, Calm-refl}
use rubigram.Worker.Invariant.Sound.{is_job, has_key, IsSound, Calm-IsSound}

-- COMPLETED, PARTIAL and FAIL: the statuses that the panel was told as the end of the order.
abbrev pub is_final : JobStatus → Bool
is_final JobStatus.completed = true
is_final JobStatus.partial = true
is_final JobStatus.fail = true
is_final _ = false

pub record JobAdvances (j k : Job) : Type 0 where
  pub order : SameOrder j k
  pub accepted : j.accepted_count ≤ k.accepted_count
  pub final : is_final j.status ≡ true → k.status ≡ j.status

-- Row by row; new jobs stand at the end.
abbrev pub JobsAdvance : List Job → List Job → Type 0
JobsAdvance [] ks = Unit
JobsAdvance (j ∷ js) [] = ⊥
JobsAdvance (j ∷ js) (k ∷ ks) = JobAdvances j k × JobsAdvance js ks

pub JobsAdvance-append : (js ks : List Job) → JobsAdvance js (js ++ ks)
JobsAdvance-append [] ks = tt
JobsAdvance-append (j ∷ js) ks = (ground arith, JobsAdvance-append js ks)

JobAdvances-trans : {i j k : Job} → JobAdvances i j → JobAdvances j k → JobAdvances i k
JobAdvances-trans h g = ground arith

JobsAdvance-trans :
    (is js ks : List Job) → JobsAdvance is js → JobsAdvance js ks → JobsAdvance is ks
JobsAdvance-trans [] js ks h g = tt
JobsAdvance-trans (i ∷ is) [] ks h g = elim h [ ]
JobsAdvance-trans (i ∷ is) (j ∷ js) [] h g = elim g [ ]
JobsAdvance-trans (i ∷ is) (j ∷ js) (k ∷ ks) h g =
    (JobAdvances-trans h.0 g.0, JobsAdvance-trans is js ks h.1 g.1)

JobsAdvance-kept : (js ks : List Job) → JobsKept js ks → JobsAdvance js ks
JobsAdvance-kept [] ks h = tt
JobsAdvance-kept (j ∷ js) [] h = elim h [ ]
JobsAdvance-kept (j ∷ js) (k ∷ ks) (h, hs) = (
  record { order = h.order; accepted = omega (arith, h.accepted); final = λ f. h.status },
  JobsAdvance-kept js ks hs,
)

pub JobsAdvance-update_where :
    (p : Job → Bool) (f : Job → Job) (js : List Job)
    → All (λ j. p j ≡ true → JobAdvances j (f j)) js
    → JobsAdvance js (update_where p f js)
JobsAdvance-update_where p f [] h = tt
JobsAdvance-update_where p f (j ∷ js) h = (here (p j) h.0, JobsAdvance-update_where p f js h.1)
  where
    here : (b : Bool) → (b ≡ true → JobAdvances j (f j)) → JobAdvances j (if b then f j else j)
    here true g = g refl
    here false g = ground arith

pub record Fine (db db' : Db) : Type 0 where
  pub sound : IsSound db'
  pub advance : JobsAdvance db.jobs db'.jobs

pub Fine-Calm : {db db' : Db} → IsSound db → Calm db db' → Fine db db'
Fine-Calm {db} {db'} h c = record {
  sound = Calm-IsSound c h;
  advance = JobsAdvance-kept db.jobs db'.jobs c.jobs;
}

pub Fine-refl : {db : Db} → IsSound db → Fine db db
Fine-refl {db} h = Fine-Calm h (Calm-refl db)

-- The second change starts from the invariant that the first has kept.
pub Fine-trans : {a b c : Db} → Fine a b → (IsSound b → Fine b c) → Fine a c
Fine-trans {a} {b} {c} h g =
    let k : Fine b c = g h.sound in
    record { sound = k.sound; advance = JobsAdvance-trans a.jobs b.jobs c.jobs h.advance k.advance }

-- A change of the job that a lookup found: it changes the status of none that is final.
pub Fine-update_job :
    (id : ℕ) (f : Job → Job) (j : Job) (db : Db)
    → find_job id db ≡ some j
    → ((k : Job) → SameOrder k (f k) × ((f k).accepted_count ≡ k.accepted_count))
    → (is_final j.status ≡ true → (f j).status ≡ j.status)
    → IsSound db
    → Fine db (update_job id f db)
Fine-update_job id f j db e same final h =
    let only = found-only (is_job id) db.jobs j (h.unique_job id) e in
    record {
      sound = record {
        jobs =
            All-update_where (is_job id) f db.jobs
              (λ k o p. rw (same k).0.id (omega (arith, (same k).1, o))) (λ k o p. o) h.jobs;
        unique_job = λ k. omega (arith, renamed k, h.unique_job k);
        unique_key = λ key. omega (arith, same_keys key, h.unique_key key);
        fresh_job = λ k le. omega (arith, renamed k, h.fresh_job k);
        fresh = h.fresh;
        unique = h.unique;
        fresh_item = h.fresh_item;
      };
      advance = JobsAdvance-update_where (is_job id) f db.jobs (
          All-map-fun
            (λ k o p. record {
              order = (same k).0;
              accepted = omega (arith, (same k).1);
              final =
                  subst (λ x. is_final x.status ≡ true → (f x).status ≡ x.status) (sym (o p)) final;
            })
            db.jobs only);
    }
  where
    same_keys :
        (key : String)
        → count (has_key key) (update_where (is_job id) f db.jobs) ≡ count (has_key key) db.jobs
    same_keys key =
        count-update_where_eq (has_key key) (is_job id) f db.jobs
          (λ x. ap (λ (n : String). str_eq n key) (same x).0.key)

    renamed :
        (k : ℕ) → count (is_job k) (update_where (is_job id) f db.jobs) ≡ count (is_job k) db.jobs
    renamed k =
        count-update_where_eq (is_job k) (is_job id) f db.jobs
          (λ x. ap (λ (n : ℕ). n == k) (same x).0.id)
