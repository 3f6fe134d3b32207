-- ===== src/Worker/Invariant/Kept.antt =====
-- A calm change: it adds no job and no item, and keeps each job's status and order.
use rubigram.Base.{
  ◌==◌, if◌then◌else◌, count, update_where, count-update_where_eq, ℕ, ◌≤◌, ◌≡◌, refl, ap, Bool,
  true, false, List, [], ◌∷◌, arith,
}
use rubigram.Worker.Model.{Job, Item}
use rubigram.Worker.Db.{Db}

-- What no operation but the refill changes of a job, besides its status.
pub record SameOrder (j k : Job) : Type 0 where
  pub id : k.id ≡ j.id
  pub key : k.idempotency_key ≡ j.idempotency_key
  pub action : k.action ≡ j.action
  pub target : k.target ≡ j.target
  pub target_key : k.target_key ≡ j.target_key
  pub requested : k.requested_count ≡ j.requested_count
  pub total : k.total_count ≡ j.total_count

pub record JobKept (j k : Job) : Type 0 where
  pub order : SameOrder j k
  pub accepted : k.accepted_count ≡ j.accepted_count
  pub status : k.status ≡ j.status

abbrev pub JobsKept : List Job → List Job → Type 0
JobsKept [] [] = Unit
JobsKept (j ∷ js) (k ∷ ks) = JobKept j k × JobsKept js ks
JobsKept _ _ = ⊥

pub JobKept-refl : (j : Job) → JobKept j j
JobKept-refl j = ground arith

JobKept-trans : {i j k : Job} → JobKept i j → JobKept j k → JobKept i k
JobKept-trans h g = ground arith

pub JobsKept-refl : (js : List Job) → JobsKept js js
JobsKept-refl [] = tt
JobsKept-refl (j ∷ js) = (JobKept-refl j, JobsKept-refl js)

pub JobsKept-trans : (is js ks : List Job) → JobsKept is js → JobsKept js ks → JobsKept is ks
JobsKept-trans [] [] [] h g = tt
JobsKept-trans (i ∷ is) (j ∷ js) (k ∷ ks) h g =
    (JobKept-trans h.0 g.0, JobsKept-trans is js ks h.1 g.1)
JobsKept-trans [] [] (k ∷ ks) h g = elim g [ ]
JobsKept-trans [] (j ∷ js) ks h g = elim h [ ]
JobsKept-trans (i ∷ is) [] ks h g = elim h [ ]
JobsKept-trans (i ∷ is) (j ∷ js) [] h g = elim g [ ]

pub JobsKept-update_where :
    (p : Job → Bool) (f : Job → Job) (js : List Job)
    → ((j : Job) → JobKept j (f j))
    → JobsKept js (update_where p f js)
JobsKept-update_where p f [] h = tt
JobsKept-update_where p f (j ∷ js) h = (here (p j), JobsKept-update_where p f js h)
  where
    here : (b : Bool) → JobKept j (if b then f j else j)
    here true = h j
    here false = JobKept-refl j

abbrev pub of_job : ℕ → Item → Bool
of_job id i = i.job_id == id

abbrev pub has_id : ℕ → Item → Bool
has_id id i = i.id == id

pub record Calm (db db' : Db) : Type 0 where
  pub jobs : JobsKept db.jobs db'.jobs
  pub owned : (k : ℕ) → count (of_job k) db'.items ≤ count (of_job k) db.items
  pub named : (k : ℕ) → count (has_id k) db'.items ≤ count (has_id k) db.items
  pub next : db'.next_job_id ≡ db.next_job_id
  pub next_item : db'.next_item_id ≡ db.next_item_id

pub Calm-trans : {a b c : Db} → Calm a b → Calm b c → Calm a c
Calm-trans {a} {b} {c} h g = record {
  jobs = JobsKept-trans a.jobs b.jobs c.jobs h.jobs g.jobs;
  owned = λ k. omega (arith, h.owned k, g.owned k);
  named = λ k. omega (arith, h.named k, g.named k);
  next = omega (arith, h.next, g.next);
  next_item = omega (arith, h.next_item, g.next_item);
}

-- A change of other tables.
pub Calm-same :
    {db db' : Db}
    → db'.jobs ≡ db.jobs
    → db'.items ≡ db.items
    → db'.next_job_id ≡ db.next_job_id
    → db'.next_item_id ≡ db.next_item_id
    → Calm db db'
Calm-same {db} {db'} hj hi hn hm = record {
  jobs = rw hj (JobsKept-refl db.jobs);
  owned = λ k. rw hi (omega arith);
  named = λ k. rw hi (omega arith);
  next = hn;
  next_item = hm;
}

pub Calm-refl : (db : Db) → Calm db db
Calm-refl db = Calm-same refl refl refl refl

-- A change of the jobs' rows that keeps each job.
pub Calm-jobs :
    (p : Job → Bool) (f : Job → Job) (db : Db)
    → ((j : Job) → JobKept j (f j))
    → Calm db (record db { jobs = update_where p f db.jobs })
Calm-jobs p f db h = record {
  jobs = JobsKept-update_where p f db.jobs h;
  owned = λ k. omega arith;
  named = λ k. omega arith;
  next = refl;
  next_item = refl;
}

-- A change of the items' rows that moves none to another job.
pub Calm-items :
    (p : Item → Bool) (f : Item → Item) (db : Db)
    → ((i : Item) → ((f i).job_id ≡ i.job_id) × ((f i).id ≡ i.id))
    → Calm db (record db { items = update_where p f db.items })
Calm-items p f db same = record {
  jobs = JobsKept-refl db.jobs;
  owned = λ k. omega (
    arith,
    count-update_where_eq (of_job k) p f db.items (λ i. ap (λ (n : ℕ). n == k) (same i).0),
  );
  named = λ k. omega (
    arith,
    count-update_where_eq (has_id k) p f db.items (λ i. ap (λ (n : ℕ). n == k) (same i).1),
  );
  next = refl;
  next_item = refl;
}

pub Calm-if : {db x y : Db} (b : Bool) → Calm db x → Calm db y → Calm db (if b then x else y)
Calm-if true hx hy = hx
Calm-if false hx hy = hy
