-- ===== src/Worker/Invariant/Sound.antt =====
-- The invariant of the tables, and that calm changes and changes of job rows keep it.
use rubigram.Base.{String, str_eq, ◌==◌, count, All, ℕ, ◌≤◌, ◌≡◌, refl, Bool, List, [], ◌∷◌, arith}
use rubigram.Worker.Model.{Job, Item}
use rubigram.Worker.Db.{Db}
use rubigram.Worker.Invariant.Kept.{JobsKept, of_job, has_id, Calm}

-- A job has no more items than it has accepted accounts.
abbrev pub JobSound : List Item → Job → Type 0
JobSound items j = count (of_job j.id) items ≤ j.accepted_count

abbrev pub is_job : ℕ → Job → Bool
is_job id j = j.id == id

abbrev pub has_key : String → Job → Bool
has_key key j = str_eq j.idempotency_key key

pub record IsSound (db : Db) : Type 0 where
  pub jobs : All (JobSound db.items) db.jobs
  pub unique_job : (k : ℕ) → count (is_job k) db.jobs ≤ 1
  pub unique_key : (key : String) → count (has_key key) db.jobs ≤ 1
  pub fresh_job : (k : ℕ) → db.next_job_id ≤ k → count (is_job k) db.jobs ≡ 0
  pub fresh : (k : ℕ) → db.next_job_id ≤ k → count (of_job k) db.items ≡ 0
  pub unique : (k : ℕ) → count (has_id k) db.items ≤ 1
  pub fresh_item : (k : ℕ) → db.next_item_id ≤ k → count (has_id k) db.items ≡ 0

JobsSound-kept :
    (items items' : List Item) (js ks : List Job)
    → JobsKept js ks
    → ((k : ℕ) → count (of_job k) items' ≤ count (of_job k) items)
    → All (JobSound items) js
    → All (JobSound items') ks
JobsSound-kept items items' [] [] kept owned h = tt
JobsSound-kept items items' (j ∷ js) (k ∷ ks) (kept, rest) owned (le, h) = (
  rw kept.order.id (omega (arith, kept.accepted, owned j.id, le)),
  JobsSound-kept items items' js ks rest owned h,
)
JobsSound-kept items items' [] (k ∷ ks) kept owned h = elim kept [ ]
JobsSound-kept items items' (j ∷ js) [] kept owned h = elim kept [ ]

count-kept : (k : ℕ) (js ks : List Job) → JobsKept js ks → count (is_job k) ks ≡ count (is_job k) js
count-kept k [] [] h = refl
count-kept k (i ∷ js) (j ∷ ks) (h, hs) = ground (arith, h.order.id, count-kept k js ks hs)
count-kept k [] (j ∷ ks) h = elim h [ ]
count-kept k (i ∷ js) [] h = elim h [ ]

key-kept :
    (key : String) (js ks : List Job)
    → JobsKept js ks
    → count (has_key key) ks ≡ count (has_key key) js
key-kept key [] [] h = refl
key-kept key (i ∷ js) (j ∷ ks) (h, hs) = ground (arith, h.order.key, key-kept key js ks hs)
key-kept key [] (j ∷ ks) h = elim h [ ]
key-kept key (i ∷ js) [] h = elim h [ ]

pub Calm-IsSound : {db db' : Db} → Calm db db' → IsSound db → IsSound db'
Calm-IsSound {db} {db'} c h = record {
  jobs = JobsSound-kept db.items db'.items db.jobs db'.jobs c.jobs c.owned h.jobs;
  unique_job = λ k. omega (arith, count-kept k db.jobs db'.jobs c.jobs, h.unique_job k);
  unique_key = λ key. omega (arith, key-kept key db.jobs db'.jobs c.jobs, h.unique_key key);
  fresh_job = λ k le. omega (arith, c.next, count-kept k db.jobs db'.jobs c.jobs, h.fresh_job k);
  fresh = λ k le. omega (arith, c.next, c.owned k, h.fresh k);
  unique = λ k. omega (arith, c.named k, h.unique k);
  fresh_item = λ k le. omega (arith, c.next_item, c.named k, h.fresh_item k);
}
