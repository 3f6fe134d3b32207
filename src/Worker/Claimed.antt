-- ===== src/Worker/Claimed.antt =====
-- What a claim that answers `go` leaves in the tables.
use mathlib.Core.Path.{subst}
use rubigram.Base.{
  ◌==◌, ==_iff, ==_self, Bool-cases, any, find?, find?-holds, find?-update_where, find?-some,
  any-append-last, ℕ, ◌+◌, ◌≡◌, refl, sym, ◌∙◌, inl, inr, true, false, Option, none, some, List,
  arith,
}
use rubigram.Worker.Model.{view, ItemStatus, Throttle, Job, Item, same_action}
use rubigram.Worker.Db.{Db, Settings, find_job, find_item}
use rubigram.Worker.Items.{
  Claim, go, is_stale, ensure_throttle, reserve_throttle, wait_seconds, start_item, reset_item,
  pace, start_paced, claim_loaded, claim_row, claim_item_and_reserve_throttle,
}

-- After `go`: the item is RUNNING since now, and its account is reserved unless the job is a view.
abbrev pub IsReservedFor : Settings → ℕ → Item → Job → Db → Type 0
IsReservedFor s now i j db =
    same_action j.action view ≡ false
    → (t : Throttle) × (find? (λ t. t.account_id == i.account_id) db.throttles ≡ some t)
      × (t.next_available_at ≡ some (now + s.action_delay))

unfoldable pub Claimed : Settings → ℕ → ℕ → Item → Job → Db → Claim × Db → Type 0
Claimed s now id i j db (go, db') =
    (k : Item) × (find_item id db' ≡ some k)
    × (k.status ≡ ItemStatus.running)
    × (k.started_at ≡ some now)
    × (k.job_id ≡ i.job_id)
    × (db'.jobs ≡ db.jobs)
    × IsReservedFor s now i j db'
Claimed s now id i j db _ = Unit

find-started :
    (now id : ℕ) (i : Item) (db : Db)
    → find_item id db ≡ some i
    → find_item id (start_item now id db)
      ≡ some (record i {
        status = ItemStatus.running;
        attempts = i.attempts + 1;
        started_at = some now;
      })
unfolding start_item
find-started now id i db e =
    find?-update_where (λ (k : Item). k.id == id) _ db.items i (λ y. refl) e

has_throttle :
    (a : ℕ) (db : Db) → any (λ t. t.account_id == a) (ensure_throttle a db).throttles ≡ true
unfolding ensure_throttle
has_throttle a db = elim (Bool-cases (any (λ t. t.account_id == a) db.throttles)) [
  | inl e ↦ rw (e, ensure_throttle) e
  | inr e ↦ rw (e, ensure_throttle) (any-append-last _ db.throttles _ (==_self a))
]

reserved :
    (s : Settings) (now a : ℕ) (db : Db)
    → (t : Throttle) × (find?
          (λ t. t.account_id == a)
          (reserve_throttle s now a (ensure_throttle a db)).throttles
        ≡ some t)
      × (t.next_available_at ≡ some (now + s.action_delay))
unfolding reserve_throttle
reserved s now a db =
    let found =
      find?-some (λ (t : Throttle). t.account_id == a) (ensure_throttle a db).throttles
        (has_throttle a db) in
    (
      _,
      find?-update_where (λ (t : Throttle). t.account_id == a) _ (ensure_throttle a db).throttles
          found.0 (λ y. refl) found.1,
      refl,
    )

ensure-same :
    (a : ℕ) (db : Db)
    → ((ensure_throttle a db).items ≡ db.items) × ((ensure_throttle a db).jobs ≡ db.jobs)
unfolding ensure_throttle
ensure-same a db = (ground arith, ground arith)

module _ (s : Settings) (now id : ℕ) (i : Item) (j : Job) (db0 : Db) where
  start-Claimed :
      (db : Db) (k : Item)
      → db.jobs ≡ db0.jobs
      → find_item id db ≡ some k
      → k.job_id ≡ i.job_id
      → IsReservedFor s now i j db
      → Claimed s now id i j db0 (go, start_item now id db)
  unfolding start_item Claimed
  start-Claimed db k same e owned r = (_, find-started now id k db e, refl, refl, owned, same, r)

  pace-Claimed :
      (wait : Option ℕ) (db : Db) (k : Item)
      → i.id ≡ id
      → db.jobs ≡ db0.jobs
      → find_item id db ≡ some k
      → k.job_id ≡ i.job_id
      → Claimed s now id i j db0 (pace s now i wait db)
  unfolding pace Claimed reserve_throttle
  pace-Claimed (some n) db k named same e owned = tt
  pace-Claimed none db k named same e owned =
      let kept = ensure-same i.account_id db in
      rw named (
        start-Claimed (reserve_throttle s now i.account_id (ensure_throttle i.account_id db)) k
          (kept.1 ∙ same)
          (subst (λ (xs : List Item). find? (λ x. x.id == id) xs ≡ some k) (sym kept.0) e) owned
          (λ v. reserved s now i.account_id db))

  start_paced-Claimed :
      (db : Db) (k : Item)
      → i.id ≡ id
      → db.jobs ≡ db0.jobs
      → find_item id db ≡ some k
      → k.job_id ≡ i.job_id
      → Claimed s now id i j db0 (start_paced s now i j db)
  unfolding start_paced Claimed
  start_paced-Claimed db k named same e owned = elim (Bool-cases (same_action j.action view)) [
    | inl v ↦ rw (v, start_paced, named) (start-Claimed db k same e owned (λ u. absurd (cc)))
    | inr v ↦
        rw (v, start_paced)
          (pace-Claimed (wait_seconds now i.account_id db) db k named same e owned)
  ]

  claim_loaded-Claimed :
      (st : ItemStatus)
      → i.id ≡ id
      → find_item id db0 ≡ some i
      → Claimed s now id i j db0 (claim_loaded s now i j st db0)
  unfolding claim_loaded Claimed reset_item
  claim_loaded-Claimed ItemStatus.pending named e = start_paced-Claimed db0 i named refl e refl
  claim_loaded-Claimed ItemStatus.running named e = elim (Bool-cases (is_stale now i)) [
    | inl t ↦
        rw (t, claim_loaded)
          (start_paced-Claimed (reset_item i.id db0) fresh named refl
            (subst (λ n. find_item id (reset_item n db0) ≡ some fresh) (sym named)
              (find?-update_where (λ (k : Item). k.id == id) _ db0.items i (λ y. refl) e))
            refl)
    | inr t ↦ rw (t, claim_loaded) tt
  ]
    where
      fresh : Item
      fresh = record i { status = ItemStatus.pending; started_at = none }
  claim_loaded-Claimed ItemStatus.success named e = tt
  claim_loaded-Claimed ItemStatus.failed named e = tt
  claim_loaded-Claimed ItemStatus.skipped named e = tt

pub Claimed-of :
    (s : Settings) (now id : ℕ) (i : Item) (j : Job) (db : Db)
    → find_item id db ≡ some i
    → find_job i.job_id db ≡ some j
    → Claimed s now id i j db (claim_item_and_reserve_throttle s now id db)
unfolding claim_item_and_reserve_throttle claim_row
Claimed-of s now id i j db e e' =
    rw (e, e', claim_item_and_reserve_throttle)
      (claim_loaded-Claimed s now id i j db i.status
        ((==_iff i.id id).0 (find?-holds (λ (k : Item). k.id == id) db.items i e)) e)
