-- ===== src/Worker/Invariant/Claims.antt =====
-- Claiming an item, seen as a calm change.
use rubigram.Base.{Bool-cases, ℕ, ◌+◌, refl, inl, inr, Option, none, some, arith}
use rubigram.Worker.Model.{view, ItemStatus, Job, Item, same_action}
use rubigram.Worker.Db.{Db, Settings, find_item}
use rubigram.Worker.Items.{
  is_stale, ensure_throttle, reserve_throttle, wait_seconds, start_item, reset_item, pace,
  start_paced, claim_loaded, job_of, claim_row, claim_item_and_reserve_throttle,
}
use rubigram.Worker.Invariant.Kept.{Calm-items, has_id, Calm, Calm-trans, Calm-same, Calm-refl}

abbrev with_reset : Item → Item
with_reset i = record i { status = ItemStatus.pending; started_at = none }

abbrev started : ℕ → Item → Item
started now i = record i {
  status = ItemStatus.running;
  attempts = i.attempts + 1;
  started_at = some now;
}

start_item-Calm : (now id : ℕ) (db : Db) → Calm db (start_item now id db)
unfolding start_item
start_item-Calm now id db = Calm-items (has_id id) (started now) db (λ i. (refl, refl))

reset_item-Calm : (id : ℕ) (db : Db) → Calm db (reset_item id db)
unfolding reset_item
reset_item-Calm id db = Calm-items (has_id id) with_reset db (λ i. (refl, refl))

ensure_throttle-Calm : (a : ℕ) (db : Db) → Calm db (ensure_throttle a db)
unfolding ensure_throttle
ensure_throttle-Calm a db = Calm-same (ground arith) (ground arith) (ground arith) (ground arith)

pace-Calm :
    (s : Settings) (now : ℕ) (i : Item) (wait : Option ℕ) (db : Db)
    → Calm db (pace s now i wait db).1
unfolding pace reserve_throttle
pace-Calm s now i (some n) db = ensure_throttle-Calm i.account_id db
pace-Calm s now i none db =
    let ensured = ensure_throttle i.account_id db in
    Calm-trans (ensure_throttle-Calm i.account_id db) (
      Calm-trans
        (Calm-same {db = ensured} {db' = reserve_throttle s now i.account_id ensured} refl refl refl
          refl)
        (start_item-Calm now i.id (reserve_throttle s now i.account_id ensured)))

start_paced-Calm :
    (s : Settings) (now : ℕ) (i : Item) (j : Job) (db : Db) → Calm db (start_paced s now i j db).1
unfolding start_paced
start_paced-Calm s now i j db = elim (Bool-cases (same_action j.action view)) [
  | inl v ↦ rw v (start_item-Calm now i.id db)
  | inr v ↦ rw v (pace-Calm s now i (wait_seconds now i.account_id db) db)
]

claim_loaded-Calm :
    (s : Settings) (now : ℕ) (i : Item) (j : Job) (st : ItemStatus) (db : Db)
    → Calm db (claim_loaded s now i j st db).1
unfolding claim_loaded
claim_loaded-Calm s now i j ItemStatus.pending db = start_paced-Calm s now i j db
claim_loaded-Calm s now i j ItemStatus.running db = elim (Bool-cases (is_stale now i)) [
  | inl stale ↦
      rw stale
        (Calm-trans (reset_item-Calm i.id db) (start_paced-Calm s now i j (reset_item i.id db)))
  | inr fresh ↦ rw fresh (Calm-refl db)
]
claim_loaded-Calm s now i j _ db = Calm-refl db

claim_row-Calm :
    (s : Settings) (now : ℕ) (i : Option Item) (j : Option Job) (db : Db)
    → Calm db (claim_row s now i j db).1
unfolding claim_row
claim_row-Calm s now (some i) (some j) db = claim_loaded-Calm s now i j i.status db
claim_row-Calm s now (some i) none db = Calm-refl db
claim_row-Calm s now none j db = Calm-refl db

-- Claiming any item keeps every job.
pub claim-Calm :
    (s : Settings) (now id : ℕ) (db : Db) → Calm db (claim_item_and_reserve_throttle s now id db).1
unfolding claim_item_and_reserve_throttle
claim-Calm s now id db = claim_row-Calm s now (find_item id db) (job_of (find_item id db) db) db
