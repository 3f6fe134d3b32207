-- ===== src/Worker/Invariant/NewItems.antt =====
-- The items made for new accounts: whose they are, and that their ids are new.
use rubigram.Base.{
  length, count, count-append, ℕ, suc, ◌+◌, ◌≤◌, ◌<◌, ◌≡◌, refl, ◌≢◌, List, [], ◌∷◌, ◌++◌, arith,
}
use rubigram.Worker.Model.{Account}
use rubigram.Worker.Db.{Db}
use rubigram.Worker.Jobs.{new_items}
use rubigram.Worker.Invariant.Kept.{of_job, has_id}
use rubigram.Worker.Invariant.Sound.{IsSound}

module _ (now job_id : ℕ) where
  pub new_items-owned :
      (id : ℕ) (accounts : List Account)
      → count (of_job job_id) (new_items now job_id id accounts) ≡ length accounts
  unfolding new_items
  new_items-owned id [] = refl
  new_items-owned id (a ∷ rest) = ground (arith, new_items-owned (suc id) rest)

  pub new_items-others :
      (k id : ℕ) (accounts : List Account)
      → k ≢ job_id
      → count (of_job k) (new_items now job_id id accounts) ≡ 0
  unfolding new_items
  new_items-others k id [] ne = refl
  new_items-others k id (a ∷ rest) ne = ground (arith, new_items-others k (suc id) rest ne)

  -- The ids run from `id` to below `id + length accounts`, each once.
  pub ids_below :
      (k id : ℕ) (accounts : List Account)
      → k < id
      → count (has_id k) (new_items now job_id id accounts) ≡ 0
  unfolding new_items
  ids_below k id [] lt = refl
  ids_below k id (a ∷ rest) lt = ground (arith, ids_below k (suc id) rest)

  pub ids_above :
      (k id : ℕ) (accounts : List Account)
      → id + length accounts ≤ k
      → count (has_id k) (new_items now job_id id accounts) ≡ 0
  unfolding new_items
  ids_above k id [] le = refl
  ids_above k id (a ∷ rest) le = ground (arith, ids_above k (suc id) rest)

  pub ids_once :
      (k id : ℕ) (accounts : List Account) → count (has_id k) (new_items now job_id id accounts) ≤ 1
  unfolding new_items
  ids_once k id [] = omega arith
  ids_once k id (a ∷ rest) = ground (arith, ids_once k (suc id) rest, ids_below k (suc id) rest)

-- The items of a table and those appended to it have different ids.
pub unique_append :
    (now job_id k : ℕ) (accounts : List Account) (db : Db)
    → IsSound db
    → count (has_id k) (db.items ++ new_items now job_id db.next_item_id accounts) ≤ 1
unique_append now job_id k accounts db h = ground (
  arith,
  count-append (has_id k) db.items (new_items now job_id db.next_item_id accounts),
  ids_once now job_id k db.next_item_id accounts,
  ids_below now job_id k db.next_item_id accounts,
  h.unique k,
  h.fresh_item k,
)

pub fresh_append :
    (now job_id k : ℕ) (accounts : List Account) (db : Db)
    → IsSound db
    → db.next_job_id ≤ k
    → k ≢ job_id
    → count (of_job k) (db.items ++ new_items now job_id db.next_item_id accounts) ≡ 0
fresh_append now job_id k accounts db h le ne = omega (
  arith,
  count-append (of_job k) db.items (new_items now job_id db.next_item_id accounts),
  new_items-others now job_id k db.next_item_id accounts ne,
  h.fresh k le,
)

pub fresh_item_append :
    (now job_id k : ℕ) (accounts : List Account) (db : Db)
    → IsSound db
    → db.next_item_id + length accounts ≤ k
    → count (has_id k) (db.items ++ new_items now job_id db.next_item_id accounts) ≡ 0
fresh_item_append now job_id k accounts db h le = omega (
  arith,
  count-append (has_id k) db.items (new_items now job_id db.next_item_id accounts),
  ids_above now job_id k db.next_item_id accounts le,
  h.fresh_item k (omega arith),
)
