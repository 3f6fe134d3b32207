-- ===== src/Worker/Health/Queue.antt =====
-- Scans one after another, and the order in which a scan takes the accounts.
use rubigram.Base.{
  ltb, ◌==◌, if◌then◌else◌, take, drop, any, count, All, All-none, All-map-fun, ℕ, zero, suc, ◌+◌,
  ◌≤◌, ◌≡◌, refl, ap, ◌∙◌, Bool, true, false, not, ◌&&◌, ◌||◌, Option, none, some, List, [], ◌∷◌,
  map, arith,
}
use rubigram.Base.Sort.{count-sort}
use rubigram.Base.Leading.{Leading, sort-Leading, count-same}
use rubigram.Worker.Model.{Account}
use rubigram.Worker.Health.{HealthDb, Target}
use rubigram.Worker.Health.Scans.{
  Probe, probe_all, last_check, comes_before, waits_longer, target_of, limited, rows_for,
  targets_for, scan_accounts,
}
use rubigram.Worker.Health.Order.{last_check-record_all, count-record_all}

-- One run of the task, with what the probes would come to.
pub record Scan : Type 0 where
  pub now : ℕ
  pub limit : ℕ
  pub client : Target → Probe

unfoldable pub scan_all : Bool → List Scan → HealthDb → HealthDb
scan_all nulls_first [] db = db
scan_all nulls_first (s ∷ ss) db =
    scan_all nulls_first ss (scan_accounts nulls_first s.now s.client s.limit db).1

-- How many accounts the scans may take together.
abbrev pub room : List Scan → ℕ
room [] = 0
room (s ∷ ss) = s.limit + room ss

-- Not probed since `since`.
abbrev pub is_due : ℕ → Option ℕ → Bool
is_due since none = true
is_due since (some t) = ltb t since

abbrev pub is_probed : Option ℕ → Bool
is_probed none = false
is_probed (some t) = true

-- The key of the table of accounts.
abbrev pub HaveIds : List Account → Type 0
HaveIds rs = (k : ℕ) → count (λ r. r.id == k) rs ≤ 1

any-map_target :
    (db : HealthDb) (a : ℕ) (rs : List Account)
    → any (λ t. t.account_id == a) (map (target_of db) rs) ≡ any (λ r. r.id == a) rs
unfolding target_of
any-map_target db a [] = refl
any-map_target db a (r ∷ rs) = ap (λ b. r.id == a || b) (any-map_target db a rs)

-- Without the first `n` rows, the rows after them are left.
pub count-rest :
    (p : ℕ → Bool) (n : ℕ) (rs : List Account)
    → HaveIds rs
    → count (λ r. p r.id && not (any (λ s. s.id == r.id) (take n rs))) rs
      ≡ count (λ r. p r.id) (drop n rs)
count-rest p zero rs h = count-same _ _ rs (everywhere rs)
  where
    everywhere : (xs : List Account) → All (λ r. (p r.id && not false) ≡ p r.id) xs
    everywhere [] = tt
    everywhere (x ∷ xs) = (ground arith, everywhere xs)
count-rest p (suc n) [] h = refl
count-rest p (suc n) (r ∷ rs) h = ground (
  arith,
  count-same (λ x. p x.id && not (any (λ s. s.id == x.id) (take (suc n) (r ∷ rs))))
      (λ x. p x.id && not (any (λ s. s.id == x.id) (take n rs))) rs
      (All-map-fun other rs (All-none (λ x. x.id == r.id) rs (ground (arith, h r.id)))),
  count-rest p n rs (λ k. ground (arith, h k)),
)
  where
    other :
        (x : Account)
        → (x.id == r.id) ≡ false
        → (p x.id && not (any (λ s. s.id == x.id) (take (suc n) (r ∷ rs))))
          ≡ (p x.id && not (any (λ s. s.id == x.id) (take n rs)))
    other x e = ground arith

-- The rows that a test on the check time puts in front stand in front of the scan's order.
module _ (nulls_first : Bool) (p : Option ℕ → Bool)
    (before : (x y : Option ℕ)
      → p x ≡ true
      → p y ≡ false
      → (comes_before nulls_first x y ≡ true) × (comes_before nulls_first y x ≡ false)) where
  pub rows_for-Leading :
      (db : HealthDb) → Leading (λ r. p (last_check db.health r.id)) (rows_for nulls_first none db)
  unfolding rows_for waits_longer
  rows_for-Leading db =
      sort-Leading (waits_longer nulls_first db.health) (λ r. p (last_check db.health r.id))
        (λ a b h g. rw (before (last_check db.health a.id) (last_check db.health b.id) h g).0 refl)
        (λ a b h g.
          let e = before (last_check db.health a.id) (last_check db.health b.id) h g in
          rw (e.0, e.1) refl)
        db.accounts

module _ (nulls_first : Bool) (now : ℕ) (client : Target → Probe) (n : ℕ) (db : HealthDb) where
  abbrev pub scanned : HealthDb
  scanned = (scan_accounts nulls_first now client (suc n) db).1

  abbrev pub in_order : List Account
  in_order = rows_for nulls_first none db

  pub last_check-scan :
      (a : ℕ)
      → last_check scanned.health a ≡ (
          if any (λ r. r.id == a) (take (suc n) in_order) then some now else last_check db.health a)
  unfolding scan_accounts targets_for limited
  last_check-scan a =
      last_check-record_all now (probe_all client (map (target_of db) (take (suc n) in_order)))
        (map (target_of db) (take (suc n) in_order)) db a
      ∙ ap (λ b. if b then some now else last_check db.health a)
          (any-map_target db a (take (suc n) in_order))

  pub count-scan :
      (p : ℕ → Bool) → count (λ r. p r.id) scanned.accounts ≡ count (λ r. p r.id) db.accounts
  unfolding scan_accounts targets_for limited
  count-scan p =
      count-record_all now (probe_all client (map (target_of db) (take (suc n) in_order)))
        (map (target_of db) (take (suc n) in_order)) p db

  pub count-in_order : (p : Account → Bool) → count p in_order ≡ count p db.accounts
  unfolding rows_for
  count-in_order p = count-sort (waits_longer nulls_first db.health) p db.accounts
