-- ===== src/Worker/Health/Fairness.antt =====
-- Scans on a database that sorts NULL in front.
use rubigram.Base.{
  ◌==◌, if◌then◌else◌, length, take, any, count, All, All-none, All-always, count-le-length, ℕ,
  zero, suc, ◌-◌, ◌≤◌, ◌≡◌, sym, ap, ◌∙◌, Bool, true, false, not, ◌&&◌, Option, none, some, List,
  [], ◌∷◌, arith,
}
use rubigram.Base.Leading.{count-drop, count-same}
use rubigram.Worker.Model.{Account}
use rubigram.Worker.Health.{HealthDb, Target}
use rubigram.Worker.Health.Scans.{Probe, last_check, comes_before, scan_accounts}
use rubigram.Worker.Health.Queue.{
  Scan, scan_all, room, is_due, HaveIds, count-rest, rows_for-Leading, scanned, in_order,
  last_check-scan, count-scan, count-in_order,
}

due_before :
    (since : ℕ) (x y : Option ℕ)
    → is_due since x ≡ true
    → is_due since y ≡ false
    → (comes_before true x y ≡ true) × (comes_before true y x ≡ false)
unfolding comes_before
due_before since none none h g = ground arith
due_before since none (some u) h g = ground arith
due_before since (some t) none h g = ground arith
due_before since (some t) (some u) h g = ground arith

HaveIds-scan :
    (now : ℕ) (client : Target → Probe) (limit : ℕ) (db : HealthDb)
    → HaveIds db.accounts
    → 1 ≤ limit
    → HaveIds (scan_accounts true now client limit db).1.accounts
HaveIds-scan now client zero db keyed some_ k = absurd (omega arith)
HaveIds-scan now client (suc n) db keyed some_ k =
    rw (count-scan true now client n db (λ i. i == k)) (keyed k)

module _ (since now : ℕ) (client : Target → Probe) (n : ℕ) (db : HealthDb)
    (keyed : HaveIds db.accounts) (later : since ≤ now) where
  abbrev after : HealthDb
  after = scanned true now client n db

  abbrev order : List Account
  order = in_order true now client n db

  due_after :
      (a : ℕ)
      → is_due since (last_check after.health a)
        ≡ (is_due since (last_check db.health a) && not (any (λ r. r.id == a) (take (suc n) order)))
  due_after a =
      ap (λ o. is_due since o) (last_check-scan true now client n db a)
      ∙ split (any (λ r. r.id == a) (take (suc n) order)) (last_check db.health a)
    where
      split :
          (b : Bool) (o : Option ℕ)
          → is_due since (if b then some now else o) ≡ (is_due since o && not b)
      split true none = ground arith
      split true (some t) = ground arith
      split false none = ground arith
      split false (some t) = ground arith

  -- A scan takes as many of the accounts that are due as it may.
  count-due_after :
      count (λ r. is_due since (last_check after.health r.id)) after.accounts
      ≡ count (λ r. is_due since (last_check db.health r.id)) db.accounts - suc n
  count-due_after =
      count-scan true now client n db (λ a. is_due since (last_check after.health a))
      ∙ (sym
            (count-in_order true now client n db (λ r. is_due since (last_check after.health r.id)))
          ∙ (count-same _ _ order (All-always _ order (λ r. due_after r.id))
              ∙ (count-rest (λ a. is_due since (last_check db.health a)) (suc n) order
                    (λ k. rw (count-in_order true now client n db (λ r. r.id == k)) (keyed k))
                  ∙ (count-drop _ (suc n) order
                        (rows_for-Leading true (λ o. is_due since o) (due_before since) db)
                      ∙ ap (λ c. c - suc n)
                          (count-in_order true now client n db
                            (λ r. is_due since (last_check db.health r.id)))))))

module _ (since : ℕ) where
  abbrev pub due_count : HealthDb → ℕ
  due_count db = count (λ r. is_due since (last_check db.health r.id)) db.accounts

  due_count-scan :
      (now : ℕ) (client : Target → Probe) (limit : ℕ) (db : HealthDb)
      → HaveIds db.accounts
      → since ≤ now
      → 1 ≤ limit
      → due_count (scan_accounts true now client limit db).1 ≡ due_count db - limit
  due_count-scan now client zero db keyed later some_ = absurd (omega arith)
  due_count-scan now client (suc n) db keyed later some_ =
      count-due_after since now client n db keyed later

  due_count-scan_all :
      (ss : List Scan) (db : HealthDb)
      → HaveIds db.accounts
      → All (λ s. (since ≤ s.now) × (1 ≤ s.limit)) ss
      → due_count (scan_all true ss db) ≡ due_count db - room ss
  unfolding scan_all
  due_count-scan_all [] db keyed h = omega arith
  due_count-scan_all (s ∷ ss) db keyed h = omega (
    arith,
    due_count-scan_all ss (scan_accounts true s.now s.client s.limit db).1
        (HaveIds-scan s.now s.client s.limit db keyed h.0.1) h.1,
    due_count-scan s.now s.client s.limit db keyed h.0.0 h.0.1,
  )

  -- On a database that sorts NULL in front, scans get round the table: if each runs at a given time
  -- or later and has a limit of at least 1, and the limits add up to the number of accounts, then
  -- every account was probed at that time or later, whatever the probes come to.
  pub scan_all-gets_round :
      (ss : List Scan) (db : HealthDb)
      → HaveIds db.accounts
      → All (λ s. (since ≤ s.now) × (1 ≤ s.limit)) ss
      → length db.accounts ≤ room ss
      → All
          (λ r. is_due since (last_check (scan_all true ss db).health r.id) ≡ false)
          (scan_all true ss db).accounts
  scan_all-gets_round ss db keyed h enough = All-none _ (scan_all true ss db).accounts (
      omega (
        arith,
        due_count-scan_all ss db keyed h,
        count-le-length (λ r. is_due since (last_check db.health r.id)) db.accounts,
      ))
