-- ===== src/Worker/Health/Starvation.antt =====
-- Scans on a database that sorts NULL behind.
use rubigram.Base.{
  ◌==◌, ==_iff, if◌then◌else◌, Bool-cases, take, any, count, All, All-always, ℕ, zero, suc, ◌≤◌,
  ◌≡◌, refl, ap, ◌∙◌, inl, inr, Bool, true, false, Option, none, some, List, [], ◌∷◌, arith,
}
use rubigram.Base.Leading.{All-take-Leading, count-same}
use rubigram.Worker.Model.{Account}
use rubigram.Worker.Health.{HealthDb, Target}
use rubigram.Worker.Health.Scans.{Probe, last_check, comes_before, scan_accounts}
use rubigram.Worker.Health.Queue.{
  Scan, scan_all, is_probed, rows_for-Leading, in_order, last_check-scan, count-scan,
  count-in_order,
}

probed_before :
    (x y : Option ℕ)
    → is_probed x ≡ true
    → is_probed y ≡ false
    → (comes_before false x y ≡ true) × (comes_before false y x ≡ false)
unfolding comes_before
probed_before none y h g = absurd (cc)
probed_before (some t) none h g = (refl, refl)
probed_before (some t) (some u) h g = absurd (cc)

any-none_of :
    (p : ℕ → Bool) (a : ℕ) (rs : List Account)
    → All (λ r. p r.id ≡ true) rs
    → p a ≡ false
    → any (λ r. r.id == a) rs ≡ false
any-none_of p a [] h out = refl
any-none_of p a (r ∷ rs) h out = elim (Bool-cases (r.id == a)) [
  | inl same ↦ absurd (cc (h.0, out, (==_iff r.id a).0 same))
  | inr other ↦ rw other (any-none_of p a rs h.1 out)
]

abbrev pub probed_count : HealthDb → ℕ
probed_count db = count (λ r. is_probed (last_check db.health r.id)) db.accounts

probed-scan :
    (now : ℕ) (client : Target → Probe) (limit : ℕ) (db : HealthDb)
    → 1 ≤ limit
    → limit ≤ probed_count db
    → (a : ℕ)
    → is_probed (last_check (scan_accounts false now client limit db).1.health a)
      ≡ is_probed (last_check db.health a)
probed-scan now client zero db some_ low a = absurd (omega arith)
probed-scan now client (suc n) db some_ low a =
    ap (λ o. is_probed o) (last_check-scan false now client n db a)
    ∙ elim (Bool-cases (is_probed (last_check db.health a))) [
      | inl t ↦ keep (any (λ r. r.id == a) (take (suc n) order)) t
      | inr u ↦
          rw (any-none_of (λ i. is_probed (last_check db.health i)) a (take (suc n) order) taken u)
    ]
  where
    order : List Account
    order = in_order false now client n db

    taken : All (λ r. is_probed (last_check db.health r.id) ≡ true) (take (suc n) order)
    taken =
        All-take-Leading _ (suc n) order
          (rows_for-Leading false (λ o. is_probed o) probed_before db)
          (rw (count-in_order false now client n db _) low)

    keep :
        (b : Bool)
        → is_probed (last_check db.health a) ≡ true
        → is_probed (if b then some now else last_check db.health a)
          ≡ is_probed (last_check db.health a)
    keep true t = rw t refl
    keep false t = refl

probed_count-scan :
    (now : ℕ) (client : Target → Probe) (limit : ℕ) (db : HealthDb)
    → 1 ≤ limit
    → limit ≤ probed_count db
    → probed_count (scan_accounts false now client limit db).1 ≡ probed_count db
probed_count-scan now client zero db some_ low = absurd (omega arith)
probed_count-scan now client (suc n) db some_ low =
    count-scan false now client n db
      (λ a. is_probed (last_check (scan_accounts false now client (suc n) db).1.health a))
    ∙ count-same _ _ db.accounts
        (All-always _ db.accounts (λ r. probed-scan now client (suc n) db some_ low r.id))

-- On a database that sorts NULL behind, an account that no probe has seen is never probed by scans
-- whose limits, each at least 1, are at most the number of accounts probed already.
pub scan_all-starves :
    (ss : List Scan) (db : HealthDb) (a : ℕ)
    → All (λ s. (1 ≤ s.limit) × (s.limit ≤ probed_count db)) ss
    → is_probed (last_check db.health a) ≡ false
    → is_probed (last_check (scan_all false ss db).health a) ≡ false
unfolding scan_all
scan_all-starves [] db a h out = out
scan_all-starves (s ∷ ss) db a h out =
    scan_all-starves ss (scan_accounts false s.now s.client s.limit db).1 a
      (rw (probed_count-scan s.now s.client s.limit db h.0.0 h.0.1) h.1)
      (probed-scan s.now s.client s.limit db h.0.0 h.0.1 a ∙ out)
