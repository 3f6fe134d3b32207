-- ===== src/Worker/Health/Order.antt =====
-- The check times that the records of a scan leave.
use rubigram.Base.{
  ◌==◌, if◌then◌else◌, Bool-cases, any, count, update_where, count-update_where_eq, ℕ, String, ◌≡◌,
  refl, ◌∙◌, inl, inr, Bool, true, not, ◌&&◌, some, List, [], ◌∷◌, ◌++◌, arith,
}
use rubigram.Worker.Model.{Account}
use rubigram.Worker.Health.{
  Outcome, Health, HealthDb, Target, Availability, is_alive, is_active, is_auth_fail, is_dead,
  blank_health, ensure_health, checked, health_of, availability_after, corrected, record_probe,
}
use rubigram.Worker.Health.Scans.{last_check, outcome_of, record_all}

last_check-append_blank :
    (k a : ℕ) (hs : List Health) → last_check (hs ++ blank_health k ∷ []) a ≡ last_check hs a
unfolding last_check
last_check-append_blank k a [] = ground arith
last_check-append_blank k a (h ∷ hs) = ground (arith, last_check-append_blank k a hs)

any-append_blank :
    (k : ℕ) (hs : List Health) → any (λ h. h.account_id == k) (hs ++ blank_health k ∷ []) ≡ true
any-append_blank k [] = ground arith
any-append_blank k (h ∷ hs) = ground (arith, any-append_blank k hs)

module _ (now : ℕ) (t : Target) (o : Outcome) (detail : String) where
  last_check-checked :
      (a : ℕ) (hs : List Health)
      → last_check (update_where (λ h. h.account_id == t.account_id) (checked now t o detail) hs) a
        ≡ (if t.account_id == a && any (λ h. h.account_id == t.account_id) hs
            then some now
            else last_check hs a)
  unfolding last_check checked
  last_check-checked a [] = ground arith
  last_check-checked a (h ∷ hs) = ground (arith, last_check-checked a hs)

  ensure_health-any :
      (db : HealthDb)
      → any (λ h. h.account_id == t.account_id) (ensure_health t.account_id db) ≡ true
  unfolding ensure_health
  ensure_health-any db = elim (Bool-cases (any (λ h. h.account_id == t.account_id) db.health)) [
    | inl e ↦ rw e e
    | inr e ↦ rw e (any-append_blank t.account_id db.health)
  ]

  last_check-ensure_health :
      (a : ℕ) (db : HealthDb)
      → last_check (ensure_health t.account_id db) a ≡ last_check db.health a
  unfolding ensure_health
  last_check-ensure_health a db =
      elim (Bool-cases (any (λ h. h.account_id == t.account_id) db.health)) [
        | inl e ↦ rw e refl
        | inr e ↦ rw e (last_check-append_blank t.account_id a db.health)
      ]

  last_check-record_probe :
      (a : ℕ) (db : HealthDb)
      → last_check (record_probe now t o detail db).1.health a
        ≡ (if t.account_id == a then some now else last_check db.health a)
  unfolding record_probe
  last_check-record_probe a db = ground (
    arith,
    last_check-checked a (ensure_health t.account_id db),
    ensure_health-any db,
    last_check-ensure_health a db,
  )

  count-corrected :
      (p : ℕ → Bool) (a : Availability) (rs : List Account)
      → count (λ r. p r.id) (corrected t o a detail rs) ≡ count (λ r. p r.id) rs
  unfolding corrected
  count-corrected p a rs = elim (Bool-cases (is_alive o && not (is_active t.status))) [
    | inl e ↦ rw e (count-update_where_eq _ _ _ rs (λ r. refl))
    | inr e ↦ rw e (elim (Bool-cases (is_auth_fail o && (is_dead a && is_active t.status))) [
      | inl f ↦ rw f (count-update_where_eq _ _ _ rs (λ r. refl))
      | inr f ↦ rw f refl
    ])
  ]

  -- A record changes no account's number.
  count-record_probe :
      (p : ℕ → Bool) (db : HealthDb)
      → count (λ r. p r.id) (record_probe now t o detail db).1.accounts
        ≡ count (λ r. p r.id) db.accounts
  unfolding record_probe
  count-record_probe p db =
      count-corrected p (availability_after t o (health_of t.account_id db)) db.accounts

-- The check times after the loop of a scan: those of its targets are its time.
pub last_check-record_all :
    (now : ℕ) (outcomes : List (ℕ × (Outcome × String))) (ts : List Target) (db : HealthDb) (a : ℕ)
    → last_check (record_all now outcomes ts db).1.health a
      ≡ (if any (λ t. t.account_id == a) ts then some now else last_check db.health a)
unfolding record_all
last_check-record_all now outcomes [] db a = refl
last_check-record_all now outcomes (t ∷ ts) db a = ground (
  arith,
  last_check-record_all now outcomes ts
      (record_probe now t (outcome_of outcomes t.account_id).0 (outcome_of outcomes t.account_id).1
        db).1
      a,
  last_check-record_probe now t (outcome_of outcomes t.account_id).0
      (outcome_of outcomes t.account_id).1 a db,
)

pub count-record_all :
    (now : ℕ) (outcomes : List (ℕ × (Outcome × String))) (ts : List Target) (p : ℕ → Bool)
    (db : HealthDb)
    → count (λ r. p r.id) (record_all now outcomes ts db).1.accounts
      ≡ count (λ r. p r.id) db.accounts
unfolding record_all
count-record_all now outcomes [] p db = refl
count-record_all now outcomes (t ∷ ts) p db =
    count-record_all now outcomes ts p
      (record_probe now t (outcome_of outcomes t.account_id).0 (outcome_of outcomes t.account_id).1
        db).1
    ∙ count-record_probe now t (outcome_of outcomes t.account_id).0
        (outcome_of outcomes t.account_id).1 p db
