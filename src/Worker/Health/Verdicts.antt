-- ===== src/Worker/Health/Verdicts.antt =====
-- What the verdicts of probes can do to an account.
use rubigram.Base.{
  leb, if◌then◌else◌, length, count, ℕ, ◌+◌, ◌≤◌, String, ◌≡◌, refl, true, false, List, [], ◌∷◌,
  arith,
}
use rubigram.Worker.Health.{
  Availability, available, at_capacity, dead, unknown, auth_fail, transient, Health, HealthDb,
  Target, dead_threshold, is_dead, health_of, availability_for, failures_after, availability_after,
  corrected, record_probe, is_available_row, is_full_row, is_dead_row, availability_snapshot,
}

module _ (now : ℕ) (t : Target) (detail : String) (db : HealthDb) where
  -- A transient failure changes no account, and the availability that it answers is the one recorded
  -- before. The first refusal in a row changes no account either, and is not called dead.
  pub record_probe-spares :
      (((record_probe now t transient detail db).1.accounts ≡ db.accounts)
        × ((record_probe now t transient detail db).0.availability
            ≡ (health_of t.account_id db).availability))
      × ((health_of t.account_id db).consecutive_auth_failures ≡ 0
          → ((record_probe now t auth_fail detail db).1.accounts ≡ db.accounts)
            × (is_dead (record_probe now t auth_fail detail db).0.availability ≡ false))
  unfolding record_probe corrected availability_after availability_for failures_after
  record_probe-spares = (
    (refl, refl),
    λ first.
        (let low : leb dead_threshold ((health_of t.account_id db).consecutive_auth_failures + 1)
              ≡ false =
            ground (arith, first) in
          rw low (refl, refl)),
  )

one_bucket :
    (a : Availability)
    → (if elim a [ available ↦ true | _ ↦ false ] then 1 else 0)
        + (if elim a [ at_capacity ↦ true | _ ↦ false ] then 1 else 0)
        + (if is_dead a then 1 else 0)
      ≤ 1
one_bucket available = omega arith
one_bucket at_capacity = omega arith
one_bucket dead = omega arith
one_bucket unknown = omega arith

rows-bound :
    (hs : List Health)
    → count is_available_row hs + count is_full_row hs + count is_dead_row hs ≤ length hs
rows-bound [] = omega arith
rows-bound (h ∷ hs) = omega (arith, one_bucket h.availability, rows-bound hs)

-- Where there are no more health rows than accounts, the four counts of the snapshot make up the
-- total.
pub availability_snapshot-total :
    (db : HealthDb)
    → length db.health ≤ length db.accounts
    → let s = availability_snapshot db in
      s.available_count + s.at_capacity_count + s.dead_count + s.unknown_count ≡ s.total
unfolding availability_snapshot
availability_snapshot-total db h = omega (arith, h, rows-bound db.health)
