-- ===== src/Worker/Contention.antt =====
-- When `create_membership_job` answers `pool_busy`.
use rubigram.Worker.Targets.{TargetFailure, bad_target, value_error, key, normalize_target_key}
use mathlib.Core.Path.{subst}
use rubigram.Base.{
  ltb, ltb→lt, Bool-cases, Option-cases, length, is_empty, strip, ℕ, ◌≤◌, String, ◌≡◌, refl, ◌≢◌,
  inl, inr, Bool, true, false, not, ◌&&◌, Option, none, some, List, [], ◌∷◌, arith,
}
use rubigram.Base.Int.{clamp}
use rubigram.Base.Errors.{Result, ok, err, ◌>>=◌}
use rubigram.Worker.Model.{Account, Job}
use rubigram.Worker.Db.{Db, Settings}
use rubigram.Worker.Services.{knows_service}
use rubigram.Worker.Selection.{count_free_accounts}
use rubigram.Worker.Selection.Eligible.{select_accounts-count}
use rubigram.Worker.Jobs.{
  ServiceError, invalid, insufficient_capacity, pool_busy, unhandled_value_error, Payload,
  parse_action, Order, require, or_invalid, or_target_error, validate, find_key, target_count,
  capacity_error, needs_accounts, is_none, place_with, chosen_accounts, place_once, place_valid,
  create_membership_job,
}
use rubigram.Worker.Placement.{requested-target}

-- An error of a check, none of the two about capacity.
IsRefusal {ℓ} : {A : Type ℓ} → Result ServiceError A → Type 0
IsRefusal (ok a) = Unit
IsRefusal (err (invalid m)) = Unit
IsRefusal (err unhandled_value_error) = Unit
IsRefusal (err _) = ⊥

IsPositive : Result ServiceError Order → Type 0
IsPositive (err (invalid m)) = Unit
IsPositive (err unhandled_value_error) = Unit
IsPositive (err _) = ⊥
IsPositive (ok o) = 1 ≤ o.requested_count

bind-IsPositive {ℓ} :
    {A : Type ℓ} (x : Result ServiceError A) (f : A → Result ServiceError Order)
    → IsRefusal x
    → ((a : A) → x ≡ ok a → IsPositive (f a))
    → IsPositive (x >>= f)
unfolding IsPositive IsRefusal
bind-IsPositive (err (invalid m)) f r h = tt
bind-IsPositive (err unhandled_value_error) f r h = tt
bind-IsPositive (err (insufficient_capacity a b)) f r h = elim r [ ]
bind-IsPositive (err (pool_busy a b)) f r h = elim r [ ]
bind-IsPositive (ok a) f r h = h a refl

require-holds : (b : Bool) (m : String) → require b m ≡ ok tt → b ≡ true
require-holds true m h = refl
require-holds false m h = absurd (cc)

require-IsRefusal : (b : Bool) (m : String) → IsRefusal (require b m)
unfolding IsRefusal
require-IsRefusal true m = tt
require-IsRefusal false m = tt

or_invalid-IsRefusal {ℓ} : {A : Type ℓ} (o : Option A) (m : String) → IsRefusal (or_invalid o m)
unfolding IsRefusal
or_invalid-IsRefusal none m = tt
or_invalid-IsRefusal (some a) m = tt

or_target_error-IsRefusal : (x : Result TargetFailure String) → IsRefusal (or_target_error x)
unfolding IsRefusal
or_target_error-IsRefusal (ok key) = tt
or_target_error-IsRefusal (err (bad_target m)) = tt
or_target_error-IsRefusal (err value_error) = tt

module _ (s : Settings) where
  -- The checks of a payload leave a positive count.
  validate-IsPositive : (p : Payload) → IsPositive (validate s p)
  unfolding validate IsPositive
  validate-IsPositive p =
      bind-IsPositive (or_invalid p.external_order_id numbers) _ (or_invalid-IsRefusal _ numbers)
        (λ external x1.
          bind-IsPositive (or_invalid p.count numbers) _ (or_invalid-IsRefusal _ numbers)
            (λ requested x2.
              bind-IsPositive (require (ltb 0 (clamp requested)) "count must be positive") _
                (require-IsRefusal _ "count must be positive")
                (λ u positive.
                  let some_ : 1 ≤ clamp requested =
                    ltb→lt 0 (clamp requested)
                      (require-holds _ "count must be positive" positive) in
                  bind-IsPositive (or_invalid (parse_action (strip p.action)) "unsupported action")
                    _ (or_invalid-IsRefusal _ "unsupported action")
                    (λ action x3.
                      bind-IsPositive
                        (require (knows_service s action (strip p.service_id))
                          "unknown view service_id")
                        _ (require-IsRefusal _ "unknown view service_id")
                        (λ u1 x4.
                          bind-IsPositive (or_target_error (normalize_target_key (strip p.target)))
                            _ (or_target_error-IsRefusal _)
                            (λ key x5.
                              bind-IsPositive
                                (require (not (is_empty (strip p.callback_url)))
                                  "callback_url is required")
                                _ (require-IsRefusal _ "callback_url is required")
                                (λ u2 x6.
                                  bind-IsPositive
                                    (require (not (is_empty (strip p.idempotency_key)))
                                      "idempotency_key is required")
                                    _ (require-IsRefusal _ "idempotency_key is required")
                                    (λ u3 x7. some_))))))))
    where
      numbers : String
      numbers = "external_order_id and count are required integers"

-- An answer other than `pool_busy`.
IsCalm : Result ServiceError Job × Db → Type 0
IsCalm (err (pool_busy requested free), db) = ⊥
IsCalm (err (insufficient_capacity requested free), db) = Unit
IsCalm (err (invalid m), db) = Unit
IsCalm (err unhandled_value_error, db) = Unit
IsCalm (ok j, db) = Unit

module _ (s : Settings) (now : ℕ) where
  capacity_error-IsCalm :
      (o : Order) (db db' : Db)
      → count_free_accounts s now o.action o.target_key db ≡ 0
      → IsCalm (err (capacity_error s now o db), db')
  unfolding capacity_error IsCalm
  capacity_error-IsCalm o db db' none_free = rw (none_free, capacity_error) tt

  place_with-IsCalm :
      (o : Order) (accounts : List Account) (db : Db)
      → (needs_accounts o.action ≡ true
          → is_none accounts ≡ true
          → count_free_accounts s now o.action o.target_key db ≡ 0)
      → IsCalm (place_with s now o accounts db)
  unfolding place_with IsCalm
  place_with-IsCalm o accounts db h =
      elim (Bool-cases (needs_accounts o.action && is_none accounts)) [
        | inl e ↦
            rw (e, place_with) (capacity_error-IsCalm o db db (h (ground arith) (ground arith)))
        | inr e ↦ rw (e, place_with) tt
      ]

  none_chosen :
      (o : Order) (db : Db)
      → 1 ≤ o.requested_count
      → needs_accounts o.action ≡ true
      → is_none (chosen_accounts s (λ id. false) now o db) ≡ true
      → count_free_accounts s now o.action o.target_key db ≡ 0
  unfolding chosen_accounts
  none_chosen o db positive needed none_ =
      let counted =
        select_accounts-count s now true o.action o.target_key (target_count s o) db
          (ground arith) in
      omega (arith, counted, requested-target s o, empty _ none_, positive)
    where
      empty : (xs : List Account) → is_none xs ≡ true → length xs ≡ 0
      empty [] h = refl
      empty (x ∷ xs) h = absurd (cc)

  place_valid-IsCalm :
      (o : Result ServiceError Order) (db : Db)
      → IsPositive o
      → IsCalm (place_valid s (λ id. false) now o db)
  unfolding place_valid place_once IsPositive IsCalm
  place_valid-IsCalm (err (invalid m)) db h = tt
  place_valid-IsCalm (err unhandled_value_error) db h = tt
  place_valid-IsCalm (err (insufficient_capacity a b)) db h = tt
  place_valid-IsCalm (err (pool_busy a b)) db h = elim h [ ]
  place_valid-IsCalm (ok o) db h = elim (Option-cases (find_key o.idempotency_key db)) [
    | inl e ↦ rw (e, place_once) (place_with-IsCalm o _ db (none_chosen o db h))
    | inr (j, e) ↦ rw (e, place_once) tt
  ]

  -- While no other transaction holds an account's row, no order is answered `pool_busy`.
  pub create-not_busy :
      (p : Payload) (requested free : ℕ) (db db' : Db)
      → create_membership_job s (λ id. false) now p db ≢ (err (pool_busy requested free), db')
  unfolding create_membership_job IsCalm
  create-not_busy p requested free db db' h =
      subst IsCalm h (place_valid-IsCalm (validate s p) db (validate-IsPositive s p))
