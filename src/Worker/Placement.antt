-- ===== src/Worker/Placement.antt =====
-- What `create_membership_job` promises the panel.
use rubigram.Worker.Selection.Eligible.{select_accounts-eligible}
use mathlib.Core.Path.{subst}
use rubigram.Base.{
  if◌then◌else◌, Bool-cases, length, find?, All, find?-holds, ℕ, suc, ◌+◌, ◌≤◌, String, ◌≡◌, refl,
  sym, ap, ◌⊎◌, inl, inr, Bool, true, false, ◌&&◌, Option, none, some, List, [], ◌∷◌, ◌++◌, arith,
  str_eq, eq_iff, eq_refl,
}
use rubigram.Base.Errors.{Result, ok, err}
use rubigram.Worker.Model.{ItemStatus, Account, Job, Item}
use rubigram.Worker.Db.{Db, Settings}
use rubigram.Worker.Jobs.{
  ServiceError, Payload, apply_bonus, new_items, add_items, Order, validate, find_key, target_count,
  new_job, insert_order, announce_order, needs_accounts, is_none, place_with, chosen_accounts,
  place_once, place_valid, create_membership_job,
}

-- A row per account that was chosen, waiting to be processed.
abbrev pub IsWaiting : ℕ → Item → Type 0
IsWaiting id i = (i.job_id ≡ id) × (i.status ≡ ItemStatus.pending)

new_items-IsWaiting :
    (now id first : ℕ) (accounts : List Account)
    → All (IsWaiting id) (new_items now id first accounts)
      × (length (new_items now id first accounts) ≡ length accounts)
unfolding new_items
new_items-IsWaiting now id first [] = (tt, refl)
new_items-IsWaiting now id first (a ∷ rest) =
    let h = new_items-IsWaiting now id (suc first) rest in (((refl, refl), h.0), ap suc h.1)

-- A new order: its job is added after all others, with one waiting item for each accepted account.
pub record Placed (j : Job) (db db' : Db) : Type 0 where
  pub new_key : find_key j.idempotency_key db ≡ none
  pub jobs : db'.jobs ≡ db.jobs ++ j ∷ []
  pub items :
      (xs : List Item) × (db'.items ≡ db.items ++ xs)
      × (length xs ≡ j.accepted_count)
      × All (IsWaiting j.id) xs
  pub counts : j.accepted_count + j.skipped_count ≡ j.total_count
  pub bonus : j.requested_count ≤ j.total_count

-- What a call of `create_membership_job` may do to the tables, by what it returns.
abbrev pub Outcome : Db → Result ServiceError Job × Db → Type 0
Outcome db (err e, db') = db' ≡ db
Outcome db (ok j, db') = ((find_key j.idempotency_key db ≡ some j) × (db' ≡ db)) ⊎ Placed j db db'

pub requested-target : (s : Settings) (o : Order) → o.requested_count ≤ target_count s o
unfolding target_count apply_bonus
requested-target s o = ground arith

Outcome-if :
    (b : Bool) (db : Db) (x y : Result ServiceError Job × Db)
    → Outcome db x
    → Outcome db y
    → Outcome db (if b then x else y)
Outcome-if true db x y h g = h
Outcome-if false db x y h g = g

place_with-Outcome :
    (s : Settings) (now : ℕ) (o : Order) (accounts : List Account) (db : Db)
    → find_key o.idempotency_key db ≡ none
    → length accounts ≤ target_count s o
    → Outcome db (place_with s now o accounts db)
unfolding place_with announce_order insert_order add_items new_job
place_with-Outcome s now o accounts db fresh le =
    let h = new_items-IsWaiting now db.next_job_id db.next_item_id accounts in
    Outcome-if (needs_accounts o.action && is_none accounts) db _ _ refl (
      inr (record {
        new_key = fresh;
        jobs = refl;
        items = (_, refl, h.1, h.0);
        counts = omega (arith, le);
        bonus = requested-target s o;
      }))

find_key-holds :
    (key : String) (db : Db) (j : Job)
    → find_key key db ≡ some j
    → find_key j.idempotency_key db ≡ some j
find_key-holds key db j e =
    let same : j.idempotency_key ≡ key =
      (eq_iff j.idempotency_key key).0
        (find?-holds (λ x. str_eq x.idempotency_key key) db.jobs j e) in
    subst (λ k. find_key k db ≡ some j) (sym same) e

module _ (s : Settings) (locked : ℕ → Bool) (now : ℕ) where
  place_once-Outcome :
      (o : Order) (known : Option Job) (db : Db)
      → find_key o.idempotency_key db ≡ known
      → Outcome db (place_once s locked now o known db)
  unfolding place_once chosen_accounts
  place_once-Outcome o (some j) db e = inl (find_key-holds o.idempotency_key db j e, refl)
  place_once-Outcome o none db e =
      place_with-Outcome s now o _ db e
        (select_accounts-eligible s locked now true o.action o.target_key (target_count s o) []
          db).0

  place_valid-Outcome :
      (o : Result ServiceError Order) (db : Db) → Outcome db (place_valid s locked now o db)
  unfolding place_valid
  place_valid-Outcome (ok o) db = place_once-Outcome o (find_key o.idempotency_key db) db refl
  place_valid-Outcome (err e) db = refl

  -- A refused order changes nothing. An accepted one either answers the job that its idempotency
  -- key already has, and changes nothing; or its key is new, one job is added after all others, with
  -- one pending item for each of its accepted accounts, accepted and skipped slots make up the total,
  -- and the total is no less than the count requested.
  pub create-Outcome :
      (p : Payload) (db : Db) → Outcome db (create_membership_job s locked now p db)
  unfolding create_membership_job
  create-Outcome p db = place_valid-Outcome (validate s p) db

find_key-append :
    (key : String) (j : Job) (js : List Job)
    → find? (λ k. str_eq k.idempotency_key key) js ≡ none
    → j.idempotency_key ≡ key
    → find? (λ k. str_eq k.idempotency_key key) (js ++ j ∷ []) ≡ some j
find_key-append key j [] e same = rw (same, eq_refl key) refl
find_key-append key j (k ∷ js) e same = elim (Bool-cases (str_eq k.idempotency_key key)) [
  | inl t ↦ absurd (ground arith)
  | inr f ↦ rw f (find_key-append key j js (rw f at e) same)
]

-- After an accepted order, its key is found, and with the job that was answered.
Outcome-known :
    (j : Job) (db db' : Db) → Outcome db (ok j, db') → find_key j.idempotency_key db' ≡ some j
Outcome-known j db db' (inl (known, same)) = rw same known
Outcome-known j db db' (inr h) =
    rw h.jobs (find_key-append j.idempotency_key j db.jobs h.new_key refl)

KeyIs : String → Result ServiceError Job × Db → Type 0
KeyIs key (err e, db) = Unit
KeyIs key (ok j, db) = j.idempotency_key ≡ key

KeyIs-if :
    (key : String) (b : Bool) (x y : Result ServiceError Job × Db)
    → KeyIs key x
    → KeyIs key y
    → KeyIs key (if b then x else y)
KeyIs-if key true x y h g = h
KeyIs-if key false x y h g = g

module _ (s : Settings) where
  place_once-KeyIs :
      (locked : ℕ → Bool) (now : ℕ) (o : Order) (known : Option Job) (db : Db)
      → find_key o.idempotency_key db ≡ known
      → KeyIs o.idempotency_key (place_once s locked now o known db)
  unfolding place_once place_with new_job KeyIs
  place_once-KeyIs locked now o none db e =
      KeyIs-if o.idempotency_key
        (needs_accounts o.action && is_none (chosen_accounts s locked now o db)) _ _ tt refl
  place_once-KeyIs locked now o (some j) db e =
      (eq_iff j.idempotency_key o.idempotency_key).0
        (find?-holds (λ x. str_eq x.idempotency_key o.idempotency_key) db.jobs j e)

  again :
      (locked locked' : ℕ → Bool) (now now' : ℕ) (o : Result ServiceError Order) (db db' : Db)
      (j : Job)
      → place_valid s locked now o db ≡ (ok j, db')
      → find_key j.idempotency_key db' ≡ some j
      → place_valid s locked' now' o db' ≡ (ok j, db')
  unfolding place_valid KeyIs place_once
  again locked locked' now now' (err e) db db' j h known = absurd (cc)
  again locked locked' now now' (ok o) db db' j h known =
      let key : j.idempotency_key ≡ o.idempotency_key =
        subst (KeyIs o.idempotency_key) h
          (place_once-KeyIs locked now o (find_key o.idempotency_key db) db refl) in
      let found : find_key o.idempotency_key db' ≡ some j =
        subst (λ k. find_key k db' ≡ some j) key known in
      rw found refl

  -- The panel may send an accepted order again, at any later time: it is answered the same job, and
  -- nothing changes.
  pub create_twice :
      (p : Payload) (locked locked' : ℕ → Bool) (now now' : ℕ) (db db' : Db) (j : Job)
      → create_membership_job s locked now p db ≡ (ok j, db')
      → create_membership_job s locked' now' p db' ≡ (ok j, db')
  unfolding create_membership_job
  create_twice p locked locked' now now' db db' j h =
      again locked locked' now now' (validate s p) db db' j h
        (Outcome-known j db db' (subst (Outcome db) h (create-Outcome s locked now p db)))
