-- ===== src/Worker/Accounts/Rows/Deleted.antt =====
-- Account rows: what delete_worker_account takes away, what it leaves, and a second call of it.
use mathlib.Core.Path.{subst}
use rubigram.Base.{
  ◌==◌, Bool-cases, drop, filter, any, find?, ℕ, String, ◌≡◌, refl, sym, ap, ◌∙◌, inl, inr, Bool,
  true, false, not, ◌&&◌, Option, none, some, List, [], ◌∷◌, arith,
}
use rubigram.Worker.Model.{Account, Credential, Membership, Throttle, PostView, Item, AutoLeave}
use rubigram.Worker.Db.{Db, find_account}
use rubigram.Worker.Accounts.Rows.{
  is_credential_of, selects, is_one_of, cascade, Deletion, delete_rows, delete_worker_account,
  delete_doomed,
}

-- Whether a row with the id is selected.
abbrev pub is_selected : (Account → Bool) → ℕ → Db → Bool
is_selected p id db = any (λ a. p a && (a.id == id)) db.accounts

abbrev pub is_membership_of : ℕ → Membership → Bool
is_membership_of id m = m.account_id == id

-- A schedule goes with its account and with its item.
abbrev pub is_schedule_left : Db → AutoLeave → Bool
is_schedule_left db l = any (λ i. i.id == l.source_item_id) db.items

-- A selected id has no row, and nothing of it is left; of another one all of it stays, but for
-- schedules whose item is gone. Orders, nonces, ids and tasks stay.
pub record IsDeleted (p : Account → Bool) (db db' : Db) : Type 0 where
  pub gone :
      (id : ℕ)
      → is_selected p id db ≡ true
      → (find_account id db' ≡ none)
        × (find? (is_credential_of id) db'.credentials ≡ none)
        × (filter (is_membership_of id) db'.memberships ≡ [])
        × (filter (λ t. t.account_id == id) db'.throttles ≡ [])
        × (filter (λ v. v.account_id == id) db'.post_views ≡ [])
        × (filter (λ i. i.account_id == id) db'.items ≡ [])
        × (filter (λ l. l.account_id == id) db'.schedules ≡ [])
  pub kept :
      (id : ℕ)
      → is_selected p id db ≡ false
      → (find_account id db' ≡ find_account id db)
        × (find? (is_credential_of id) db'.credentials ≡ find? (is_credential_of id) db.credentials)
        × (filter (is_membership_of id) db'.memberships
            ≡ filter (is_membership_of id) db.memberships)
        × (filter (λ t. t.account_id == id) db'.throttles
            ≡ filter (λ t. t.account_id == id) db.throttles)
        × (filter (λ v. v.account_id == id) db'.post_views
            ≡ filter (λ v. v.account_id == id) db.post_views)
        × (filter (λ i. i.account_id == id) db'.items ≡ filter (λ i. i.account_id == id) db.items)
        × (filter (λ l. l.account_id == id && is_schedule_left db' l) db'.schedules
            ≡ filter (λ l. l.account_id == id && is_schedule_left db' l) db.schedules)
  pub rest :
      (db'.jobs ≡ db.jobs)
      × (db'.nonces ≡ db.nonces)
      × (db'.queue ≡ db.queue)
      × (db'.next_account_id ≡ db.next_account_id)
      × (db'.next_job_id ≡ db.next_job_id)
      × (db'.next_item_id ≡ db.next_item_id)
      × (db'.next_schedule_id ≡ db.next_schedule_id)

is_one_of-filter :
    (p : Account → Bool) (id : ℕ) (xs : List Account)
    → is_one_of (filter p xs) id ≡ any (λ a. p a && (a.id == id)) xs
is_one_of-filter p id [] = refl
is_one_of-filter p id (x ∷ xs) = elim (Bool-cases (p x)) [
  | inl t ↦ ground (arith, t, is_one_of-filter p id xs)
  | inr t ↦ ground (arith, t, is_one_of-filter p id xs)
]

-- Rows of the kind `A` with their key: of a dropped key none is left, of another one all are.
module _ {A : Type 0} (key : A → ℕ) (drop : ℕ → Bool) (id : ℕ) where
  abbrev left : List A → List A
  left xs = filter (λ x. not (drop (key x))) xs

  find?-dropped : drop id ≡ true → (xs : List A) → find? (λ x. key x == id) (left xs) ≡ none
  find?-dropped d [] = refl
  find?-dropped d (x ∷ xs) = elim (Bool-cases (drop (key x))) [
    | inl t ↦ rw t (find?-dropped d xs)
    | inr t ↦ ground (arith, t, d, find?-dropped d xs)
  ]

  find?-left :
      drop id ≡ false
      → (xs : List A) → find? (λ x. key x == id) (left xs) ≡ find? (λ x. key x == id) xs
  find?-left d [] = refl
  find?-left d (x ∷ xs) = elim (Bool-cases (drop (key x))) [
    | inl t ↦ ground (arith, t, d, find?-left d xs)
    | inr t ↦ ground (arith, t, d, find?-left d xs)
  ]

  filter-dropped : drop id ≡ true → (xs : List A) → filter (λ x. key x == id) (left xs) ≡ []
  filter-dropped d [] = refl
  filter-dropped d (x ∷ xs) = elim (Bool-cases (drop (key x))) [
    | inl t ↦ rw t (filter-dropped d xs)
    | inr t ↦ ground (arith, t, d, filter-dropped d xs)
  ]

  filter-left :
      drop id ≡ false
      → (xs : List A) → filter (λ x. key x == id) (left xs) ≡ filter (λ x. key x == id) xs
  filter-left d [] = refl
  filter-left d (x ∷ xs) = elim (Bool-cases (drop (key x))) [
    | inl t ↦ ground (arith, t, d, filter-left d xs)
    | inr t ↦ ground (arith, t, d, filter-left d xs)
  ]

-- A schedule is left if its account is not dropped and its item is left.
module _ (drop : ℕ → Bool) (left : AutoLeave → Bool) (id : ℕ) where
  schedules-dropped :
      drop id ≡ true
      → (ls : List AutoLeave)
      → filter (λ l. l.account_id == id) (filter (λ l. not (drop l.account_id) && left l) ls) ≡ []
  schedules-dropped d [] = refl
  schedules-dropped d (l ∷ ls) = elim (Bool-cases (not (drop l.account_id) && left l)) [
    | inl t ↦ ground (arith, t, d, schedules-dropped d ls)
    | inr t ↦ rw t (schedules-dropped d ls)
  ]

  schedules-left :
      drop id ≡ false
      → (ls : List AutoLeave)
      → filter
          (λ l. l.account_id == id && left l)
          (filter (λ l. not (drop l.account_id) && left l) ls)
        ≡ filter (λ l. l.account_id == id && left l) ls
  schedules-left d [] = refl
  schedules-left d (l ∷ ls) = elim (Bool-cases (not (drop l.account_id) && left l)) [
    | inl t ↦ ground (arith, t, d, schedules-left d ls)
    | inr t ↦ ground (arith, t, d, schedules-left d ls)
  ]

abbrev pub nothing : Deletion
nothing = record { deleted = 0; sessions = [] }

all-selected :
    (p : Account → Bool) (drop : ℕ → Bool) (xs : List Account)
    → ((id : ℕ) → any (λ a. p a && (a.id == id)) xs ≡ true → drop id ≡ true)
    → filter p (filter (λ a. not (drop a.id)) xs) ≡ []
all-selected p drop [] h = refl
all-selected p drop (x ∷ xs) h =
    let later = all-selected p drop xs (λ id e. h id (ground (arith, e))) in
    elim (Bool-cases (p x)) [
      | inl t ↦ let d : drop x.id ≡ true = h x.id (ground (arith, t)) in rw d later
      | inr t ↦ ground (arith, t, later)
    ]

module _ (p : Account → Bool) (db : Db) where
  abbrev doomed : List Account
  doomed = filter p db.accounts

  cascade-IsDeleted : IsDeleted p db (cascade doomed db)
  unfolding cascade
  cascade-IsDeleted = record {
    gone = λ id h.
        let d : is_one_of doomed id ≡ true = rw (is_one_of-filter p id db.accounts) h in
        (
          find?-dropped (λ (a : Account). a.id) (is_one_of doomed) id d db.accounts,
          find?-dropped (λ (c : Credential). c.account_id) (is_one_of doomed) id d db.credentials,
          filter-dropped (λ (m : Membership). m.account_id) (is_one_of doomed) id d db.memberships,
          filter-dropped (λ (t : Throttle). t.account_id) (is_one_of doomed) id d db.throttles,
          filter-dropped (λ (v : PostView). v.account_id) (is_one_of doomed) id d db.post_views,
          filter-dropped (λ (i : Item). i.account_id) (is_one_of doomed) id d db.items,
          schedules-dropped (is_one_of doomed) (is_schedule_left (cascade doomed db)) id d
              db.schedules,
        );
    kept = λ id h.
        let d : is_one_of doomed id ≡ false = rw (is_one_of-filter p id db.accounts) h in
        (
          find?-left (λ (a : Account). a.id) (is_one_of doomed) id d db.accounts,
          find?-left (λ (c : Credential). c.account_id) (is_one_of doomed) id d db.credentials,
          filter-left (λ (m : Membership). m.account_id) (is_one_of doomed) id d db.memberships,
          filter-left (λ (t : Throttle). t.account_id) (is_one_of doomed) id d db.throttles,
          filter-left (λ (v : PostView). v.account_id) (is_one_of doomed) id d db.post_views,
          filter-left (λ (i : Item). i.account_id) (is_one_of doomed) id d db.items,
          schedules-left (is_one_of doomed) (is_schedule_left (cascade doomed db)) id d
              db.schedules,
        );
    rest = (refl, refl, refl, refl, refl, refl, refl);
  }

  none-IsDeleted : doomed ≡ [] → IsDeleted p db db
  none-IsDeleted e = record {
    gone = λ id h.
        absurd (ground (arith, h, is_one_of-filter p id db.accounts, ap (λ xs. is_one_of xs id) e));
    kept = λ id h. (refl, refl, refl, refl, refl, refl, refl);
    rest = (refl, refl, refl, refl, refl, refl, refl);
  }

  rows-IsDeleted : IsDeleted p db (delete_rows p db).1
  unfolding delete_rows
  rows-IsDeleted = go doomed refl
    where
      go : (xs : List Account) → doomed ≡ xs → IsDeleted p db (delete_doomed doomed db)
      go [] e =
          subst (λ (y : List Account). IsDeleted p db (delete_doomed y db)) (sym e)
            (none-IsDeleted e)
      go (x ∷ xs) e =
          subst (λ (y : List Account). IsDeleted p db (delete_doomed y db)) (sym e)
            (subst (λ (y : List Account). IsDeleted p db (cascade y db)) e cascade-IsDeleted)

  rows-again : delete_rows p (delete_rows p db).1 ≡ (nothing, (delete_rows p db).1)
  unfolding delete_rows cascade
  rows-again = nothing_left (delete_doomed doomed db) (none_left doomed refl)
    where
      nothing_left : (d : Db) → filter p d.accounts ≡ [] → delete_rows p d ≡ (nothing, d)
      nothing_left d e = rw e refl

      none_left : (xs : List Account) → doomed ≡ xs → filter p (delete_doomed xs db).accounts ≡ []
      none_left [] e = e
      none_left (x ∷ xs) e = all-selected p (is_one_of (x ∷ xs)) db.accounts (λ id t.
          ap (λ (ys : List Account). is_one_of ys id) (sym e)
          ∙ is_one_of-filter p id db.accounts
          ∙ t)

answer :
    (id : Option ℕ) (session phone : Option String) (p : Account → Bool) (db : Db)
    → selects id session phone ≡ some p
    → delete_worker_account id session phone db ≡ (some (delete_rows p db).0, (delete_rows p db).1)
unfolding delete_worker_account
answer id session phone p db h = rw (h, delete_worker_account) refl

-- A deletion takes the selected rows, with their sessions, memberships, throttles, post views, items
-- and schedules, and leaves those of any other account, but for schedules whose item is gone. Orders,
-- nonces, ids and tasks stay. The same call again finds nothing and changes nothing.
pub delete_worker_account-IsDeleted :
    (id : Option ℕ) (session phone : Option String) (p : Account → Bool) (db : Db)
    → selects id session phone ≡ some p
    → let db' = (delete_worker_account id session phone db).1 in
      IsDeleted p db db' × (delete_worker_account id session phone db' ≡ (some nothing, db'))
delete_worker_account-IsDeleted id session phone p db h = rw (answer id session phone p db h) (
  rows-IsDeleted p db,
  answer id session phone p (delete_rows p db).1 h
      ∙ ap (λ (x : Deletion × Db). (some x.0, x.1)) (rows-again p db),
)
