-- ===== src/Worker/Accounts/Rows/Saved.antt =====
-- Account rows: what save_account leaves.
use rubigram.Base.{
  ltb, ◌==◌, if◌then◌else◌, Bool-cases, length, filter, any, find?, count, length-filter,
  count-append, count-update_where_eq, find?-update_where, any-append-last, ℕ, ◌≤◌, String, ◌≡◌,
  refl, sym, ◌∙◌, inl, inr, true, Option, none, some, List, [], ◌∷◌, ◌++◌, arith, str_eq, eq_iff,
}
use rubigram.Worker.Model.{AccountStatus, Account}
use rubigram.Worker.Db.{Db, find_account}
use rubigram.Worker.Accounts.Rows.{
  newest, has_phone, Signed, refreshed_account, created, is_credential_of, is_throttle_of,
  credential, fresh_throttle, is_taken, save_existing, save_new, save_account,
}
use rubigram.Worker.Accounts.Rows.Keyed.{
  Has, newest-Has, filter-Has, Has-find, find?-append-last, put_credential-find,
  ensure_throttle_row-any, IsKeyed, new_account, new_credential,
}

-- The row `a` holds what was saved, with its session and a throttle; no phone has two rows that
-- had one at most; the orders stay.
pub record IsSaved (x : Signed) (a : Account) (db db' : Db) : Type 0 where
  pub row : find_account a.id db' ≡ some a
  pub phone : a.phone ≡ x.phone
  pub session_name : a.session_name ≡ x.session_name
  pub status : a.status ≡ AccountStatus.active
  pub session :
      find? (is_credential_of a.id) db'.credentials ≡ some (credential a.id x.session_string)
  pub throttle : any (is_throttle_of a.id) db'.throttles ≡ true
  pub one_row :
      (p : String) → count (has_phone p) db.accounts ≤ 1 → count (has_phone p) db'.accounts ≤ 1
  pub jobs : db'.jobs ≡ db.jobs
  pub items : db'.items ≡ db.items

newest-none : (xs : List Account) → newest xs ≡ none → length xs ≡ 0
unfolding newest
newest-none [] h = refl
newest-none (x ∷ xs) h = absurd (go (newest xs) h)
  where
    go :
        (o : Option Account)
        → (elim o [
          | none ↦ some x
          | some b ↦ if ltb x.created_at b.created_at then some b else some x
        ])
          ≡ none
        → ⊥
    go none e = ground (arith, e)
    go (some b) e = ground (arith, e)

-- What an answer of `save_account` shows: a row that is saved, or that nothing was changed.
unfoldable pub SavedOrSame : Signed → Db → Option Account × Db → Type 0
SavedOrSame x db (none, db') = db' ≡ db
SavedOrSame x db (some a, db') = IsSaved x a db db'

module _ (now : ℕ) (x : Signed) (db : Db) (keyed : IsKeyed db) where
  existing-SavedOrSame :
      (b : Account)
      → newest (filter (has_phone x.phone) db.accounts) ≡ some b
      → SavedOrSame x db (save_existing x b db)
  unfolding save_existing SavedOrSame refreshed_account
  existing-SavedOrSame b e = elim (Bool-cases (is_taken x.session_name b.id db.accounts)) [
    | inl t ↦ rw (t, save_existing) refl
    | inr t ↦
        rw (t, save_existing)
          (record {
            row =
                find?-update_where (λ r. r.id == b.id) (refreshed_account x) db.accounts b
                  (λ y. refl) (Has-find db.accounts b (keyed.unique b.id) found.0);
            phone = (eq_iff b.phone x.phone).0 found.1;
            session_name = refl;
            status = refl;
            session = put_credential-find b.id x.session_string db.credentials;
            throttle = ensure_throttle_row-any b.id db.throttles;
            one_row = λ p h. omega (
              arith,
              h,
              count-update_where_eq (has_phone p) (λ r. r.id == b.id) (refreshed_account x)
                  db.accounts (λ y. refl),
            );
            jobs = refl;
            items = refl;
          })
  ]
    where
      found : Has b db.accounts × (has_phone x.phone b ≡ true)
      found =
          filter-Has (has_phone x.phone) db.accounts b
            (newest-Has (filter (has_phone x.phone) db.accounts) b e)

  new-SavedOrSame :
      newest (filter (has_phone x.phone) db.accounts) ≡ none → SavedOrSame x db (save_new now x db)
  unfolding save_new SavedOrSame created
  new-SavedOrSame e = elim (Bool-cases (is_taken x.session_name db.next_account_id db.accounts)) [
    | inl t ↦ rw (t, save_new) refl
    | inr t ↦
        rw (t, save_new)
          (record {
            row =
                find?-append-last (λ r. r.id == db.next_account_id) db.accounts row
                  (new_account db keyed) (ground arith);
            phone = refl;
            session_name = refl;
            status = refl;
            session =
                find?-append-last (is_credential_of db.next_account_id) db.credentials
                  (credential db.next_account_id x.session_string) (new_credential db keyed)
                  (ground arith);
            throttle =
                any-append-last (is_throttle_of db.next_account_id) db.throttles
                  (fresh_throttle db.next_account_id) (ground arith);
            one_row = one_row;
            jobs = refl;
            items = refl;
          })
  ]
    where
      row : Account
      row = created now db.next_account_id x

      first : count (has_phone x.phone) db.accounts ≡ 0
      first = sym (length-filter (has_phone x.phone) db.accounts) ∙ newest-none _ e

      one_row :
          (p : String)
          → count (has_phone p) db.accounts ≤ 1
          → count (has_phone p) (db.accounts ++ row ∷ []) ≤ 1
      one_row p h = elim (Bool-cases (str_eq x.phone p)) [
        | inl t ↦
            let same : x.phone ≡ p = (eq_iff x.phone p).0 t in
            let none_ : count (has_phone p) db.accounts ≡ 0 = rw (← same) first in
            ground (arith, count-append (has_phone p) db.accounts (row ∷ []), none_, t)
        | inr t ↦ ground (arith, count-append (has_phone p) db.accounts (row ∷ []), h, t)
      ]

  -- Where ids are keys, `save_account` either refuses and changes nothing, or a row with the phone
  -- and the session name is active and stored with its session and a throttle; no phone that had
  -- one row at most has two, and no order is touched.
  pub save_account-SavedOrSame : SavedOrSame x db (save_account now x db)
  unfolding save_account
  save_account-SavedOrSame = go (newest (filter (has_phone x.phone) db.accounts)) refl
    where
      go :
          (o : Option Account)
          → newest (filter (has_phone x.phone) db.accounts) ≡ o
          → SavedOrSame x db (save_account now x db)
      go (some b) e = rw (e, save_account) (existing-SavedOrSame b e)
      go none e = rw (e, save_account) (new-SavedOrSame e)
