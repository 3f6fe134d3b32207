-- ===== src/Worker/Accounts/Rows/Keyed.antt =====
-- Account rows: the newest of some rows, and ids as keys.
use rubigram.Base.{
  ltb, ◌==◌, Bool-cases, filter, any, find?, count, All, any-append-last, ℕ, ◌≤◌, ◌<◌, String, ◌≡◌,
  refl, ◌⊎◌, inl, inr, Bool, true, Option, none, some, List, [], ◌∷◌, ◌++◌, arith,
}
use rubigram.Worker.Model.{Account, Credential, Throttle}
use rubigram.Worker.Db.{Db}
use rubigram.Worker.Accounts.Rows.{
  newest, is_credential_of, is_throttle_of, credential, put_credential, fresh_throttle,
  ensure_throttle_row,
}

-- Membership, as a sum that the proofs take apart.
unfoldable pub Has : Account → List Account → Type 0
Has a [] = ⊥
Has a (x ∷ xs) = (x ≡ a) ⊎ Has a xs

pub newest-Has : (xs : List Account) (a : Account) → newest xs ≡ some a → Has a xs
unfolding newest Has
newest-Has [] a h = absurd (cc)
newest-Has (x ∷ xs) a h = go (newest xs) refl (newest-Has xs a)
  where
    go : (o : Option Account) → newest xs ≡ o → (newest xs ≡ some a → Has a xs) → (x ≡ a) ⊎ Has a xs
    go none e later = inl (ground (arith, e, h))
    go (some b) e later = elim (Bool-cases (ltb x.created_at b.created_at)) [
      | inl t ↦ inr (later (ground (arith, e, h, t)))
      | inr t ↦ inl (ground (arith, e, h, t))
    ]

pub filter-Has :
    (p : Account → Bool) (xs : List Account) (a : Account)
    → Has a (filter p xs)
    → Has a xs × (p a ≡ true)
unfolding Has
filter-Has p [] a h = elim h [ ]
filter-Has p (x ∷ xs) a h = elim (Bool-cases (p x)) [
  | inl t ↦ kept (rw t at h) t (filter-Has p xs a)
  | inr t ↦ let r = filter-Has p xs a (rw t at h) in (inr r.0, r.1)
]
  where
    kept :
        (x ≡ a) ⊎ Has a (filter p xs)
        → p x ≡ true
        → (Has a (filter p xs) → Has a xs × (p a ≡ true))
        → ((x ≡ a) ⊎ Has a xs) × (p a ≡ true)
    kept (inl e) t later = (inl e, rw e at t)
    kept (inr e) t later = let r = later e in (inr r.0, r.1)

pub Has-count : (xs : List Account) (a : Account) → Has a xs → 1 ≤ count (λ b. b.id == a.id) xs
unfolding Has
Has-count [] a h = elim h [ ]
Has-count (x ∷ xs) a (inl e) = ground (arith, e)
Has-count (x ∷ xs) a (inr h) = ground (arith, Has-count xs a h)

pub Has-find :
    (xs : List Account) (a : Account)
    → count (λ b. b.id == a.id) xs ≤ 1
    → Has a xs
    → find? (λ b. b.id == a.id) xs ≡ some a
unfolding Has
Has-find [] a u h = elim h [ ]
Has-find (x ∷ xs) a u (inl e) = ground (arith, e)
Has-find (x ∷ xs) a u (inr h) = ground (arith, Has-count xs a h, Has-find xs a, h)

pub find?-append-last {ℓ} :
    {A : Type ℓ} (p : A → Bool) (xs : List A) (x : A)
    → count p xs ≡ 0
    → p x ≡ true
    → find? p (xs ++ x ∷ []) ≡ some x
find?-append-last p [] x h e = rw e refl
find?-append-last p (y ∷ ys) x h e = elim (Bool-cases (p y)) [
  | inl t ↦ absurd (ground (arith, h, t))
  | inr t ↦ rw t (find?-append-last p ys x (ground (arith, h, t)) e)
]

pub put_credential-find :
    (id : ℕ) (session : String) (cs : List Credential)
    → find? (is_credential_of id) (put_credential id session cs) ≡ some (credential id session)
unfolding put_credential
put_credential-find id session [] = ground arith
put_credential-find id session (c ∷ cs) = elim (Bool-cases (is_credential_of id c)) [
  | inl t ↦ ground (arith, t)
  | inr t ↦ ground (arith, t, put_credential-find id session cs)
]

pub ensure_throttle_row-any :
    (id : ℕ) (ts : List Throttle) → any (is_throttle_of id) (ensure_throttle_row id ts) ≡ true
unfolding ensure_throttle_row
ensure_throttle_row-any id ts = elim (Bool-cases (any (is_throttle_of id) ts)) [
  | inl t ↦ rw t t
  | inr t ↦ rw t (any-append-last (is_throttle_of id) ts (fresh_throttle id) (ground arith))
]

-- Ids are keys, and the next id of an account is above those that rows hold.
pub record IsKeyed (db : Db) : Type 0 where
  pub unique : (id : ℕ) → count (λ a. a.id == id) db.accounts ≤ 1
  pub accounts_below : All (λ a. a.id < db.next_account_id) db.accounts
  pub credentials_below : All (λ c. c.account_id < db.next_account_id) db.credentials

pub none-above :
    {A : Type 0} (key : A → ℕ) (n : ℕ) (xs : List A)
    → All (λ x. key x < n) xs
    → count (λ x. key x == n) xs ≡ 0
none-above key n [] h = refl
none-above key n (x ∷ xs) h = ground (arith, h.0, none-above key n xs h.1)

pub new_account : (db : Db) → IsKeyed db → count (λ a. a.id == db.next_account_id) db.accounts ≡ 0
new_account db keyed =
    none-above (λ (a : Account). a.id) db.next_account_id db.accounts keyed.accounts_below

pub new_credential :
    (db : Db) → IsKeyed db → count (is_credential_of db.next_account_id) db.credentials ≡ 0
new_credential db keyed =
    none-above (λ (c : Credential). c.account_id) db.next_account_id db.credentials
      keyed.credentials_below
