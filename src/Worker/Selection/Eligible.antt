-- ===== src/Worker/Selection/Eligible.antt =====
-- Which accounts `select_accounts` hands out, and how many, against `count_free_accounts`.
use rubigram.Base.Sort.{sort, count-sort, All-sort}
use rubigram.Base.{
  ◌≢◌, ◌==◌, ==_iff, ==_self, Bool-cases, Option-cases, length, take, filter, any, All, length-take,
  length-filter, All-filter, All-take, All-map-fun, filter_everyone, find?-holds, ℕ, ◌≤◌, min,
  String, ◌≡◌, refl, inl, inr, Bool, true, false, ◌&&◌, ◌||◌, some, List, [], ◌∷◌, arith, str_eq,
}
use rubigram.Worker.Model.{
  Action, join, leave, view, Account, Membership, is_active_account, same_action,
}
use rubigram.Worker.Db.{Db, Settings, find_account, is_joined}
use rubigram.Worker.Selection.Allowed.{
  MayAct, All-none_of, is_active_account_lem, is_paused-Unpaused, is_joined-NotMember,
  is_reserved_for-Unreserved, has_viewed-NotViewer, is_joined-IsMember,
}
use rubigram.Worker.Selection.{
  by_id, may_view, view_candidates, may_join, is_available, joined_later, accounts_of,
  has_active_account, select_accounts, count_free_accounts,
}

-- The test that the code makes of an account.
abbrev may_act : Settings → ℕ → Action → String → Db → Account → Bool
may_act s now join key db a = may_join now key db a
may_act s now view key db a = may_view s now key db a
may_act s now leave key db a = is_joined key db a.id && is_active_account a

module _ {ℓ} {A : Type ℓ} where
  All-any :
      (p : ℕ → A → Bool) (xs : List A) → All (λ x. (k : ℕ) → p k x ≡ true → any (p k) xs ≡ true) xs
  All-any p [] = tt
  All-any p (x ∷ xs) =
      (λ k h. ground arith, All-map-fun (λ y h k e. ground (arith, h k e)) xs (All-any p xs))

  All-filter_with {κ} :
      (P : A → Type κ) (p : A → Bool) (xs : List A)
      → All P xs
      → All (λ x. (p x ≡ true) × P x) (filter p xs)
  All-filter_with P p [] h = tt
  All-filter_with P p (x ∷ xs) h = elim (Bool-cases (p x)) [
    | inl e ↦ rw e ((e, h.0), All-filter_with P p xs h.1)
    | inr e ↦ rw e (All-filter_with P p xs h.1)
  ]

same_leave : (a : Action) → same_action a leave ≡ true → a ≡ leave
same_leave join e = cc
same_leave leave e = refl
same_leave view e = cc

may_act-MayAct :
    (s : Settings) (now : ℕ) (action : Action) (key : String) (db : Db) (a : Account)
    → may_act s now action key db a ≡ true
    → MayAct s now action key db a
unfolding may_join may_view
may_act-MayAct s now join key db a h = (
  is_active_account_lem a (ground arith),
  is_paused-Unpaused now db a (ground arith),
  is_joined-NotMember key db a (ground arith),
  is_reserved_for-Unreserved join key db a (ground arith),
)
may_act-MayAct s now view key db a h = (
  is_active_account_lem a (ground arith),
  has_viewed-NotViewer s now key db a (ground arith),
  is_reserved_for-Unreserved view key db a (ground arith),
)
may_act-MayAct s now leave key db a h =
    (is_active_account_lem a (ground arith), is_joined-IsMember key db a (ground arith))

-- The accounts of the memberships that say so are members, and active.
accounts_of-members :
    (key : String) (db : Db) (ms : List Membership)
    → All (λ m. (is_joined key db m.account_id && has_active_account db m) ≡ true) ms
    → All (λ a. (is_joined key db a.id && is_active_account a) ≡ true) (accounts_of db ms)
unfolding accounts_of has_active_account
accounts_of-members key db [] h = tt
accounts_of-members key db (m ∷ ms) (h, hs) = elim (Option-cases (find_account m.account_id db)) [
  | inl e ↦ rw (e, accounts_of) (accounts_of-members key db ms hs)
  | inr (a, e) ↦
      let named : a.id ≡ m.account_id =
        (==_iff a.id m.account_id).0 (find?-holds (λ x. x.id == m.account_id) db.accounts a e) in
      rw (e, accounts_of) (member a named e, accounts_of-members key db ms hs)
]
  where
    member :
        (a : Account)
        → a.id ≡ m.account_id
        → find_account m.account_id db ≡ some a
        → (is_joined key db a.id && is_active_account a) ≡ true
    member a named e = rw named (rw (e, has_active_account) at h)

length-accounts_of : (db : Db) (ms : List Membership) → length (accounts_of db ms) ≤ length ms
unfolding accounts_of
length-accounts_of db [] = omega arith
length-accounts_of db (m ∷ ms) = ground (arith, length-accounts_of db ms)

-- The joined memberships of a target, of accounts that are active.
members : (key : String) (db : Db) → List Membership
members key db =
    filter (λ m. str_eq m.target_key key && (m.joined && has_active_account db m)) db.memberships

members-joined :
    (key : String) (db : Db)
    → All (λ m. (is_joined key db m.account_id && has_active_account db m) ≡ true) (members key db)
unfolding members is_joined
members-joined key db = All-map-fun joined (members key db) (
    All-filter_with
      (λ m.
        (k : ℕ)
        → (m.account_id == k && (str_eq m.target_key key && m.joined)) ≡ true
        → is_joined key db k ≡ true)
      _ db.memberships
      (All-any (λ k m. m.account_id == k && (str_eq m.target_key key && m.joined)) db.memberships))
  where
    joined :
        (m : Membership)
        → ((str_eq m.target_key key && (m.joined && has_active_account db m)) ≡ true)
          × ((k : ℕ)
              → (m.account_id == k && (str_eq m.target_key key && m.joined)) ≡ true
              → is_joined key db k ≡ true)
        → (is_joined key db m.account_id && has_active_account db m) ≡ true
    joined m (t, g) = ground (arith, g m.account_id, ==_self m.account_id)

module _ (s : Settings) (locked : ℕ → Bool) (now : ℕ) where
  passed :
      (lock : Bool) (action : Action) (key : String) (n : ℕ) (excluded : List ℕ) (db : Db)
      → All
          (λ a.
            (may_act s now action key db a ≡ true)
            × ((same_action action leave || is_available lock locked excluded a) ≡ true))
          (select_accounts s locked now lock action key n excluded db)
        × (length (select_accounts s locked now lock action key n excluded db) ≤ n)
  unfolding select_accounts view_candidates members
  passed lock join key n excluded db =
      let free : List Account =
        filter (is_available lock locked excluded) (sort by_id db.accounts) in
      (
        All-take _ n _ (
            All-filter_with (λ a. is_available lock locked excluded a ≡ true) (may_join now key db)
              free (All-filter (is_available lock locked excluded) (sort by_id db.accounts))),
        omega (arith, length-take {0} n (filter (may_join now key db) free)),
      )
  passed lock view key n excluded db =
      let free : List Account = filter (may_view s now key db) (sort by_id db.accounts) in
      (
        All-take _ n _ (
            All-map-fun (λ a h. (h.1, h.0)) _
              (All-filter_with (λ a. may_view s now key db a ≡ true)
                (is_available lock locked excluded) free
                (All-filter (may_view s now key db) (sort by_id db.accounts)))),
        omega (arith, length-take {0} n (filter (is_available lock locked excluded) free)),
      )
  passed lock leave key n excluded db = (
    All-map-fun (λ a h. (h, refl)) _
        (accounts_of-members key db _
          (All-take _ n _ (All-sort joined_later _ _ (members-joined key db)))),
    omega (
      arith,
      length-accounts_of db (take n (sort joined_later (members key db))),
      length-take {0} n (sort joined_later (members key db)),
    ),
  )

  -- At most as many accounts are handed out as asked for, and each is ACTIVE. For a join its
  -- throttle is over, no membership row says that it has joined the target, and none of its items
  -- waits or runs for an open join order of the target. For a view each of its views of the target
  -- lies the cooldown back, and none of its items waits or runs for an open view order of the target.
  -- For a join or a view it is not excluded and, where rows are to be locked, no other transaction
  -- holds it. For a leave a membership row says that it has joined the target.
  pub select_accounts-eligible :
      (lock : Bool) (action : Action) (key : String) (n : ℕ) (excluded : List ℕ) (db : Db)
      → (length (select_accounts s locked now lock action key n excluded db) ≤ n)
        × All
            (λ a.
              MayAct s now action key db a
              × (action ≢ leave
                  → (lock ≡ true → locked a.id ≡ false) × All (λ id. id ≢ a.id) excluded))
            (select_accounts s locked now lock action key n excluded db)
  select_accounts-eligible lock action key n excluded db =
      let (h, le) = passed lock action key n excluded db in
      (le, All-map-fun (λ a both. (may_act-MayAct s now action key db a both.0, free a both.1)) _ h)
    where
      free :
          (a : Account)
          → (same_action action leave || is_available lock locked excluded a) ≡ true
          → action ≢ leave
          → (lock ≡ true → locked a.id ≡ false) × All (λ id. id ≢ a.id) excluded
      free a h other = elim (Bool-cases (any (λ id. id == a.id) excluded)) [
        | inl e ↦ absurd (ground (arith, same_leave action))
        | inr e ↦ (
          λ l. ground (arith, same_leave action),
          All-map-fun (λ id ne same. ground (arith, ==_iff id a.id)) excluded
              (All-none_of (λ id. id == a.id) excluded e),
        )
      ]

module _ (s : Settings) (now : ℕ) where
  everyone_free : (lock : Bool) (a : Account) → is_available lock (λ id. false) [] a ≡ true
  everyone_free lock a = ground arith

  all_free : (lock : Bool) (xs : List Account) → filter (is_available lock (λ id. false) []) xs ≡ xs
  all_free lock xs = filter_everyone (is_available lock (λ id. false) []) xs (everyone_free lock)

  -- Where no other transaction holds a row and no account is excluded, a join or a view is given as
  -- many accounts as it asks for, or all that `count_free_accounts` counts when they are fewer.
  pub select_accounts-count :
      (lock : Bool) (action : Action) (key : String) (n : ℕ) (db : Db)
      → same_action action leave ≡ false
      → length (select_accounts s (λ id. false) now lock action key n [] db)
        ≡ min n (count_free_accounts s now action key db)
  unfolding select_accounts count_free_accounts view_candidates
  select_accounts-count lock join key n db h = rw (all_free lock (sort by_id db.accounts)) (
      omega (
        arith,
        length-take {0} n (filter (may_join now key db) (sort by_id db.accounts)),
        length-filter (may_join now key db) (sort by_id db.accounts),
        count-sort by_id (may_join now key db) db.accounts,
      ))
  select_accounts-count lock view key n db h =
      rw (all_free lock (view_candidates s now key db))
        (length-take n (view_candidates s now key db))
  select_accounts-count lock leave key n db h = absurd (cc)
