-- ===== src/Worker/Selection.antt =====
-- jobs.py, account selection: which accounts may take part in an order, and how many are free.
use rubigram.Base.{
  ltb, ◌==◌, if◌then◌else◌, length, take, filter, any, count, ℕ, String, Bool, true, false, not,
  ◌&&◌, none, some, List, [], ◌∷◌, str_eq,
}
use rubigram.Base.Sort.{sort}
use rubigram.Worker.Model.{Action, join, leave, view, Account, Membership, is_active_account}
use rubigram.Worker.Db.{
  Db, Settings, find_account, is_reserved_for, is_joined, is_paused, has_viewed,
}
pub mod Allowed
pub mod Eligible

-- `.order_by("id")`
abbrev pub by_id : Account → Account → Bool
by_id a b = ltb a.id b.id

-- The accounts that `view_candidates` keeps: active, not recent viewers, not reserved for a view.
unfoldable pub may_view : Settings → ℕ → String → Db → Account → Bool
may_view s now key db a =
    is_active_account a
    && (not (has_viewed s now key db a.id) && not (is_reserved_for view key db a.id))

unfoldable pub view_candidates : Settings → ℕ → String → Db → List Account
view_candidates s now key db = filter (may_view s now key db) (sort by_id db.accounts)

-- The accounts free for a join: active, not paused, not members, not reserved for a join.
unfoldable pub may_join : ℕ → String → Db → Account → Bool
may_join now key db a =
    is_active_account a
    && (not (is_paused now db a.id)
        && (not (is_joined key db a.id) && not (is_reserved_for join key db a.id)))

-- Rows that `select_for_update(skip_locked=True)` passes over, and those in the list to exclude.
abbrev pub is_available : Bool → (ℕ → Bool) → List ℕ → Account → Bool
is_available lock locked excluded a =
    not (lock && locked a.id) && not (any (λ id. id == a.id) excluded)

-- `-joined_at, -updated_at`; a missing time sorts first, as it does for PostgreSQL
unfoldable pub joined_later : Membership → Membership → Bool
joined_later m n = elim m.joined_at [
  | none ↦ elim n.joined_at [ none ↦ ltb n.updated_at m.updated_at | some _ ↦ true ]
  | some t ↦ elim n.joined_at [
    | none ↦ false
    | some u ↦ if ltb u t then true else t == u && ltb n.updated_at m.updated_at
  ]
]

-- `[membership.account for membership in memberships]`
unfoldable pub accounts_of : Db → List Membership → List Account
accounts_of db [] = []
accounts_of db (m ∷ ms) =
    let rest = accounts_of db ms in
    elim (find_account m.account_id db) [ none ↦ rest | some a ↦ a ∷ rest ]

-- `account__status=ACTIVE`, across the foreign key
unfoldable pub has_active_account : Db → Membership → Bool
has_active_account db m = elim (find_account m.account_id db) [
  | none ↦ false
  | some a ↦ is_active_account a
]

module _ (s : Settings) (locked : ℕ → Bool) (now : ℕ) where
  unfoldable pub select_accounts : Bool → Action → String → ℕ → List ℕ → Db → List Account
  select_accounts lock join key n excluded db = take n (
      filter (may_join now key db)
        (filter (is_available lock locked excluded) (sort by_id db.accounts)))
  select_accounts lock view key n excluded db =
      take n (filter (is_available lock locked excluded) (view_candidates s now key db))
  select_accounts lock leave key n excluded db = accounts_of db (
      take n (
        sort joined_later (
          filter (λ m. str_eq m.target_key key && (m.joined && has_active_account db m))
            db.memberships)))

unfoldable pub count_free_accounts : Settings → ℕ → Action → String → Db → ℕ
count_free_accounts s now view key db = length (view_candidates s now key db)
count_free_accounts s now _ key db = count (may_join now key db) db.accounts
