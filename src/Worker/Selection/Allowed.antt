-- ===== src/Worker/Selection/Allowed.antt =====
-- What an account must satisfy to take part in an order, said of the rows of the tables.
use mathlib.Core.List.{Memᴰ}
use rubigram.Base.{
  ◌==◌, ==_iff, Bool-cases, any, All, All-map-fun, All-always, ℕ, ◌+◌, ◌≤◌, String, ◌≡◌, ◌≢◌, refl,
  sym, inl, inr, ◌⊎◌, Bool, true, false, ◌&&◌, some, List, [], ◌∷◌, arith, eq_iff,
}
use rubigram.Worker.Model.{
  Action, join, leave, view, AccountStatus, JobStatus, ItemStatus, Account, Membership, Job, Item,
  is_reserved, is_active_account, same_action,
}
use rubigram.Worker.Db.{
  Db, Settings, job_reserves, is_reserved_for, is_joined, is_paused, has_viewed,
}

-- No item of the account waits or runs for an order of the action on the target that is PENDING,
-- INPROGRESS or ACTIVE.
abbrev pub Unreserved : Action → String → Db → Account → Type 0
Unreserved action key db a =
    All
      (λ i.
        i.account_id ≡ a.id
        → All
            (λ j.
              j.id ≡ i.job_id
              → j.action ≡ action
              → j.target_key ≡ key
              → (j.status ≡ JobStatus.pending)
                ⊎ ((j.status ≡ JobStatus.inprogress) ⊎ (j.status ≡ JobStatus.active))
              → (i.status ≢ ItemStatus.pending) × (i.status ≢ ItemStatus.running))
            db.jobs)
      db.items

-- The account's throttle is over.
abbrev pub Unpaused : ℕ → Db → Account → Type 0
Unpaused now db a =
    All (λ t. t.account_id ≡ a.id → (u : ℕ) → t.next_available_at ≡ some u → u ≤ now) db.throttles

abbrev pub NotMember : String → Db → Account → Type 0
NotMember key db a =
    All (λ m. m.account_id ≡ a.id → m.target_key ≡ key → m.joined ≡ false) db.memberships

-- Each view of the target by the account lies at least the cooldown back.
abbrev pub NotViewer : Settings → ℕ → String → Db → Account → Type 0
NotViewer s now key db a =
    All (λ v. v.account_id ≡ a.id → v.target_key ≡ key → v.viewed_at + s.view_review_cooldown ≤ now)
      db.post_views

abbrev pub IsMember : String → Db → Account → Type 0
IsMember key db a =
    (m : Membership) × Memᴰ m db.memberships
    × (m.account_id ≡ a.id)
    × (m.target_key ≡ key)
    × (m.joined ≡ true)

-- Whether the account may take part in an order of the action on the target.
abbrev pub MayAct : Settings → ℕ → Action → String → Db → Account → Type 0
MayAct s now join key db a =
    (a.status ≡ AccountStatus.active)
    × Unpaused now db a
    × NotMember key db a
    × Unreserved join key db a
MayAct s now view key db a =
    (a.status ≡ AccountStatus.active) × NotViewer s now key db a × Unreserved view key db a
MayAct s now leave key db a = (a.status ≡ AccountStatus.active) × IsMember key db a

module _ {ℓ} {A : Type ℓ} where
  pub All-none_of : (p : A → Bool) (xs : List A) → any p xs ≡ false → All (λ x. p x ≡ false) xs
  All-none_of p [] h = tt
  All-none_of p (x ∷ xs) h = (ground arith, All-none_of p xs (ground arith))

  some_of : (p : A → Bool) (xs : List A) → any p xs ≡ true → (x : A) × Memᴰ x xs × (p x ≡ true)
  some_of p [] h = cc
  some_of p (x ∷ xs) h = elim (Bool-cases (p x)) [
    | inl e ↦ (x, Memᴰ.head refl, e)
    | inr e ↦ let (y, m, t) = some_of p xs (ground arith) in (y, Memᴰ.tail m, t)
  ]

pub is_active_account_lem :
    (a : Account) → is_active_account a ≡ true → a.status ≡ AccountStatus.active
is_active_account_lem a h = ground arith

pub is_paused-Unpaused :
    (now : ℕ) (db : Db) (a : Account) → is_paused now db a.id ≡ false → Unpaused now db a
unfolding is_paused
is_paused-Unpaused now db a h =
    All-map-fun (λ t e same u at. ground (arith, ==_iff t.account_id a.id)) db.throttles
      (All-none_of _ db.throttles h)

same_action_iff : (a b : Action) → a ≡ b → same_action a b ≡ true
same_action_iff join b e = rw (sym e) refl
same_action_iff leave b e = rw (sym e) refl
same_action_iff view b e = rw (sym e) refl

reserving :
    (action : Action) (key : String) (id : ℕ) (j : Job)
    → (j.id == id && job_reserves action key j) ≡ false
    → j.id ≡ id
    → j.action ≡ action
    → j.target_key ≡ key
    → (j.status ≡ JobStatus.pending)
      ⊎ ((j.status ≡ JobStatus.inprogress) ⊎ (j.status ≡ JobStatus.active))
    → ⊥
reserving action key id j n same act target open_ =
    ground (
      arith,
      ==_iff j.id id,
      same_action_iff j.action action act,
      (eq_iff j.target_key key).1 target,
    )

pub is_reserved_for-Unreserved :
    (action : Action) (key : String) (db : Db) (a : Account)
    → is_reserved_for action key db a.id ≡ false
    → Unreserved action key db a
unfolding is_reserved_for
is_reserved_for-Unreserved action key db a h = All-map-fun item db.items (All-none_of _ db.items h)
  where
    item :
        (i : Item)
        → (i.account_id == a.id
            && (is_reserved i.status
                && any (λ j. j.id == i.job_id && job_reserves action key j) db.jobs))
          ≡ false
        → i.account_id ≡ a.id
        → All
            (λ j.
              j.id ≡ i.job_id
              → j.action ≡ action
              → j.target_key ≡ key
              → (j.status ≡ JobStatus.pending)
                ⊎ ((j.status ≡ JobStatus.inprogress) ⊎ (j.status ≡ JobStatus.active))
              → (i.status ≢ ItemStatus.pending) × (i.status ≢ ItemStatus.running))
            db.jobs
    item i e mine = elim (Bool-cases (is_reserved i.status)) [
      | inl r ↦
          All-map-fun
            (λ j n same act target open_.
              absurd (reserving action key i.job_id j n same act target open_))
            db.jobs (All-none_of _ db.jobs (ground (arith, mine, r, ==_iff i.account_id a.id)))
      | inr r ↦
          All-always _ db.jobs (λ j same act target open_. (λ p. ground arith, λ p. ground arith))
    ]

pub has_viewed-NotViewer :
    (s : Settings) (now : ℕ) (key : String) (db : Db) (a : Account)
    → has_viewed s now key db a.id ≡ false
    → NotViewer s now key db a
unfolding has_viewed
has_viewed-NotViewer s now key db a h =
    All-map-fun
      (λ v e same target. ground (arith, ==_iff v.account_id a.id, eq_iff v.target_key key))
      db.post_views (All-none_of _ db.post_views h)

pub is_joined-NotMember :
    (key : String) (db : Db) (a : Account) → is_joined key db a.id ≡ false → NotMember key db a
unfolding is_joined
is_joined-NotMember key db a h =
    All-map-fun
      (λ m e same target. ground (arith, ==_iff m.account_id a.id, eq_iff m.target_key key))
      db.memberships (All-none_of _ db.memberships h)

pub is_joined-IsMember :
    (key : String) (db : Db) (a : Account) → is_joined key db a.id ≡ true → IsMember key db a
unfolding is_joined
is_joined-IsMember key db a h =
    let (m, mem, e) = some_of _ db.memberships h in
    (
      m,
      mem,
      ground (arith, ==_iff m.account_id a.id),
      (eq_iff m.target_key key).0 (ground arith),
      ground arith,
    )
