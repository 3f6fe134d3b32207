-- ===== src/Network/Pool/Laws.antt =====
-- A pool's index and its rotations.
use rubigram.Base.Errors.{ok, err}
use native.Mathlib.Nat.{mod-lt}
use rubigram.Base.{
  Bool-cases, Option-cases, length, get_elem?, ℕ, zero, suc, ◌+◌, ◌-◌, ◌≤◌, String, ◌≡◌, refl, ap,
  ◌∙◌, ◌⊎◌, inl, inr, Bool, true, false, List, [], ◌∷◌, arith, str_eq,
}
use rubigram.Network.Pool.{
  no_urls, UrlPool, at_index, get_current, has_url, index_of, set_current, force_rotate, is_locked,
  rotate, reset, dedupe_onto, kept_index, replace_with, replace, new_pool,
}

-- The index is in range; it is zero when there is no URL.
abbrev pub IsInRange : UrlPool → Type 0
IsInRange p = p.current_index ≤ length p.urls - 1

-- One call of a method, at the time `now`.
pub data PoolCall : Type 0 where
  call_set_current : String → PoolCall
  call_rotate call_force_rotate : ℕ → PoolCall
  call_reset : PoolCall
  call_replace : List String → Bool → PoolCall

pub after_call : PoolCall → UrlPool → UrlPool
after_call (call_set_current url) p = (set_current url p).1
after_call (call_rotate now) p = (rotate now p).1
after_call (call_force_rotate now) p = (force_rotate now p).1
after_call call_reset p = reset p
after_call (call_replace urls strict) p = (replace urls strict p).1

pub after_calls : List PoolCall → UrlPool → UrlPool
after_calls [] p = p
after_calls (c ∷ cs) p = after_calls cs (after_call c p)

index_of-bound :
    (url : String) (urls : List String)
    → has_url url urls ≡ true
    → suc (index_of url urls) ≤ length urls
unfolding index_of has_url
index_of-bound url [] h = absurd (cc)
index_of-bound url (u ∷ us) h = elim (Bool-cases (str_eq u url)) [
  | inl e ↦ rw e (omega arith)
  | inr e ↦ rw e (omega (arith, index_of-bound url us (rw e at h)))
]

force_rotate-IsInRange : (now : ℕ) (p : UrlPool) → IsInRange p → IsInRange (force_rotate now p).1
unfolding force_rotate
force_rotate-IsInRange now p h = go p.urls refl
  where
    go : (urls : List String) → p.urls ≡ urls → IsInRange (force_rotate now p).1
    go [] e = rw (e, force_rotate) (omega (arith, h))
    go (u ∷ us) e =
        let size : length p.urls ≡ suc (length us) = rw e refl in
        rw (e, force_rotate)
          (omega (arith, size, mod-lt (p.current_index + 1) {m = suc (length us)} (omega arith)))

kept_index-bound : (u : String) (us : List String) (p : UrlPool) → kept_index p (u ∷ us) ≤ length us
unfolding kept_index
kept_index-bound u us p = elim (Option-cases (get_elem? p.urls p.current_index)) [
  | inl e ↦ rw (e, kept_index) (omega arith)
  | inr (c, e) ↦ elim (Bool-cases (has_url c (u ∷ us))) [
    | inl t ↦ rw (e, t, kept_index) (omega (arith, index_of-bound c (u ∷ us) t))
    | inr t ↦ rw (e, t, kept_index) (omega arith)
  ]
]

replace_with-IsInRange :
    (strict : Bool) (urls : List String) (p : UrlPool)
    → IsInRange p
    → IsInRange (replace_with strict urls p).1
unfolding replace_with
replace_with-IsInRange true [] p h = h
replace_with-IsInRange false [] p h = omega arith
replace_with-IsInRange true (u ∷ us) p h = omega (arith, kept_index-bound u us p)
replace_with-IsInRange false (u ∷ us) p h = omega (arith, kept_index-bound u us p)

after_call-IsInRange : (c : PoolCall) (p : UrlPool) → IsInRange p → IsInRange (after_call c p)
unfolding after_call set_current rotate reset replace replace_with kept_index
after_call-IsInRange (call_set_current url) p h = elim (Bool-cases (has_url url p.urls)) [
  | inl e ↦ rw (e, after_call, set_current) (omega (arith, index_of-bound url p.urls e))
  | inr e ↦ rw (e, after_call, set_current) h
]
after_call-IsInRange (call_rotate now) p h = elim (Bool-cases (is_locked now p)) [
  | inl e ↦ rw (e, after_call, rotate) h
  | inr e ↦ rw (e, after_call, rotate) (force_rotate-IsInRange now p h)
]
after_call-IsInRange (call_force_rotate now) p h = force_rotate-IsInRange now p h
after_call-IsInRange call_reset p h = omega arith
after_call-IsInRange (call_replace urls strict) p h =
    replace_with-IsInRange strict (dedupe_onto [] urls) p h

in_range-at :
    (urls : List String) (i : ℕ) → suc i ≤ length urls → (u : String) × (at_index urls i ≡ ok u)
unfolding at_index
in_range-at [] i h = absurd (omega (arith, h))
in_range-at (u ∷ us) zero h = (u, refl)
in_range-at (u ∷ us) (suc i) h = in_range-at us i (omega (arith, h))

-- What `get_current` may answer: never an index error.
abbrev pub Answers : UrlPool → Type 0
Answers p =
    ((p.urls ≡ []) × (get_current p ≡ err no_urls)) ⊎ ((u : String) × (get_current p ≡ ok u))

pub current-at :
    (p : UrlPool) (u : String) (us : List String)
    → p.urls ≡ u ∷ us
    → get_current p ≡ at_index p.urls p.current_index
unfolding get_current
current-at p u us e = rw (e, get_current) (ap (λ xs. at_index xs p.current_index) e)

current-Answers : (p : UrlPool) → IsInRange p → Answers p
unfolding get_current
current-Answers p h = go p.urls refl
  where
    go : (urls : List String) → p.urls ≡ urls → Answers p
    go [] e = inl (e, rw (e, get_current) refl)
    go (u ∷ us) e =
        let size : length p.urls ≡ suc (length us) = rw e refl in
        let found = in_range-at p.urls p.current_index (omega (arith, size, h)) in
        inr (found.0, current-at p u us e ∙ found.1)

after_calls-IsInRange :
    (cs : List PoolCall) (p : UrlPool) → IsInRange p → IsInRange (after_calls cs p)
unfolding after_calls
after_calls-IsInRange [] p h = h
after_calls-IsInRange (c ∷ cs) p h =
    after_calls-IsInRange cs (after_call c p) (after_call-IsInRange c p h)

-- After any calls on a new pool, `get_current` answers a URL, or that there is none when the pool is
-- empty; its index is never out of range.
pub get_current-Answers :
    (urls : List String) (switch_lock : ℕ) (cs : List PoolCall)
    → Answers (after_calls cs (new_pool urls switch_lock))
unfolding new_pool replace
get_current-Answers urls switch_lock cs = current-Answers _ (
    after_calls-IsInRange cs _ (replace_with-IsInRange false (dedupe_onto [] urls) _ (omega arith)))
