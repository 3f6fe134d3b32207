-- ===== src/Network/Pool/Replaced.antt =====
-- `replace` of a pool: the URL in use survives when it can.
use mathlib.Core.Path.{subst}
use rubigram.Base.{
  Bool-cases, Option-cases, get_elem?, any-append-last, any-append-one, is_empty, ℕ, String, ◌≡◌,
  refl, sym, ap, ◌∙◌, inl, inr, Bool, true, false, not, ◌&&◌, some, List, [], ◌∷◌, ◌++◌, arith,
  str_eq, eq_iff,
}
use rubigram.Base.Errors.{Result, ok, err}
use rubigram.Network.Pool.{
  PoolError, UrlPool, at_index, get_current, has_url, index_of, dedupe_onto, kept_index,
  replace_with, replace,
}
use rubigram.Network.Pool.Laws.{current-at}

at-index_of :
    (url : String) (urls : List String)
    → has_url url urls ≡ true
    → get_elem? urls (index_of url urls) ≡ some url
unfolding has_url index_of
at-index_of url [] h = absurd (cc)
at-index_of url (u ∷ us) h = elim (Bool-cases (str_eq u url)) [
  | inl e ↦ rw e (ap some ((eq_iff u url).0 e))
  | inr e ↦ rw e (at-index_of url us (rw e at h))
]

-- Removing repetitions keeps each URL, but the empty one.
dedupe-keeps_old :
    (url : String) (urls deduped : List String)
    → has_url url deduped ≡ true
    → has_url url (dedupe_onto deduped urls) ≡ true
unfolding dedupe_onto has_url
dedupe-keeps_old url [] deduped h = h
dedupe-keeps_old url (u ∷ us) deduped h =
    elim (Bool-cases (not (is_empty u) && not (has_url u deduped))) [
      | inl e ↦
          rw (e, dedupe_onto)
            (dedupe-keeps_old url us (deduped ++ u ∷ [])
              (rw (any-append-one (λ k. str_eq k url) deduped u, h) refl))
      | inr e ↦ rw (e, dedupe_onto) (dedupe-keeps_old url us deduped h)
    ]

dedupe-keeps :
    (url : String) (urls deduped : List String)
    → is_empty url ≡ false
    → has_url url urls ≡ true
    → has_url url (dedupe_onto deduped urls) ≡ true
unfolding dedupe_onto has_url
dedupe-keeps url [] deduped full h = absurd (cc)
dedupe-keeps url (u ∷ us) deduped full h = elim (Bool-cases (str_eq u url)) [
  | inl e ↦
      let same : u ≡ url = (eq_iff u url).0 e in
      elim (Bool-cases (not (is_empty u) && not (has_url u deduped))) [
        | inl t ↦
            rw (t, dedupe_onto)
              (dedupe-keeps_old url us (deduped ++ u ∷ [])
                (any-append-last (λ k. str_eq k url) deduped u e))
        | inr t ↦ rw (t, dedupe_onto) (dedupe-keeps_old url us deduped (known same t))
      ]
  | inr e ↦ dedupe-keeps url us _ full (rw e at h)
]
  where
    known :
        u ≡ url → (not (is_empty u) && not (has_url u deduped)) ≡ false → has_url url deduped ≡ true
    known same t =
        let full_u : is_empty u ≡ false = subst (λ x. is_empty x ≡ false) (sym same) full in
        subst (λ x. has_url x deduped ≡ true) same (ground (arith, t, full_u))

-- An answer with this URL.
abbrev Gives : String → Result PoolError String → Type 0
Gives url (err e) = ⊥
Gives url (ok u) = u ≡ url

gives : (url : String) (x : Result PoolError String) → x ≡ ok url → Gives url x
gives url x h = subst (Gives url) (sym h) refl

at-elem :
    (urls : List String) (i : ℕ) (url : String)
    → Gives url (at_index urls i)
    → get_elem? urls i ≡ some url
unfolding at_index
at-elem urls i url h = elim (Option-cases (get_elem? urls i)) [
  | inl e ↦ elim (rw (e, at_index) at h) [ ]
  | inr (u, e) ↦ rw e (ap some (rw (e, at_index) at h))
]

current-elem :
    (p : UrlPool) (url : String)
    → get_current p ≡ ok url
    → get_elem? p.urls p.current_index ≡ some url
unfolding get_current
current-elem p url h = go p.urls refl
  where
    go : (us : List String) → p.urls ≡ us → get_elem? p.urls p.current_index ≡ some url
    go [] e = elim (rw (e, get_current) at (gives url (get_current p) h)) [ ]
    go (u ∷ us) e = at-elem p.urls p.current_index url (gives url _ (sym (current-at p u us e) ∙ h))

module _ (url : String) (strict : Bool) (p : UrlPool) where
  replaced-current :
      (urls : List String)
      → get_elem? p.urls p.current_index ≡ some url
      → has_url url urls ≡ true
      → get_current (replace_with strict urls p).1 ≡ ok url
  unfolding replace_with get_current at_index kept_index has_url
  replaced-current [] e h = absurd (cc)
  replaced-current (u ∷ us) e h =
      rw (e, h, kept_index) (rw (at-index_of url (u ∷ us) h, at_index) refl)

  -- A URL in use stays in use when it is among the URLs that replace the pool's, if it is not empty.
  pub replace-keeps_current :
      (urls : List String)
      → get_current p ≡ ok url
      → is_empty url ≡ false
      → has_url url urls ≡ true
      → get_current (replace urls strict p).1 ≡ ok url
  unfolding replace
  replace-keeps_current urls e full h =
      replaced-current (dedupe_onto [] urls) (current-elem p url e)
        (dedupe-keeps url urls [] full h)
