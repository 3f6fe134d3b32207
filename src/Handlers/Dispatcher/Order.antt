-- ===== src/Handlers/Dispatcher/Order.antt =====
-- The order in which `dispatch` runs callbacks.
use rubigram.Base.Sort.{sort, All-sort}
use rubigram.Base.{
  Bool-cases, Option-cases, filter, find?, All, filter_everyone, filter-append, String, ◌≡◌, refl,
  ap, inl, inr, Bool, true, false, none, some, List, [], ◌∷◌, ◌++◌,
}
use rubigram.Handlers.Dispatcher.{
  Invoked, done, raised, continue_propagation, stop_propagation, Handler, Group, by_key, is_of_kind,
  collect, handlers_of, is_match, after_invoke, walk, walk_groups, dispatch,
}

abbrev pub ends_group : Invoked → Bool
ends_group done = true
ends_group raised = true
ends_group _ = false

abbrev pub continues : Invoked → Bool
continues continue_propagation = true
continues _ = false

abbrev pub stops : Invoked → Bool
stops stop_propagation = true
stops _ = false

module _ {U : Type 0} (kind : String) (u : U) where
  -- The first handler of each group that matches.
  pub first_matches : List (Group U) → List (Handler U)
  first_matches [] = []
  first_matches (g ∷ gs) = elim (find? (is_match kind u) g.handlers) [
    | none ↦ first_matches gs
    | some h ↦ h ∷ first_matches gs
  ]

  walk-ends :
      (hs : List (Handler U))
      → All (λ h. ends_group (h.invoke u) ≡ true) hs
      → ((walk kind u hs).stopped ≡ false)
        × ((walk kind u hs).ran ≡ elim (find? (is_match kind u) hs) [ none ↦ [] | some h ↦ h ∷ [] ])
  unfolding walk after_invoke
  walk-ends [] h = (refl, refl)
  walk-ends (k ∷ hs) (e, h) = elim (Bool-cases (is_match kind u k)) [
    | inl t ↦ rw (t, walk) (go (k.invoke u) e)
    | inr t ↦ rw (t, walk) (walk-ends hs h)
  ]
    where
      go :
          (x : Invoked)
          → ends_group x ≡ true
          → ((after_invoke kind u k x (walk kind u hs)).stopped ≡ false)
            × ((after_invoke kind u k x (walk kind u hs)).ran ≡ k ∷ [])
      go done e = (refl, refl)
      go raised e = (refl, refl)
      go continue_propagation e = absurd (cc)
      go stop_propagation e = absurd (cc)

  walk_groups-ends :
      (gs : List (Group U))
      → All (λ g. All (λ h. ends_group (h.invoke u) ≡ true) g.handlers) gs
      → walk_groups kind u gs ≡ first_matches gs
  unfolding walk_groups first_matches
  walk_groups-ends [] h = refl
  walk_groups-ends (g ∷ gs) (e, h) =
      let (running, ran) = walk-ends g.handlers e in
      elim (Option-cases (find? (is_match kind u) g.handlers)) [
        | inl n ↦ rw (running, ran, n, walk_groups, first_matches) (walk_groups-ends gs h)
        | inr (k, n) ↦
            rw (running, ran, n, walk_groups, first_matches)
              (ap (λ ks. k ∷ ks) (walk_groups-ends gs h))
      ]

  -- Where no callback raises `StopPropagation` or `ContinuePropagation`, exactly the first handler
  -- that matches runs in each group, and the groups run in the order of their keys.
  pub dispatch-first_matches :
      (groups : List (Group U))
      → All (λ g. All (λ h. ends_group (h.invoke u) ≡ true) g.handlers) groups
      → dispatch kind u groups ≡ first_matches (sort by_key groups)
  unfolding dispatch
  dispatch-first_matches groups h =
      walk_groups-ends (sort by_key groups) (All-sort by_key _ groups h)

  walk-continues :
      (hs : List (Handler U))
      → All (λ h. continues (h.invoke u) ≡ true) hs
      → ((walk kind u hs).stopped ≡ false) × ((walk kind u hs).ran ≡ filter (is_match kind u) hs)
  unfolding walk after_invoke
  walk-continues [] h = (refl, refl)
  walk-continues (k ∷ hs) (e, h) = elim (Bool-cases (is_match kind u k)) [
    | inl t ↦ rw (t, walk) (go (walk-continues hs h) (k.invoke u) e)
    | inr t ↦ rw (t, walk) (walk-continues hs h)
  ]
    where
      go :
          ((walk kind u hs).stopped ≡ false) × ((walk kind u hs).ran ≡ filter (is_match kind u) hs)
          → (x : Invoked) → continues x ≡ true
          → ((after_invoke kind u k x (walk kind u hs)).stopped ≡ false)
            × ((after_invoke kind u k x (walk kind u hs)).ran ≡ k ∷ filter (is_match kind u) hs)
      go r continue_propagation e = (r.0, ap (λ ks. k ∷ ks) r.1)
      go r done e = absurd (cc)
      go r raised e = absurd (cc)
      go r stop_propagation e = absurd (cc)

  walk_groups-continues :
      (gs : List (Group U))
      → All (λ g. All (λ h. continues (h.invoke u) ≡ true) g.handlers) gs
      → walk_groups kind u gs ≡ filter (is_match kind u) (collect none gs)
  unfolding walk_groups collect is_of_kind
  walk_groups-continues [] h = refl
  walk_groups-continues (g ∷ gs) (e, h) =
      let (running, ran) = walk-continues g.handlers e in
      rw
        (
          running,
          ran,
          filter_everyone (is_of_kind none) g.handlers (λ k. refl),
          filter-append (is_match kind u) g.handlers (collect none gs),
          walk_groups,
        )
        (ap (λ ks. filter (is_match kind u) g.handlers ++ ks) (walk_groups-continues gs h))

  -- Where every callback raises `ContinuePropagation`, every handler that matches runs, in the order
  -- in which `handlers` lists them.
  pub dispatch-continues :
      (groups : List (Group U))
      → All (λ g. All (λ h. continues (h.invoke u) ≡ true) g.handlers) groups
      → dispatch kind u groups ≡ filter (is_match kind u) (handlers_of none groups)
  unfolding dispatch handlers_of
  dispatch-continues groups h =
      walk_groups-continues (sort by_key groups) (All-sort by_key _ groups h)

  -- What may have run: handlers that match, of which only the last may have stopped the update.
  pub IsRun : List (Handler U) → Type 0
  IsRun [] = Unit
  IsRun (h ∷ hs) = (is_match kind u h ≡ true) × (stops (h.invoke u) ≡ true → hs ≡ []) × IsRun hs

  Goes : List (Handler U) → Type 0
  Goes = All (λ h. stops (h.invoke u) ≡ false)

  append-IsRun : (xs ys : List (Handler U)) → IsRun xs → Goes xs → IsRun ys → IsRun (xs ++ ys)
  unfolding IsRun Goes
  append-IsRun [] ys h g r = r
  append-IsRun (x ∷ xs) ys h g r = (h.0, λ t. absurd (bad t g.0), append-IsRun xs ys h.2 g.1 r)
    where
      bad : stops (x.invoke u) ≡ true → stops (x.invoke u) ≡ false → ⊥
      bad t f = cc

  walk-IsRun :
      (hs : List (Handler U))
      → IsRun (walk kind u hs).ran × ((walk kind u hs).stopped ≡ false → Goes (walk kind u hs).ran)
  unfolding walk after_invoke IsRun Goes
  walk-IsRun [] = (tt, λ e. tt)
  walk-IsRun (k ∷ hs) = elim (Bool-cases (is_match kind u k)) [
    | inl t ↦ rw (t, walk) (go (walk-IsRun hs) t (k.invoke u) refl)
    | inr t ↦ rw (t, walk) (walk-IsRun hs)
  ]
    where
      go :
          IsRun (walk kind u hs).ran
            × ((walk kind u hs).stopped ≡ false → Goes (walk kind u hs).ran)
          → is_match kind u k ≡ true
          → (x : Invoked) → k.invoke u ≡ x
          → IsRun (after_invoke kind u k x (walk kind u hs)).ran
            × ((after_invoke kind u k x (walk kind u hs)).stopped ≡ false
                → Goes (after_invoke kind u k x (walk kind u hs)).ran)
      go r t done e = ((t, λ s. refl, tt), λ f. (ap stops e, tt))
      go r t raised e = ((t, λ s. refl, tt), λ f. (ap stops e, tt))
      go r t stop_propagation e = ((t, λ s. refl, tt), λ f. absurd (cc))
      go r t continue_propagation e = ((t, λ s. absurd (not_stop s), r.0), λ f. (ap stops e, r.1 f))
        where
          not_stop : stops (k.invoke u) ≡ true → ⊥
          not_stop s = cc

  walk_groups-IsRun : (gs : List (Group U)) → IsRun (walk_groups kind u gs)
  unfolding walk_groups
  walk_groups-IsRun [] = unfold IsRun in tt
  walk_groups-IsRun (g ∷ gs) = elim (Bool-cases (walk kind u g.handlers).stopped) [
    | inl t ↦ rw (t, walk_groups) (walk-IsRun g.handlers).0
    | inr t ↦
        rw (t, walk_groups)
          (append-IsRun _ _ (walk-IsRun g.handlers).0 ((walk-IsRun g.handlers).1 t)
            (walk_groups-IsRun gs))
  ]

  -- Every handler that ran matches, and no handler runs after one that raised `StopPropagation`.
  pub dispatch-IsRun : (groups : List (Group U)) → IsRun (dispatch kind u groups)
  unfolding dispatch
  dispatch-IsRun groups = walk_groups-IsRun (sort by_key groups)
