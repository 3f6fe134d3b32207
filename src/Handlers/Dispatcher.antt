-- ===== src/Handlers/Dispatcher.antt =====
-- rubigram/handlers/dispatcher.py: which handlers an update reaches, and in what order.
use rubigram.Base.{
  ltb, ◌==◌, if◌then◌else◌, filter, any, ℕ, String, Bool, true, false, not, ◌&&◌, Option, none,
  some, List, [], ◌∷◌, ◌++◌, str_eq,
}
use rubigram.Base.Int.{ℤ, pos, negsuc}
use rubigram.Base.Sort.{sort}
pub mod Order

-- What a handler's filter and its callback come to; `failed` and `raised` are other exceptions.
pub data Checked : Type 0 where
  matched unmatched failed : Checked

pub data Invoked : Type 0 where
  done raised continue_propagation stop_propagation : Invoked

-- `Handler`, told apart by `id`, with its filter and its callback on an update of type `U`.
pub record Handler (U : Type 0) : Type 0 where
  pub id : ℕ
  pub kind : String
  pub check : U → Checked
  pub invoke : U → Invoked

-- One entry of `self.groups`.
pub record Group (U : Type 0) : Type 0 where
  pub key : ℤ
  pub handlers : List (Handler U)

abbrev pub ltb_ℤ : ℤ → ℤ → Bool
ltb_ℤ (pos a) (pos b) = ltb a b
ltb_ℤ (pos a) (negsuc b) = false
ltb_ℤ (negsuc a) (pos b) = true
ltb_ℤ (negsuc a) (negsuc b) = ltb b a

abbrev pub same_ℤ : ℤ → ℤ → Bool
same_ℤ a b = not (ltb_ℤ a b) && not (ltb_ℤ b a)

module _ {U : Type 0} where
  abbrev pub by_key : Group U → Group U → Bool
  by_key g h = ltb_ℤ g.key h.key

  -- `self.groups[group].append(handler)`, of a dictionary that makes missing groups
  unfoldable pub add_handler : Handler U → ℤ → List (Group U) → List (Group U)
  add_handler h key [] = record { key = key; handlers = h ∷ [] } ∷ []
  add_handler h key (g ∷ gs) =
      let rest = add_handler h key gs in
      if same_ℤ g.key key then record g { handlers = g.handlers ++ h ∷ [] } ∷ gs else g ∷ rest

  -- `list.remove`: the first occurrence
  unfoldable pub remove_first : Handler U → List (Handler U) → List (Handler U)
  remove_first h [] = []
  remove_first h (k ∷ ks) = let rest = remove_first h ks in if k.id == h.id then ks else k ∷ rest

  abbrev in_group : Option ℤ → Group U → Bool
  in_group none g = true
  in_group (some key) g = same_ℤ g.key key

  unfoldable pub remove_handler : Handler U → Option ℤ → List (Group U) → Bool × List (Group U)
  remove_handler h key [] = (false, [])
  remove_handler h key (g ∷ gs) =
      let rest = remove_handler h key gs in
      if in_group key g && any (λ k. k.id == h.id) g.handlers
      then (true, record g { handlers = remove_first h g.handlers } ∷ gs)
      else (rest.0, g ∷ rest.1)

  unfoldable pub is_of_kind : Option String → Handler U → Bool
  is_of_kind none h = true
  is_of_kind (some kind) h = str_eq h.kind kind

  unfoldable pub collect : Option String → List (Group U) → List (Handler U)
  collect kind [] = []
  collect kind (g ∷ gs) = filter (is_of_kind kind) g.handlers ++ collect kind gs

  unfoldable pub handlers_of : Option String → List (Group U) → List (Handler U)
  handlers_of kind groups = collect kind (sort by_key groups)

  unfoldable pub has_handlers : Option String → List (Group U) → Bool
  has_handlers kind groups = elim (handlers_of kind groups) [ [] ↦ false | _ ∷ _ ↦ true ]

  -- A handler of this kind whose filter matches; a filter that fails is logged and does not match.
  unfoldable pub is_match : String → U → Handler U → Bool
  is_match kind u h = str_eq h.kind kind && elim (h.check u) [ matched ↦ true | _ ↦ false ]

-- The handlers of a group whose callbacks ran, in order, and whether one stopped the update.
pub record Walk (U : Type 0) : Type 0 where
  pub ran : List (Handler U)
  pub stopped : Bool

module _ {U : Type 0} (kind : String) (u : U) where
  -- After a callback: `continue`, `return`, or the `break` at the end of the turn.
  unfoldable pub after_invoke : Handler U → Invoked → Walk U → Walk U
  after_invoke h continue_propagation rest = record rest { ran = h ∷ rest.ran }
  after_invoke h stop_propagation rest = record { ran = h ∷ []; stopped = true }
  after_invoke h done rest = record { ran = h ∷ []; stopped = false }
  after_invoke h raised rest = record { ran = h ∷ []; stopped = false }

  unfoldable pub walk : List (Handler U) → Walk U
  walk [] = record { ran = []; stopped = false }
  walk (h ∷ hs) =
      let rest = walk hs in if is_match kind u h then after_invoke h (h.invoke u) rest else rest

  unfoldable pub walk_groups : List (Group U) → List (Handler U)
  walk_groups [] = []
  walk_groups (g ∷ gs) =
      let rest = walk_groups gs in
      let w = walk g.handlers in if w.stopped then w.ran else w.ran ++ rest

  -- The handlers whose callbacks `dispatch` runs, in order.
  unfoldable pub dispatch : List (Group U) → List (Handler U)
  dispatch groups = walk_groups (sort by_key groups)
