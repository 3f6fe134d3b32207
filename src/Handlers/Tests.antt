-- ===== src/Handlers/Tests.antt =====
-- Three handlers in two groups.
use rubigram.Handlers.Fanout.{Updates}
use rubigram.Base.{filter, ℕ, ◌≡◌, refl, none, some, List, [], ◌∷◌, map}
use rubigram.Base.Int.{pos, negsuc}
use rubigram.Base.Sort.{insert, sort}
use rubigram.Handlers.Dispatcher.{
  matched, Invoked, done, raised, continue_propagation, Handler, Group, by_key, handlers_of,
  is_match, after_invoke, walk, walk_groups, dispatch,
}
use rubigram.Handlers.Dispatcher.Order.{
  first_matches, dispatch-first_matches, dispatch-continues, IsRun, dispatch-IsRun,
}

abbrev handler : ℕ → Invoked → Handler ℕ
handler id x = record { id = id; kind = "message"; check = λ u. matched; invoke = λ u. x }

abbrev ending : List (Group ℕ)
ending =
    record { key = pos 1; handlers = handler 1 done ∷ handler 2 raised ∷ [] }
    ∷ record { key = negsuc 0; handlers = handler 3 done ∷ [] }
    ∷ []

abbrev continuing : List (Group ℕ)
continuing =
    record {
      key = pos 1;
      handlers = handler 1 continue_propagation ∷ handler 2 continue_propagation ∷ [];
    }
    ∷ record { key = negsuc 0; handlers = handler 3 continue_propagation ∷ [] }
    ∷ []

dispatch-first_matches_example :
    dispatch "message" 7 ending ≡ first_matches "message" 7 (sort by_key ending)
dispatch-first_matches_example =
    dispatch-first_matches "message" 7 ending ((refl, (refl, tt)), ((refl, tt), tt))

dispatch-continues_example :
    dispatch "message" 7 continuing ≡ filter (is_match "message" 7) (handlers_of none continuing)
dispatch-continues_example =
    dispatch-continues "message" 7 continuing ((refl, (refl, tt)), ((refl, tt), tt))

dispatch-IsRun_example : IsRun "message" 7 (dispatch "message" 7 ending)
dispatch-IsRun_example = dispatch-IsRun "message" 7 ending

-- The groups run in the order of their keys, the lower key first.
runs-in_order : map (λ h. h.id) (dispatch "message" 7 ending) ≡ 3 ∷ 1 ∷ []
unfolding dispatch walk_groups walk after_invoke is_match sort insert
runs-in_order = refl

abbrev frame_of_two : Updates
frame_of_two = record {
  message_updates =
      record { message = some 1; action = none } ∷ record { message = none; action = none } ∷ [];
  chat_updates = 5 ∷ [];
  show_activities = [];
  show_notifications = [];
  draft_message_updates = [];
}
