-- ===== src/Handlers/Fanout.antt =====
-- rubigram/handlers/dispatcher.py: the kinds under which one frame or bot update is dispatched.
use rubigram.Base.{
  if◌then◌else◌, length, count, length-append, length-map, is_empty, ℕ, ◌+◌, String, ◌≡◌, refl,
  Bool, true, false, ◌&&◌, ◌||◌, Option, none, some, List, [], ◌∷◌, ◌++◌, map, arith, str_eq,
}

-- What an update carries: the whole frame, or one of its parts. A part is told by a number.
pub data Part : Type 0 where
  frame : Part
  message chat_update activity notification draft : ℕ → Part

pub record MessageUpdate : Type 0 where
  pub message : Option ℕ
  pub action : Option String

-- `Updates`: one decrypted socket frame
pub record Updates : Type 0 where
  pub message_updates : List MessageUpdate
  pub chat_updates : List ℕ
  pub show_activities : List ℕ
  pub show_notifications : List ℕ
  pub draft_message_updates : List ℕ

-- `message_update.action or "New"`
unfoldable pub message_kind : Option String → String
message_kind none = "message"
message_kind (some action) =
    if str_eq action "Edit"
    then "edited_message"
    else if str_eq action "Delete"
    then "deleted_message"
    else "message"

-- The calls of `dispatch`, in order.
unfoldable pub message_calls : List MessageUpdate → List (String × Part)
message_calls [] = []
message_calls (m ∷ ms) =
    let rest = message_calls ms in
    elim m.message [ none ↦ rest | some id ↦ (message_kind m.action, Part.message id) ∷ rest ]

unfoldable pub dispatch_updates : Updates → List (String × Part)
dispatch_updates u =
    ("raw", frame)
    ∷ (message_calls u.message_updates
        ++ (map (λ c. ("chat_update", chat_update c)) u.chat_updates
            ++ (map (λ c. ("activity", activity c)) u.show_activities
                ++ (map (λ c. ("notification", notification c)) u.show_notifications
                    ++ map (λ c. ("draft_update", draft c)) u.draft_message_updates))))

-- A message of the Bot API, with whether it names a button.
pub record BotMessage : Type 0 where
  pub id : ℕ
  pub has_button : Bool

-- `Update`; the type is the empty text when it is missing.
pub record BotUpdate : Type 0 where
  pub kind : String
  pub new_message : Option BotMessage
  pub updated_message : Option BotMessage

abbrev pub button_call : BotMessage → List (String × Part)
button_call m = if m.has_button then ("callback_query", Part.message m.id) ∷ [] else []

unfoldable pub new_message_calls : BotMessage → List (String × Part)
new_message_calls m = button_call m ++ ("message", Part.message m.id) ∷ []

abbrev is_new : String → Bool
is_new kind = str_eq kind "NewMessage" || is_empty kind

abbrev pub is_some {ℓ} : {A : Type ℓ} → Option A → Bool
is_some none = false
is_some (some a) = true

abbrev or_nothing : (BotMessage → List (String × Part)) → Option BotMessage → List (String × Part)
or_nothing f none = []
or_nothing f (some m) = f m

unfoldable pub dispatch_bot_update : BotUpdate → List (String × Part)
dispatch_bot_update u =
    ("raw", frame)
    ∷ (if is_new u.kind && is_some u.new_message
        then or_nothing new_message_calls u.new_message
        else if str_eq u.kind "UpdatedMessage" && is_some u.updated_message
        then or_nothing (λ m. ("edited_message", Part.message m.id) ∷ []) u.updated_message
        else if str_eq u.kind "RemovedMessage"
        then ("deleted_message", frame) ∷ []
        else [])

unfoldable pub dispatch_inline_message : BotMessage → List (String × Part)
dispatch_inline_message m = ("inline_message", Part.message m.id) ∷ button_call m

abbrev pub has_message : MessageUpdate → Bool
has_message m = is_some m.message

length-message_calls : (ms : List MessageUpdate) → length (message_calls ms) ≡ count has_message ms
unfolding message_calls
length-message_calls [] = refl
length-message_calls (m ∷ ms) = ground (arith, length-message_calls ms)

-- A frame is dispatched once as a whole, then once for each message it carries and once for each
-- other part.
pub dispatch_updates-count :
    (u : Updates)
    → length (dispatch_updates u)
      ≡ 1
        + count has_message u.message_updates
        + length u.chat_updates
        + length u.show_activities
        + length u.show_notifications
        + length u.draft_message_updates
unfolding dispatch_updates
dispatch_updates-count u =
    omega (arith, length-append {0}, length-map {0, 0}, length-message_calls u.message_updates)
