-- ===== src/Filters.antt =====
-- rubigram/filters/filters.py: filters of updates, their combinations, and the command filter.
use Prim.Native.Char.{Char, code}
use rubigram.Base.{
  ◌==◌, if◌then◌else◌, filter, any, is_empty, is_space, strip, String, Bool, true, false, not, ◌&&◌,
  ◌||◌, Option, none, some, List, [], ◌∷◌, str_eq,
}
use rubigram.Base.Texts.{before, lower}
pub mod Commands
mod Tests

-- The attributes of an update that filters read; `command` is the one that a filter writes.
pub record Update : Type 0 where
  pub is_mine : Bool
  pub chat_type : Option String
  pub type_ : Option String
  -- the type of `file_inline`, where there is one
  pub file_inline : Option (Option String)
  pub has_file : Bool
  pub has_sticker : Bool
  pub has_location : Bool
  pub has_contact : Bool
  pub event_type : Option String
  pub part_types : List String
  pub text : Option String
  pub action : Option String
  pub is_edited : Bool
  pub is_reply : Bool
  pub is_forwarded : Bool
  pub forwarded_no_link : Bool
  pub is_scheduled : Bool
  -- the button of `aux_data`, where there is one
  pub aux_data : Option (Option String)
  pub sender_type : Option String
  pub object_guid : Option String
  pub chat_id : Option String
  pub author_object_guid : Option String
  pub sender_id : Option String
  pub command : List String

-- `Filter.func` with the update as it leaves it
abbrev pub Filter : Type 0
Filter = Update → Bool × Update

-- `create`, of a function that only reads
abbrev pub create : (Update → Bool) → Filter
create test u = (test u, u)

abbrev then_ : Filter → Bool × Update → Bool × Update
then_ g (false, u) = (false, u)
then_ g (true, u) = g u

-- `__and__`
unfoldable pub and_filter : Filter → Filter → Filter
and_filter f g u = then_ g (f u)

abbrev otherwise : Filter → Bool × Update → Bool × Update
otherwise g (true, u) = (true, u)
otherwise g (false, u) = g u

-- `__or__`
unfoldable pub or_filter : Filter → Filter → Filter
or_filter f g u = otherwise g (f u)

-- `__invert__`
unfoldable pub not_filter : Filter → Filter
not_filter f u = let x = f u in (not x.0, x.1)

abbrev pub is_text : Option String → String → Bool
is_text none s = false
is_text (some t) s = str_eq t s

abbrev is_one_of : List String → Option String → Bool
is_one_of wanted none = false
is_one_of wanted (some t) = any (str_eq t) wanted

-- `_file_type`
abbrev file_type : Update → Option String
file_type u = elim u.file_inline [ none ↦ none | some t ↦ t ]

abbrev is_present {ℓ} : {A : Type ℓ} → Option A → Bool
is_present none = false
is_present (some a) = true

-- `_metadata_types`
abbrev metadata_types : Update → List String
metadata_types u = filter (λ t. not (is_empty t)) u.part_types

abbrev pub text_of : Option String → String
text_of none = ""
text_of (some t) = t

-- The built-in filters by their names, and those of the chat's type, the message's type, the
-- file's type, the event's type and the formatting.
unfoldable pub me : Filter
me = create (λ u. u.is_mine)

unfoldable pub incoming : Filter
incoming = create (λ u. not u.is_mine)

unfoldable pub of_chat : String → Filter
of_chat name = create (λ u. is_text u.chat_type name)

unfoldable pub of_type : List String → Filter
of_type names = create (λ u. is_one_of names u.type_)

unfoldable pub of_file : String → Filter
of_file name = create (λ u. is_text (file_type u) name)

unfoldable pub of_event : String → Filter
of_event name = create (λ u. is_text u.event_type name)

unfoldable pub of_format : String → Filter
of_format name = create (λ u. any (λ t. str_eq t name) (metadata_types u))

unfoldable pub sticker : Filter
sticker = create (λ u. is_text u.type_ "Sticker" || u.has_sticker)

unfoldable pub caption : Filter
caption = create (λ u. not (is_empty (text_of u.text)) && is_text u.type_ "FileInlineCaption")

unfoldable pub location : Filter
location = create (λ u. u.has_location || is_text u.type_ "Location")

unfoldable pub contact : Filter
contact = create (λ u. u.has_contact)

unfoldable pub media : Filter
media = create (λ u.
    is_present u.file_inline
    || (u.has_file || is_one_of ("Sticker" ∷ "RubinoPost" ∷ "Live" ∷ []) u.type_))

unfoldable pub document : Filter
document =
    create (λ u. is_text (file_type u) "File" || (u.has_file && not (is_present (file_type u))))

unfoldable pub metadata : Filter
metadata = create (λ u. elim (metadata_types u) [ [] ↦ false | _ ∷ _ ↦ true ])

unfoldable pub new : Filter
new = create (λ u. elim u.action [ none ↦ true | some a ↦ str_eq a "New" ])

unfoldable pub edited : Filter
edited = create (λ u. is_text u.action "Edit" || u.is_edited)

unfoldable pub deleted_filter : Filter
deleted_filter = create (λ u. is_text u.action "Delete")

unfoldable pub replied : Filter
replied = create (λ u. u.is_reply)

unfoldable pub forwarded : Filter
forwarded = create (λ u. u.is_forwarded)

unfoldable pub no_link : Filter
no_link = create (λ u. u.forwarded_no_link)

unfoldable pub scheduled : Filter
scheduled = create (λ u. u.is_scheduled)

unfoldable pub button : Filter
button = create (λ u. elim u.aux_data [ none ↦ false | some id ↦ is_present id ])

unfoldable pub from_bot : Filter
from_bot = create (λ u. is_text u.sender_type "Bot")

abbrev or_attr : Option String → Option String → Option String
or_attr none b = b
or_attr (some a) b = if is_empty a then b else some a

-- The factories `chat`, `user` and `button_id`
unfoldable pub chat : List String → Filter
chat guids = create (λ u. is_one_of guids (or_attr u.object_guid u.chat_id))

unfoldable pub user : List String → Filter
user guids = create (λ u. is_one_of guids (or_attr u.author_object_guid u.sender_id))

unfoldable pub button_id : List String → Filter
button_id ids = create (λ u. elim u.aux_data [ none ↦ false | some id ↦ is_one_of ids id ])

abbrev pub starts_word : String → Bool
starts_word String.[] = false
starts_word (String.◌∷◌ c s) = not (is_space (code c))

abbrev pub push_char : Char → List String → List String
push_char c [] = String.◌∷◌ c "" ∷ []
push_char c (w ∷ ws) = String.◌∷◌ c w ∷ ws

-- `s.split()`
unfoldable pub split_words : String → List String
split_words String.[] = []
split_words (String.◌∷◌ c s) =
    let rest = split_words s in
    if is_space (code c)
    then rest
    else if starts_word s
    then push_char c rest
    else String.◌∷◌ c "" ∷ rest

-- `str.lower` is a parameter; a filter for commands has its commands, its prefixes, and whether it
-- is case-sensitive.
module _ (lower : String → String) (commands prefixes : List String) (case_sensitive : Bool) where
  abbrev pub folded : String → String
  folded s = if case_sensitive then s else lower s

  abbrev pub is_wanted : String → Bool
  is_wanted name = any (λ c. str_eq name (folded c)) commands

  -- The first word, and the words after it.
  unfoldable pub match_words : List String → Filter
  match_words [] u = (false, u)
  match_words (word ∷ args) u =
      let name = folded (before (λ c. c == b'@') word) in
      if is_wanted name then (true, record u { command = name ∷ args }) else (false, u)

  abbrev pub match_body : String → Filter
  match_body String.[] u = (false, u)
  match_body (String.◌∷◌ c s) u =
      if any (str_eq (String.◌∷◌ c "")) prefixes then match_words (split_words s) u else (false, u)

  -- `command`
  unfoldable pub command : Filter
  command u = match_body (strip (text_of u.text)) u
