-- ===== src/Filters/Tests.antt =====
-- Filters on one message.
use rubigram.Base.{if◌then◌else◌, concat, strip, ◌≡◌, refl, true, false, none, some, [], ◌∷◌}
use rubigram.Base.Texts.{all_chars, lower}
use rubigram.Filters.{
  Update, and_filter, or_filter, not_filter, me, of_chat, folded, is_wanted, command,
}
use rubigram.Filters.Commands.{written, command-written}

abbrev incoming_note : Update
incoming_note = record {
  is_mine = false;
  chat_type = some "Group";
  type_ = some "Text";
  file_inline = none;
  has_file = false;
  has_sticker = false;
  has_location = false;
  has_contact = false;
  event_type = none;
  part_types = [];
  text = some " /start@bot a bc ";
  action = none;
  is_edited = false;
  is_reply = false;
  is_forwarded = false;
  forwarded_no_link = false;
  is_scheduled = false;
  aux_data = none;
  sender_type = none;
  object_guid = some "g";
  chat_id = none;
  author_object_guid = none;
  sender_id = none;
  command = [];
}

command-written_example :
    let said = folded lower ("start" ∷ []) ("/" ∷ []) true "start" in
    command lower ("start" ∷ []) ("/" ∷ []) true incoming_note ≡ (
      if is_wanted lower ("start" ∷ []) ("/" ∷ []) true said
      then (true, record incoming_note { command = said ∷ "a" ∷ "bc" ∷ [] })
      else (false, incoming_note))
unfolding strip concat all_chars written rubigram.Filters.Commands.after_spaces
command-written_example =
    command-written lower ("start" ∷ []) ("/" ∷ []) true incoming_note "/" "start" (some "bot")
      ("a" ∷ "bc" ∷ []) refl (refl, refl) refl ((refl, refl), ((refl, refl), tt)) refl

-- `f & g` asks `g` only if `f` holds.
short_circuit :
    ((and_filter
        (of_chat "User")
        (command lower ("start" ∷ []) ("/" ∷ []) true)
        incoming_note).1.command
      ≡ [])
    × ((or_filter (not_filter me) me incoming_note).0 ≡ true)
unfolding and_filter or_filter not_filter of_chat me
short_circuit = (refl, refl)
