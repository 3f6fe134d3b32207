-- ===== src/Filters/Commands.antt =====
-- The command filter: what it makes of a command as it is written.
use Prim.Native.Char.{Char, code}
use rubigram.Base.{
  ◌==◌, if◌then◌else◌, any, All, is_empty, concat, is_space, strip, ℕ, String, ◌≡◌, refl, ap, ◌∙◌,
  Bool, true, false, not, ◌&&◌, Option, none, some, List, [], ◌∷◌, arith, str_eq,
}
use rubigram.Base.Texts.{all_chars, before}
use rubigram.Base.Texts.Laws.{all_chars-weaken, is_empty-cons, all_chars-concat}
use rubigram.Filters.{
  Update, text_of, starts_word, push_char, split_words, folded, is_wanted, match_words, match_body,
  command,
}

abbrev in_word : ℕ → Bool
in_word c = not (is_space c)

abbrev in_name : ℕ → Bool
in_name c = not (is_space c) && not (c == b'@')

-- A text that is one word; a name of a command has no `@` either.
abbrev pub IsWord : String → Type 0
IsWord w = (is_empty w ≡ false) × (all_chars in_word w ≡ true)

abbrev pub IsName : String → Type 0
IsName w = (is_empty w ≡ false) × (all_chars in_name w ≡ true)

-- The bot that a command is for.
abbrev pub at_bot : Option String → String
at_bot none = ""
at_bot (some b) = String.◌∷◌ "@" b

abbrev pub IsBot : Option String → Type 0
IsBot none = Unit
IsBot (some b) = all_chars in_word b ≡ true

-- Words, each after a space.
unfoldable pub after_spaces : List String → String
after_spaces [] = ""
after_spaces (w ∷ ws) = String.◌∷◌ " " (concat w (after_spaces ws))

-- A command as it is written.
unfoldable pub written : Char → String → Option String → List String → String
written prefix name bot args =
    String.◌∷◌ prefix (concat (concat name (at_bot bot)) (after_spaces args))

split_words-word :
    (w t : String) → IsWord w → starts_word t ≡ false → split_words (concat w t) ≡ w ∷ split_words t
unfolding split_words concat all_chars
split_words-word String.[] t h e = absurd (ground (arith, h.0))
split_words-word (String.◌∷◌ c String.[]) t h e =
    let here : is_space (code c) ≡ false = ground (arith, h.1) in rw here (rw e refl)
split_words-word (String.◌∷◌ c (String.◌∷◌ d w)) t h e =
    let here : is_space (code c) ≡ false = ground (arith, h.1) in
    let next : is_space (code d) ≡ false = ground (arith, h.1) in
    let later : all_chars in_word (String.◌∷◌ d w) ≡ true = ground (arith, h.1) in
    let ih = split_words-word (String.◌∷◌ d w) t (is_empty-cons d w, later) e in
    rw (here, next) (ap (push_char c) (rw next at ih))

after_spaces-start : (ws : List String) → starts_word (after_spaces ws) ≡ false
unfolding after_spaces
after_spaces-start [] = refl
after_spaces-start (w ∷ ws) = refl

split_words-after_spaces : (ws : List String) → All IsWord ws → split_words (after_spaces ws) ≡ ws
unfolding split_words after_spaces
split_words-after_spaces [] h = refl
split_words-after_spaces (w ∷ ws) h =
    split_words-word w (after_spaces ws) h.0 (after_spaces-start ws)
    ∙ ap (λ (xs : List String). w ∷ xs) (split_words-after_spaces ws h.1)

-- Before its `@`, what is written is the name.
before-at_bot :
    (name : String) (bot : Option String)
    → all_chars in_name name ≡ true
    → before (λ c. c == b'@') (concat name (at_bot bot)) ≡ name
unfolding before concat all_chars
before-at_bot String.[] none h = refl
before-at_bot String.[] (some b) h = refl
before-at_bot (String.◌∷◌ c s) bot h =
    let here : (code c == b'@') ≡ false = ground (arith, h) in
    let later : all_chars in_name s ≡ true = ground (arith, h) in
    rw here (ap (String.◌∷◌ c) (before-at_bot s bot later))

at_bot-IsWord :
    (name : String) (bot : Option String)
    → IsName name
    → IsBot bot
    → IsWord (concat name (at_bot bot))
unfolding concat all_chars
at_bot-IsWord String.[] bot h k = absurd (ground (arith, h.0))
at_bot-IsWord (String.◌∷◌ c s) bot h k = (
  is_empty-cons c _,
  all_chars-concat in_word (String.◌∷◌ c s) (at_bot bot)
      (all_chars-weaken in_name in_word (String.◌∷◌ c s) (λ d e. ground (arith, e)) h.1) (at bot k),
)
  where
    at : (b : Option String) → IsBot b → all_chars in_word (at_bot b) ≡ true
    at none t = refl
    at (some b) t = ground (arith, t)

module _ (lower : String → String) (commands prefixes : List String) (case_sensitive : Bool) where
  -- A written command, with spaces around it or not, a prefix of the filter's, a bot to whom it is
  -- said or none, and its arguments, matches exactly if its name is one of the filter's; then the
  -- update holds the name and the arguments. Otherwise the update stays as it is. A name is a word
  -- without `@`; `lower` is any function.
  pub command-written :
      (u : Update) (prefix : Char) (name : String) (bot : Option String) (args : List String)
      → any (str_eq (String.◌∷◌ prefix "")) prefixes ≡ true
      → IsName name
      → IsBot bot
      → All IsWord args
      → strip (text_of u.text) ≡ written prefix name bot args
      → let said = folded lower commands prefixes case_sensitive name in
        command lower commands prefixes case_sensitive u ≡ (
          if is_wanted lower commands prefixes case_sensitive said
          then (true, record u { command = said ∷ args })
          else (false, u))
  unfolding command match_words written
  command-written u prefix name bot args known named said_to words text =
      ap (λ (s : String). match_body lower commands prefixes case_sensitive s u) text
      ∙ rw known (
          ap (λ (ws : List String). match_words lower commands prefixes case_sensitive ws u)
            (split_words-word (concat name (at_bot bot)) (after_spaces args)
                (at_bot-IsWord name bot named said_to) (after_spaces-start args)
              ∙ ap (λ (xs : List String). concat name (at_bot bot) ∷ xs)
                  (split_words-after_spaces args words))
          ∙ rw (before-at_bot name bot named.1) refl)
