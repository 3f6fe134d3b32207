-- ===== src/Base/Texts.antt =====
-- Further operations of Python's `str`, over the native texts.
use Prim.Native.Nat.{ℕ, zero, suc, ◌+◌}
use Prim.Native.Char.{Char, code}
use Prim.Native.String.{String}
use mathlib.Core.Path.{◌≡◌, refl}
use mathlib.Core.Bool.{Bool, true, false, not, ◌&&◌, ◌||◌}
use mathlib.Core.List.{List, [], ◌∷◌}
use rubigram.Base.Tests.{◌==◌, if◌then◌else◌}
use rubigram.Base.Strings.{is_empty, has_prefix}
pub mod Laws

-- `part in s`
unfoldable pub contains : String → String → Bool
contains String.[] part = has_prefix part ""
contains (String.◌∷◌ c s) part =
    let rest = contains s part in has_prefix part (String.◌∷◌ c s) || rest

-- `all(p(ch) for ch in s)`
unfoldable pub all_chars : (ℕ → Bool) → String → Bool
all_chars p String.[] = true
all_chars p (String.◌∷◌ c s) = p (code c) && all_chars p s

-- `"".join(ch for ch in s if p(ch))`
unfoldable pub filter_chars : (ℕ → Bool) → String → String
filter_chars p String.[] = ""
filter_chars p (String.◌∷◌ c s) =
    let rest = filter_chars p s in if p (code c) then String.◌∷◌ c rest else rest

-- What stands before the first character that satisfies the test, and what stands from it on.
unfoldable pub before : (ℕ → Bool) → String → String
before p String.[] = ""
before p (String.◌∷◌ c s) = if p (code c) then "" else String.◌∷◌ c (before p s)

unfoldable pub from : (ℕ → Bool) → String → String
from p String.[] = ""
from p (String.◌∷◌ c s) = if p (code c) then String.◌∷◌ c s else from p s

-- `s.lstrip(...)` of the characters that satisfy the test
unfoldable pub strip_left_of : (ℕ → Bool) → String → String
strip_left_of p String.[] = ""
strip_left_of p (String.◌∷◌ c s) = if p (code c) then strip_left_of p s else String.◌∷◌ c s

-- `s.rstrip(...)`
unfoldable pub strip_right_of : (ℕ → Bool) → String → String
strip_right_of p String.[] = ""
strip_right_of p (String.◌∷◌ c s) =
    let rest = strip_right_of p s in if p (code c) && is_empty rest then "" else String.◌∷◌ c rest

-- `s[n:]`
unfoldable pub drop_chars : ℕ → String → String
drop_chars zero s = s
drop_chars (suc n) String.[] = ""
drop_chars (suc n) (String.◌∷◌ c s) = drop_chars n s

-- `len(s)`
unfoldable pub text_length : String → ℕ
text_length String.[] = 0
text_length (String.◌∷◌ c s) = suc (text_length s)

abbrev push_char : Char → List String → List String
push_char c [] = String.◌∷◌ c "" ∷ []
push_char c (part ∷ parts) = String.◌∷◌ c part ∷ parts

-- `s.split(sep)`, of a separator of one character
unfoldable pub split_at : ℕ → String → List String
split_at sep String.[] = "" ∷ []
split_at sep (String.◌∷◌ c s) =
    let parts = split_at sep s in if code c == sep then "" ∷ parts else push_char c parts

-- The character of `to` in the place that a character has in `froms`.
unfoldable pub translate_char : String → String → Char → Char
translate_char String.[] to c = c
translate_char (String.◌∷◌ f froms) String.[] c = c
translate_char (String.◌∷◌ f froms) (String.◌∷◌ t to) c =
    if code c == code f then t else translate_char froms to c

-- `s.translate(str.maketrans(froms, to))`
unfoldable pub translate : String → String → String → String
translate froms to String.[] = ""
translate froms to (String.◌∷◌ c s) = String.◌∷◌ (translate_char froms to c) (translate froms to s)

-- Of the characters that are not ASCII, only U+212A, the sign for kelvin, has an ASCII lower case.
-- `s.lower()`, as far as its characters are ASCII: other letters stay as they are.
unfoldable pub lower : String → String
unfolding translate translate_char
lower = translate "ABCDEFGHIJKLMNOPQRSTUVWXYZK" "abcdefghijklmnopqrstuvwxyzk"

lower_runs : lower "RubiKa/_9" ≡ "rubika/_9"
unfolding lower
lower_runs = refl
