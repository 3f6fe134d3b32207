-- ===== src/Base/Strings.antt =====
-- Python's operations on `str` that the program uses, over the native texts.
use Prim.Native.Nat.{ℕ, zero, suc, ◌/◌, ◌%◌}
use mathlib.Core.Path.{◌≡◌, refl}
use Prim.Native.Char.{Char, code}
use Prim.Native.String.{String}
use Prim.Native.String.{◌++◌ as append_text}
use mathlib.Core.Bool.{Bool, true, false, ◌&&◌, ◌||◌}
use text.Mathlib.Text.{◌==◌ as str_eq}
use rubigram.Base.Tests.{ltb, leb, ◌==◌, if◌then◌else◌}

-- `not s`
abbrev pub is_empty : String → Bool
is_empty s = str_eq s ""

-- `s or t`
abbrev pub or_text : String → String → String
or_text s t = if is_empty s then t else s

-- `prefix + s`
abbrev pub prepend : String → String → String
prepend prefix s = append_text prefix s

-- `s + t`, one character after the other; the native `append_text` computes at literals only.
unfoldable pub concat : String → String → String
concat String.[] t = t
concat (String.◌∷◌ c s) t = String.◌∷◌ c (concat s t)

-- `s.startswith(prefix)`
unfoldable pub has_prefix : String → String → Bool
has_prefix String.[] s = true
has_prefix (String.◌∷◌ p prefix) String.[] = false
has_prefix (String.◌∷◌ p prefix) (String.◌∷◌ c s) = code p == code c && has_prefix prefix s

-- `s[:n]`
unfoldable pub cut : ℕ → String → String
cut zero s = ""
cut (suc n) String.[] = ""
cut (suc n) (String.◌∷◌ c s) = String.◌∷◌ c (cut n s)

-- The characters that `str.isspace` accepts.
abbrev pub is_space : ℕ → Bool
is_space c =
    (leb 0x09 c && leb c 0x0d)
    || ((leb 0x1c c && leb c 0x20)
        || ((c == 0x85)
            || ((c == 0xa0)
                || ((c == 0x1680)
                    || ((leb 0x2000 c && leb c 0x200a)
                        || ((c == 0x2028)
                            || ((c == 0x2029)
                                || ((c == 0x202f) || ((c == 0x205f) || (c == 0x3000))))))))))

unfoldable pub strip_left : String → String
strip_left String.[] = ""
strip_left (String.◌∷◌ c s) = if is_space (code c) then strip_left s else String.◌∷◌ c s

-- A space is dropped at the end if nothing is left behind it.
unfoldable pub strip_right : String → String
strip_right String.[] = ""
strip_right (String.◌∷◌ c s) =
    let rest = strip_right s in if is_space (code c) && is_empty rest then "" else String.◌∷◌ c rest

-- `s.strip()`
unfoldable pub strip : String → String
unfolding strip_left strip_right
strip s = strip_right (strip_left s)

abbrev pub digit_char : ℕ → Char
digit_char n =
    if n == 0
    then "0"
    else if n == 1
    then "1"
    else if n == 2
    then "2"
    else if n == 3
    then "3"
    else if n == 4
    then "4"
    else if n == 5
    then "5"
    else if n == 6
    then "6"
    else if n == 7
    then "7"
    else if n == 8
    then "8"
    else "9"

abbrev digit_text : ℕ → String → String
digit_text n rest = String.◌∷◌ (digit_char n) rest

-- The digits of `n` before those of `rest`.
unfoldable pub decimal_from : ℕ → ℕ → String → String
decimal_from zero n rest = rest
decimal_from (suc fuel) n rest =
    let front = decimal_from fuel (n / 10) (digit_text (n % 10) rest) in
    if ltb n 10 then digit_text n rest else front

-- `str(n)`; a number has fewer digits than its value plus one
unfoldable pub decimal : ℕ → String
decimal n = decimal_from (suc n) n ""

decimal_runs : decimal 3105 ≡ "3105"
unfolding decimal decimal_from
decimal_runs = refl
