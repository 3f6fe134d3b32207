-- ===== src/Base/Numbers.antt =====
-- `int(s)` of a text.
use Prim.Native.Nat.{ℕ, zero, suc, ◌+◌, ◌*◌}
use Prim.Native.Char.{code}
use Prim.Native.String.{String}
use mathlib.Core.Bool.{Bool, true, false, ◌&&◌}
use mathlib.Core.Option.{Option, none, some}
use rubigram.Base.Tests.{◌==◌, if◌then◌else◌}
use rubigram.Base.Strings.{concat, strip, decimal}
use rubigram.Base.Int.{ℤ, pos, negsuc}
use rubigram.Base.Digits.{decimal_value}
pub mod Laws

-- The digits of a number, with single underscores between them; the Boolean tells whether a digit
-- came before.
unfoldable pub read_digits : String → ℕ → Bool → Option ℕ
read_digits String.[] n true = some n
read_digits String.[] n false = none
read_digits (String.◌∷◌ c s) n after = elim (decimal_value (code c)) [
  | some v ↦ read_digits s (n * 10 + v) true
  | none ↦ elim (code c == b'_' && after) [ true ↦ read_digits s n false | false ↦ none ]
]

abbrev minus : ℕ → ℤ
minus zero = pos zero
minus (suc n) = negsuc n

abbrev pub positive : Option ℕ → Option ℤ
positive none = none
positive (some n) = some (pos n)

abbrev negative : Option ℕ → Option ℤ
negative none = none
negative (some n) = some (minus n)

unfoldable pub read_signed : String → Option ℤ
read_signed String.[] = none
read_signed (String.◌∷◌ c s) =
    if code c == b'-'
    then negative (read_digits s 0 false)
    else if code c == b'+'
    then positive (read_digits s 0 false)
    else positive (read_digits (String.◌∷◌ c s) 0 false)

-- `int(s)`; `none` is its `ValueError`
unfoldable pub int_of : String → Option ℤ
int_of s = read_signed (strip s)

-- `str(n)` of a signed number
unfoldable pub signed_decimal : ℤ → String
signed_decimal (pos n) = decimal n
signed_decimal (negsuc n) = concat "-" (decimal (suc n))
