-- ===== src/Base/Numbers/Laws.antt =====
-- `int` reads what `str` writes.
use Prim.Native.Nat.{ℕ, zero, suc, ◌+◌, ◌-◌, ◌*◌, ◌/◌, ◌%◌, ◌<◌, ◌≤◌}
use Prim.Native.Char.{code}
use Prim.Native.String.{String}
use mathlib.Core.Path.{◌≡◌, refl, ap, ◌∙◌}
use mathlib.Core.Logic.{inl, inr}
use mathlib.Core.Bool.{Bool, true, false, not, ◌&&◌}
use mathlib.Core.Option.{some}
use mathlib.Core.List.{List, ◌∷◌}
use native.Mathlib.Omega.{arith}
use rubigram.Base.Tests.{ltb, leb, ◌==◌, Bool-cases}
use rubigram.Base.Strings.{is_space, strip, digit_char, decimal_from, decimal}
use rubigram.Base.Int.{pos}
use rubigram.Base.Digits.{decimal_in, decimal_value}
use rubigram.Base.Texts.{all_chars}
use rubigram.Base.Texts.Laws.{all_chars-weaken, strip-none}
use rubigram.Base.Numbers.{read_digits, positive, read_signed, int_of}

code-digit_char : (d : ℕ) → d < 10 → code (digit_char d) ≡ d + 48
code-digit_char zero h = refl
code-digit_char (suc zero) h = refl
code-digit_char (suc (suc zero)) h = refl
code-digit_char (suc (suc (suc zero))) h = refl
code-digit_char (suc (suc (suc (suc zero)))) h = refl
code-digit_char (suc (suc (suc (suc (suc zero))))) h = refl
code-digit_char (suc (suc (suc (suc (suc (suc zero)))))) h = refl
code-digit_char (suc (suc (suc (suc (suc (suc (suc zero))))))) h = refl
code-digit_char (suc (suc (suc (suc (suc (suc (suc (suc zero)))))))) h = refl
code-digit_char (suc (suc (suc (suc (suc (suc (suc (suc (suc zero))))))))) h = refl
code-digit_char (suc (suc (suc (suc (suc (suc (suc (suc (suc (suc d)))))))))) h =
    absurd (omega (arith, h))

decimal_in-first :
    (z c : ℕ) (zeros : List ℕ) → z ≤ c → c ≤ z + 9 → decimal_in (z ∷ zeros) c ≡ some (c - z)
unfolding decimal_in
decimal_in-first z c zeros h k = ground arith

decimal_value-digit : (d : ℕ) → d < 10 → decimal_value (code (digit_char d)) ≡ some d
unfolding decimal_value
decimal_value-digit d h =
    let e = code-digit_char d h in
    decimal_in-first 48 (code (digit_char d)) _ (omega (arith, e)) (omega (arith, e))
    ∙ ap some (omega (arith, e))

read_digits-digit :
    (d acc : ℕ) (s : String) (b : Bool)
    → d < 10
    → read_digits (String.◌∷◌ (digit_char d) s) acc b ≡ read_digits s (acc * 10 + d) true
unfolding read_digits
read_digits-digit d acc s b h = rw (decimal_value-digit d h, read_digits) refl

read_digits-decimal :
    (f n : ℕ) (rest : String)
    → n < suc f
    → read_digits (decimal_from (suc f) n rest) 0 false ≡ read_digits rest n true
unfolding decimal_from
read_digits-decimal zero n rest h =
    let e : n ≡ 0 = omega (arith, h) in rw e (read_digits-digit 0 0 rest false (omega arith))
read_digits-decimal (suc f) n rest h = elim (Bool-cases (ltb n 10)) [
  | inl e ↦ rw e (
      read_digits-digit n 0 rest false (ground (arith, e))
      ∙ ap (λ k. read_digits rest k true) (omega arith))
  | inr e ↦
      let big : 10 ≤ n = ground (arith, e) in
      rw e (
        read_digits-decimal f (n / 10) (String.◌∷◌ (digit_char (n % 10)) rest)
          (omega (arith, big, h))
        ∙ (read_digits-digit (n % 10) (n / 10) rest true (omega arith)
            ∙ ap (λ k. read_digits rest k true) (omega arith)))
]

-- What `str` writes: digits, one at least.
abbrev pub is_ascii_digit : ℕ → Bool
is_ascii_digit c = leb b'0' c && leb c b'9'

digit_first :
    (d : ℕ) (s : String)
    → d < 10
    → all_chars is_ascii_digit s ≡ true
    → all_chars is_ascii_digit (String.◌∷◌ (digit_char d) s) ≡ true
unfolding all_chars
digit_first d s lt k = let e = code-digit_char d lt in ground (arith, e, k)

decimal_from-digits :
    (f n : ℕ) (rest : String)
    → all_chars is_ascii_digit rest ≡ true
    → all_chars is_ascii_digit (decimal_from f n rest) ≡ true
unfolding decimal_from
decimal_from-digits zero n rest h = h
decimal_from-digits (suc f) n rest h = elim (Bool-cases (ltb n 10)) [
  | inl e ↦ rw e (digit_first n rest (ground (arith, e)) h)
  | inr e ↦ rw e (decimal_from-digits f (n / 10) _ (digit_first (n % 10) rest (omega arith) h))
]

pub decimal-digits : (n : ℕ) → all_chars is_ascii_digit (decimal n) ≡ true
unfolding decimal all_chars
decimal-digits n = decimal_from-digits (suc n) n "" refl

nothing : (n : ℕ) → read_digits "" 0 false ≡ some n → ⊥
unfolding read_digits
nothing n e = ground (arith, e)

signed-digits :
    (s : String)
    → all_chars is_ascii_digit s ≡ true
    → (n : ℕ) → read_digits s 0 false ≡ some n
    → read_signed s ≡ some (pos n)
unfolding read_signed all_chars
signed-digits String.[] h n e = absurd (nothing n e)
signed-digits (String.◌∷◌ c s) h n e =
    let no_minus : (code c == b'-') ≡ false = ground (arith, h) in
    let no_plus : (code c == b'+') ≡ false = ground (arith, h) in
    rw (no_minus, no_plus) (ap positive e)

pub int_of-decimal : (n : ℕ) → int_of (decimal n) ≡ some (pos n)
unfolding int_of read_digits decimal
int_of-decimal n =
    rw (no_blank)
      (signed-digits (decimal n) (decimal-digits n) n (read_digits-decimal n n "" (omega arith)))
  where
    no_blank : strip (decimal n) ≡ decimal n
    no_blank = strip-none (decimal n) (
        all_chars-weaken is_ascii_digit (λ c. not (is_space c)) (decimal n)
          (λ c h. ground (arith, h)) (decimal-digits n))
