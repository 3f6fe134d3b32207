-- ===== src/Crypto/Cipher/Caesar.antt =====
-- The obfuscation of the auth field can be undone exactly on ASCII letters and digits.
use rubigram.Base.{ℕ, ◌≡◌, refl, ◌↔◌, Bool, true, ◌||◌, [], ◌∷◌, arith, All}
use rubigram.Crypto.Cipher.Defs.{
  Text, between, encode_char, decode_char, caesar_encode, caesar_decode,
}

-- `[A-Za-z0-9]`
abbrev pub is_alnum : ℕ → Bool
is_alnum c = between b'0' b'9' c || (between b'A' b'Z' c || between b'a' b'z' c)

decode-encode_char : (c : ℕ) → (decode_char (encode_char c) ≡ c) ↔ (is_alnum c ≡ true)
unfolding decode_char encode_char
decode-encode_char c = ((λ h. ground arith), (λ h. ground arith))

-- Decoding what was encoded gives the text back exactly when it is made of ASCII letters and digits.
pub decode-encode_iff :
    (s : Text) → (caesar_decode (caesar_encode s) ≡ s) ↔ All (λ c. is_alnum c ≡ true) s
unfolding caesar_encode caesar_decode
decode-encode_iff [] = ((λ h. tt), (λ h. refl))
decode-encode_iff (c ∷ s) = (
  (λ h. ground (arith, (decode-encode_char c).0, (decode-encode_iff s).0)),
  (λ h. ground (arith, (decode-encode_char c).1, (decode-encode_iff s).1)),
)
