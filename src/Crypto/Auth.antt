-- ===== src/Crypto/Auth.antt =====
-- rubigram/crypto/auth.py: `change_auth_type`, which disguises the public key sent at login.
use rubigram.Base.{ℕ, ◌+◌, ◌-◌, ◌≡◌, refl, [], ◌∷◌, map, arith, sub_mod, if◌then◌else◌}
use rubigram.Crypto.Cipher.{Text, between}

unfoldable pub auth_char : ℕ → ℕ
auth_char c =
    if between b'a' b'z' c
    then sub_mod 32 (c - b'a') 26 + b'a'
    else if between b'A' b'Z' c
    then sub_mod 29 (c - b'A') 26 + b'A'
    else if between b'0' b'9' c
    then sub_mod 13 (c - b'0') 10 + b'0'
    else c

unfoldable pub change_auth_type : Text → Text
change_auth_type = map auth_char

auth_char_twice : (c : ℕ) → auth_char (auth_char c) ≡ c
unfolding auth_char
auth_char_twice c = ground arith

-- Applying `change_auth_type` twice gives back every text, whatever characters it holds.
pub change_auth_type_twice : (s : Text) → change_auth_type (change_auth_type s) ≡ s
unfolding change_auth_type
change_auth_type_twice [] = refl
change_auth_type_twice (c ∷ s) = ground (arith, auth_char_twice c, change_auth_type_twice s)
