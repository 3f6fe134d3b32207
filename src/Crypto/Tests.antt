-- ===== src/Crypto/Tests.antt =====
-- The cipher on short texts.
use rubigram.Base.{All, ◌≡◌, ◌↔◌, true, [], ◌∷◌}
use rubigram.Crypto.Cipher.{Text, caesar_encode, caesar_decode, is_alnum, decode-encode_iff}
use rubigram.Crypto.Auth.{change_auth_type, change_auth_type_twice}

abbrev letters : Text
letters = b'a' ∷ b'Z' ∷ b'7' ∷ []

change_auth_type_twice_example : change_auth_type (change_auth_type letters) ≡ letters
change_auth_type_twice_example = change_auth_type_twice letters

decode-encode_iff_example :
    (caesar_decode (caesar_encode letters) ≡ letters) ↔ All (λ c. is_alnum c ≡ true) letters
decode-encode_iff_example = decode-encode_iff letters
