-- ===== src/Crypto/Cipher/Defs.antt =====
-- rubigram/crypto/cipher.py: the key schedule and the obfuscation of the auth field.
-- A character is its code point, a text the list of its characters.
use rubigram.Base.{
  ℕ, ◌+◌, ◌-◌, ◌%◌, Bool, ◌&&◌, List, ◌++◌, map, take, drop, leb, sub_mod, if◌then◌else◌,
}

abbrev pub Text : Type 0
Text = List ℕ

-- `lo <= ch <= hi`
abbrev pub between : ℕ → ℕ → ℕ → Bool
between lo hi c = leb lo c && leb c hi

-- `(ord(ch) - 97 + 9) % 26` is `(ord(ch) - 88) % 26`
unfoldable pub key_char : ℕ → ℕ
key_char c =
    if between b'0' b'9' c then (c - b'0' + 5) % 10 + b'0' else sub_mod (c + 9) b'a' 26 + b'a'

-- `value[16:24] + value[:8] + value[24:32] + value[8:16]`
unfoldable pub rearrange : Text → Text
rearrange v = take 8 (drop 16 v) ++ (take 8 v ++ (take 8 (drop 24 v) ++ take 8 (drop 8 v)))

unfoldable pub create_secret_passphrase : Text → Text
create_secret_passphrase v = map key_char (rearrange v)

unfoldable pub encode_char : ℕ → ℕ
encode_char c =
    if between b'0' b'9' c
    then (c - b'0' + 3) % 10 + b'0'
    else if between b'A' b'Z' c
    then (c - b'A' + 3) % 26 + b'A'
    else sub_mod (32 + b'a') c 26 + b'a'

unfoldable pub caesar_encode : Text → Text
caesar_encode = map encode_char

unfoldable pub decode_char : ℕ → ℕ
decode_char c =
    if between b'0' b'9' c
    then sub_mod (c - b'0') 3 10 + b'0'
    else if between b'A' b'Z' c
    then sub_mod (c - b'A') 3 26 + b'A'
    else sub_mod (32 + b'a') c 26 + b'a'

unfoldable pub caesar_decode : Text → Text
caesar_decode = map decode_char
