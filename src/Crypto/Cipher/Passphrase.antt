-- ===== src/Crypto/Cipher/Passphrase.antt =====
-- The AES key material derived from an auth key.
use rubigram.Base.{◌≡◌, arith, min, length, length-append, length-take, length-drop, length-map}
use rubigram.Crypto.Cipher.Defs.{Text, rearrange, create_secret_passphrase}

-- The key material is as long as the auth key, cut off at 32 characters.
pub length-create_secret_passphrase :
    (v : Text) → length (create_secret_passphrase v) ≡ min 32 (length v)
unfolding create_secret_passphrase rearrange
length-create_secret_passphrase v =
    omega (arith, length-append {0}, length-take {0}, length-drop {0}, length-map {0, 0})
