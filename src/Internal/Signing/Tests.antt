-- ===== src/Internal/Signing/Tests.antt =====
-- A signed request with a digest that spells its message.

use rubigram.Base.{
  ◌≢◌, concat, decimal_from, decimal, ℕ, zero, suc, ◌+◌, ◌≤◌, String, ◌≡◌, refl, true, List, [],
  ◌∷◌, arith,
}
use rubigram.Base.Errors.{ok}
use rubigram.Base.Int.{ℤ, pos}
use rubigram.Base.Texts.{all_chars}
use rubigram.Internal.Signing.{
  is_ascii, codes, ascii_bytes, message, signed_headers, digest, sign_body, verify_body,
}
use rubigram.Internal.Signing.RoundTrip.{verify_body-sign_body}
use rubigram.Internal.Signing.Authentic.{IsCollision, verify_body-same_body}

ones : ℕ → String → String
ones zero rest = String.◌∷◌ "0" rest
ones (suc n) rest = String.◌∷◌ "1" (ones n rest)

spell : List ℕ → String
spell [] = ""
spell (n ∷ ns) = ones n (spell ns)

abbrev spelling : String → List ℕ → String
spelling secret m = spell m

ones-ascii :
    (n : ℕ) (s : String) → all_chars is_ascii s ≡ true → all_chars is_ascii (ones n s) ≡ true
unfolding ones all_chars
ones-ascii zero s h = h
ones-ascii (suc n) s h = ones-ascii n s h

spell-ascii : (m : List ℕ) → all_chars is_ascii (spell m) ≡ true
unfolding spell all_chars
spell-ascii [] = refl
spell-ascii (n ∷ ns) = ones-ascii n (spell ns) (spell-ascii ns)

abbrev hex : String
hex = spell (53 ∷ 46 ∷ 110 ∷ 46 ∷ 7 ∷ [])

abbrev headers : List (String × String)
headers = signed_headers "X-Rubigram" "5" "n" hex

signed : sign_body spelling (7 ∷ []) "key" 5 "n" "X-Rubigram" ≡ ok headers
unfolding sign_body digest message ascii_bytes codes all_chars concat decimal decimal_from spell
signed = refl

verify_body-sign_body_example :
    verify_body spelling (7 ∷ []) headers "key" 300 200
    ≡ ok (record { timestamp = pos 5; nonce = "n" })
verify_body-sign_body_example =
    verify_body-sign_body spelling (7 ∷ []) "key" 5 200 300 "n" "X-Rubigram" headers spell-ascii
      refl refl (omega arith) (omega arith) signed

-- A digest that is the same for all messages.
abbrev flat : String → List ℕ → String
flat secret m = "0"

abbrev flat_headers : List (String × String)
flat_headers = signed_headers "X-Rubigram" "5" "n" "0"

flat-signed : sign_body flat (7 ∷ []) "key" 5 "n" "X-Rubigram" ≡ ok flat_headers
unfolding sign_body digest message ascii_bytes codes all_chars concat decimal decimal_from
flat-signed = refl

flat-signed_other : sign_body flat (8 ∷ []) "key" 5 "n" "X-Rubigram" ≡ ok flat_headers
unfolding sign_body digest message ascii_bytes codes all_chars concat decimal decimal_from
flat-signed_other = refl

-- It lets another body through.
flat-accepts :
    verify_body flat (8 ∷ []) flat_headers "key" 300 200
    ≡ ok (record { timestamp = pos 5; nonce = "n" })
unfolding all_chars
flat-accepts =
    verify_body-sign_body flat (8 ∷ []) "key" 5 200 300 "n" "X-Rubigram" flat_headers (λ m. refl)
      refl refl (omega arith) (omega arith) flat-signed_other

verify_body-same_body_example :
    (◌≢◌ {A = List ℕ} (8 ∷ []) (7 ∷ [])
      → (m : List ℕ) × (m' : List ℕ) × (message (decimal 5) "n" (7 ∷ []) ≡ ok m)
        × (message (decimal 5) "n" (8 ∷ []) ≡ ok m')
        × IsCollision flat (8 ∷ []) "key" m m')
    × (◌≤◌ 200 (5 + 300))
    × (◌≤◌ 5 (200 + 300))
    × (◌≡◌ {A = ℤ} (pos 5) (pos 5))
    × (◌≡◌ {A = String} "n" "n")
verify_body-same_body_example =
    verify_body-same_body flat (8 ∷ []) "key" (7 ∷ []) 5 200 300 "n" "X-Rubigram" flat_headers
      (record { timestamp = pos 5; nonce = "n" }) refl refl flat-signed flat-accepts
