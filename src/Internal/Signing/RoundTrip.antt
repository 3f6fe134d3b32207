-- ===== src/Internal/Signing/RoundTrip.antt =====
-- The signer and the checker of a request, put together.
use rubigram.Base.{
  Bool-cases, any, is_empty, concat, has_prefix, strip, decimal, ℕ, ◌+◌, ◌≤◌, String, ◌≡◌, refl,
  inl, inr, true, false, none, some, List, arith, str_eq, eq_iff, eq_refl,
}
use rubigram.Base.Errors.{Result, ok, err, ◌>>=◌}
use rubigram.Base.Int.{pos}
use rubigram.Base.Texts.{all_chars, lower}
use rubigram.Base.Texts.Laws.{is_empty-cons, all_chars-concat}
use rubigram.Base.Numbers.{read_signed, int_of, signed_decimal}
use rubigram.Base.Numbers.Laws.{int_of-decimal}
use rubigram.Internal.Signing.{
  SignatureFailure, accepted_header_prefixes, is_ascii, message, signed_headers, get_header,
  header_named, header_in, header, is_expired, compare_digest, digest, sign_body, verify_issued,
  verify_headers, verify_body,
}

pub decimal-full : (n : ℕ) → is_empty (decimal n) ≡ false
unfolding int_of read_signed strip
decimal-full n = elim (Bool-cases (is_empty (decimal n))) [
  | inr e ↦ e
  | inl e ↦
      let empty : decimal n ≡ "" = (eq_iff (decimal n) "").0 e in
      let none_ : int_of (decimal n) ≡ none = rw empty refl in
      absurd (ground (arith, none_, int_of-decimal n))
]

unfoldable pub IsRead : (p t n hex : String) → Type 0
IsRead p t n hex =
    (header "Signature" (signed_headers p t n hex) ≡ some (concat "sha256=" hex))
    × (header "Timestamp" (signed_headers p t n hex) ≡ some t)
    × (header "Nonce" (signed_headers p t n hex) ≡ some n)

-- The headers are found under both of the prefixes.
module _ (t n hex : String) (full_t : is_empty t ≡ false) (full_n : is_empty n ≡ false) where
  IsRead-first : IsRead "X-Balegram" t n hex
  unfolding IsRead header header_in header_named get_header concat
  IsRead-first = (rw (is_empty-cons "s" (concat "ha256=" hex)) refl, rw full_t refl, rw full_n refl)

  IsRead-second : IsRead "X-Rubigram" t n hex
  unfolding IsRead header header_in header_named get_header concat lower
  IsRead-second =
      (rw (is_empty-cons "s" (concat "ha256=" hex)) refl, rw full_t refl, rw full_n refl)

  pub IsRead-accepted :
      (p : String) → any (str_eq p) accepted_header_prefixes ≡ true → IsRead p t n hex
  IsRead-accepted p h = elim (Bool-cases (str_eq p "X-Balegram")) [
    | inl e ↦ let same = (eq_iff p "X-Balegram").0 e in rw same IsRead-first
    | inr e ↦ elim (Bool-cases (str_eq p "X-Rubigram")) [
      | inl f ↦ let same = (eq_iff p "X-Rubigram").0 f in rw same IsRead-second
      | inr f ↦ absurd (ground (arith, h, e, f))
    ]
  ]

recent :
    (now t max_age : ℕ)
    → now ≤ t + max_age
    → t ≤ now + max_age
    → is_expired now (pos t) max_age ≡ false
unfolding is_expired
recent now t max_age h k = ground arith

compare_digest_same : (s : String) → all_chars is_ascii s ≡ true → compare_digest s s ≡ ok true
unfolding compare_digest
compare_digest_same s h = rw (h, eq_refl s) refl

module _ (hmac : String → List ℕ → String) (body : List ℕ) (secret : String) where
  -- What was signed: the secret is there, and the headers hold the digest of the message.
  pub sign_body-message :
      (timestamp : ℕ) (nonce prefix : String) (headers : List (String × String))
      → sign_body hmac body secret timestamp nonce prefix ≡ ok headers
      → (m : List ℕ) × (is_empty secret ≡ false)
        × (message (decimal timestamp) nonce body ≡ ok m)
        × (headers ≡ signed_headers prefix (decimal timestamp) nonce (hmac secret m))
  unfolding sign_body digest
  sign_body-message timestamp nonce prefix headers h = elim (Bool-cases (is_empty secret)) [
    | inl e ↦ absurd (refused (rw (e, sign_body) at h))
    | inr e ↦ encoded e (message (decimal timestamp) nonce body) refl (rw (e, sign_body) at h)
  ]
    where
      refused :
          {x : SignatureFailure}
          → Path (Result SignatureFailure (List (String × String))) (err x) (ok headers)
          → ⊥
      refused q = ground (arith, q)

      encoded :
          is_empty secret ≡ false
          → (x : Result SignatureFailure (List ℕ)) → message (decimal timestamp) nonce body ≡ x
          → ((x >>= λ m. ok (hmac secret m)) >>= λ hex.
              ok (signed_headers prefix (decimal timestamp) nonce hex))
            ≡ ok headers
          → (m : List ℕ) × (is_empty secret ≡ false)
            × (message (decimal timestamp) nonce body ≡ ok m)
            × (headers ≡ signed_headers prefix (decimal timestamp) nonce (hmac secret m))
      encoded e (ok m) q g = (m, e, q, cc)
      encoded e (err x) q g = absurd (refused g)

  accepted :
      (timestamp now max_age : ℕ) (nonce : String) (m : List ℕ)
      → all_chars is_ascii (hmac secret m) ≡ true
      → now ≤ timestamp + max_age
      → timestamp ≤ now + max_age
      → message (decimal timestamp) nonce body ≡ ok m
      → verify_issued hmac body secret max_age now
          (concat "sha256=" (hmac secret m))
          nonce
          (some (pos timestamp))
        ≡ ok (record { timestamp = pos timestamp; nonce = nonce })
  unfolding verify_issued digest signed_decimal
  accepted timestamp now max_age nonce m ascii late early e =
      rw
        (
          recent now timestamp max_age late early,
          e,
          compare_digest_same (concat "sha256=" (hmac secret m)) (
              all_chars-concat is_ascii "sha256=" (hmac secret m) (unfold all_chars in refl) ascii),
        )
        refl

  -- A body that was signed with a secret, under an accepted prefix of headers, is accepted with the
  -- same secret at every time that is no further away than the maximal age, and the signature's
  -- time and nonce are answered. The nonce is not empty, and digests are ASCII.
  pub verify_body-sign_body :
      (timestamp now max_age : ℕ) (nonce prefix : String) (headers : List (String × String))
      → ((m : List ℕ) → all_chars is_ascii (hmac secret m) ≡ true)
      → any (str_eq prefix) accepted_header_prefixes ≡ true
      → is_empty nonce ≡ false
      → now ≤ timestamp + max_age
      → timestamp ≤ now + max_age
      → sign_body hmac body secret timestamp nonce prefix ≡ ok headers
      → verify_body hmac body headers secret max_age now
        ≡ ok (record { timestamp = pos timestamp; nonce = nonce })
  unfolding verify_body verify_headers has_prefix concat IsRead
  verify_body-sign_body timestamp now max_age nonce prefix headers ascii known full late early h =
      let (m, e, q, same) = sign_body-message timestamp nonce prefix headers h in
      let read =
        IsRead-accepted (decimal timestamp) nonce (hmac secret m) (decimal-full timestamp) full
          prefix known in
      rw (same, e, read.0, read.1, read.2, int_of-decimal timestamp)
        (accepted timestamp now max_age nonce m (ascii m) late early q)
