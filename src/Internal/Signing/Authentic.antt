-- ===== src/Internal/Signing/Authentic.antt =====
-- Signatures: what an accepted request shows.
use mathlib.Core.List.{append_cancel_left}
use rubigram.Base.{
  Bool-cases, any, is_empty, concat, has_prefix, decimal, ℕ, ◌+◌, ◌≤◌, String, ◌≡◌, ◌≢◌, refl, sym,
  ap, ◌∙◌, inl, inr, Bool, true, false, some, List, ◌++◌, arith, str_eq, eq_iff,
}
use rubigram.Base.Errors.{Result, ok, err, ◌>>=◌}
use rubigram.Base.Int.{ℤ, pos}
use rubigram.Base.Texts.Laws.{concat_cancel}
use rubigram.Base.Numbers.{signed_decimal}
use rubigram.Base.Numbers.Laws.{int_of-decimal}
use rubigram.Internal.Signing.{
  SignatureFailure, VerifiedSignature, accepted_header_prefixes, ascii_bytes, message, is_expired,
  compare_digest, accept, digest, sign_body, verify_issued, verify_headers, verify_body,
}
use rubigram.Internal.Signing.RoundTrip.{decimal-full, IsRead, IsRead-accepted, sign_body-message}

-- One message holds one body.
message-body :
    (t n : String) (b b' m : List ℕ) → message t n b ≡ ok m → message t n b' ≡ ok m → b ≡ b'
unfolding message
message-body t n b b' m h k = go (ascii_bytes (concat t (concat "." (concat n ".")))) h k
  where
    go :
        (x : Result SignatureFailure (List ℕ))
        → (x >>= λ head. ok (head ++ b)) ≡ ok m
        → (x >>= λ head. ok (head ++ b')) ≡ ok m
        → b ≡ b'
    go (err e) h k = absurd (ground (arith, h))
    go (ok head) h k = append_cancel_left head b b' (cc (h, k))

not_expired :
    (now t max_age : ℕ)
    → is_expired now (pos t) max_age ≡ false
    → (now ≤ t + max_age) × (t ≤ now + max_age)
unfolding is_expired
not_expired now t max_age h = (ground (arith, h), ground (arith, h))

compared : (a b : String) → compare_digest a b ≡ ok true → a ≡ b
unfolding compare_digest
compared a b h = (eq_iff a b).0 (ground (arith, h))

module _ (hmac : String → List ℕ → String) (body : List ℕ) (secret : String) where
  -- What an accepted signature shows.
  Shows : ℕ → ℕ → String → String → ℤ → VerifiedSignature → Type 0
  Shows max_age now signature nonce issued_at v =
      (is_expired now issued_at max_age ≡ false)
      × (m : List ℕ) × (message (signed_decimal issued_at) nonce body ≡ ok m)
      × (signature ≡ concat "sha256=" (hmac secret m))
      × (v ≡ record { timestamp = issued_at; nonce = nonce })

  issued-Shows :
      (max_age now : ℕ) (signature nonce : String) (issued_at : ℤ) (v : VerifiedSignature)
      → verify_issued hmac body secret max_age now signature nonce (some issued_at) ≡ ok v
      → Shows max_age now signature nonce issued_at v
  unfolding verify_issued digest Shows
  issued-Shows max_age now signature nonce issued_at v h =
      elim (Bool-cases (is_expired now issued_at max_age)) [
        | inl e ↦ absurd (refused (rw e at h))
        | inr e ↦
            let (m, q, a, b) =
              encoded (message (signed_decimal issued_at) nonce body) refl (rw e at h) in
            (e, m, q, a, b)
      ]
    where
      refused :
          {x : SignatureFailure}
          → Path (Result SignatureFailure VerifiedSignature) (err x) (ok v)
          → ⊥
      refused q = ground (arith, q)

      matched :
          (m : List ℕ) (c : Result SignatureFailure Bool)
          → compare_digest signature (concat "sha256=" (hmac secret m)) ≡ c
          → (c >>= accept issued_at nonce) ≡ ok v
          → (signature ≡ concat "sha256=" (hmac secret m))
            × (v ≡ record { timestamp = issued_at; nonce = nonce })
      matched m (ok true) e g = (compared signature _ e, cc)
      matched m (ok false) e g = absurd (refused g)
      matched m (err x) e g = absurd (refused g)

      encoded :
          (x : Result SignatureFailure (List ℕ))
          → message (signed_decimal issued_at) nonce body ≡ x
          → ((x >>= λ m. ok (hmac secret m)) >>= λ hex.
              compare_digest signature (concat "sha256=" hex) >>= accept issued_at nonce)
            ≡ ok v
          → (m : List ℕ) × (message (signed_decimal issued_at) nonce body ≡ ok m)
            × (signature ≡ concat "sha256=" (hmac secret m))
            × (v ≡ record { timestamp = issued_at; nonce = nonce })
      encoded (err x) q g = absurd (refused g)
      encoded (ok m) q g =
          let r = matched m (compare_digest signature (concat "sha256=" (hmac secret m))) refl g in
          (m, q, r.0, r.1)

  -- Two messages that differ and have one digest under the secret.
  abbrev pub IsCollision : List ℕ → List ℕ → Type 0
  IsCollision m m' = (m ≢ m') × (hmac secret m ≡ hmac secret m')

  -- A request whose headers were made for a body is accepted only no further away from its time than
  -- the maximal age; the time and the nonce are the signed ones. If it is accepted with another body,
  -- the two messages, which hold the time, the nonce and either body, are a collision of the digest
  -- under the secret. The nonce is not empty.
  pub verify_body-same_body :
      (signed : List ℕ) (timestamp now max_age : ℕ) (nonce prefix : String)
      (headers : List (String × String)) (v : VerifiedSignature)
      → any (str_eq prefix) accepted_header_prefixes ≡ true
      → is_empty nonce ≡ false
      → sign_body hmac signed secret timestamp nonce prefix ≡ ok headers
      → verify_body hmac body headers secret max_age now ≡ ok v
      → (body ≢ signed
          → (m : List ℕ) × (m' : List ℕ) × (message (decimal timestamp) nonce signed ≡ ok m)
            × (message (decimal timestamp) nonce body ≡ ok m')
            × IsCollision m m')
        × (now ≤ timestamp + max_age)
        × (timestamp ≤ now + max_age)
        × (v.timestamp ≡ pos timestamp)
        × (v.nonce ≡ nonce)
  unfolding verify_body verify_headers has_prefix concat IsRead Shows signed_decimal
  verify_body-same_body signed timestamp now max_age nonce prefix headers v known full h k =
      let (m, e, q, same) = sign_body-message hmac signed secret timestamp nonce prefix headers h in
      let read =
        IsRead-accepted (decimal timestamp) nonce (hmac secret m) (decimal-full timestamp) full
          prefix known in
      let (fresh, m', q', sig, answer) =
        issued-Shows max_age now (concat "sha256=" (hmac secret m)) nonce (pos timestamp) v
          (rw (same, e, read.0, read.1, read.2, int_of-decimal timestamp) at k) in
      let window = not_expired now timestamp max_age fresh in
      (
        λ other. (
          m,
          m',
          q,
          q',
          (
            λ same_message. other (
                message-body (decimal timestamp) nonce body signed m (q' ∙ ap ok (sym same_message))
                  q),
            concat_cancel "sha256=" (hmac secret m) (hmac secret m') sig,
          ),
        ),
        window.0,
        window.1,
        ap (λ (x : VerifiedSignature). x.timestamp) answer,
        ap (λ (x : VerifiedSignature). x.nonce) answer,
      )
