-- ===== src/Internal/Signing.antt =====
-- rubigram_internal/signing.py: the signatures of requests between the worker and the panel.
use rubigram.Base.Numbers.{int_of, signed_decimal}
use rubigram.Base.Errors.{Result, ok, err, ◌>>=◌}
use rubigram.Base.Int.{ℤ, pos, negsuc}
use Prim.Native.Char.{code}
use rubigram.Base.{
  ltb, if◌then◌else◌, is_empty, concat, has_prefix, decimal, ℕ, suc, ◌+◌, String, Bool, true, false,
  ◌&&◌, ◌||◌, Option, none, some, List, [], ◌∷◌, ◌++◌, str_eq,
}
use rubigram.Base.Texts.{all_chars, lower}
pub mod Authentic
pub mod RoundTrip
mod Tests

-- `SignatureError` with its text; the `UnicodeEncodeError` of a text that is not ASCII; and the
-- `TypeError` of `compare_digest` for one.
pub data SignatureFailure : Type 0 where
  signature_error : String → SignatureFailure
  unicode_error type_error : SignatureFailure

pub record VerifiedSignature : Type 0 where
  pub timestamp : ℤ
  pub nonce : String

-- `ACCEPTED_HEADER_PREFIXES`
abbrev pub accepted_header_prefixes : List String
accepted_header_prefixes = "X-Balegram" ∷ "X-Rubigram" ∷ []

abbrev pub is_ascii : ℕ → Bool
is_ascii c = ltb c 128

-- The code points of a text, which are its bytes if it is ASCII.
unfoldable pub codes : String → List ℕ
codes String.[] = []
codes (String.◌∷◌ c s) = code c ∷ codes s

-- `s.encode("ascii")`
unfoldable pub ascii_bytes : String → Result SignatureFailure (List ℕ)
ascii_bytes s = if all_chars is_ascii s then ok (codes s) else err unicode_error

-- `_message`
unfoldable pub message : String → String → List ℕ → Result SignatureFailure (List ℕ)
message timestamp nonce body =
    ascii_bytes (concat timestamp (concat "." (concat nonce "."))) >>= λ head. ok (head ++ body)

abbrev pub signed_headers : String → String → String → String → List (String × String)
signed_headers prefix timestamp nonce hex =
    (concat prefix "-Signature", concat "sha256=" hex)
    ∷ (concat prefix "-Timestamp", timestamp)
    ∷ (concat prefix "-Nonce", nonce)
    ∷ []

-- `headers.get(name)`
unfoldable pub get_header : String → List (String × String) → Option String
get_header name [] = none
get_header name ((k, v) ∷ headers) = if str_eq k name then some v else get_header name headers

-- A header that is there and not empty.
abbrev full : Option String → Option String
full none = none
full (some v) = if is_empty v then none else some v

abbrev or_else : Option String → Option String → Option String
or_else none b = b
or_else (some a) b = some a

-- `headers.get(name) or headers.get(name.lower())`
unfoldable pub header_named : String → List (String × String) → Option String
header_named name headers =
    or_else (full (get_header name headers)) (full (get_header (lower name) headers))

-- `_header`
unfoldable pub header_in : List String → String → List (String × String) → Option String
header_in [] suffix headers = none
header_in (prefix ∷ prefixes) suffix headers =
    or_else (header_named (concat prefix (concat "-" suffix)) headers)
      (header_in prefixes suffix headers)

unfoldable pub header : String → List (String × String) → Option String
header suffix headers = header_in accepted_header_prefixes suffix headers

-- `abs(now - issued_at) > max_age`
unfoldable pub is_expired : ℕ → ℤ → ℕ → Bool
is_expired now (pos t) max_age = ltb (t + max_age) now || ltb (now + max_age) t
is_expired now (negsuc t) max_age = ltb max_age (now + suc t)

-- `hmac.compare_digest` of two texts
unfoldable pub compare_digest : String → String → Result SignatureFailure Bool
compare_digest a b =
    if all_chars is_ascii a && all_chars is_ascii b then ok (str_eq a b) else err type_error

abbrev pub accept : ℤ → String → Bool → Result SignatureFailure VerifiedSignature
accept issued_at nonce true = ok (record { timestamp = issued_at; nonce = nonce })
accept issued_at nonce false = err (signature_error "invalid internal signature")

abbrev missing : SignatureFailure
missing = signature_error "missing internal signature headers"

-- `hmac` is the hexadecimal HMAC-SHA256 of a message under a secret.
module _ (hmac : String → List ℕ → String) where
  -- `_digest`
  unfoldable pub digest : String → String → String → List ℕ → Result SignatureFailure String
  digest secret timestamp nonce body = message timestamp nonce body >>= λ m. ok (hmac secret m)

  -- `sign_body`, with the time and the nonce that it was given or made
  unfoldable pub sign_body :
      List ℕ → String → ℕ → String → String → Result SignatureFailure (List (String × String))
  sign_body body secret timestamp nonce prefix =
      if is_empty secret
      then err (signature_error "internal shared secret is not configured")
      else digest secret (decimal timestamp) nonce body >>= λ hex.
          ok (signed_headers prefix (decimal timestamp) nonce hex)

  -- `verify_body`, once the timestamp is read
  unfoldable pub verify_issued :
      List ℕ
      → String
      → ℕ
      → ℕ
      → String
      → String
      → Option ℤ
      → Result SignatureFailure VerifiedSignature
  verify_issued body secret max_age now signature nonce none =
      err (signature_error "invalid signature timestamp")
  verify_issued body secret max_age now signature nonce (some issued_at) =
      if is_expired now issued_at max_age
      then err (signature_error "expired internal signature")
      else digest secret (signed_decimal issued_at) nonce body >>= λ hex.
          compare_digest signature (concat "sha256=" hex) >>= accept issued_at nonce

  -- `verify_body`, of the three headers
  unfoldable pub verify_headers :
      List ℕ
      → String
      → ℕ
      → ℕ
      → Option String
      → Option String
      → Option String
      → Result SignatureFailure VerifiedSignature
  verify_headers body secret max_age now (some signature) (some timestamp) (some n) =
      if has_prefix "sha256=" signature
      then verify_issued body secret max_age now signature n (int_of timestamp)
      else err (signature_error "unsupported signature format")
  verify_headers body secret max_age now none timestamp n = err missing
  verify_headers body secret max_age now (some signature) none n = err missing
  verify_headers body secret max_age now (some signature) (some timestamp) none = err missing

  -- `verify_body`; `now` is `int(time.time())`.
  unfoldable pub verify_body :
      List ℕ → List (String × String) → String → ℕ → ℕ → Result SignatureFailure VerifiedSignature
  verify_body body headers secret max_age now =
      if is_empty secret
      then err (signature_error "internal shared secret is not configured")
      else verify_headers body secret max_age now (header "Signature" headers)
          (header "Timestamp" headers) (header "Nonce" headers)
