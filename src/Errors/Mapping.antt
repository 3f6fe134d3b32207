-- ===== src/Errors/Mapping.antt =====
-- rubigram/errors/mapping.py: the exception that a response's status pair stands for.
use rubigram.Base.{
  if◌then◌else◌, Bool-cases, any, All, or_text, strip, String, ◌≡◌, refl, inl, inr, Bool, true,
  false, Option, none, some, List, [], ◌∷◌, str_eq,
}

-- `RpcError` and its subclasses
pub data ErrorClass : Type 0 where
  rpc_error invalid_input not_supported_api_version server_error invalid_method : ErrorClass
  code_is_used code_is_expired code_is_invalid invalid_auth not_registered : ErrorClass
  too_requests username_exists undeliverable : ErrorClass

-- `dict.get`, over the entries of a literal
unfoldable pub lookup : String → List (String × ErrorClass) → Option ErrorClass
lookup key [] = none
lookup key ((k, c) ∷ rest) = let found = lookup key rest in if str_eq k key then some c else found

-- `STATUS_DET_MAP`
abbrev pub status_det_map : List (String × ErrorClass)
status_det_map =
    ("INVALID_INPUT", invalid_input)
    ∷ ("NOT_SUPPORTED_API_VERSION", not_supported_api_version)
    ∷ ("SERVER_ERROR", server_error)
    ∷ ("INVALID_METHOD", invalid_method)
    ∷ ("CODE_IS_USED", code_is_used)
    ∷ ("CODE_IS_EXPIRED", code_is_expired)
    ∷ ("INVALID_AUTH", invalid_auth)
    ∷ ("NOT_REGISTERED", not_registered)
    ∷ ("TOO_REQUESTS", too_requests)
    ∷ ("USERNAME_EXIST", username_exists)
    ∷ ("UNDELIVERABLE", undeliverable)
    ∷ []

-- `_LEGACY_STATUS_HINTS`
abbrev pub legacy_status_hints : List (String × ErrorClass)
legacy_status_hints =
    ("TOO_REQUESTS", too_requests)
    ∷ ("INVALID_AUTH", invalid_auth)
    ∷ ("NOT_REGISTERED", not_registered)
    ∷ ("INVALID_INPUT", invalid_input)
    ∷ []

-- `_LOGIN_METHODS`
abbrev pub login_methods : List String
login_methods = "signIn" ∷ "signUp" ∷ "checkTwoStepPasscode" ∷ "loginDisableTwoStep" ∷ []

unfoldable pub is_login : Option String → Bool
is_login none = false
is_login (some m) = any (λ k. str_eq k m) login_methods

abbrev text_or_empty : Option String → String
text_or_empty none = ""
text_or_empty (some t) = t

-- A login that refuses its input refuses the code.
unfoldable pub for_method : Option String → ErrorClass → ErrorClass
for_method method invalid_input = if is_login method then code_is_invalid else invalid_input
for_method method c = c

abbrev or_class : Option ErrorClass → ErrorClass → ErrorClass
or_class none c = c
or_class (some c) d = c

-- The class that `map_rpc_error` builds, and the status that it gets; `upper` is `str.upper`.
module _ (upper : String → String) where
  unfoldable pub error_class : String → Option String → Option String → ErrorClass
  error_class status status_det method = for_method method (
      or_class (lookup (upper (strip (text_or_empty status_det))) status_det_map)
        (or_class (lookup (upper (strip status)) legacy_status_hints) rpc_error))

  unfoldable pub map_rpc_error : String → Option String → Option String → ErrorClass × String
  map_rpc_error status status_det method =
      (error_class status status_det method, or_text (upper (strip status)) status)

-- `status == "OK"`, or no status at all
unfoldable pub is_ok : Option String → Bool
is_ok none = true
is_ok (some status) = str_eq status "OK"

-- Neither table names `CodeIsInvalid`.
abbrev is_code_invalid : ErrorClass → Bool
is_code_invalid code_is_invalid = true
is_code_invalid _ = false

lookup-avoids :
    (key : String) (xs : List (String × ErrorClass)) (d : ErrorClass)
    → All (λ x. is_code_invalid x.1 ≡ false) xs
    → is_code_invalid d ≡ false
    → is_code_invalid (or_class (lookup key xs) d) ≡ false
unfolding lookup
lookup-avoids key [] d h e = e
lookup-avoids key ((k, c) ∷ rest) d (h, hs) e = elim (Bool-cases (str_eq k key)) [
  | inl t ↦ rw (t, lookup) h
  | inr t ↦ rw (t, lookup) (lookup-avoids key rest d hs e)
]

for_method-login :
    (method : Option String) (c : ErrorClass)
    → is_code_invalid c ≡ false
    → (for_method method c ≡ code_is_invalid → is_login method ≡ true)
      × (for_method method c ≡ invalid_input → is_login method ≡ false)
unfolding for_method
for_method-login method invalid_input h = elim (Bool-cases (is_login method)) [
  | inl t ↦ rw (t, for_method) ((λ e. refl), λ e. absurd (cc))
  | inr t ↦ rw (t, for_method) ((λ e. absurd (cc)), λ e. refl)
]
for_method-login method code_is_invalid h = absurd (cc)
for_method-login method rpc_error h = ((λ e. absurd (cc)), λ e. absurd (cc))
for_method-login method not_supported_api_version h = ((λ e. absurd (cc)), λ e. absurd (cc))
for_method-login method server_error h = ((λ e. absurd (cc)), λ e. absurd (cc))
for_method-login method invalid_method h = ((λ e. absurd (cc)), λ e. absurd (cc))
for_method-login method code_is_used h = ((λ e. absurd (cc)), λ e. absurd (cc))
for_method-login method code_is_expired h = ((λ e. absurd (cc)), λ e. absurd (cc))
for_method-login method invalid_auth h = ((λ e. absurd (cc)), λ e. absurd (cc))
for_method-login method not_registered h = ((λ e. absurd (cc)), λ e. absurd (cc))
for_method-login method too_requests h = ((λ e. absurd (cc)), λ e. absurd (cc))
for_method-login method username_exists h = ((λ e. absurd (cc)), λ e. absurd (cc))
for_method-login method undeliverable h = ((λ e. absurd (cc)), λ e. absurd (cc))

-- `CodeIsInvalid` stands only for a login method, and `InvalidInput` never for one, whatever the
-- status pair.
pub error_class-login :
    (upper : String → String) (status : String) (status_det method : Option String)
    → (error_class upper status status_det method ≡ code_is_invalid → is_login method ≡ true)
      × (error_class upper status status_det method ≡ invalid_input → is_login method ≡ false)
unfolding error_class
error_class-login upper status status_det method = for_method-login method _ (
    lookup-avoids _ status_det_map _
      (refl, (refl, (refl, (refl, (refl, (refl, (refl, (refl, (refl, (refl, (refl, tt)))))))))))
      (lookup-avoids _ legacy_status_hints rpc_error (refl, (refl, (refl, (refl, tt)))) refl))
