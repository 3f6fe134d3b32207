-- ===== src/Errors/Tests.antt =====
-- A login that was refused its input.
use rubigram.Base.{strip, String, ◌≡◌, refl, true, false, Option, some}
use rubigram.Errors.Mapping.{
  invalid_input, code_is_invalid, lookup, is_login, for_method, error_class, error_class-login,
}

abbrev as_it_is : String → String
as_it_is text = text

abbrev sign_in : Option String
sign_in = some "signIn"

error_class-login_example :
    (error_class as_it_is "ERROR_GENERIC" (some "INVALID_INPUT") sign_in ≡ code_is_invalid
      → is_login sign_in ≡ true)
    × (error_class as_it_is "ERROR_GENERIC" (some "INVALID_INPUT") sign_in ≡ invalid_input
        → is_login sign_in ≡ false)
error_class-login_example =
    error_class-login as_it_is "ERROR_GENERIC" (some "INVALID_INPUT") sign_in

-- The same answer to another method stays what it says.
refused-code : error_class as_it_is "ERROR_GENERIC" (some "INVALID_INPUT") sign_in ≡ code_is_invalid
unfolding error_class lookup for_method is_login strip
refused-code = refl
