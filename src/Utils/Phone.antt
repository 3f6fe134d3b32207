-- ===== src/Utils/Phone.antt =====
-- rubigram/utils/phone.py: phone numbers of the login.
use rubigram.Base.{
  ◌==◌, if◌then◌else◌, is_empty, concat, has_prefix, is_space, strip, String, ◌≡◌, refl, Bool, not,
  ◌&&◌, ◌||◌,
}
use rubigram.Base.Digits.{value_in, digit_value, is_digit}
use rubigram.Base.Texts.{all_chars, filter_chars, drop_chars, translate_char, translate}

-- `translate(_PERSIAN_DIGITS)`: the Persian digits and the Arabic ones
unfoldable pub ascii_digits : String → String
ascii_digits =
    translate "۰۱۲۳۴۵۶۷۸۹\u{660}\u{661}\u{662}\u{663}\u{664}\u{665}\u{666}\u{667}\u{668}\u{669}"
      "01234567890123456789"

-- A leading `00` is dropped, a single leading zero stands for the country code.
unfoldable pub international : String → String → String
international country digits =
    if has_prefix "00" digits
    then drop_chars 2 digits
    else if has_prefix "0" digits
    then concat country (drop_chars 1 digits)
    else digits

-- `normalize_phone_number`, with the default country code
unfoldable pub normalize_phone_number : String → String
normalize_phone_number value = international "98" (filter_chars is_digit (ascii_digits value))

unfoldable pub looks_like_phone_number : String → Bool
looks_like_phone_number value =
    let stripped = strip value in
    not (is_empty stripped)
    && all_chars
        (λ c. is_digit c || (is_space c || (c == b'+' || (c == b'-' || (c == b'(' || c == b')')))))
        (ascii_digits stripped)

unfoldable pub looks_like_bot_token : String → Bool
looks_like_bot_token value =
    let stripped = strip value in not (is_empty stripped) && not (looks_like_phone_number stripped)

mobile : normalize_phone_number "+98 (0912) ۱" ≡ "9809121"
unfolding normalize_phone_number international ascii_digits translate translate_char filter_chars
    is_digit digit_value value_in has_prefix concat drop_chars
mobile = refl
