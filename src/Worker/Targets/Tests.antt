-- ===== src/Worker/Targets/Tests.antt =====
-- Targets of each kind.
use rubigram.Base.{concat, has_prefix, strip, ◌≡◌, refl, ◌↔◌, arith, eq_iff}
use rubigram.Base.Digits.{value_in, digit_value, is_digit}
use rubigram.Base.Errors.{ok, err}
use rubigram.Base.Texts.{
  contains, all_chars, filter_chars, before, from, strip_left_of, drop_chars, text_length, split_at,
  lower,
}
use rubigram.Worker.Targets.{
  bad_target, is_hash, is_username, is_guid_of, is_guid, is_channel_guid, is_guid_post, key,
  username_of, clean_url, is_scheme, has_scheme, scheme_of, after_scheme, cut_params, path_of,
  urlparse, is_known_host, parts_of, is_number, post_of, invite_of, link_of, hosted, classify,
  parse_target, normalize_target_key,
}
use rubigram.Worker.Targets.Spellings.{
  with_at, link_with_slash, spelled, IsPlain, normalize_target_key-spellings,
}

Channel-IsPlain : IsPlain "Channel"
unfolding is_username is_guid is_guid_of all_chars text_length lower
Channel-IsPlain = (
  refl,
  refl,
  (λ e. ground (arith, (eq_iff "channel" "joinc").1 e)),
  (λ e. ground (arith, (eq_iff "channel" "joing").1 e)),
)

channel-IsPlain : IsPlain "channel"
unfolding is_username is_guid is_guid_of all_chars text_length lower
channel-IsPlain = (
  refl,
  refl,
  (λ e. ground (arith, (eq_iff "channel" "joinc").1 e)),
  (λ e. ground (arith, (eq_iff "channel" "joing").1 e)),
)

normalize_target_key-spellings_example :
    (normalize_target_key (spelled link_with_slash "Channel")
      ≡ normalize_target_key (spelled with_at "channel"))
    ↔ (lower "Channel" ≡ lower "channel")
normalize_target_key-spellings_example =
    normalize_target_key-spellings link_with_slash with_at "Channel" "channel" Channel-IsPlain
      channel-IsPlain

-- A post, an invite, and a host that is not Rubika's.
post_key : normalize_target_key "https://rubika.ir/News/12?x#y" ≡ ok "post:news:12"
unfolding normalize_target_key parse_target classify hosted link_of post_of is_number is_digit
    digit_value value_in parts_of is_known_host urlparse clean_url scheme_of after_scheme has_scheme
    is_scheme path_of cut_params username_of key is_guid_post is_channel_guid is_guid is_guid_of
    is_username strip concat has_prefix all_chars before from contains filter_chars strip_left_of
    drop_chars text_length split_at lower
post_key = refl

invite_key : normalize_target_key " rubika.ir/JoinC/ABCDEFABCDEFABCD " ≡ ok "joinc:ABCDEFABCDEFABCD"
unfolding normalize_target_key parse_target classify hosted link_of invite_of is_hash parts_of
    is_known_host urlparse clean_url scheme_of after_scheme has_scheme is_scheme path_of cut_params
    key is_guid is_guid_of strip concat has_prefix all_chars before from contains filter_chars
    strip_left_of drop_chars text_length split_at lower
invite_key = refl

other_host : normalize_target_key "https://example.org/a" ≡ err (bad_target "unsupported host")
unfolding normalize_target_key parse_target classify hosted is_known_host urlparse clean_url
    scheme_of after_scheme has_scheme is_scheme path_of cut_params is_guid is_guid_of strip concat
    has_prefix all_chars before from contains filter_chars strip_left_of drop_chars lower
other_host = refl
