-- ===== src/Worker/Targets.antt =====
-- membership_worker/worker/targets.py: how the target of an order is read, and the key of a target.
use Prim.Native.Char.{code}
use rubigram.Base.{
  leb, ◌==◌, if◌then◌else◌, filter, any, is_empty, concat, has_prefix, strip, ℕ, String, Bool, true,
  false, not, ◌&&◌, ◌||◌, List, [], ◌∷◌, str_eq,
}
use rubigram.Base.Errors.{Result, ok, err, ◌>>=◌}
use rubigram.Base.Digits.{is_digit}
use rubigram.Base.Texts.{
  contains, all_chars, filter_chars, before, from, strip_left_of, drop_chars, text_length, split_at,
  lower,
}
pub mod Spellings
mod Tests

pub data Kind : Type 0 where
  channel_link group_link username guid post : Kind

-- `message_id` is empty but for a post.
pub record TargetRef : Type 0 where
  pub kind : Kind
  pub value : String
  pub message_id : String

-- `TargetError` with its text, and the plain `ValueError` that `urlparse` raises
pub data TargetFailure : Type 0 where
  bad_target : String → TargetFailure
  value_error : TargetFailure

abbrev is_letter : ℕ → Bool
is_letter c = (leb b'A' c && leb c b'Z') || (leb b'a' c && leb c b'z')

-- `[A-Za-z0-9]`
abbrev pub is_alnum : ℕ → Bool
is_alnum c = is_letter c || (leb b'0' c && leb c b'9')

-- `[A-Za-z0-9_]`
abbrev pub is_word : ℕ → Bool
is_word c = is_alnum c || c == b'_'

-- `_HASH_RE`. No text that is matched here ends in a line feed.
unfoldable pub is_hash : String → Bool
is_hash s = all_chars is_alnum s && (leb 16 (text_length s) && leb (text_length s) 64)

-- `_USERNAME_RE`
unfoldable pub is_username : String → Bool
is_username String.[] = false
is_username (String.◌∷◌ c s) =
    is_letter (code c) && (all_chars is_word s && (leb 2 (text_length s) && leb (text_length s) 63))

-- `[ugcbs]0[A-Za-z0-9]{30}`, of the letters given
unfoldable pub is_guid_of : (ℕ → Bool) → String → Bool
is_guid_of kinds String.[] = false
is_guid_of kinds (String.◌∷◌ k String.[]) = false
is_guid_of kinds (String.◌∷◌ k (String.◌∷◌ z s)) =
    kinds (code k) && (code z == b'0' && (all_chars is_alnum s && text_length s == 30))

-- `_GUID_RE`
unfoldable pub is_guid : String → Bool
is_guid = is_guid_of (λ c. c == b'u' || (c == b'g' || (c == b'c' || (c == b'b' || c == b's'))))

-- `_CHANNEL_GUID_RE`
unfoldable pub is_channel_guid : String → Bool
is_channel_guid = is_guid_of (λ c. c == b'c')

-- `TargetRef.is_guid_post`, of a post
unfoldable pub is_guid_post : TargetRef → Bool
is_guid_post r = is_channel_guid r.value

abbrev post_key : TargetRef → String → String
post_key r value = concat "post:" (concat value (concat ":" r.message_id))

abbrev key_of : Kind → TargetRef → String
key_of channel_link r = concat "joinc:" r.value
key_of group_link r = concat "joing:" r.value
key_of post r = post_key r (if is_guid_post r then r.value else lower r.value)
key_of guid r = concat "guid:" r.value
key_of username r = concat "user:" (lower r.value)

-- `TargetRef.key`
unfoldable pub key : TargetRef → String
key r = key_of r.kind r

-- `TargetRef.is_group`
unfoldable pub is_group : TargetRef → Bool
is_group r = elim r.kind [ group_link ↦ true | guid ↦ has_prefix "g0" r.value | _ ↦ false ]

-- `_username`
unfoldable pub username_of : String → Result TargetFailure TargetRef
username_of value =
    let name = strip_left_of (λ c. c == b'@') (strip value) in
    if is_username name
    then ok (record { kind = username; value = name; message_id = "" })
    else err (bad_target (concat value " is not a valid Rubika username"))

abbrev is_slash : ℕ → Bool
is_slash c = c == b'/'

-- `urlparse`: the blanks that it strips and the characters that it drops
unfoldable pub clean_url : String → String
clean_url s =
    filter_chars (λ c. not (c == 0x09 || (c == 0x0a || c == 0x0d)))
      (strip_left_of (λ c. leb c 0x20) s)

unfoldable pub is_scheme : String → Bool
is_scheme String.[] = false
is_scheme (String.◌∷◌ c s) =
    is_letter (code c) && all_chars (λ d. is_alnum d || (d == b'+' || (d == b'-' || d == b'.'))) s

abbrev is_colon : ℕ → Bool
is_colon c = c == b':'

-- `urlparse`: whether the text starts with a scheme and a colon
unfoldable pub has_scheme : String → Bool
has_scheme url = contains url ":" && is_scheme (before is_colon url)

unfoldable pub scheme_of : String → String
scheme_of url = if has_scheme url then lower (before is_colon url) else ""

unfoldable pub after_scheme : String → String
after_scheme url = if has_scheme url then drop_chars 1 (from is_colon url) else url

-- `urllib.parse.uses_params`
abbrev uses_params : List String
uses_params =
    "" ∷ "ftp" ∷ "hdl" ∷ "prospero" ∷ "http" ∷ "https" ∷ "shttp" ∷ "rtsp" ∷ "rtspu" ∷ "sip" ∷ "sips"
    ∷ "mms" ∷ "sftp" ∷ "tel" ∷ []

-- `_splitparams`: the last segment of a path ends before its first semicolon.
unfoldable pub cut_params : String → String
cut_params String.[] = ""
cut_params (String.◌∷◌ c s) =
    let rest = cut_params s in
    if code c == b';' && not (contains s "/") then "" else String.◌∷◌ c rest

-- The characters that end the host.
abbrev ends_host : ℕ → Bool
ends_host c = c == b'/' || (c == b'?' || c == b'#')

-- The part of a URL before the query and the fragment.
unfoldable pub path_of : String → String → String
path_of scheme rest =
    let path = before (λ c. c == b'?') (before (λ c. c == b'#') rest) in
    if any (str_eq scheme) uses_params then cut_params path else path

-- What `parsed.netloc` and `parsed.path` are. A host in brackets is refused either way, and so is
-- one whose characters stand for one of `/?#@:`.
pub record Url : Type 0 where
  pub netloc : String
  pub path : String

abbrev has_unpaired_bracket : String → Bool
has_unpaired_bracket s =
    (contains s "[" && not (contains s "]")) || (contains s "]" && not (contains s "["))

abbrev with_host : String → String → Result TargetFailure Url
with_host scheme rest =
    let netloc = before ends_host rest in
    if has_unpaired_bracket netloc
    then err value_error
    else ok (record { netloc = netloc; path = path_of scheme (from ends_host rest) })

abbrev url_after : String → String → Result TargetFailure Url
url_after scheme rest =
    if has_prefix "//" rest
    then with_host scheme (drop_chars 2 rest)
    else ok (record { netloc = ""; path = path_of scheme rest })

unfoldable pub urlparse : String → Result TargetFailure Url
urlparse s = let url = clean_url s in url_after (scheme_of url) (after_scheme url)

-- `_HOSTS`
abbrev hosts : List String
hosts = "rubika.ir" ∷ "www.rubika.ir" ∷ "m.rubika.ir" ∷ "web.rubika.ir" ∷ []

unfoldable pub is_known_host : String → Bool
is_known_host netloc = any (str_eq (lower netloc)) hosts

-- `[part for part in parsed.path.split("/") if part]`
unfoldable pub parts_of : String → List String
parts_of path = filter (λ part. not (is_empty part)) (split_at b'/' path)

unfoldable pub is_number : String → Bool
is_number s = not (is_empty s) && all_chars is_digit s

abbrev with_message : String → TargetRef → TargetRef
with_message id r = record { kind = post; value = r.value; message_id = id }

-- A link to a post, whose channel is a guid or a username.
unfoldable pub post_of : String → String → Result TargetFailure TargetRef
post_of channel id =
    if is_channel_guid channel
    then ok (record { kind = post; value = channel; message_id = id })
    else username_of channel >>= λ r. ok (with_message id r)

unfoldable pub invite_of : Kind → List String → Result TargetFailure TargetRef
invite_of k [] = err (bad_target "invite link has no hash")
invite_of k (hash ∷ rest) =
    if is_hash hash
    then ok (record { kind = k; value = hash; message_id = "" })
    else err (bad_target "invite link has no hash")

abbrev page_of : String → List String → Result TargetFailure TargetRef
page_of first [] = username_of first
page_of first (second ∷ rest) = if is_number second then post_of first second else username_of first

-- `parse_target`, from the parts of the path on
unfoldable pub link_of : List String → Result TargetFailure TargetRef
link_of [] = err (bad_target "link has no path")
link_of (first ∷ rest) =
    if str_eq (lower first) "joinc"
    then invite_of channel_link rest
    else if str_eq (lower first) "joing"
    then invite_of group_link rest
    else page_of first rest

unfoldable pub hosted : Url → Result TargetFailure TargetRef
hosted url =
    if is_known_host url.netloc
    then link_of (parts_of url.path)
    else err (bad_target "unsupported host")

abbrev read_guid : String → Result TargetFailure TargetRef
read_guid value =
    if has_prefix "c" value || has_prefix "g" value
    then ok (record { kind = guid; value = value; message_id = "" })
    else err (bad_target "only channel (c0…) and group (g0…) guids can be targets")

abbrev read_url : String → Result TargetFailure TargetRef
read_url value =
    urlparse (if contains value "://" then value else concat "https://" value) >>= hosted

-- `parse_target`, of a value that is stripped and not empty
unfoldable pub classify : String → Result TargetFailure TargetRef
classify value =
    if is_guid value
    then read_guid value
    else if has_prefix "@" value
    then username_of (drop_chars 1 value)
    else if not (contains value "://") && not (contains value "/")
    then username_of value
    else read_url value

unfoldable pub parse_target : String → Result TargetFailure TargetRef
parse_target raw_value =
    let value = strip raw_value in
    if is_empty value then err (bad_target "target is empty") else classify value

unfoldable pub normalize_target_key : String → Result TargetFailure String
normalize_target_key raw_value = parse_target raw_value >>= λ r. ok (key r)
