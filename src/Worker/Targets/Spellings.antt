-- ===== src/Worker/Targets/Spellings.antt =====
-- Targets: the spellings of a username.
use Prim.Native.Char.{Char, code}
use rubigram.Base.{
  ◌==◌, if◌then◌else◌, Bool-cases, is_empty, concat, has_prefix, is_space, strip, ℕ, String, ◌≡◌,
  refl, ap, ◌∙◌, ◌≢◌, ◌↔◌, inl, inr, Bool, true, false, not, ◌||◌, [], ◌∷◌, arith, str_eq, eq_iff,
}
use rubigram.Base.Errors.{ok}
use rubigram.Base.Texts.{
  contains, all_chars, filter_chars, before, from, strip_left_of, drop_chars, split_at, lower,
}
use rubigram.Base.Texts.Laws.{
  all_chars-weaken, is_empty-cons, filter_chars-all, concat_cancel, before-none, contains-none,
  split_at-none, split_at-concat, strip-none, all_chars-concat,
}
use rubigram.Worker.Targets.{
  username, TargetRef, is_word, is_username, is_guid_of, is_guid, key, username_of, clean_url,
  is_scheme, has_scheme, scheme_of, after_scheme, cut_params, path_of, urlparse, is_known_host,
  parts_of, link_of, hosted, classify, parse_target, normalize_target_key,
}

-- The ways to write a username: alone, with an at sign, and as a link.
pub data Spelling : Type 0 where
  alone with_at short_link link link_with_slash : Spelling

abbrev pub spelled : Spelling → String → String
spelled alone name = name
spelled with_at name = concat "@" name
spelled short_link name = concat "rubika.ir/" name
spelled link name = concat "https://rubika.ir/" name
spelled link_with_slash name = concat "https://rubika.ir/" (concat name "/")

-- A username that every spelling means: it does not read as a guid, nor as the start of an invite.
abbrev pub IsPlain : String → Type 0
IsPlain name =
    (is_username name ≡ true)
    × (is_guid name ≡ false)
    × (lower name ≢ "joinc")
    × (lower name ≢ "joing")

abbrev pub named : String → TargetRef
named name = record { kind = username; value = name; message_id = "" }

username-all_word : (n : String) → is_username n ≡ true → all_chars is_word n ≡ true
unfolding is_username all_chars
username-all_word String.[] h = absurd (cc)
username-all_word (String.◌∷◌ c s) h = ground (arith, h)

word_blank : (c : ℕ) → is_word c ≡ true → not (is_space c) ≡ true
word_blank c h = ground (arith, h)

module _ (n : String) (w : all_chars is_word n ≡ true) where
  strip-word : strip n ≡ n
  strip-word = strip-none n (all_chars-weaken is_word (λ c. not (is_space c)) n word_blank w)

  contains-word :
      (p : Char) (part : String) → is_word (code p) ≡ false → contains n (String.◌∷◌ p part) ≡ false
  contains-word p part h =
      contains-none p part n
        (all_chars-weaken is_word (λ c. not (c == code p)) n (λ c e. ground (arith, e, h)) w)

nonempty : is_username "" ≡ true → ⊥
unfolding is_username
nonempty h = absurd (false_true h)
  where
    false_true : false ≡ true → ⊥
    false_true e = ground (arith, e)

no_at :
    (c : Char) (s : String) → all_chars is_word (String.◌∷◌ c s) ≡ true → (code c == b'@') ≡ false
unfolding all_chars
no_at c s w = ground (arith, w)

username_of-lem : (n : String) → is_username n ≡ true → username_of n ≡ ok (named n)
unfolding username_of strip_left_of
username_of-lem String.[] h = absurd (nonempty h)
username_of-lem (String.◌∷◌ c s) h =
    let w = username-all_word (String.◌∷◌ c s) h in
    rw (strip-word (String.◌∷◌ c s) w, no_at c s w, h) refl

-- A username alone, if it does not read as a guid.
bare : (n : String) → is_username n ≡ true → is_guid n ≡ false → parse_target n ≡ ok (named n)
unfolding parse_target classify has_prefix
bare String.[] h g = absurd (nonempty h)
bare (String.◌∷◌ c s) h g =
    let w = username-all_word (String.◌∷◌ c s) h in
    let at : (b'@' == code c) ≡ false = ground (arith, no_at c s w) in
    rw
      (
        strip-word (String.◌∷◌ c s) w,
        is_empty-cons c s,
        g,
        at,
        contains-word (String.◌∷◌ c s) w ":" "//" refl,
        contains-word (String.◌∷◌ c s) w "/" "" refl,
      )
      (username_of-lem (String.◌∷◌ c s) h)

prefixed-strip :
    (p n : String)
    → all_chars (λ c. not (is_space c)) p ≡ true
    → all_chars (λ c. not (is_space c)) n ≡ true
    → strip (concat p n) ≡ concat p n
prefixed-strip p n h k = strip-none (concat p n) (all_chars-concat (λ c. not (is_space c)) p n h k)

word-no_blank :
    (n : String) → all_chars is_word n ≡ true → all_chars (λ c. not (is_space c)) n ≡ true
word-no_blank n w = all_chars-weaken is_word (λ c. not (is_space c)) n word_blank w

at_sign : (n : String) → is_username n ≡ true → parse_target (concat "@" n) ≡ ok (named n)
unfolding parse_target classify has_prefix concat is_guid is_guid_of drop_chars all_chars
at_sign String.[] h = absurd (nonempty h)
at_sign (String.◌∷◌ c s) h =
    let w = username-all_word (String.◌∷◌ c s) h in
    rw
      (
        prefixed-strip "@" (String.◌∷◌ c s) refl (word-no_blank (String.◌∷◌ c s) w),
        is_empty-cons "@" (String.◌∷◌ c s),
      )
      (username_of-lem (String.◌∷◌ c s) h)

-- The rest of a link: a username, with or without a slash behind it.
is_tail : ℕ → Bool
is_tail c = is_word c || c == b'/'

cut_params-none : (s : String) → all_chars is_tail s ≡ true → cut_params s ≡ s
unfolding cut_params all_chars is_tail
cut_params-none String.[] h = refl
cut_params-none (String.◌∷◌ c s) h =
    let here : (code c == b';') ≡ false = ground (arith, h) in
    let rest : all_chars is_tail s ≡ true = ground (arith, h) in
    rw (here, cut_params-none s rest) refl

module _ (tail : String) (t : all_chars is_tail tail ≡ true) where
  no_tail :
      (p : ℕ → Bool)
      → ((c : ℕ) → is_tail c ≡ true → not (p c) ≡ true)
      → all_chars (λ c. not (p c)) tail ≡ true
  no_tail p h = all_chars-weaken is_tail (λ c. not (p c)) tail h t

  urlparse-link :
      urlparse (concat "https://rubika.ir/" tail)
      ≡ ok (record { netloc = "rubika.ir"; path = concat "/" tail })
  unfolding urlparse clean_url has_scheme scheme_of after_scheme is_scheme path_of concat contains
      has_prefix before from strip_left_of filter_chars drop_chars lower all_chars is_tail
      cut_params
  urlparse-link =
      rw
        (
          filter_chars-all (λ c. not (c == 0x09 || (c == 0x0a || c == 0x0d))) tail
              (no_tail (λ c. c == 0x09 || (c == 0x0a || c == 0x0d)) (λ c e. ground (arith, e))),
          before-none (λ c. c == b'#') tail (no_tail (λ c. c == b'#') (λ c e. ground (arith, e))),
          before-none (λ c. c == b'?') tail (no_tail (λ c. c == b'?') (λ c e. ground (arith, e))),
          cut_params-none tail t,
        )
        refl

  -- A link to `tail`, written with or without its scheme.
  link-parts :
      (value : String)
      → is_empty value ≡ false
      → strip value ≡ value
      → is_guid value ≡ false
      → has_prefix "@" value ≡ false
      → contains value "/" ≡ true
      → (if contains value "://" then value else concat "https://" value)
        ≡ concat "https://rubika.ir/" tail
      → parse_target value ≡ link_of (parts_of (concat "/" tail))
  unfolding parse_target classify hosted is_known_host lower
  link-parts value e st g at slash same =
      rw (st, e, g, at, slash)
        (elim (Bool-cases (contains value "://")) [
          | inl x ↦ rw (x, (rw x at same), urlparse-link) refl
          | inr x ↦ rw (x, (rw x at same), urlparse-link) refl
        ])

word-is_tail : (n : String) → all_chars is_word n ≡ true → all_chars is_tail n ≡ true
unfolding is_tail
word-is_tail n w = all_chars-weaken is_word is_tail n (λ c h. ground (arith, h)) w

word-no_slash :
    (n : String) → all_chars is_word n ≡ true → all_chars (λ c. not (c == b'/')) n ≡ true
word-no_slash n w = all_chars-weaken is_word (λ c. not (c == b'/')) n (λ c h. ground (arith, h)) w

parts-name :
    (n : String)
    → is_username n ≡ true
    → (parts_of (concat "/" n) ≡ n ∷ []) × (parts_of (concat "/" (concat n "/")) ≡ n ∷ [])
unfolding parts_of concat split_at
parts-name String.[] h = absurd (nonempty h)
parts-name (String.◌∷◌ c s) h =
    let w = word-no_slash (String.◌∷◌ c s) (username-all_word (String.◌∷◌ c s) h) in
    (
      rw (split_at-none b'/' (String.◌∷◌ c s) w, is_empty-cons c s) refl,
      rw (split_at-concat b'/' (String.◌∷◌ c s) "/" "" refl w, is_empty-cons c s) refl,
    )

str_eq-ne : (s t : String) → s ≢ t → str_eq s t ≡ false
str_eq-ne s t h = elim (Bool-cases (str_eq s t)) [
  | inl e ↦ absurd (h ((eq_iff s t).0 e))
  | inr e ↦ e
]

link_of-name : (n : String) → IsPlain n → link_of (n ∷ []) ≡ ok (named n)
unfolding link_of
link_of-name n h =
    rw (str_eq-ne (lower n) "joinc" h.2, str_eq-ne (lower n) "joing" h.3) (username_of-lem n h.0)

parse_target-spelled :
    (p : Spelling) (n : String) → IsPlain n → parse_target (spelled p n) ≡ ok (named n)
unfolding concat contains has_prefix is_guid is_guid_of all_chars is_tail
parse_target-spelled alone n h = bare n h.0 h.1
parse_target-spelled with_at n h = at_sign n h.0
parse_target-spelled short_link n h =
    let w = username-all_word n h.0 in
    link-parts n (word-is_tail n w) (concat "rubika.ir/" n)
      (is_empty-cons "r" (concat "ubika.ir/" n))
      (prefixed-strip "rubika.ir/" n refl (word-no_blank n w)) refl refl refl
      (rw (contains-word n w ":" "//" refl) refl)
    ∙ (ap link_of (parts-name n h.0).0 ∙ link_of-name n h)
parse_target-spelled link n h =
    let w = username-all_word n h.0 in
    link-parts n (word-is_tail n w) (concat "https://rubika.ir/" n)
      (is_empty-cons "h" (concat "ttps://rubika.ir/" n))
      (prefixed-strip "https://rubika.ir/" n refl (word-no_blank n w)) refl refl refl refl
    ∙ (ap link_of (parts-name n h.0).0 ∙ link_of-name n h)
parse_target-spelled link_with_slash n h =
    let w = username-all_word n h.0 in
    link-parts (concat n "/") (all_chars-concat is_tail n "/" (word-is_tail n w) refl)
      (concat "https://rubika.ir/" (concat n "/"))
      (is_empty-cons "h" (concat "ttps://rubika.ir/" (concat n "/")))
      (prefixed-strip "https://rubika.ir/" (concat n "/") refl
        (all_chars-concat (λ c. not (is_space c)) n "/" (word-no_blank n w) refl))
      refl refl refl refl
    ∙ (ap link_of (parts-name n h.0).1 ∙ link_of-name n h)

-- Two spellings of usernames have one key exactly if the names agree up to the case of their
-- letters. The names must not read as guids or as the start of an invite link.
pub normalize_target_key-spellings :
    (p q : Spelling) (n m : String)
    → IsPlain n
    → IsPlain m
    → (normalize_target_key (spelled p n) ≡ normalize_target_key (spelled q m))
      ↔ (lower n ≡ lower m)
unfolding normalize_target_key key
normalize_target_key-spellings p q n m h k =
    rw (parse_target-spelled p n h, parse_target-spelled q m k)
      (
        (λ e. concat_cancel "user:" (lower n) (lower m) (cc e)),
        (λ e. ap (λ s. ok (concat "user:" s)) e),
      )
