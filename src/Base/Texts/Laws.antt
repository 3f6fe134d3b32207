-- ===== src/Base/Texts/Laws.antt =====
-- Laws of texts whose characters all satisfy a test.
use Prim.Native.Nat.{ℕ}
use Prim.Native.Char.{Char, code}
use Prim.Native.String.{String}
use mathlib.Core.Path.{◌≡◌, refl, ap}
use mathlib.Core.Bool.{Bool, true, false, not}
use mathlib.Core.List.{[], ◌∷◌}
use native.Mathlib.Omega.{arith}
use mathlib.Core.Logic.{inl, inr}
use text.Mathlib.TextEquality.{eq_iff}
use text.Mathlib.TextLemmas.{cons-ne-nil, tail-eq_of_cons-eq}
use rubigram.Base.Tests.{◌==◌, Bool-cases}
use rubigram.Base.Strings.{is_empty, concat, has_prefix, is_space, strip_left, strip_right, strip}
use rubigram.Base.Texts.{contains, all_chars, filter_chars, before, from, split_at}

pub all_chars-weaken :
    (p q : ℕ → Bool) (s : String)
    → ((c : ℕ) → p c ≡ true → q c ≡ true)
    → all_chars p s ≡ true
    → all_chars q s ≡ true
unfolding all_chars
all_chars-weaken p q String.[] w h = refl
all_chars-weaken p q (String.◌∷◌ c s) w h =
    let rest = all_chars-weaken p q s w (ground (arith, h)) in
    let here = w (code c) (ground (arith, h)) in ground (arith, rest, here)

pub is_empty-cons : (c : Char) (s : String) → is_empty (String.◌∷◌ c s) ≡ false
is_empty-cons c s = elim (Bool-cases (is_empty (String.◌∷◌ c s))) [
  | inl e ↦ absurd (cons-ne-nil c s ((eq_iff (String.◌∷◌ c s) "").0 e))
  | inr e ↦ e
]

pub filter_chars-all : (q : ℕ → Bool) (s : String) → all_chars q s ≡ true → filter_chars q s ≡ s
unfolding all_chars filter_chars
filter_chars-all q String.[] h = refl
filter_chars-all q (String.◌∷◌ c s) h =
    let here : q (code c) ≡ true = ground (arith, h) in
    let rest : all_chars q s ≡ true = ground (arith, h) in
    rw here (ap (String.◌∷◌ c) (filter_chars-all q s rest))

-- A text none of whose characters satisfies `p`.
pub before-concat :
    (p : ℕ → Bool) (s t : String)
    → all_chars (λ c. not (p c)) s ≡ true
    → (before p (concat s t) ≡ concat s (before p t)) × (from p (concat s t) ≡ from p t)
unfolding all_chars before from concat
before-concat p String.[] t h = (refl, refl)
before-concat p (String.◌∷◌ c s) t h =
    let here : p (code c) ≡ false = ground (arith, h) in
    let rest : all_chars (λ d. not (p d)) s ≡ true = ground (arith, h) in
    let ih = before-concat p s t rest in (rw here (ap (String.◌∷◌ c) ih.0), rw here ih.1)

pub concat_cancel : (s t u : String) → concat s t ≡ concat s u → t ≡ u
unfolding concat
concat_cancel String.[] t u h = h
concat_cancel (String.◌∷◌ c s) t u h = concat_cancel s t u (tail-eq_of_cons-eq h)

pub concat-nil : (s : String) → concat s "" ≡ s
unfolding concat
concat-nil String.[] = refl
concat-nil (String.◌∷◌ c s) = ap (String.◌∷◌ c) (concat-nil s)

pub before-none : (p : ℕ → Bool) (s : String) → all_chars (λ c. not (p c)) s ≡ true → before p s ≡ s
unfolding all_chars before
before-none p String.[] h = refl
before-none p (String.◌∷◌ c s) h =
    let here : p (code c) ≡ false = ground (arith, h) in
    let rest : all_chars (λ d. not (p d)) s ≡ true = ground (arith, h) in
    rw here (ap (String.◌∷◌ c) (before-none p s rest))

-- A text has no part that starts with a character which is not in it.
pub contains-none :
    (p : Char) (part s : String)
    → all_chars (λ c. not (c == code p)) s ≡ true
    → contains s (String.◌∷◌ p part) ≡ false
unfolding contains all_chars has_prefix
contains-none p part String.[] h = refl
contains-none p part (String.◌∷◌ c s) h =
    let here : (code p == code c) ≡ false = ground (arith, h) in
    let rest : all_chars (λ d. not (d == code p)) s ≡ true = ground (arith, h) in
    rw (here, contains-none p part s rest) refl

-- A text of one part or more without the separator is the first part of a split.
pub split_at-none :
    (sep : ℕ) (s : String) → all_chars (λ c. not (c == sep)) s ≡ true → split_at sep s ≡ s ∷ []
unfolding split_at all_chars
split_at-none sep String.[] h = refl
split_at-none sep (String.◌∷◌ c s) h =
    let here : (code c == sep) ≡ false = ground (arith, h) in
    let rest : all_chars (λ d. not (d == sep)) s ≡ true = ground (arith, h) in
    rw (here, split_at-none sep s rest) refl

pub split_at-concat :
    (sep : ℕ) (s : String) (d : Char) (t : String)
    → code d ≡ sep
    → all_chars (λ c. not (c == sep)) s ≡ true
    → split_at sep (concat s (String.◌∷◌ d t)) ≡ s ∷ split_at sep t
unfolding split_at all_chars concat
split_at-concat sep String.[] d t e h =
    let same : (code d == sep) ≡ true = ground (arith, e) in rw same refl
split_at-concat sep (String.◌∷◌ c s) d t e h =
    let here : (code c == sep) ≡ false = ground (arith, h) in
    let rest : all_chars (λ x. not (x == sep)) s ≡ true = ground (arith, h) in
    rw (here, split_at-concat sep s d t e rest) refl

-- A text that neither starts nor ends with a blank is kept by `strip`.
pub strip_right-none : (s : String) → all_chars (λ c. not (is_space c)) s ≡ true → strip_right s ≡ s
unfolding strip_right all_chars
strip_right-none String.[] h = refl
strip_right-none (String.◌∷◌ c s) h =
    let here : is_space (code c) ≡ false = ground (arith, h) in
    let rest : all_chars (λ d. not (is_space d)) s ≡ true = ground (arith, h) in
    rw (here, strip_right-none s rest) refl

pub strip-none : (s : String) → all_chars (λ c. not (is_space c)) s ≡ true → strip s ≡ s
unfolding strip strip_left all_chars
strip-none String.[] h = refl
strip-none (String.◌∷◌ c s) h =
    let here : is_space (code c) ≡ false = ground (arith, h) in
    rw here (strip_right-none (String.◌∷◌ c s) h)

pub all_chars-concat :
    (p : ℕ → Bool) (s t : String)
    → all_chars p s ≡ true
    → all_chars p t ≡ true
    → all_chars p (concat s t) ≡ true
unfolding all_chars concat
all_chars-concat p String.[] t h k = k
all_chars-concat p (String.◌∷◌ c s) t h k =
    let here : p (code c) ≡ true = ground (arith, h) in
    let rest : all_chars p s ≡ true = ground (arith, h) in
    rw (here, all_chars-concat p s t rest k) refl
