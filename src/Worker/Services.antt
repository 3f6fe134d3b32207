-- ===== src/Worker/Services.antt =====
-- rubika.py, `view_post_count`: how many posts a view order's service id stands for.
use Prim.Native.Char.{code}
use rubigram.Base.{
  leb, if◌then◌else◌, is_empty, strip, decimal, ℕ, ◌+◌, ◌-◌, ◌*◌, ◌%◌, String, Bool, true, false,
  ◌&&◌, Option, none, some, List, [], ◌∷◌, str_eq,
}
use rubigram.Worker.Model.{Action, view}
use rubigram.Worker.Db.{Settings}

-- The value of a text of ASCII digits, `none` for any other text.
unfoldable pub ascii_number : ℕ → String → Option ℕ
ascii_number acc String.[] = some acc
ascii_number acc (String.◌∷◌ c rest) =
    let more = ascii_number (acc * 10 + (code c - 48)) rest in
    if leb 48 (code c) && leb (code c) 57 then more else none

unfoldable pub lookup_text : String → List (String × ℕ) → Option ℕ
lookup_text k [] = none
lookup_text k ((j, v) ∷ rest) = if str_eq j k then some v else lookup_text k rest

-- `view_post_count` of rubika.py
unfoldable pub view_post_count : Settings → String → Option ℕ
view_post_count s service_id =
    let raw = strip service_id in
    if is_empty raw then none else elim (ascii_number 0 raw) [
      | some n ↦ lookup_text (decimal (n % 100)) s.view_post_counts
      | none ↦ lookup_text raw s.view_post_counts
    ]

-- `action == VIEW and view_post_count(service_id) is None`
unfoldable pub knows_service : Settings → Action → String → Bool
knows_service s view service_id = elim (view_post_count s service_id) [
  | none ↦ false
  | some _ ↦ true
]
knows_service s _ service_id = true
