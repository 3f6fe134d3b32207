-- ===== src/Network/Pool.antt =====
-- rubigram/network/pool.py: `UrlPool`, the URLs of one kind of data centre and which one is in use.
use rubigram.Base.{
  ltb, if◌then◌else◌, length, get_elem?, any, is_empty, ℕ, suc, ◌+◌, ◌%◌, String, Bool, true, false,
  not, ◌&&◌, Option, none, some, List, [], ◌∷◌, ◌++◌, str_eq,
}
use rubigram.Base.Errors.{Result, ok, err}
pub mod Laws
pub mod Replaced
pub mod Rounds

-- `TransportError("No URLs available in the pool")`, and the `IndexError` of a list
pub data PoolError : Type 0 where
  no_urls index_error : PoolError

-- Times are in microseconds, of the monotonic clock.
pub record UrlPool : Type 0 where
  pub urls : List String
  pub current_index : ℕ
  pub switch_lock : ℕ
  pub last_rotation : Option ℕ

-- `list[index]`
unfoldable pub at_index : List String → ℕ → Result PoolError String
at_index urls i = elim (get_elem? urls i) [ none ↦ err index_error | some url ↦ ok url ]

unfoldable pub get_current : UrlPool → Result PoolError String
get_current p = elim p.urls [ [] ↦ err no_urls | _ ∷ _ ↦ at_index p.urls p.current_index ]

-- `url in urls`
unfoldable pub has_url : String → List String → Bool
has_url url urls = any (λ u. str_eq u url) urls

-- `urls.index(url)`, of a url that is there
unfoldable pub index_of : String → List String → ℕ
index_of url [] = 0
index_of url (u ∷ us) = if str_eq u url then 0 else suc (index_of url us)

unfoldable pub set_current : String → UrlPool → Bool × UrlPool
set_current url p =
    if has_url url p.urls
    then (true, record p { current_index = index_of url p.urls })
    else (false, p)

unfoldable pub force_rotate : ℕ → UrlPool → Result PoolError String × UrlPool
force_rotate now p = elim p.urls [
  | [] ↦ (err no_urls, p)
  | _ ∷ _ ↦
      let next = (p.current_index + 1) % length p.urls in
      (at_index p.urls next, record p { current_index = next; last_rotation = some now })
]

-- `now - last_rotation < switch_lock`, of a clock that does not run backwards
unfoldable pub is_locked : ℕ → UrlPool → Bool
is_locked now p = elim p.last_rotation [ none ↦ false | some t ↦ ltb now (t + p.switch_lock) ]

unfoldable pub rotate : ℕ → UrlPool → Result PoolError String × UrlPool
rotate now p = if is_locked now p then (get_current p, p) else force_rotate now p

unfoldable pub reset : UrlPool → UrlPool
reset p = record p { current_index = 0; last_rotation = none }

-- The URLs in order, without the empty ones and without repetitions.
unfoldable pub dedupe_onto : List String → List String → List String
dedupe_onto deduped [] = deduped
dedupe_onto deduped (url ∷ urls) =
    dedupe_onto
      (if not (is_empty url) && not (has_url url deduped) then deduped ++ url ∷ [] else deduped)
      urls

-- `self._urls[self._current_index] if self._urls else None`, kept when it survives
unfoldable pub kept_index : UrlPool → List String → ℕ
kept_index p deduped = elim (get_elem? p.urls p.current_index) [
  | none ↦ 0
  | some current ↦ if has_url current deduped then index_of current deduped else 0
]

unfoldable pub replace_with : Bool → List String → UrlPool → Result PoolError (Unit {0}) × UrlPool
replace_with true [] p = (err no_urls, p)
replace_with false [] p = (ok tt, record p { urls = []; current_index = 0 })
replace_with strict (u ∷ us) p =
    (ok tt, record p { urls = u ∷ us; current_index = kept_index p (u ∷ us) })

unfoldable pub replace : List String → Bool → UrlPool → Result PoolError (Unit {0}) × UrlPool
replace urls strict p = replace_with strict (dedupe_onto [] urls) p

unfoldable pub new_pool : List String → ℕ → UrlPool
new_pool urls switch_lock =
    (replace urls false
      (record { urls = []; current_index = 0; switch_lock = switch_lock; last_rotation = none })).1
