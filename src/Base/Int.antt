-- ===== src/Base/Int.antt =====
-- The signed integers that the program reads from outside, as far as it compares them.
use rubigram.Base.{ℕ, min}

-- `negsuc n` is -(n + 1).
pub data ℤ : Type 0 where
  pos : ℕ → ℤ
  negsuc : ℕ → ℤ

-- `max(0, a)`
abbrev pub clamp : ℤ → ℕ
clamp (pos n) = n
clamp (negsuc n) = 0

-- `min(a, n)` for a length `n`
abbrev pub min_ℤ : ℤ → ℕ → ℤ
min_ℤ (pos a) n = pos (min a n)
min_ℤ (negsuc a) n = negsuc a
