-- ===== src/Encoding/Signed.antt =====
-- Go's signed integers: an intN is an integer, and its conversions to and from words.
use go_amqp.Base.{ℕ, ◌-◌, ◌*◌, ◌%◌, ◌<◌, Bool, ltb, if◌then◌else◌}

-- `negsuc n` is -(n + 1).
pub data ℤ : Type 0 where
  pos : ℕ → ℤ
  negsuc : ℕ → ℤ

-- uint8(n), uint16(n), uint32(n), uint64(n): the value modulo `m`.
abbrev pub to_word : ℕ → ℤ → ℕ
to_word m (pos n) = n % m
to_word m (negsuc n) = m - 1 - n % m

-- int8(u) and the like: the word `u` below `2 * half` as two's complement.
abbrev pub from_word : ℕ → ℕ → ℤ
from_word half u = if ltb u half then pos u else negsuc (2 * half - 1 - u)

-- The value fits a signed type of `2 * half` values.
abbrev pub Fits : ℕ → ℤ → Type 0
Fits half (pos n) = n < half
Fits half (negsuc n) = n < half

-- n < 128 && n >= -128
abbrev pub is_small : ℤ → Bool
is_small (pos n) = ltb n 128
is_small (negsuc n) = ltb n 128
