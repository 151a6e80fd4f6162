-- ===== src/Buffer.antt =====
-- internal/buffer/buffer.go: the byte buffer that frames are read from and written to.
-- A byte is a number below 256. An operation is a step on the buffer that returns an outcome:
-- a value, an error, or Go's panic for a slice out of range. Lengths do not reach 2 ^ 63, so an
-- `int` is a plain number; the argument of `next` is a length from the wire or a constant, which
-- is never negative. `ReadFromOnce` is the part of it that shows: the bytes that the reader gave
-- are appended (the growth of the underlying array is Go's).
pub mod Laws
pub mod Reads
use go_amqp.Base.{
  ℕ, zero, suc, ◌+◌, ◌-◌, ◌*◌, ◌/◌, ◌%◌, ◌^◌, ◌≤◌, Bool, true, false, Option, none, some, List, [],
  ◌∷◌, ◌++◌, ltb, leb, ◌==◌, if◌then◌else◌, length, take, drop, get_or,
}

-- The errors of the wire format, one for each message of the source; a number is the type code,
-- size or offset that the message shows. `out_of_fuel` is the model's own, for a reader on fuel.
pub data Error : Type 0 where
  eof out_of_fuel unknown_expiry_policy not_marshaled missing_field invalid_map_key invalid_length
        invalid_header not_utf8 too_long invalid_body :
      Error
  invalid_type invalid_size invalid_offset unknown_performative : ℕ → Error
  not_implemented unknown_type : ℕ → Error
  invalid_value : ℕ → Error

pub data Outcome {ℓ} (A : Type ℓ) : Type ℓ where
  ok : A → Outcome A
  err : Error → Outcome A
  panic : Outcome A

pub record Buffer : Type 0 where
  pub bytes : List ℕ
  pub pos : ℕ

-- A step on a buffer. An error leaves the buffer where the step stopped.
abbrev pub Step : Type 0 → Type 0
Step A = Buffer → Outcome A × Buffer

-- What follows a step, by its outcome.
abbrev pub follow : {A B : Type 0} → Outcome A × Buffer → (A → Step B) → Outcome B × Buffer
follow (ok a, b) f = f a b
follow (err e, b) f = (err e, b)
follow (panic, b) f = (panic, b)

infixl 5 ◌>>=◌ ◌>>◌
abbrev pub ◌>>=◌ : {A B : Type 0} → Step A → (A → Step B) → Step B
◌>>=◌ m f b = follow (m b) f

abbrev pub ◌>>◌ : {B : Type 0} → Step (Unit {0}) → Step B → Step B
m >> k = m >>= λ _. k

abbrev pub return : {A : Type 0} → A → Step A
return a b = (ok a, b)

abbrev pub fail : {A : Type 0} → Error → Step A
fail e b = (err e, b)

unfoldable pub new : List ℕ → Buffer
new bytes = record { bytes = bytes; pos = 0 }

-- `readCheck`
abbrev pub beyond : Buffer → ℕ → Bool
beyond b n = ltb (length b.bytes) (b.pos + n)

-- The bytes from `pos` on; Go panics where `pos` is past the end.
unfoldable pub unread : Buffer → List ℕ
unread b = drop b.pos b.bytes

abbrev pub advance : ℕ → Buffer → Buffer
advance n b = record b { pos = b.pos + n }

unfoldable pub next : ℕ → Step (List ℕ × Bool)
unfolding unread
next n b =
    if ltb (length b.bytes) b.pos
    then (panic, b)
    else if beyond b n
    then (ok (unread b, false), record b { pos = length b.bytes })
    else (ok (take n (unread b), true), advance n b)

unfoldable pub skip : ℕ → Buffer → Buffer
skip n b = advance n b

unfoldable pub reset : Buffer → Buffer
reset b = record { bytes = []; pos = 0 }

unfoldable pub reclaim : Buffer → Buffer
unfolding unread
reclaim b = record { bytes = unread b; pos = 0 }

unfoldable pub len : Buffer → ℕ
len b = length b.bytes - b.pos

unfoldable pub size : Buffer → ℕ
size b = b.pos

unfoldable pub detach : Buffer → List ℕ × Buffer
detach b = (b.bytes, record { bytes = []; pos = 0 })

unfoldable pub read_byte : Step ℕ
read_byte b = if beyond b 1 then (err eof, b) else (ok (get_or b.bytes b.pos 0), advance 1 b)

unfoldable pub peek_byte : Step ℕ
peek_byte b = if beyond b 1 then (err eof, b) else (ok (get_or b.bytes b.pos 0), b)

-- binary.BigEndian.Uint16, Uint32 and Uint64, by the number of bytes.
abbrev pub big_endian_from : ℕ → List ℕ → ℕ
big_endian_from acc [] = acc
big_endian_from acc (x ∷ xs) = big_endian_from (acc * 256 + x) xs

abbrev pub big_endian : List ℕ → ℕ
big_endian xs = big_endian_from 0 xs

unfoldable pub read_uint : ℕ → Step ℕ
unfolding unread
read_uint w b =
    if beyond b w then (err eof, b) else (ok (big_endian (take w (unread b))), advance w b)

unfoldable pub read_uint16 : Step ℕ
unfolding read_uint
read_uint16 = read_uint 2

unfoldable pub read_uint32 : Step ℕ
unfolding read_uint
read_uint32 = read_uint 4

unfoldable pub read_uint64 : Step ℕ
unfolding read_uint
read_uint64 = read_uint 8

unfoldable pub append : List ℕ → Buffer → Buffer
append p b = record b { bytes = b.bytes ++ p }

unfoldable pub read_from_once : List ℕ → Option Error → Step (Unit {0})
unfolding append
read_from_once received none b = (ok tt, append received b)
read_from_once received (some e) b = (err e, append received b)

unfoldable pub append_byte : ℕ → Buffer → Buffer
unfolding append
append_byte x = append (x ∷ [])

-- byte(n>>8), byte(n)
abbrev pub bytes_uint16 : ℕ → List ℕ
bytes_uint16 n = n / 2 ^ 8 % 256 ∷ n % 256 ∷ []

abbrev pub bytes_uint32 : ℕ → List ℕ
bytes_uint32 n = n / 2 ^ 24 % 256 ∷ n / 2 ^ 16 % 256 ∷ n / 2 ^ 8 % 256 ∷ n % 256 ∷ []

abbrev pub bytes_uint64 : ℕ → List ℕ
bytes_uint64 n =
    n / 2 ^ 56 % 256
    ∷ n / 2 ^ 48 % 256
    ∷ n / 2 ^ 40 % 256
    ∷ n / 2 ^ 32 % 256
    ∷ n / 2 ^ 24 % 256
    ∷ n / 2 ^ 16 % 256
    ∷ n / 2 ^ 8 % 256
    ∷ n % 256
    ∷ []

unfoldable pub append_uint16 : ℕ → Buffer → Buffer
unfolding append
append_uint16 n = append (bytes_uint16 n)

unfoldable pub append_uint32 : ℕ → Buffer → Buffer
unfolding append
append_uint32 n = append (bytes_uint32 n)

unfoldable pub append_uint64 : ℕ → Buffer → Buffer
unfolding append
append_uint64 n = append (bytes_uint64 n)
