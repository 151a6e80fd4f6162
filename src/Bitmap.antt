-- ===== src/Bitmap.antt =====
-- internal/bitmap/bitmap.go: the lazily grown bitmap that hands out channel and handle numbers.
-- A uint64 word is a number below 2 ^ 64; `bits` holds the words, lowest first.
pub mod Valid
pub mod Laws
pub mod Next
pub mod Alloc
use Prim.Native.Nat.{bit_and, bit_or}
use go_amqp.Base.{
  ℕ, ◌+◌, ◌-◌, ◌*◌, ◌/◌, ◌%◌, ◌^◌, Bool, true, false, Option, none, some, List, [], ◌∷◌, ◌++◌, ltb,
  leb, ◌==◌, if◌then◌else◌, length, get_or, set, replicate,
}
use go_amqp.Base.Bits.{bit, trailing_zeros}

pub record Bitmap : Type 0 where
  pub max : ℕ
  pub bits : List ℕ

unfoldable pub new : ℕ → Bitmap
new max = record { max = max; bits = [] }

-- `append(b.bits, make([]uint64, idx-l+1)...)` where the word is missing.
abbrev expanded : List ℕ → ℕ → List ℕ
expanded bits idx =
    if leb (length bits) idx then bits ++ replicate (idx - length bits + 1) 0 else bits

unfoldable pub add : Bitmap → ℕ → Bitmap
add b n =
    let idx = n / 64 in
    let offset = n % 64 in
    let bits = expanded b.bits idx in
    if ltb b.max n
    then b
    else record b { bits = set bits idx (bit_or (get_or bits idx 0) (2 ^ offset)) }

unfoldable pub remove : Bitmap → ℕ → Bitmap
remove b n =
    let idx = n / 64 in
    let offset = n % 64 in
    if leb (length b.bits) idx then b else record b {
      bits = set b.bits idx (bit_and (get_or b.bits idx 0) (2 ^ 64 - 1 - 2 ^ offset));
    }

-- The word at which the loop of `next` returns: its index and value.
unfoldable pub first_open : ℕ → List ℕ → Option (ℕ × ℕ)
first_open i [] = none
first_open i (v ∷ vs) =
    let later = first_open (i + 1) vs in if v == 2 ^ 64 - 1 then later else some (i, v)

-- The number found in word `i`, and the bitmap with its bit set.
unfoldable pub take_open : Bitmap → ℕ → ℕ → Bitmap × ℕ × Bool
take_open b i v =
    let offset = trailing_zeros 64 (2 ^ 64 - 1 - v) in
    let next = (i * 64 + offset) % 2 ^ 32 in
    if ltb b.max next
    then (b, next, false)
    else (record b { bits = set b.bits i (bit_or v (2 ^ offset)) }, next, true)

-- All words are full: append one, unless the range is used up.
unfoldable pub append_word : Bitmap → Bitmap × ℕ × Bool
append_word b =
    if ltb b.max (length b.bits * 64 % 2 ^ 64)
    then (b, 0, false)
    else (record b { bits = b.bits ++ 1 ∷ [] }, length b.bits * 64 % 2 ^ 32, true)

unfoldable pub at_open : Bitmap → Option (ℕ × ℕ) → Bitmap × ℕ × Bool
at_open b none = append_word b
at_open b (some (i, v)) = take_open b i v

unfoldable pub next : Bitmap → Bitmap × ℕ × Bool
next b = at_open b (first_open 0 b.bits)

-- Whether `n` is taken.
unfoldable pub contains : Bitmap → ℕ → Bool
contains b n = bit (get_or b.bits (n / 64) 0) (n % 64)
