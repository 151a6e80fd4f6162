-- ===== src/Encoding/Integers.antt =====
-- Signed numbers: what encode.go writes, decode.go reads back.
use go_amqp.Base.{
  ℕ, ◌*◌, ◌%◌, ◌^◌, ◌<◌, ◌≡◌, refl, true, List, [], ◌∷◌, ◌++◌, arith, if◌then◌else◌, Bool-cases,
  inl, inr,
}
use go_amqp.Buffer.{
  Buffer, unread, append, append_byte, append_uint16, append_uint32, append_uint64, bytes_uint16,
  bytes_uint32, bytes_uint64, read_byte, read_uint16,
}
use go_amqp.Buffer.{read_uint32 as word32, read_uint64 as word64}
use go_amqp.Buffer.Laws.{IsValid, append-append}
use go_amqp.Buffer.Reads.{
  Reads, Reads-bind, Reads-read_byte, Reads-read_uint16, Reads-read_uint32, Reads-read_uint64,
}
use native.Mathlib.Nat.{mod-eq_of_lt}
use go_amqp.Encoding.Back.{read_back, Reads-tag, Reads-value}
use go_amqp.Encoding.Codes.{
  code_int, code_smallint, code_long, code_smalllong, code_byte, code_short,
}
use go_amqp.Encoding.Signed.{ℤ, pos, negsuc, to_word, from_word, Fits, is_small}
use go_amqp.Encoding.Write.{write_int32, write_int64, write_sbyte, write_short}
use go_amqp.Encoding.Read.{read_int32, read_long, read_sbyte, read_short}

-- Two's complement: the word of a value that fits is a word, and stands for the value.
pub from_word-to_word :
    (half : ℕ) (n : ℤ) → 0 < half → Fits half n → from_word half (to_word (2 * half) n) ≡ n
from_word-to_word half (pos n) p h =
    let e : n % (2 * half) ≡ n = mod-eq_of_lt (omega arith) in rw e (ground arith)
from_word-to_word half (negsuc n) p h =
    let e : n % (2 * half) ≡ n = mod-eq_of_lt (omega arith) in rw e (ground arith)

pub to_word-lt : (m : ℕ) (n : ℤ) → 0 < m → to_word m n < m
to_word-lt m (pos n) p = omega arith
to_word-lt m (negsuc n) p = omega arith

small-Fits : (n : ℤ) → is_small n ≡ true → Fits 128 n
small-Fits (pos n) h = ground arith
small-Fits (negsuc n) h = ground arith

abbrev form_int32 : ℤ → List ℕ
form_int32 n =
    if is_small n
    then code_smallint ∷ to_word (2 ^ 8) n ∷ []
    else code_int ∷ bytes_uint32 (to_word (2 ^ 32) n)

write_int32-form : (n : ℤ) (wr : Buffer) → write_int32 n wr ≡ append (form_int32 n) wr
unfolding write_int32 append_byte append_uint32
write_int32-form n wr = elim (Bool-cases (is_small n)) [
  | inl e ↦ rw e refl
  | inr e ↦ rw e (append-append wr (code_int ∷ []) (bytes_uint32 (to_word (2 ^ 32) n)))
]

read_int32-form :
    (n : ℤ) (rest : List ℕ)
    → Fits (2 ^ 31) n
    → (b : Buffer) → unread b ≡ form_int32 n ++ rest
    → IsValid b
    → Reads read_int32 b n rest
unfolding read_int32
read_int32-form n rest h b u v = elim (Bool-cases (is_small n)) [
  | inl e ↦
      let x = to_word (2 ^ 8) n in
      let back : from_word (2 ^ 7) x ≡ n = from_word-to_word 128 n (omega arith) (small-Fits n e) in
      Reads-tag _ b code_smallint n (x ∷ rest) rest (rw e at u) v (λ b' u' v'.
        Reads-bind read_byte _ b' x n rest rest (Reads-read_byte b' x rest u' v')
          (λ b'' q w. Reads-value (from_word (2 ^ 7) x) n b'' rest back q w))
  | inr e ↦
      let x = to_word (2 ^ 32) n in
      let back : from_word (2 ^ 31) x ≡ n = from_word-to_word (2 ^ 31) n (omega arith) h in
      Reads-tag _ b code_int n (bytes_uint32 x ++ rest) rest (rw e at u) v (λ b' u' v'.
        Reads-bind word32 _ b' x n rest rest
          (Reads-read_uint32 b' x rest (to_word-lt (2 ^ 32) n (omega arith)) u' v')
          (λ b'' q w. Reads-value (from_word (2 ^ 31) x) n b'' rest back q w))
]

-- `readInt32` reads back every int32 that the writer appended to a buffer read to its end, in its
-- one-byte and in its full form, and leaves what follows.
pub read_int32-write_int32 :
    (n : ℤ) (wr : Buffer) (rest : List ℕ)
    → Fits (2 ^ 31) n
    → IsValid wr
    → unread wr ≡ []
    → Reads read_int32 (append rest (write_int32 n wr)) n rest
read_int32-write_int32 n wr rest h v u =
    read_back read_int32 n (write_int32 n) wr (form_int32 n) rest v u (write_int32-form n wr)
      (read_int32-form n rest h)

abbrev form_int64 : ℤ → List ℕ
form_int64 n =
    if is_small n
    then code_smalllong ∷ to_word (2 ^ 8) n ∷ []
    else code_long ∷ bytes_uint64 (to_word (2 ^ 64) n)

write_int64-form : (n : ℤ) (wr : Buffer) → write_int64 n wr ≡ append (form_int64 n) wr
unfolding write_int64 append_byte append_uint64
write_int64-form n wr = elim (Bool-cases (is_small n)) [
  | inl e ↦ rw e refl
  | inr e ↦ rw e (append-append wr (code_long ∷ []) (bytes_uint64 (to_word (2 ^ 64) n)))
]

read_long-form :
    (n : ℤ) (rest : List ℕ)
    → Fits (2 ^ 63) n
    → (b : Buffer) → unread b ≡ form_int64 n ++ rest
    → IsValid b
    → Reads read_long b n rest
unfolding read_long
read_long-form n rest h b u v = elim (Bool-cases (is_small n)) [
  | inl e ↦
      let x = to_word (2 ^ 8) n in
      let back : from_word (2 ^ 7) x ≡ n = from_word-to_word 128 n (omega arith) (small-Fits n e) in
      Reads-tag _ b code_smalllong n (x ∷ rest) rest (rw e at u) v (λ b' u' v'.
        Reads-bind read_byte _ b' x n rest rest (Reads-read_byte b' x rest u' v')
          (λ b'' q w. Reads-value (from_word (2 ^ 7) x) n b'' rest back q w))
  | inr e ↦
      let x = to_word (2 ^ 64) n in
      let back : from_word (2 ^ 63) x ≡ n = from_word-to_word (2 ^ 63) n (omega arith) h in
      Reads-tag _ b code_long n (bytes_uint64 x ++ rest) rest (rw e at u) v (λ b' u' v'.
        Reads-bind word64 _ b' x n rest rest
          (Reads-read_uint64 b' x rest (to_word-lt (2 ^ 64) n (omega arith)) u' v')
          (λ b'' q w. Reads-value (from_word (2 ^ 63) x) n b'' rest back q w))
]

-- `readLong` reads back every int64 that the writer appended to a buffer read to its end, in its
-- one-byte and in its full form, and leaves what follows.
pub read_long-write_int64 :
    (n : ℤ) (wr : Buffer) (rest : List ℕ)
    → Fits (2 ^ 63) n
    → IsValid wr
    → unread wr ≡ []
    → Reads read_long (append rest (write_int64 n wr)) n rest
read_long-write_int64 n wr rest h v u =
    read_back read_long n (write_int64 n) wr (form_int64 n) rest v u (write_int64-form n wr)
      (read_long-form n rest h)

pub read_short-write_short :
    (n : ℤ) (wr : Buffer) (rest : List ℕ)
    → Fits (2 ^ 15) n
    → IsValid wr
    → unread wr ≡ []
    → Reads read_short (append rest (write_short n wr)) n rest
unfolding read_short write_short append_byte append_uint16
read_short-write_short n wr rest h v u =
    let x = to_word (2 ^ 16) n in
    let back : from_word (2 ^ 15) x ≡ n = from_word-to_word (2 ^ 15) n (omega arith) h in
    read_back read_short n (write_short n) wr (code_short ∷ bytes_uint16 x) rest v u
      (append-append wr (code_short ∷ []) (bytes_uint16 x))
      (λ b q w. Reads-tag _ b code_short n (bytes_uint16 x ++ rest) rest q w (λ b' u' v'.
        Reads-bind read_uint16 _ b' x n rest rest
          (Reads-read_uint16 b' x rest (to_word-lt (2 ^ 16) n (omega arith)) u' v')
          (λ b'' q w. Reads-value (from_word (2 ^ 15) x) n b'' rest back q w)))

pub read_sbyte-write_sbyte :
    (n : ℤ) (wr : Buffer) (rest : List ℕ)
    → Fits (2 ^ 7) n
    → IsValid wr
    → unread wr ≡ []
    → Reads read_sbyte (append rest (write_sbyte n wr)) n rest
unfolding read_sbyte write_sbyte
read_sbyte-write_sbyte n wr rest h v u =
    let x = to_word (2 ^ 8) n in
    let back : from_word (2 ^ 7) x ≡ n = from_word-to_word (2 ^ 7) n (omega arith) h in
    read_back read_sbyte n (write_sbyte n) wr (code_byte ∷ x ∷ []) rest v u refl (λ b q w.
      Reads-tag _ b code_byte n (x ∷ rest) rest q w (λ b' u' v'.
        Reads-bind read_byte _ b' x n rest rest (Reads-read_byte b' x rest u' v')
          (λ b'' q w. Reads-value (from_word (2 ^ 7) x) n b'' rest back q w)))
