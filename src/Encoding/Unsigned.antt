-- ===== src/Encoding/Unsigned.antt =====
-- Unsigned numbers, Booleans and floats: what encode.go writes, decode.go reads back.
use go_amqp.Base.{
  ℕ, ◌%◌, ◌^◌, ◌<◌, ◌≡◌, refl, Bool, true, false, List, [], ◌∷◌, ◌++◌, arith, ltb, ◌==◌,
  if◌then◌else◌, Bool-cases, inl, inr,
}
use go_amqp.Buffer.{
  Buffer, unread, append, append_byte, append_uint16, append_uint32, append_uint64, bytes_uint16,
  bytes_uint32, bytes_uint64,
}
use go_amqp.Buffer.Laws.{IsValid, append-append}
use go_amqp.Buffer.Reads.{
  Reads, Reads-return, Reads-read_byte, Reads-read_uint16, Reads-read_uint32, Reads-read_uint64,
}
use go_amqp.Encoding.Back.{read_back, Reads-tag}
use go_amqp.Encoding.Codes.{
  code_uint, code_small_uint, code_uint0, code_ulong, code_small_ulong, code_ulong0, code_ubyte,
  code_ushort, code_float, code_double, code_bool_true, code_bool_false,
}
use go_amqp.Encoding.Write.{
  write_uint32, write_uint64, write_ubyte, write_ushort, write_float, write_double, write_bool,
}
use go_amqp.Encoding.Read.{
  read_uint32, read_ulong, read_uint, read_ubyte, read_ushort, read_float, read_double, read_bool,
}

abbrev pub form_uint32 : ℕ → List ℕ
form_uint32 n =
    if n == 0
    then code_uint0 ∷ []
    else if ltb n 256
    then code_small_uint ∷ n % 256 ∷ []
    else code_uint ∷ bytes_uint32 n

pub write_uint32-form : (n : ℕ) (wr : Buffer) → write_uint32 n wr ≡ append (form_uint32 n) wr
unfolding write_uint32 append_byte append_uint32
write_uint32-form n wr = elim (Bool-cases (n == 0)) [
  | inl e ↦ rw e refl
  | inr e ↦ elim (Bool-cases (ltb n 256)) [
    | inl s ↦ rw (e, s) refl
    | inr s ↦ rw (e, s) (append-append wr (code_uint ∷ []) (bytes_uint32 n))
  ]
]

pub read_uint32-form :
    (n : ℕ) (rest : List ℕ)
    → n < 2 ^ 32
    → (b : Buffer) → unread b ≡ form_uint32 n ++ rest
    → IsValid b
    → Reads read_uint32 b n rest
unfolding read_uint32
read_uint32-form n rest h b u v = elim (Bool-cases (n == 0)) [
  | inl e ↦
      let z : n ≡ 0 = ground arith in
      rw z (
        Reads-tag _ b code_uint0 0 rest rest (rw e at u) v
          (λ b' u' v'. Reads-return 0 b' rest u' v'))
  | inr e ↦ elim (Bool-cases (ltb n 256)) [
    | inl s ↦
        let small : n % 256 ≡ n = ground arith in
        Reads-tag _ b code_small_uint n (n ∷ rest) rest (rw (e, s, small) at u) v
          (λ b' u' v'. Reads-read_byte b' n rest u' v')
    | inr s ↦
        Reads-tag _ b code_uint n (bytes_uint32 n ++ rest) rest (rw (e, s) at u) v
          (λ b' u' v'. Reads-read_uint32 b' n rest h u' v')
  ]
]

read_uint-form32 :
    (n : ℕ) (rest : List ℕ)
    → n < 2 ^ 32
    → (b : Buffer) → unread b ≡ form_uint32 n ++ rest
    → IsValid b
    → Reads read_uint b n rest
unfolding read_uint
read_uint-form32 n rest h b u v = elim (Bool-cases (n == 0)) [
  | inl e ↦
      let z : n ≡ 0 = ground arith in
      rw z (
        Reads-tag _ b code_uint0 0 rest rest (rw e at u) v
          (λ b' u' v'. Reads-return 0 b' rest u' v'))
  | inr e ↦ elim (Bool-cases (ltb n 256)) [
    | inl s ↦
        let small : n % 256 ≡ n = ground arith in
        Reads-tag _ b code_small_uint n (n ∷ rest) rest (rw (e, s, small) at u) v
          (λ b' u' v'. Reads-read_byte b' n rest u' v')
    | inr s ↦
        Reads-tag _ b code_uint n (bytes_uint32 n ++ rest) rest (rw (e, s) at u) v
          (λ b' u' v'. Reads-read_uint32 b' n rest h u' v')
  ]
]

-- `readUint32` reads back every uint32 that the writer appended to a buffer read to its
-- end, in each of the three forms, and leaves what follows.
pub read_uint32-write_uint32 :
    (n : ℕ) (wr : Buffer) (rest : List ℕ)
    → n < 2 ^ 32
    → IsValid wr
    → unread wr ≡ []
    → Reads read_uint32 (append rest (write_uint32 n wr)) n rest
read_uint32-write_uint32 n wr rest h v u =
    read_back read_uint32 n (write_uint32 n) wr (form_uint32 n) rest v u (write_uint32-form n wr)
      (read_uint32-form n rest h)

-- `readUint`, which takes any unsigned type, reads back every uint32 that the writer appended to a
-- buffer read to its end, in each of the three forms, and leaves what follows.
pub read_uint-write_uint32 :
    (n : ℕ) (wr : Buffer) (rest : List ℕ)
    → n < 2 ^ 32
    → IsValid wr
    → unread wr ≡ []
    → Reads read_uint (append rest (write_uint32 n wr)) n rest
read_uint-write_uint32 n wr rest h v u =
    read_back read_uint n (write_uint32 n) wr (form_uint32 n) rest v u (write_uint32-form n wr)
      (read_uint-form32 n rest h)

abbrev pub form_uint64 : ℕ → List ℕ
form_uint64 n =
    if n == 0
    then code_ulong0 ∷ []
    else if ltb n 256
    then code_small_ulong ∷ n % 256 ∷ []
    else code_ulong ∷ bytes_uint64 n

pub write_uint64-form : (n : ℕ) (wr : Buffer) → write_uint64 n wr ≡ append (form_uint64 n) wr
unfolding write_uint64 append_byte append_uint64
write_uint64-form n wr = elim (Bool-cases (n == 0)) [
  | inl e ↦ rw e refl
  | inr e ↦ elim (Bool-cases (ltb n 256)) [
    | inl s ↦ rw (e, s) refl
    | inr s ↦ rw (e, s) (append-append wr (code_ulong ∷ []) (bytes_uint64 n))
  ]
]

pub read_ulong-form :
    (n : ℕ) (rest : List ℕ)
    → n < 2 ^ 64
    → (b : Buffer) → unread b ≡ form_uint64 n ++ rest
    → IsValid b
    → Reads read_ulong b n rest
unfolding read_ulong
read_ulong-form n rest h b u v = elim (Bool-cases (n == 0)) [
  | inl e ↦
      let z : n ≡ 0 = ground arith in
      rw z (
        Reads-tag _ b code_ulong0 0 rest rest (rw e at u) v
          (λ b' u' v'. Reads-return 0 b' rest u' v'))
  | inr e ↦ elim (Bool-cases (ltb n 256)) [
    | inl s ↦
        let small : n % 256 ≡ n = ground arith in
        Reads-tag _ b code_small_ulong n (n ∷ rest) rest (rw (e, s, small) at u) v
          (λ b' u' v'. Reads-read_byte b' n rest u' v')
    | inr s ↦
        Reads-tag _ b code_ulong n (bytes_uint64 n ++ rest) rest (rw (e, s) at u) v
          (λ b' u' v'. Reads-read_uint64 b' n rest h u' v')
  ]
]

read_uint-form64 :
    (n : ℕ) (rest : List ℕ)
    → n < 2 ^ 64
    → (b : Buffer) → unread b ≡ form_uint64 n ++ rest
    → IsValid b
    → Reads read_uint b n rest
unfolding read_uint
read_uint-form64 n rest h b u v = elim (Bool-cases (n == 0)) [
  | inl e ↦
      let z : n ≡ 0 = ground arith in
      rw z (
        Reads-tag _ b code_ulong0 0 rest rest (rw e at u) v
          (λ b' u' v'. Reads-return 0 b' rest u' v'))
  | inr e ↦ elim (Bool-cases (ltb n 256)) [
    | inl s ↦
        let small : n % 256 ≡ n = ground arith in
        Reads-tag _ b code_small_ulong n (n ∷ rest) rest (rw (e, s, small) at u) v
          (λ b' u' v'. Reads-read_byte b' n rest u' v')
    | inr s ↦
        Reads-tag _ b code_ulong n (bytes_uint64 n ++ rest) rest (rw (e, s) at u) v
          (λ b' u' v'. Reads-read_uint64 b' n rest h u' v')
  ]
]

-- `readUlong` reads back every uint64 that the writer appended to a buffer read to its
-- end, in each of the three forms, and leaves what follows.
pub read_ulong-write_uint64 :
    (n : ℕ) (wr : Buffer) (rest : List ℕ)
    → n < 2 ^ 64
    → IsValid wr
    → unread wr ≡ []
    → Reads read_ulong (append rest (write_uint64 n wr)) n rest
read_ulong-write_uint64 n wr rest h v u =
    read_back read_ulong n (write_uint64 n) wr (form_uint64 n) rest v u (write_uint64-form n wr)
      (read_ulong-form n rest h)

-- `readUint`, which takes any unsigned type, reads back every uint64 that the writer appended to a
-- buffer read to its end, in each of the three forms, and leaves what follows.
pub read_uint-write_uint64 :
    (n : ℕ) (wr : Buffer) (rest : List ℕ)
    → n < 2 ^ 64
    → IsValid wr
    → unread wr ≡ []
    → Reads read_uint (append rest (write_uint64 n wr)) n rest
read_uint-write_uint64 n wr rest h v u =
    read_back read_uint n (write_uint64 n) wr (form_uint64 n) rest v u (write_uint64-form n wr)
      (read_uint-form64 n rest h)

pub read_ushort-write_ushort :
    (n : ℕ) (wr : Buffer) (rest : List ℕ)
    → n < 2 ^ 16
    → IsValid wr
    → unread wr ≡ []
    → Reads read_ushort (append rest (write_ushort n wr)) n rest
unfolding read_ushort write_ushort append_byte append_uint16
read_ushort-write_ushort n wr rest h v u =
    read_back read_ushort n (write_ushort n) wr (code_ushort ∷ bytes_uint16 n) rest v u
      (append-append wr (code_ushort ∷ []) (bytes_uint16 n))
      (λ b q w.
        Reads-tag _ b code_ushort n (bytes_uint16 n ++ rest) rest q w
          (λ b' u' v'. Reads-read_uint16 b' n rest h u' v'))

pub read_float-write_float :
    (n : ℕ) (wr : Buffer) (rest : List ℕ)
    → n < 2 ^ 32
    → IsValid wr
    → unread wr ≡ []
    → Reads read_float (append rest (write_float n wr)) n rest
unfolding read_float write_float append_byte append_uint32
read_float-write_float n wr rest h v u =
    read_back read_float n (write_float n) wr (code_float ∷ bytes_uint32 n) rest v u
      (append-append wr (code_float ∷ []) (bytes_uint32 n))
      (λ b q w.
        Reads-tag _ b code_float n (bytes_uint32 n ++ rest) rest q w
          (λ b' u' v'. Reads-read_uint32 b' n rest h u' v'))

pub read_double-write_double :
    (n : ℕ) (wr : Buffer) (rest : List ℕ)
    → n < 2 ^ 64
    → IsValid wr
    → unread wr ≡ []
    → Reads read_double (append rest (write_double n wr)) n rest
unfolding read_double write_double append_byte append_uint64
read_double-write_double n wr rest h v u =
    read_back read_double n (write_double n) wr (code_double ∷ bytes_uint64 n) rest v u
      (append-append wr (code_double ∷ []) (bytes_uint64 n))
      (λ b q w.
        Reads-tag _ b code_double n (bytes_uint64 n ++ rest) rest q w
          (λ b' u' v'. Reads-read_uint64 b' n rest h u' v'))

pub read_ubyte-write_ubyte :
    (n : ℕ) (wr : Buffer) (rest : List ℕ)
    → IsValid wr
    → unread wr ≡ []
    → Reads read_ubyte (append rest (write_ubyte n wr)) n rest
unfolding read_ubyte write_ubyte
read_ubyte-write_ubyte n wr rest v u =
    read_back read_ubyte n (write_ubyte n) wr (code_ubyte ∷ n ∷ []) rest v u refl (λ b q w.
      Reads-tag _ b code_ubyte n (n ∷ rest) rest q w (λ b' u' v'. Reads-read_byte b' n rest u' v'))

pub read_bool-write_bool :
    (t : Bool) (wr : Buffer) (rest : List ℕ)
    → IsValid wr
    → unread wr ≡ []
    → Reads read_bool (append rest (write_bool t wr)) t rest
unfolding read_bool write_bool append_byte
read_bool-write_bool true wr rest v u =
    read_back read_bool true (write_bool true) wr (code_bool_true ∷ []) rest v u refl (λ b q w.
      Reads-tag _ b code_bool_true true rest rest q w (λ b' u' v'. Reads-return true b' rest u' v'))
read_bool-write_bool false wr rest v u =
    read_back read_bool false (write_bool false) wr (code_bool_false ∷ []) rest v u refl (λ b q w.
      Reads-tag _ b code_bool_false false rest rest q w
        (λ b' u' v'. Reads-return false b' rest u' v'))
