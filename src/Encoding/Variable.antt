-- ===== src/Encoding/Variable.antt =====
-- Strings, symbols, binaries and UUIDs: what encode.go writes, decode.go reads back.
use go_amqp.Base.{
  ℕ, ◌-◌, ◌%◌, ◌^◌, ◌≤◌, ◌<◌, ◌≡◌, refl, ◌∙◌, ap, true, false, List, [], ◌∷◌, ◌++◌, arith, length,
  ltb, ◌==◌, if◌then◌else◌, Bool-cases, inl, inr, ◌⊎◌, lt→ltb,
}
use go_amqp.Buffer.{
  Buffer, Step, ok, err, not_utf8, too_long, Error, ◌>>=◌, return, unread, append, append_byte,
  append_uint32, bytes_uint32, read_byte, next, big_endian, invalid_length, invalid_type,
}
use go_amqp.Buffer.Laws.{IsValid, append-append}
use go_amqp.Buffer.Reads.{Reads, Reads-return, Reads-bind, Reads-read_byte, Reads-next}
use go_amqp.Encoding.Back.{read_back, Reads-tag, Reads-value}
use go_amqp.Encoding.Codes.{code_str8, code_str32, code_sym8, code_sym32, code_vbin8, code_vbin32}
use go_amqp.Encoding.Utf8.{valid_string}
use go_amqp.Encoding.Write.{write_string, write_symbol, write_binary}
use go_amqp.Encoding.Read.{need, read_string, read_string_length, read_binary, read_binary_length}

pub Reads-need :
    (e : Error) (b : Buffer) (xs rest : List ℕ)
    → unread b ≡ xs ++ rest
    → IsValid b
    → Reads (need (length xs) e) b xs rest
Reads-need e b xs rest u v =
    Reads-bind (next (length xs)) _ b (xs, true) xs rest rest (Reads-next b xs rest u v)
      (λ b' q w. Reads-return xs b' rest q w)

-- A length of four bytes.
Reads-length32 :
    (e : Error) (b : Buffer) (n : ℕ) (rest : List ℕ)
    → n < 2 ^ 32
    → unread b ≡ bytes_uint32 n ++ rest
    → IsValid b
    → Reads (need 4 e >>= λ buf. return (big_endian buf)) b n rest
Reads-length32 e b n rest h u v =
    let same : big_endian (bytes_uint32 n) ≡ n = omega arith in
    Reads-bind (need 4 e) _ b (bytes_uint32 n) n rest rest
      (Reads-need e b (bytes_uint32 n) rest u v)
      (λ b' q w. Reads-value (big_endian (bytes_uint32 n)) n b' rest same q w)

-- A value of variable length: a code and one byte for the length, or a code and four bytes.
abbrev pub form : ℕ → ℕ → List ℕ → List ℕ
form c8 c32 xs =
    if ltb (length xs) 256 then c8 ∷ length xs % 256 ∷ xs else c32 ∷ bytes_uint32 (length xs) ++ xs

-- The same as the writers append it.
abbrev pub store : ℕ → ℕ → List ℕ → Buffer → Buffer
store c8 c32 xs wr =
    if ltb (length xs) 256
    then append xs (append (c8 ∷ length xs % 256 ∷ []) wr)
    else append xs (append_uint32 (length xs) (append (c32 ∷ []) wr))

pub store-form :
    (c8 c32 : ℕ) (xs : List ℕ) (wr : Buffer) → store c8 c32 xs wr ≡ append (form c8 c32 xs) wr
unfolding append_uint32
store-form c8 c32 xs wr = elim (Bool-cases (ltb (length xs) 256)) [
  | inl e ↦ rw e (append-append wr (c8 ∷ length xs % 256 ∷ []) xs)
  | inr e ↦ rw e (
      ap (append xs) (append-append wr (c32 ∷ []) (bytes_uint32 (length xs)))
      ∙ append-append wr (c32 ∷ bytes_uint32 (length xs)) xs)
]

-- What is left after the code: the length, then the bytes.
Reads-body :
    (m : Step ℕ) (b : Buffer) (xs rest : List ℕ)
    → Reads m b (length xs) (xs ++ rest)
    → Reads (m >>= λ n. need n invalid_length) b xs rest
Reads-body m b xs rest r =
    Reads-bind m _ b (length xs) xs (xs ++ rest) rest r
      (λ b' q w. Reads-need invalid_length b' xs rest q w)

pub Reads-string :
    (xs rest : List ℕ)
    → length xs < 2 ^ 32
    → (b : Buffer) → unread b ≡ form code_str8 code_str32 xs ++ rest
    → IsValid b
    → Reads read_string b xs rest
unfolding read_string read_string_length
Reads-string xs rest h b u v = elim (Bool-cases (ltb (length xs) 256)) [
  | inl e ↦
      let small : length xs % 256 ≡ length xs = ground arith in
      Reads-tag _ b code_str8 xs (length xs ∷ xs ++ rest) rest (rw (e, small) at u) v (λ b' q w.
        Reads-body read_byte b' xs rest (Reads-read_byte b' (length xs) (xs ++ rest) q w))
  | inr e ↦
      Reads-tag _ b code_str32 xs (bytes_uint32 (length xs) ++ (xs ++ rest)) rest (rw e at u) v
        (λ b' q w.
          Reads-body (need 4 (invalid_type code_str32) >>= λ buf. return (big_endian buf)) b' xs
            rest (Reads-length32 (invalid_type code_str32) b' (length xs) (xs ++ rest) h q w))
]

pub Reads-symbol :
    (xs rest : List ℕ)
    → length xs < 2 ^ 32
    → (b : Buffer) → unread b ≡ form code_sym8 code_sym32 xs ++ rest
    → IsValid b
    → Reads read_string b xs rest
unfolding read_string read_string_length
Reads-symbol xs rest h b u v = elim (Bool-cases (ltb (length xs) 256)) [
  | inl e ↦
      let small : length xs % 256 ≡ length xs = ground arith in
      Reads-tag _ b code_sym8 xs (length xs ∷ xs ++ rest) rest (rw (e, small) at u) v (λ b' q w.
        Reads-body read_byte b' xs rest (Reads-read_byte b' (length xs) (xs ++ rest) q w))
  | inr e ↦
      Reads-tag _ b code_sym32 xs (bytes_uint32 (length xs) ++ (xs ++ rest)) rest (rw e at u) v
        (λ b' q w.
          Reads-body (need 4 (invalid_type code_sym32) >>= λ buf. return (big_endian buf)) b' xs
            rest (Reads-length32 (invalid_type code_sym32) b' (length xs) (xs ++ rest) h q w))
]

Reads-binary_body :
    (m : Step ℕ) (b : Buffer) (xs rest : List ℕ)
    → Reads m b (length xs) (xs ++ rest)
    → Reads (m >>= λ n. if n == 0 then return [] else need n invalid_length) b xs rest
Reads-binary_body m b [] rest r =
    Reads-bind m _ b 0 [] rest rest r (λ b' q w. Reads-return [] b' rest q w)
Reads-binary_body m b (x ∷ xs) rest r =
    Reads-bind m _ b (length (x ∷ xs)) (x ∷ xs) (x ∷ xs ++ rest) rest r (λ b' q w.
      let some_bytes : (length (x ∷ xs) == 0) ≡ false = ground arith in
      rw some_bytes (Reads-need invalid_length b' (x ∷ xs) rest q w))

pub Reads-binary :
    (xs rest : List ℕ)
    → length xs < 2 ^ 32
    → (b : Buffer) → unread b ≡ form code_vbin8 code_vbin32 xs ++ rest
    → IsValid b
    → Reads read_binary b xs rest
unfolding read_binary read_binary_length
Reads-binary xs rest h b u v = elim (Bool-cases (ltb (length xs) 256)) [
  | inl e ↦
      let small : length xs % 256 ≡ length xs = ground arith in
      Reads-tag _ b code_vbin8 xs (length xs ∷ xs ++ rest) rest (rw (e, small) at u) v (λ b' q w.
        Reads-binary_body read_byte b' xs rest (Reads-read_byte b' (length xs) (xs ++ rest) q w))
  | inr e ↦
      Reads-tag _ b code_vbin32 xs (bytes_uint32 (length xs) ++ (xs ++ rest)) rest (rw e at u) v
        (λ b' q w.
          Reads-binary_body (need 4 (invalid_type code_vbin32) >>= λ buf. return (big_endian buf))
            b' xs rest
            (Reads-length32 (invalid_type code_vbin32) b' (length xs) (xs ++ rest) h q w))
]

pub write_string-store :
    (xs : List ℕ) (wr : Buffer)
    → valid_string xs ≡ true
    → length xs < 2 ^ 32 - 1
    → write_string xs wr ≡ (ok tt, store code_str8 code_str32 xs wr)
unfolding write_string append_byte
write_string-store xs wr p h = elim (Bool-cases (ltb (length xs) 256)) [
  | inl e ↦ rw (p, e) refl
  | inr e ↦ rw (p, e, lt→ltb _ _ h) refl
]

pub write_symbol-store :
    (xs : List ℕ) (wr : Buffer)
    → length xs < 2 ^ 32 - 1
    → write_symbol xs wr ≡ (ok tt, store code_sym8 code_sym32 xs wr)
unfolding write_symbol append_byte
write_symbol-store xs wr h = elim (Bool-cases (ltb (length xs) 256)) [
  | inl e ↦ rw (e) refl
  | inr e ↦ rw (e, lt→ltb _ _ h) refl
]

pub write_binary-store :
    (xs : List ℕ) (wr : Buffer)
    → length xs < 2 ^ 32 - 1
    → write_binary xs wr ≡ (ok tt, store code_vbin8 code_vbin32 xs wr)
unfolding write_binary append_byte
write_binary-store xs wr h = elim (Bool-cases (ltb (length xs) 256)) [
  | inl e ↦ rw (e) refl
  | inr e ↦ rw (e, lt→ltb _ _ h) refl
]

-- A string of valid UTF-8 of less than 2 ^ 32 - 1 bytes is written to a buffer that was read to its
-- end without an error, and `ReadString` gives it back and leaves what follows.
pub read_string-write_string :
    (xs : List ℕ) (wr : Buffer) (rest : List ℕ)
    → valid_string xs ≡ true
    → length xs < 2 ^ 32 - 1
    → IsValid wr
    → unread wr ≡ []
    → ((write_string xs wr).0 ≡ ok tt)
      × Reads read_string (append rest (write_string xs wr).1) xs rest
read_string-write_string xs wr rest p h v u =
    let stored = write_string-store xs wr p h in
    (
      rw stored refl,
      rw stored (
          read_back read_string xs (store code_str8 code_str32 xs) wr (form code_str8 code_str32 xs)
            rest v u (store-form code_str8 code_str32 xs wr) (Reads-string xs rest (omega arith))),
    )

-- A symbol of less than 2 ^ 32 - 1 bytes is written to a buffer that was read to its end without an
-- error, and `ReadString` gives it back and leaves what follows.
pub read_string-write_symbol :
    (xs : List ℕ) (wr : Buffer) (rest : List ℕ)
    → length xs < 2 ^ 32 - 1
    → IsValid wr
    → unread wr ≡ []
    → ((write_symbol xs wr).0 ≡ ok tt)
      × Reads read_string (append rest (write_symbol xs wr).1) xs rest
read_string-write_symbol xs wr rest h v u =
    let stored = write_symbol-store xs wr h in
    (
      rw stored refl,
      rw stored (
          read_back read_string xs (store code_sym8 code_sym32 xs) wr (form code_sym8 code_sym32 xs)
            rest v u (store-form code_sym8 code_sym32 xs wr) (Reads-symbol xs rest (omega arith))),
    )

-- A binary of less than 2 ^ 32 - 1 bytes, the empty one included, is written to a buffer that was
-- read to its end without an error, and `readBinary` gives it back and leaves what follows.
pub read_binary-write_binary :
    (xs : List ℕ) (wr : Buffer) (rest : List ℕ)
    → length xs < 2 ^ 32 - 1
    → IsValid wr
    → unread wr ≡ []
    → ((write_binary xs wr).0 ≡ ok tt)
      × Reads read_binary (append rest (write_binary xs wr).1) xs rest
read_binary-write_binary xs wr rest h v u =
    let stored = write_binary-store xs wr h in
    (
      rw stored refl,
      rw stored (
          read_back read_binary xs (store code_vbin8 code_vbin32 xs) wr
            (form code_vbin8 code_vbin32 xs) rest v u (store-form code_vbin8 code_vbin32 xs wr)
            (Reads-binary xs rest (omega arith))),
    )

-- When writing a string gives an error, the string is not valid UTF-8 or it is too long, as the
-- error says, and nothing is written.
pub write_string_refuses :
    (xs : List ℕ) (wr : Buffer) (e : Error)
    → (write_string xs wr).0 ≡ err e
    → ((write_string xs wr).1 ≡ wr)
      × (((valid_string xs ≡ false) × (e ≡ not_utf8)) ⊎ ((2 ^ 32 - 1 ≤ length xs) × (e ≡ too_long)))
unfolding write_string
write_string_refuses xs wr e h = elim (Bool-cases (valid_string xs)) [
  | inr p ↦ rw p (refl, inl (refl, cc (rw p at h)))
  | inl p ↦ elim (Bool-cases (ltb (length xs) 256)) [
    | inl s ↦ absurd (cc (rw (p, s) at h))
    | inr s ↦ elim (Bool-cases (ltb (length xs) (2 ^ 32 - 1))) [
      | inl t ↦ absurd (cc (rw (p, s, t) at h))
      | inr t ↦ rw (p, s, t) (refl, inr (ground arith, cc (rw (p, s, t) at h)))
    ]
  ]
]
