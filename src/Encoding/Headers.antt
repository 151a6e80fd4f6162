-- ===== src/Encoding/Headers.antt =====
-- The headers of arrays: what encode.go writes before the elements, decode.go accepts.
use Prim.Native.Nat.{bit_and}
use go_amqp.Base.{
  ℕ, ◌+◌, ◌-◌, ◌*◌, ◌%◌, ◌^◌, ◌≤◌, ◌<◌, ◌≡◌, refl, false, List, [], ◌∷◌, ◌++◌, arith, length, ltb,
  leb, ◌==◌, if◌then◌else◌, Bool-cases, inl, inr, length-append, le→ltb,
}
use go_amqp.Buffer.{
  Buffer, Error, unread, append, append_byte, append_uint32, bytes_uint32, big_endian,
  invalid_length, invalid_type,
}
use go_amqp.Buffer.Laws.{IsValid, append-append, len-unread}
use go_amqp.Buffer.Reads.{Reads, Reads-return, Reads-bind}
use go_amqp.Encoding.Back.{read_back_then, Reads-tag, Reads-value}
use go_amqp.Encoding.Codes.{code_array8, code_array32}
use go_amqp.Encoding.Write.{write_array_header, write_variable_array_header}
use go_amqp.Encoding.Read.{need, read_array_header, sizes8, sizes32, checked32, unread_len}
use go_amqp.Encoding.Variable.{Reads-need}

pub Reads-unread_len :
    (b : Buffer) (ys : List ℕ) → unread b ≡ ys → IsValid b → Reads unread_len b (length ys) ys
Reads-unread_len b ys u v = record {
  after = b;
  ran = rw (len-unread b, u) refl;
  left = u;
  valid = v;
}

pub Reads-sizes8 :
    (available size count : ℕ) (b : Buffer) (rest : List ℕ)
    → size ≤ available - 1
    → unread b ≡ size ∷ count ∷ rest
    → IsValid b
    → Reads (sizes8 available) b count rest
unfolding sizes8
Reads-sizes8 available size count b rest h u v =
    let fits : ltb (available - 1) size ≡ false = le→ltb _ _ h in
    Reads-bind (need 2 invalid_length) _ b (size ∷ count ∷ []) count rest rest
      (Reads-need invalid_length b (size ∷ count ∷ []) rest u v)
      (λ b' q w. rw fits (Reads-return count b' rest q w))

pub Reads-sizes32 :
    (available size count : ℕ) (e : Error) (b : Buffer) (rest : List ℕ)
    → size < 2 ^ 32
    → count < 2 ^ 32
    → size ≤ available - 4
    → unread b ≡ bytes_uint32 size ++ bytes_uint32 count ++ rest
    → IsValid b
    → Reads (sizes32 available e) b count rest
unfolding sizes32
Reads-sizes32 available size count e b rest hs hc h u v =
    let fits : ltb (available - 4) (big_endian (bytes_uint32 size)) ≡ false =
      le→ltb _ _ (omega arith) in
    let same : big_endian (bytes_uint32 count) ≡ count = omega arith in
    Reads-bind (need 8 e) (checked32 available e) b (bytes_uint32 size ++ bytes_uint32 count) count
      rest rest (Reads-need e b (bytes_uint32 size ++ bytes_uint32 count) rest u v)
      (λ b' q w. rw fits (Reads-value (big_endian (bytes_uint32 count)) count b' rest same q w))

-- The header of an array of `count` elements that take `size` bytes, and what it counts.
abbrev form_array : ℕ → ℕ → ℕ → List ℕ
form_array size count type_ =
    if leb (size + 2) 255
    then code_array8 ∷ (size + 2) % 256 ∷ count % 256 ∷ type_ ∷ []
    else code_array32 ∷ bytes_uint32 ((size + 5) % 2 ^ 32)
      ++ bytes_uint32 (count % 2 ^ 32)
      ++ type_ ∷ []

store_array : ℕ → ℕ → ℕ → Buffer → Buffer
store_array size count type_ wr =
    if leb (size + 2) 255
    then append (code_array8 ∷ (size + 2) % 256 ∷ count % 256 ∷ type_ ∷ []) wr
    else append_byte type_ (
        append_uint32 (count % 2 ^ 32)
          (append_uint32 ((size + 5) % 2 ^ 32) (append_byte code_array32 wr)))

store_array-form :
    (size count type_ : ℕ) (wr : Buffer)
    → store_array size count type_ wr ≡ append (form_array size count type_) wr
unfolding store_array append_byte append_uint32
store_array-form size count type_ wr = elim (Bool-cases (leb (size + 2) 255)) [
  | inl e ↦ rw e refl
  | inr e ↦ rw e (simp append-append)
]

Reads-array_header :
    (size count type_ : ℕ) (elements rest : List ℕ)
    → size + 5 < 2 ^ 32
    → count ≤ size
    → length elements ≡ size
    → (b : Buffer) → unread b ≡ form_array size count type_ ++ (elements ++ rest)
    → IsValid b
    → Reads read_array_header b count (type_ ∷ elements ++ rest)
unfolding read_array_header
Reads-array_header size count type_ elements rest fits few all b u v =
    elim (Bool-cases (leb (size + 2) 255)) [
      | inl e ↦
          let small : (size + 2) % 256 ≡ size + 2 = ground arith in
          let few' : count % 256 ≡ count = ground arith in
          let tail = type_ ∷ elements ++ rest in
          let body = (size + 2) ∷ count ∷ tail in
          Reads-tag _ b code_array8 count body tail (rw (e, small, few') at u) v (λ b' q w.
            Reads-bind unread_len sizes8 b' (length body) count body tail
              (Reads-unread_len b' body q w)
              (λ b'' q' w'.
                Reads-sizes8 (length body) (size + 2) count b'' tail
                  (omega (arith, length-append elements rest, all)) q' w'))
      | inr e ↦
          let small : (size + 5) % 2 ^ 32 ≡ size + 5 = omega arith in
          let few' : count % 2 ^ 32 ≡ count = omega arith in
          let tail = type_ ∷ elements ++ rest in
          let body = bytes_uint32 (size + 5) ++ bytes_uint32 count ++ tail in
          Reads-tag _ b code_array32 count body tail (rw (e, small, few') at u) v (λ b' q w.
            Reads-bind unread_len (λ n. sizes32 n (invalid_type code_array32)) b' (length body)
              count body tail (Reads-unread_len b' body q w)
              (λ b'' q' w'.
                Reads-sizes32 (length body) (size + 5) count (invalid_type code_array32) b'' tail
                  fits (omega arith) (omega (arith, length-append elements rest, all)) q' w'))
    ]

-- `readArrayHeader` accepts what `writeArrayHeader` wrote, into a buffer read to its end, ahead of
-- elements of the stated size, which is not 0 and leaves the array below 2 ^ 32 bytes: it returns
-- the count, and the element type and the elements are next.
pub read_array_header-write_array_header :
    (count type_size type_ : ℕ) (elements rest : List ℕ) (wr : Buffer)
    → 0 < type_size
    → length elements ≡ count * type_size
    → count * type_size + 5 < 2 ^ 32
    → IsValid wr
    → unread wr ≡ []
    → Reads read_array_header
        (append (elements ++ rest) (write_array_header count type_size type_ wr))
        count
        (type_ ∷ elements ++ rest)
unfolding write_array_header store_array
read_array_header-write_array_header count type_size type_ elements rest wr p all fits v u =
    let few : count ≤ count * type_size = grind arith in
    read_back_then read_array_header count (store_array (count * type_size) count type_) wr
      (form_array (count * type_size) count type_) (elements ++ rest) (type_ ∷ elements ++ rest) v u
      (store_array-form (count * type_size) count type_ wr)
      (Reads-array_header (count * type_size) count type_ elements rest fits few all)

-- `readArrayHeader` accepts what `writeVariableArrayHeader` wrote, into a buffer read to its end,
-- when the array stays below 2 ^ 32 bytes and the elements have the size that it states: `total`
-- bytes and for each element a length of one byte, or of four when the high half of the type code
-- is 0xb. It returns the count, and the element type and the elements are next.
pub read_array_header-write_variable_array_header :
    (count total type_ : ℕ) (elements rest : List ℕ) (wr : Buffer)
    → length elements ≡ total + count * (if bit_and type_ 0xf0 == 0xb0 then 4 else 1)
    → length elements + 5 < 2 ^ 32
    → IsValid wr
    → unread wr ≡ []
    → Reads read_array_header
        (append (elements ++ rest) (write_variable_array_header count total type_ wr))
        count
        (type_ ∷ elements ++ rest)
unfolding write_variable_array_header store_array
read_array_header-write_variable_array_header count total type_ elements rest wr all fits v u =
    let size = total + count * (if bit_and type_ 0xf0 == 0xb0 then 4 else 1) in
    let few : count ≤ size = ground arith in
    read_back_then read_array_header count (store_array size count type_) wr
      (form_array size count type_) (elements ++ rest) (type_ ∷ elements ++ rest) v u
      (store_array-form size count type_ wr)
      (Reads-array_header size count type_ elements rest (rw (← all) fits) few all)
