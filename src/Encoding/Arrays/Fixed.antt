-- ===== src/Encoding/Arrays/Fixed.antt =====
-- The arrays of elements of one width, written and read.
use go_amqp.Base.{
  ℕ, ◌+◌, ◌*◌, ◌^◌, ◌%◌, ◌<◌, ◌≡◌, refl, sym, ap, ◌∙◌, true, false, List, [], ◌∷◌, ◌++◌, ltb,
  length, take, drop, arith, All, eq→==, length-append, take-append, drop-append_length, IsU32, ◌⊎◌,
  Bool-cases, inl, inr,
}
use go_amqp.Buffer.{
  Buffer, Step, invalid_length, ◌>>=◌, append, unread, append_byte, append_uint16, append_uint32,
  append_uint64, big_endian, bytes_uint16, bytes_uint32, bytes_uint64,
}
use go_amqp.Buffer.Laws.{IsValid, append-append, append_nothing}
use go_amqp.Buffer.Reads.{Reads, Reads-bind}
use go_amqp.Encoding.Back.{Reads-tag, Reads-value}
use go_amqp.Encoding.Codes.{
  code_int, code_smallint, code_uint, code_small_uint, code_ushort, code_timestamp,
}
use go_amqp.Encoding.Signed.{ℤ, to_word, from_word, Fits}
use go_amqp.Encoding.Variable.{Reads-need}
use go_amqp.Encoding.Write.{write_array_header}
use go_amqp.Encoding.Read.{read_array_header, read_type, need}
use go_amqp.Encoding.Integers.{from_word-to_word, to_word-lt}
use go_amqp.Encoding.Headers.{read_array_header-write_array_header}
use go_amqp.Encoding.Arrays.{
  any, above_int8, read_array_int32, write_array_int32, read_array_uint32, write_array_uint32,
  read_array_uint16, write_array_uint16, read_array_timestamp, write_array_timestamp, each,
  elements, write_fixed, read_fixed, read_elements, signed,
}

-- What an element type has to offer: the bytes of an element, all of one length, from which the
-- element comes back if it is in range.
pub record Element {A : Type 0} (size : ℕ) (put : A → Buffer → Buffer) (get : List ℕ → A)
    (InRange : A → Type 0) : Type 0 where
  pub form : A → List ℕ
  pub put_form : (a : A) (wr : Buffer) → put a wr ≡ append (form a) wr
  pub sized : (a : A) → length (form a) ≡ size
  pub back : (a : A) → InRange a → get (form a) ≡ a

module _ {A : Type 0} {size : ℕ} {put : A → Buffer → Buffer} {get : List ℕ → A}
    {InRange : A → Type 0} (el : Element size put get InRange) where
  abbrev forms : List A → List ℕ
  forms [] = []
  forms (a ∷ xs) = el.form a ++ forms xs

  each-forms : (xs : List A) (wr : Buffer) → each put xs wr ≡ append (forms xs) wr
  each-forms [] wr = sym (append_nothing wr)
  each-forms (a ∷ xs) wr =
      each-forms xs (put a wr)
      ∙ ap (append (forms xs)) (el.put_form a wr)
      ∙ append-append wr (el.form a) (forms xs)

  length-forms : (xs : List A) → length (forms xs) ≡ length xs * size
  length-forms [] = omega arith
  length-forms (a ∷ xs) =
      length-append (el.form a) (forms xs) ∙ grind (arith, el.sized a, length-forms xs)

  elements-forms : (xs : List A) → All InRange xs → elements (length xs) size get (forms xs) ≡ xs
  elements-forms [] h = refl
  elements-forms (a ∷ xs) (h, hs) =
      let e = el.sized a in
      let front : take size (el.form a ++ forms xs) ≡ el.form a =
        ap (λ (n : ℕ). take n (el.form a ++ forms xs)) (sym e)
        ∙ take-append (el.form a) (forms xs) in
      let back : drop size (el.form a ++ forms xs) ≡ forms xs =
        ap (λ (n : ℕ). drop n (el.form a ++ forms xs)) (sym e)
        ∙ drop-append_length (el.form a) (forms xs) in
      λ i.
        (ap get front ∙ el.back a h) i
        ∷ (ap (elements (length xs) size get) back ∙ elements-forms xs hs) i

  pub Reads-elements :
      (xs : List A) (rest : List ℕ)
      → All InRange xs
      → (b : Buffer) → unread b ≡ forms xs ++ rest
      → IsValid b
      → Reads (read_elements size get (length xs)) b xs rest
  Reads-elements xs rest h b u v =
      Reads-bind (need (length xs * size) invalid_length) _ b (forms xs) xs rest rest
        (rw (length-forms xs) at (Reads-need invalid_length b (forms xs) rest u v))
        (λ b' q w.
          Reads-value (elements (length xs) size get (forms xs)) xs b' rest (elements-forms xs h) q
            w)

  -- An array's header, its type code and its elements, where `m` looks at the type code.
  pub Reads-write_fixed :
      (m : ℕ → ℕ → Step (List A)) (code : ℕ) (xs : List A) (wr : Buffer) (rest : List ℕ)
      → m (length xs) code ≡ read_elements size get (length xs)
      → 0 < size
      → All InRange xs
      → length xs * size + 5 < 2 ^ 32
      → IsValid wr
      → unread wr ≡ []
      → Reads
          (read_array_header >>= λ count. read_type >>= m count)
          (append rest (write_fixed size code put xs wr))
          xs
          rest
  Reads-write_fixed m code xs wr rest e p h fits v u =
      let written : append rest (write_fixed size code put xs wr)
          ≡ append (forms xs ++ rest) (write_array_header (length xs) size code wr) =
        ap (append rest) (each-forms xs (write_array_header (length xs) size code wr))
        ∙ append-append _ (forms xs) rest in
      rw written (
        Reads-bind read_array_header _ _ (length xs) xs (code ∷ forms xs ++ rest) rest
          (read_array_header-write_array_header (length xs) size code (forms xs) rest wr p
            (length-forms xs) fits v u)
          (λ b q w.
            Reads-tag (m (length xs)) b code xs (forms xs ++ rest) rest q w
              (λ b' q' w'. rw e (Reads-elements xs rest h b' q' w'))))

  -- The elements in range are read back from an array that a buffer read to its end was given.
  pub read_fixed-write_fixed :
      (code : ℕ) (xs : List A) (wr : Buffer) (rest : List ℕ)
      → 0 < size
      → All InRange xs
      → length xs * size + 5 < 2 ^ 32
      → IsValid wr
      → unread wr ≡ []
      → Reads (read_fixed code size get) (append rest (write_fixed size code put xs wr)) xs rest
  read_fixed-write_fixed code xs wr rest p h fits v u =
      Reads-write_fixed _ code xs wr rest (rw (eq→== code code refl) refl) p h fits v u

-- The element types of one width.
pub element_uint16 : Element 2 append_uint16 big_endian (λ n. n < 2 ^ 16)
unfolding append_uint16
element_uint16 = record {
  form = bytes_uint16;
  put_form = λ n wr. refl;
  sized = λ n. refl;
  back = λ n h. omega arith;
}

pub element_uint32 : Element 4 append_uint32 big_endian (λ n. n < 2 ^ 32)
unfolding append_uint32
element_uint32 = record {
  form = bytes_uint32;
  put_form = λ n wr. refl;
  sized = λ n. refl;
  back = λ n h. omega arith;
}

pub element_uint64 : Element 8 append_uint64 big_endian (λ n. n < 2 ^ 64)
unfolding append_uint64
element_uint64 = record {
  form = bytes_uint64;
  put_form = λ n wr. refl;
  sized = λ n. refl;
  back = λ n h. omega arith;
}

pub element_byte : Element 1 (λ n. append_byte (n % 2 ^ 8)) big_endian (λ n. n < 2 ^ 8)
unfolding append_byte
element_byte = record {
  form = λ n. n % 2 ^ 8 ∷ [];
  put_form = λ n wr. refl;
  sized = λ n. refl;
  back = λ n h. omega arith;
}

element_plain_byte : Element 1 append_byte big_endian (λ n. n < 2 ^ 8)
unfolding append_byte
element_plain_byte = record {
  form = λ n. n ∷ [];
  put_form = λ n wr. refl;
  sized = λ n. refl;
  back = λ n h. omega arith;
}

-- A signed element is the unsigned element of its word.
signed_element :
    (half size : ℕ) (put : ℕ → Buffer → Buffer)
    → 0 < half
    → Element size put big_endian (λ n. n < 2 * half)
    → Element size (λ n. put (to_word (2 * half) n)) (signed half) (Fits half)
signed_element half size put p el = record {
  form = λ n. el.form (to_word (2 * half) n);
  put_form = λ n wr. el.put_form (to_word (2 * half) n) wr;
  sized = λ n. el.sized (to_word (2 * half) n);
  back = λ n h.
      ap (from_word half)
        (el.back (to_word (2 * half) n) (to_word-lt (2 * half) n (omega (arith, p))))
      ∙ from_word-to_word half n p h;
}

-- An array of uint16 that takes less than 2 ^ 32 bytes is read back from a buffer that was read to
-- its end when it was written, and what follows is left.
pub read_array_uint16-write_array_uint16 :
    (xs : List ℕ) (wr : Buffer) (rest : List ℕ)
    → All (λ n. n < 2 ^ 16) xs
    → length xs * 2 + 5 < 2 ^ 32
    → IsValid wr
    → unread wr ≡ []
    → Reads read_array_uint16 (append rest (write_array_uint16 xs wr)) xs rest
unfolding read_array_uint16 write_array_uint16
read_array_uint16-write_array_uint16 xs wr rest h fits v u =
    read_fixed-write_fixed element_uint16 code_ushort xs wr rest (omega arith) h fits v u

-- The times are read back by their milliseconds, which are int64s.
pub read_array_timestamp-write_array_timestamp :
    (xs : List ℤ) (wr : Buffer) (rest : List ℕ)
    → All (Fits (2 ^ 63)) xs
    → length xs * 8 + 5 < 2 ^ 32
    → IsValid wr
    → unread wr ≡ []
    → Reads read_array_timestamp (append rest (write_array_timestamp xs wr)) xs rest
unfolding read_array_timestamp write_array_timestamp
read_array_timestamp-write_array_timestamp xs wr rest h fits v u =
    read_fixed-write_fixed (signed_element (2 ^ 63) 8 append_uint64 (omega arith) element_uint64)
      code_timestamp xs wr rest (omega arith) h fits v u

no_wide : (xs : List ℕ) → any (ltb 255) xs ≡ false → All (λ n. n < 2 ^ 8) xs
no_wide [] h = tt
no_wide (n ∷ xs) h = elim (Bool-cases (ltb 255 n)) [
  | inl w ↦ cc (rw w at h)
  | inr w ↦ (ground arith, no_wide xs (rw w at h))
]

-- An array of uint32s that takes less than 2 ^ 32 bytes in its wide form is read back from a buffer
-- that was read to its end when it was written, in one byte for each element or four; what follows is
-- left.
pub read_array_uint32-write_array_uint32 :
    (xs : List ℕ) (wr : Buffer) (rest : List ℕ)
    → All IsU32 xs
    → length xs * 4 + 5 < 2 ^ 32
    → IsValid wr
    → unread wr ≡ []
    → Reads read_array_uint32 (append rest (write_array_uint32 xs wr)) xs rest
unfolding read_array_uint32 write_array_uint32
read_array_uint32-write_array_uint32 xs wr rest h fits v u = elim (Bool-cases (any (ltb 255) xs)) [
  | inl w ↦
      rw w (Reads-write_fixed element_uint32 _ code_uint xs wr rest refl (omega arith) h fits v u)
  | inr w ↦ rw w (
      Reads-write_fixed element_byte _ code_small_uint xs wr rest refl (omega arith) (no_wide xs w)
        (omega (arith, fits)) v u)
]

-- An array of int32s, one of which is above 127 or all of which fit an int8, and which takes less than
-- 2 ^ 32 bytes in its wide form, is read back from a buffer that was read to its end when it was
-- written; what follows is left.
pub read_array_int32-write_array_int32 :
    (xs : List ℤ) (wr : Buffer) (rest : List ℕ)
    → All (Fits (2 ^ 31)) xs
    → (any above_int8 xs ≡ true) ⊎ ((any above_int8 xs ≡ false) × All (Fits (2 ^ 7)) xs)
    → length xs * 4 + 5 < 2 ^ 32
    → IsValid wr
    → unread wr ≡ []
    → Reads read_array_int32 (append rest (write_array_int32 xs wr)) xs rest
unfolding read_array_int32 write_array_int32
read_array_int32-write_array_int32 xs wr rest h (inl w) fits v u = rw w (
    Reads-write_fixed (signed_element (2 ^ 31) 4 append_uint32 (omega arith) element_uint32) _
      code_int xs wr rest refl (omega arith) h fits v u)
read_array_int32-write_array_int32 xs wr rest h (inr (w, s)) fits v u = rw w (
    Reads-write_fixed (signed_element (2 ^ 7) 1 append_byte (omega arith) element_plain_byte) _
      code_smallint xs wr rest refl (omega arith) s (omega (arith, fits)) v u)
