-- ===== src/Encoding/Arrays/Faults.antt =====
-- Arrays of internal/encoding/types.go at the limits of their forms.
use go_amqp.Base.{
  ℕ, suc, ◌+◌, ◌-◌, ◌*◌, ◌^◌, ◌%◌, ◌<◌, ◌≡◌, inr, All, refl, ap, ◌∙◌, false, List, [], ◌∷◌, length,
  arith, replicate,
}
use go_amqp.Buffer.{Buffer, append, unread, append_byte}
use go_amqp.Buffer.Laws.{IsValid}
use go_amqp.Buffer.Reads.{Reads}
use mathlib.Core.List.{map}
use mathlib.Core.Path.{subst}
use go_amqp.Encoding.Codes.{code_smallint}
use go_amqp.Encoding.Signed.{ℤ, pos, negsuc, to_word, from_word, Fits}
use go_amqp.Encoding.Write.{write_array_header}
use go_amqp.Encoding.Arrays.{
  any, above_int8, each, write_array_int32, write_array_int64, read_array_int32,
}
use go_amqp.Encoding.Arrays.Fixed.{read_array_int32-write_array_int32}

-- int8(byte(n)), as a number.
abbrev pub as_int8 : ℤ → ℤ
as_int8 z = from_word (2 ^ 7) (to_word (2 ^ 8) z)

as_int8-Fits : (z : ℤ) → Fits (2 ^ 7) (as_int8 z)
as_int8-Fits (pos n) = ground arith
as_int8-Fits (negsuc n) = ground arith

above_int8-as_int8 : (z : ℤ) → above_int8 (as_int8 z) ≡ false
above_int8-as_int8 (pos n) = ground arith
above_int8-as_int8 (negsuc n) = ground arith

-- A number and its int8 have the same low byte.
to_word-as_int8 : (z : ℤ) → to_word (2 ^ 8) (as_int8 z) ≡ to_word (2 ^ 8) z
to_word-as_int8 (pos n) = ground arith
to_word-as_int8 (negsuc n) = ground arith

cut_fit : (xs : List ℤ) → All (Fits (2 ^ 7)) (map as_int8 xs)
cut_fit [] = tt
cut_fit (z ∷ xs) = (as_int8-Fits z, cut_fit xs)

widened : (xs : List ℤ) → All (Fits (2 ^ 7)) xs → All (Fits (2 ^ 31)) xs
widened [] h = tt
widened (pos n ∷ xs) (h, hs) = (omega arith, widened xs hs)
widened (negsuc n ∷ xs) (h, hs) = (omega arith, widened xs hs)

none_above : (xs : List ℤ) → any above_int8 (map as_int8 xs) ≡ false
none_above [] = refl
none_above (z ∷ xs) = rw (above_int8-as_int8 z) (none_above xs)

each_cut :
    (xs : List ℤ) (wr : Buffer)
    → each (λ n. append_byte (to_word (2 ^ 8) n)) (map as_int8 xs) wr
      ≡ each (λ n. append_byte (to_word (2 ^ 8) n)) xs wr
each_cut [] wr = refl
each_cut (z ∷ xs) wr =
    ap (λ w. each (λ n. append_byte (to_word (2 ^ 8) n)) (map as_int8 xs) (append_byte w wr))
      (to_word-as_int8 z)
    ∙ each_cut xs (append_byte (to_word (2 ^ 8) z) wr)

length-cut : (xs : List ℤ) → length (map as_int8 xs) ≡ length xs
length-cut [] = refl
length-cut (z ∷ xs) = ap suc (length-cut xs)

write_array_int32-cut :
    (xs : List ℤ) (wr : Buffer)
    → any above_int8 xs ≡ false
    → write_array_int32 (map as_int8 xs) wr ≡ write_array_int32 xs wr
unfolding write_array_int32
write_array_int32-cut xs wr h =
    rw (none_above xs, h)
      (ap
          (λ n.
            each (λ n. append_byte (to_word (2 ^ 8) n)) (map as_int8 xs)
              (write_array_header n 1 code_smallint wr))
          (length-cut xs)
        ∙ each_cut xs (write_array_header (length xs) 1 code_smallint wr))

-- An array of int32s with no element above 127, which takes less than 2 ^ 32 bytes in its wide form, is
-- read back as the int8s of its elements' low bytes, from a buffer that was read to its end when it was
-- written: an element below -128, which is no int8, comes back as another number.
pub read_array_int32-write_array_int32_cuts :
    (xs : List ℤ) (wr : Buffer) (rest : List ℕ)
    → any above_int8 xs ≡ false
    → length xs * 4 + 5 < 2 ^ 32
    → IsValid wr
    → unread wr ≡ []
    → Reads read_array_int32 (append rest (write_array_int32 xs wr)) (map as_int8 xs) rest
      × All (Fits (2 ^ 7)) (map as_int8 xs)
read_array_int32-write_array_int32_cuts xs wr rest h fits v u =
    let r =
      read_array_int32-write_array_int32 (map as_int8 xs) wr rest
        (widened (map as_int8 xs) (cut_fit xs)) (inr (none_above xs, cut_fit xs))
        (omega (arith, length-cut xs, fits)) v u in
    (
      subst (λ (w : Buffer). Reads read_array_int32 (append rest w) (map as_int8 xs) rest)
          (write_array_int32-cut xs wr h) r,
      cut_fit xs,
    )

write_array_int64_merges :
    (n : ℕ) (xs : List ℤ) (wr : Buffer)
    → any above_int8 xs ≡ false
    → write_array_int64 (negsuc (n + 256) ∷ xs) wr ≡ write_array_int64 (negsuc n ∷ xs) wr
unfolding write_array_int64
write_array_int64_merges n xs wr h =
    let same : 2 ^ 8 - 1 - (n + 256) % 2 ^ 8 ≡ 2 ^ 8 - 1 - n % 2 ^ 8 = omega arith in
    rw (h, same) refl

abbrev pub empties : ℕ → List (List ℕ)
empties k = replicate k []

abbrev zeros : ℕ → List ℕ
zeros k = replicate k 0
