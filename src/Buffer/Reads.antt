-- ===== src/Buffer/Reads.antt =====
-- A step that reads: from a valid buffer whose unread bytes are what the step takes and a rest, it
-- returns a value and leaves the rest. One rule for each operation, and one for a sequence.
use go_amqp.Base.{
  ℕ, zero, suc, ◌^◌, ◌<◌, ◌≡◌, refl, ◌∙◌, ap, true, false, List, [], ◌∷◌, ◌++◌, arith, length, drop,
  get_or, ltb, length-append, take-append, drop-append_length, le→ltb,
}
use go_amqp.Buffer.{
  Buffer, ok, Step, ◌>>=◌, return, unread, advance, next, read_byte, peek_byte, read_uint16,
  read_uint, read_uint32, read_uint64, beyond, big_endian, bytes_uint16, bytes_uint32, bytes_uint64,
}
use go_amqp.Buffer.Laws.{IsValid, beyond-unread, advance-IsValid, unread-advance}

pub record Reads {A : Type 0} (m : Step A) (b : Buffer) (a : A) (rest : List ℕ) : Type 0 where
  pub after : Buffer
  pub ran : m b ≡ (ok a, after)
  pub left : unread after ≡ rest
  pub valid : IsValid after

pub Reads-return :
    {A : Type 0} (a : A) (b : Buffer) (rest : List ℕ)
    → unread b ≡ rest
    → IsValid b
    → Reads (return a) b a rest
Reads-return a b rest u v = record { after = b; ran = refl; left = u; valid = v }

pub Reads-bind :
    {A B : Type 0} (m : Step A) (f : A → Step B) (b : Buffer) (a : A) (c : B) (mid rest : List ℕ)
    → Reads m b a mid
    → ((b' : Buffer) → unread b' ≡ mid → IsValid b' → Reads (f a) b' c rest)
    → Reads (m >>= f) b c rest
Reads-bind m f b a c mid rest r k =
    let q = k r.after r.left r.valid in
    record { after = q.after; ran = rw r.ran q.ran; left = q.left; valid = q.valid }

-- Taking `xs` from the front.
advance_left :
    (b : Buffer) (xs rest : List ℕ) → unread b ≡ xs ++ rest → unread (advance (length xs) b) ≡ rest
advance_left b xs rest u = unread-advance b (length xs) ∙ rw u (drop-append_length xs rest)

advance-IsValid_within :
    (b : Buffer) (xs rest : List ℕ)
    → unread b ≡ xs ++ rest
    → IsValid b
    → IsValid (advance (length xs) b)
advance-IsValid_within b xs rest u v =
    advance-IsValid b (length xs) v (omega (arith, ap length u, length-append xs rest))

enough :
    (b : Buffer) (xs rest : List ℕ)
    → unread b ≡ xs ++ rest
    → IsValid b
    → beyond b (length xs) ≡ false
enough b xs rest u v =
    beyond-unread b (length xs) v ∙ le→ltb _ _ (omega (arith, ap length u, length-append xs rest))

pub Reads-next :
    (b : Buffer) (xs rest : List ℕ)
    → unread b ≡ xs ++ rest
    → IsValid b
    → Reads (next (length xs)) b (xs, true) rest
unfolding next
Reads-next b xs rest u v =
    let inside : ltb (length b.bytes) b.pos ≡ false = le→ltb _ _ v in
    record {
      after = advance (length xs) b;
      ran = rw (inside, enough b xs rest u v, u, take-append xs rest) refl;
      left = advance_left b xs rest u;
      valid = advance-IsValid_within b xs rest u v;
    }

get_or-drop : (xs : List ℕ) (i x : ℕ) (rest : List ℕ) → drop i xs ≡ x ∷ rest → get_or xs i 0 ≡ x
get_or-drop [] zero x rest e = cc
get_or-drop [] (suc i) x rest e = cc
get_or-drop (y ∷ ys) zero x rest e = cc
get_or-drop (y ∷ ys) (suc i) x rest e = get_or-drop ys i x rest e

pub Reads-read_byte :
    (b : Buffer) (x : ℕ) (rest : List ℕ)
    → unread b ≡ x ∷ rest
    → IsValid b
    → Reads read_byte b x rest
unfolding read_byte
Reads-read_byte b x rest u v = record {
  after = advance 1 b;
  ran =
      let first : get_or b.bytes b.pos 0 ≡ x =
        get_or-drop b.bytes b.pos x rest (unfold unread in u) in
      rw (enough b (x ∷ []) rest u v, first) refl;
  left = advance_left b (x ∷ []) rest u;
  valid = advance-IsValid_within b (x ∷ []) rest u v;
}

pub Reads-peek_byte :
    (b : Buffer) (x : ℕ) (rest : List ℕ)
    → unread b ≡ x ∷ rest
    → IsValid b
    → Reads peek_byte b x (x ∷ rest)
unfolding peek_byte
Reads-peek_byte b x rest u v = record {
  after = b;
  ran =
      let first : get_or b.bytes b.pos 0 ≡ x =
        get_or-drop b.bytes b.pos x rest (unfold unread in u) in
      rw (enough b (x ∷ []) rest u v, first) refl;
  left = u;
  valid = v;
}

pub Reads-read_uint :
    (b : Buffer) (xs rest : List ℕ)
    → unread b ≡ xs ++ rest
    → IsValid b
    → Reads (read_uint (length xs)) b (big_endian xs) rest
unfolding read_uint
Reads-read_uint b xs rest u v = record {
  after = advance (length xs) b;
  ran = rw (enough b xs rest u v, u, take-append xs rest) refl;
  left = advance_left b xs rest u;
  valid = advance-IsValid_within b xs rest u v;
}

-- The fixed-width integers: reading gives back what was appended, for every value of the width.
pub Reads-read_uint16 :
    (b : Buffer) (n : ℕ) (rest : List ℕ)
    → n < 2 ^ 16
    → unread b ≡ bytes_uint16 n ++ rest
    → IsValid b
    → Reads read_uint16 b n rest
unfolding read_uint16
Reads-read_uint16 b n rest h u v =
    let e : big_endian (bytes_uint16 n) ≡ n = omega arith in
    rw e at (Reads-read_uint b (bytes_uint16 n) rest u v)

pub Reads-read_uint32 :
    (b : Buffer) (n : ℕ) (rest : List ℕ)
    → n < 2 ^ 32
    → unread b ≡ bytes_uint32 n ++ rest
    → IsValid b
    → Reads read_uint32 b n rest
unfolding read_uint32
Reads-read_uint32 b n rest h u v =
    let e : big_endian (bytes_uint32 n) ≡ n = omega arith in
    rw e at (Reads-read_uint b (bytes_uint32 n) rest u v)

pub Reads-read_uint64 :
    (b : Buffer) (n : ℕ) (rest : List ℕ)
    → n < 2 ^ 64
    → unread b ≡ bytes_uint64 n ++ rest
    → IsValid b
    → Reads read_uint64 b n rest
unfolding read_uint64
Reads-read_uint64 b n rest h u v =
    let e : big_endian (bytes_uint64 n) ≡ n = omega arith in
    rw e at (Reads-read_uint b (bytes_uint64 n) rest u v)
