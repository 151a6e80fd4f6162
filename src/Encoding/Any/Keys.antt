-- ===== src/Encoding/Any/Keys.antt =====
-- The keys of a map that Go's maps do not take.
use go_amqp.Base.{
  ℕ, suc, ◌+◌, ◌-◌, ◌/◌, ◌%◌, ◌<◌, ◌≤◌, ◌≡◌, ◌≢◌, refl, Bool-cases, inl, inr, true, false, List, [],
  ◌∷◌, ◌++◌, ltb, if◌then◌else◌, length, arith, lt→ltb, le→ltb, length-append,
}
use go_amqp.Buffer.{
  Buffer, Step, err, panic, unread, invalid_map_key, invalid_length, not_implemented, unknown_type,
  ◌>>=◌, return, fail,
}
use go_amqp.Buffer.Laws.{IsValid}
use go_amqp.Buffer.Reads.{Reads, Reads-return, Reads-bind, Reads-peek_byte}
use go_amqp.Encoding.Codes.{code_null, code_map8, code_vbin8, code_vbin32}
use go_amqp.Encoding.Back.{Reads-tag}
use go_amqp.Encoding.Read.{
  try_read_null, read_map_header, read_binary, peek_type, unread_len, sizes8,
}
use go_amqp.Encoding.Headers.{Reads-unread_len, Reads-sizes8}
use go_amqp.Encoding.Variable.{form, Reads-binary}
use go_amqp.Encoding.Composite.Fields.{Reads-not_null, Reads-null}
use go_amqp.Encoding.Any.{Value, null, binary, described}
use go_amqp.Encoding.Any.Read.{
  read_annotations, read_map_any, checked_key, is_slice_or_map, hashable, rounds,
}
use go_amqp.Encoding.Any.Decode.{read_any, any_cases, switch, one_of, unimplemented, peek_code}

Reads-peek_code :
    (b : Buffer) (code : ℕ) (xs : List ℕ)
    → unread b ≡ code ∷ xs
    → IsValid b
    → Reads peek_code b code (code ∷ xs)
unfolding peek_type
Reads-peek_code b code xs u v =
    let r = Reads-peek_byte b code xs u v in
    record { after = b; ran = rw (r.ran, peek_code) refl; left = u; valid = v }

-- What `ReadAny` does after it has seen the first byte.
Reads-read_any :
    (fuel code : ℕ) (a : Value) (xs rest : List ℕ) (b : Buffer)
    → code ≢ code_null
    → ((b' : Buffer)
        → unread b' ≡ code ∷ xs
        → IsValid b'
        → Reads
            (switch (any_cases (read_any fuel)) code (
              fail (if one_of unimplemented code then not_implemented code else unknown_type code)))
            b'
            a
            rest)
    → unread b ≡ code ∷ xs
    → IsValid b
    → Reads (read_any (suc fuel)) b a rest
unfolding read_any
Reads-read_any fuel code a xs rest b n k u v =
    Reads-bind try_read_null _ b false a (code ∷ xs) rest (Reads-not_null b (code ∷ []) xs n u v)
      (λ b' q w.
        Reads-bind peek_code _ b' code a (code ∷ xs) rest (Reads-peek_code b' code xs q w)
          (λ c x y. k c x y))

pub any_null :
    (fuel : ℕ) (rest : List ℕ) (b : Buffer)
    → unread b ≡ code_null ∷ rest
    → IsValid b
    → Reads (read_any (suc fuel)) b null rest
unfolding read_any
any_null fuel rest b u v =
    Reads-bind try_read_null _ b true null rest rest (Reads-null b rest u v)
      (λ b' q w. Reads-return null b' rest q w)

pub any_binary :
    (fuel : ℕ) (xs rest : List ℕ) (b : Buffer)
    → length xs < 256
    → unread b ≡ code_vbin8 ∷ length xs ∷ xs ++ rest
    → IsValid b
    → Reads (read_any (suc fuel)) b (binary xs) rest
any_binary fuel xs rest b h u v =
    let small : length xs % 256 ≡ length xs = omega arith in
    let short : ltb (length xs) 256 ≡ true = lt→ltb _ _ h in
    let wire : (bytes : Buffer)
        → unread bytes ≡ code_vbin8 ∷ length xs ∷ xs ++ rest
        → unread bytes ≡ form code_vbin8 code_vbin32 xs ++ rest =
      λ c x. rw (short, small) x in
    Reads-read_any fuel code_vbin8 (binary xs) (length xs ∷ xs ++ rest) rest b (λ e. cc)
      (λ c x y.
        Reads-bind read_binary (λ a. return (binary a)) c xs (binary xs) rest rest
          (Reads-binary xs rest (omega arith) c (wire c x) y)
          (λ d x' y'. Reads-return (binary xs) d rest x' y'))
      u v

-- The last test of a map's header.
abbrev within : ℕ → Step ℕ
within count = unread_len >>= λ left. if ltb left count then fail invalid_length else return count

map8_header :
    (size count : ℕ) (rest : List ℕ) (b : Buffer)
    → size ≤ length rest + 1
    → count ≤ length rest
    → unread b ≡ code_map8 ∷ size ∷ count ∷ rest
    → IsValid b
    → Reads read_map_header b count rest
unfolding read_map_header
map8_header size count rest b h few u v =
    let enough : ltb (length rest) count ≡ false = le→ltb _ _ few in
    Reads-tag _ b code_map8 count (size ∷ count ∷ rest) rest u v (λ c x y.
      Reads-bind unread_len (λ n. sizes8 n >>= within) c (length (size ∷ count ∷ rest)) count
        (size ∷ count ∷ rest) rest (Reads-unread_len c (size ∷ count ∷ rest) x y)
        (λ d x' y'.
          Reads-bind (sizes8 (length (size ∷ count ∷ rest))) within d count count rest rest
            (Reads-sizes8 (length (size ∷ count ∷ rest)) size count d rest (omega arith) x' y')
            (λ e p q.
              Reads-bind unread_len
                (λ left. if ltb left count then fail invalid_length else return count) e
                (length rest) count rest rest (Reads-unread_len e rest p q)
                (λ g p' q'. rw enough (Reads-return count g rest p' q')))))

-- A map with one key, a binary, whose value is null.
abbrev pub binary_key : List ℕ → List ℕ → List ℕ
binary_key xs rest =
    code_map8 ∷ (length xs + 4) ∷ 2 ∷ code_vbin8 ∷ length xs ∷ xs ++ (code_null ∷ rest)

pub binary_key_header :
    (xs rest : List ℕ) (b : Buffer)
    → length xs < 252
    → unread b ≡ binary_key xs rest
    → IsValid b
    → Reads read_map_header b 2 (code_vbin8 ∷ length xs ∷ xs ++ (code_null ∷ rest))
binary_key_header xs rest b h u v =
    map8_header (length xs + 4) 2 (code_vbin8 ∷ length xs ∷ xs ++ (code_null ∷ rest)) b
      (omega (arith, length-append xs (code_null ∷ rest))) (omega arith) u v

-- A map whose first key and value can be read, where the key is no key of a Go map: as annotations
-- it makes `Annotations.Unmarshal` panic. `mapAnyAny.Unmarshal`, which tests the key's kind, returns
-- an error for the same bytes if the key is a slice or a map itself, and panics if it is a described
-- type that holds one.
pub read_annotations-panics :
    (fuel count : ℕ) (k v : Value) (pairs value rest : List ℕ) (b : Buffer)
    → (m : Reads read_map_header b count pairs) → 0 < count
    → (r : Reads (read_any fuel) m.after k value) → Reads (read_any fuel) r.after v rest
    → hashable k ≡ false
    → ((read_annotations (read_any fuel) b).0 ≡ panic)
      × ((read_map_any (read_any fuel) b).0
          ≡ (if is_slice_or_map k then err invalid_map_key else panic))
unfolding read_annotations read_map_any
read_annotations-panics fuel count k v pairs value rest b m some_pair r w h =
    let round : rounds count ≡ suc ((count - 1) / 2) = omega (arith, some_pair) in
    (
      rw (m.ran, round, r.ran, w.ran, h) refl,
      rw (m.ran, round, r.ran, w.ran, h)
          (elim (Bool-cases (is_slice_or_map k)) [ inl e ↦ rw e refl | inr e ↦ rw e refl ]),
    )

-- A described type with a binary in it passes the test of `mapAnyAny` and is no key either.
pub checked_key-panics : (d : Value) (xs : List ℕ) → checked_key (described d (binary xs)) ≡ panic
unfolding hashable
checked_key-panics d xs = elim (Bool-cases (hashable d)) [ inl e ↦ rw e refl | inr e ↦ rw e refl ]
