-- ===== src/Encoding/Composite/RoundTrip.antt =====
-- The bytes of a composite, and what `UnmarshalComposite` makes of them.
use go_amqp.Base.{
  ℕ, ◌+◌, ◌-◌, ◌%◌, ◌^◌, ◌<◌, ◌≡◌, refl, sym, ap, ◌∙◌, false, not, List, [], ◌∷◌, ◌++◌, ltb, ◌==◌,
  if◌then◌else◌, length, take, drop, arith, Bool-cases, inl, inr, eq→==, le→ltb, length-append,
  take-append, drop-append_length, drop-drop, append_assoc,
}
use go_amqp.Buffer.{
  Buffer, Step, Outcome, ok, new, invalid_header, invalid_length, ◌>>◌, return, fail, append,
  append_byte, append_uint32, bytes_uint32, len, unread,
}
use go_amqp.Buffer.Laws.{IsValid, append-append, unread-append, append-IsValid}
use go_amqp.Buffer.Reads.{Reads, Reads-return, Reads-bind, Reads-read_byte}
use go_amqp.Encoding.Back.{Reads-tag, read_back}
use go_amqp.Encoding.Codes.{code_list0, code_list32, code_small_ulong}
use go_amqp.Encoding.Write.{write_descriptor}
use go_amqp.Encoding.Read.{read_ulong, read_list_header, read_composite_header, unread_len, sizes32}
use go_amqp.Encoding.Headers.{Reads-unread_len, Reads-sizes32}
use go_amqp.Encoding.Composite.{
  MarshalField, UnmarshalField, set_count, write_fields, put_at, fix_size_at, marshal_composite,
  read_fields, unmarshal_composite,
}
use go_amqp.Encoding.Composite.Fields.{Writes, Trips, Body, trips-Body}

-- The bytes of a composite with `n` fields written as `body`.
abbrev pub form_composite : ℕ → ℕ → List ℕ → List ℕ
form_composite code n body =
    if n == 0
    then 0 ∷ code_small_ulong ∷ code ∷ code_list0 ∷ []
    else 0 ∷ code_small_ulong ∷ code ∷ code_list32 ∷ bytes_uint32 ((length body + 4) % 2 ^ 32)
      ++ (bytes_uint32 (n % 2 ^ 32) ++ body)

len-append : (p : List ℕ) (b : Buffer) → IsValid b → len (append p b) ≡ len b + length p
unfolding len append
len-append p b v = omega (arith, length-append b.bytes p)

-- A size that is put over four bytes in the middle.
put_at-append :
    (i n : ℕ) (xs zs ys : List ℕ) (wr : Buffer)
    → IsValid wr
    → length zs ≡ 4
    → i ≡ len wr + length xs
    → put_at i n (append (xs ++ (zs ++ ys)) wr) ≡ append (xs ++ (bytes_uint32 n ++ ys)) wr
unfolding put_at append len
put_at-append i n xs zs ys wr v z e =
    let place : wr.pos + i ≡ length (wr.bytes ++ xs) = omega (arith, length-append wr.bytes xs) in
    let split : wr.bytes ++ (xs ++ (zs ++ ys)) ≡ (wr.bytes ++ xs) ++ (zs ++ ys) =
      sym (append_assoc wr.bytes xs (zs ++ ys)) in
    let front : take (wr.pos + i) (wr.bytes ++ (xs ++ (zs ++ ys))) ≡ wr.bytes ++ xs =
      rw (place, split) (take-append (wr.bytes ++ xs) (zs ++ ys)) in
    let tail : drop 4 (zs ++ ys) ≡ ys =
      ap (λ (k : ℕ). drop k (zs ++ ys)) (sym z) ∙ drop-append_length zs ys in
    let back : drop (wr.pos + i + 4) (wr.bytes ++ (xs ++ (zs ++ ys))) ≡ ys =
      rw (place, split)
        (sym (drop-drop (length (wr.bytes ++ xs)) 4 ((wr.bytes ++ xs) ++ (zs ++ ys)))
          ∙ ap (drop 4) (drop-append_length (wr.bytes ++ xs) (zs ++ ys))
          ∙ tail) in
    let bytes : take (wr.pos + i) (wr.bytes ++ (xs ++ (zs ++ ys)))
          ++ (bytes_uint32 n ++ drop (wr.pos + i + 4) (wr.bytes ++ (xs ++ (zs ++ ys))))
        ≡ wr.bytes ++ (xs ++ (bytes_uint32 n ++ ys)) =
      rw (front, back) (append_assoc wr.bytes xs (bytes_uint32 n ++ ys)) in
    λ j. record { bytes = bytes j; pos = wr.pos }

-- The size is that of what follows it.
pub fix_size_at-append :
    (i : ℕ) (xs zs ys : List ℕ) (wr : Buffer)
    → IsValid wr
    → length zs ≡ 4
    → i ≡ len wr + length xs
    → fix_size_at i (append (xs ++ (zs ++ ys)) wr)
      ≡ (ok tt, append (xs ++ (bytes_uint32 (length ys % 2 ^ 32) ++ ys)) wr)
fix_size_at-append i xs zs ys wr v z e =
    let size : len (append (xs ++ (zs ++ ys)) wr) - (i + 4) ≡ length ys = omega (
      arith,
      len-append (xs ++ (zs ++ ys)) wr v,
      length-append xs (zs ++ ys),
      length-append zs ys,
      z,
      e,
    ) in
    rw size (
      ap (λ (c : Buffer). (Outcome.ok tt, c))
        (put_at-append i (length ys % 2 ^ 32) xs zs ys wr v z e))

abbrev head_bytes : ℕ → List ℕ
head_bytes code = 0 ∷ code_small_ulong ∷ code ∷ code_list32 ∷ []

fields_written :
    (code n : ℕ) (body : List ℕ) (m : Step (Unit {0})) (b : Buffer)
    → Writes m body
    → IsValid b
    → (m
          >> fix_size_at
              (len (append (code_list32 ∷ []) (append (0 ∷ code_small_ulong ∷ code ∷ []) b))))
        (append (bytes_uint32 n) (
          append
            (0 ∷ 0 ∷ 0 ∷ 0 ∷ [])
            (append (code_list32 ∷ []) (append (0 ∷ code_small_ulong ∷ code ∷ []) b))))
      ≡ (
        ok tt,
        append
            (head_bytes code
              ++ (bytes_uint32 ((length body + 4) % 2 ^ 32) ++ (bytes_uint32 n ++ body)))
            b,
      )
fields_written code n body m b w v =
    let headed : append (code_list32 ∷ []) (append (0 ∷ code_small_ulong ∷ code ∷ []) b)
        ≡ append (head_bytes code) b =
      append-append b (0 ∷ code_small_ulong ∷ code ∷ []) (code_list32 ∷ []) in
    let zeros : List ℕ = 0 ∷ 0 ∷ 0 ∷ 0 ∷ [] in
    let start = append (head_bytes code ++ (zeros ++ bytes_uint32 n)) b in
    let counted : append (bytes_uint32 n) (append zeros (append (head_bytes code) b)) ≡ start =
      ap (append (bytes_uint32 n)) (append-append b (head_bytes code) zeros)
      ∙ append-append b (head_bytes code ++ zeros) (bytes_uint32 n) in
    let filled : append body start
        ≡ append (head_bytes code ++ (zeros ++ (bytes_uint32 n ++ body))) b =
      append-append b (head_bytes code ++ (zeros ++ bytes_uint32 n)) body in
    let size : length (bytes_uint32 n ++ body) ≡ length body + 4 = omega arith in
    rw
      (
        headed,
        counted,
        w start (append-IsValid b (head_bytes code ++ (zeros ++ bytes_uint32 n)) v),
        filled,
      )
      (fix_size_at-append (len (append (head_bytes code) b)) (head_bytes code) zeros
          (bytes_uint32 n ++ body) b v refl (len-append (head_bytes code) b v)
        ∙ rw size refl)

pub marshal_composite-Writes :
    (code : ℕ) (ms : List MarshalField) (body : List ℕ)
    → Writes (write_fields (set_count ms) ms) body
    → Writes (marshal_composite code ms) (form_composite code (set_count ms) body)
unfolding marshal_composite write_descriptor append_byte append_uint32
marshal_composite-Writes code ms body w b v = elim (Bool-cases (set_count ms == 0)) [
  | inl z ↦ rw z refl
  | inr z ↦
      rw z (fields_written code (set_count ms % 2 ^ 32) body (write_fields (set_count ms) ms) b w v)
]

Reads-code :
    (code : ℕ) (b : Buffer) (mid rest : List ℕ) (n : ℕ)
    → code < 256
    → unread b ≡ 0 ∷ code_small_ulong ∷ code ∷ mid
    → IsValid b
    → ((b' : Buffer) → unread b' ≡ mid → IsValid b' → Reads read_list_header b' n rest)
    → Reads read_composite_header b (code, n) rest
unfolding read_composite_header read_ulong
Reads-code code b mid rest n h u v k =
    let small : code % 256 ≡ code = omega arith in
    Reads-tag _ b 0 (code, n) (code_small_ulong ∷ code ∷ mid) rest u v
      (λ b' q w.
        Reads-bind read_ulong _ b' code (code, n) mid rest
          (Reads-tag _ b' code_small_ulong code (code ∷ mid) mid q w
            (λ c x y. Reads-read_byte c code mid x y))
          (λ c x y.
            Reads-bind read_list_header _ c n (code, n) rest rest (k c x y)
              (λ d x' y'. rw small (Reads-return (code, n) d rest x' y'))))

Reads-list0 :
    (b : Buffer) (rest : List ℕ)
    → unread b ≡ code_list0 ∷ rest
    → IsValid b
    → Reads read_list_header b 0 rest
unfolding read_list_header
Reads-list0 b rest u v = Reads-tag _ b code_list0 0 rest rest u v (λ b' q w.
    Reads-bind unread_len (λ k. return 0) b' (length rest) 0 rest rest
      (Reads-unread_len b' rest q w) (λ c x y. Reads-return 0 c rest x y))

pub Reads-list32 :
    (n : ℕ) (body rest : List ℕ) (b : Buffer)
    → n < 2 ^ 32
    → length body + 4 < 2 ^ 32
    → unread b
      ≡ code_list32 ∷ bytes_uint32 ((length body + 4) % 2 ^ 32)
        ++ (bytes_uint32 (n % 2 ^ 32) ++ (body ++ rest))
    → IsValid b
    → Reads read_list_header b n (body ++ rest)
unfolding read_list_header
Reads-list32 n body rest b few fits u v =
    let size : (length body + 4) % 2 ^ 32 ≡ length body + 4 = omega arith in
    let count : n % 2 ^ 32 ≡ n = omega arith in
    let after = bytes_uint32 (length body + 4) ++ (bytes_uint32 n ++ (body ++ rest)) in
    Reads-tag _ b code_list32 n after (body ++ rest) (rw (size, count) at u) v (λ b' q w.
      Reads-bind unread_len (λ k. sizes32 k invalid_length) b' (length after) n after (body ++ rest)
        (Reads-unread_len b' after q w)
        (λ c x y.
          Reads-sizes32 (length after) (length body + 4) n invalid_length c (body ++ rest) fits few
            (omega (arith, length-append body rest)) x y))

pub nothing_written :
    {S : Type 0} (ms : List MarshalField) (us : List (UnmarshalField S)) (s s' : S)
    (k : Body ms us s s')
    → set_count ms ≡ 0
    → k.body ≡ []
unfolding append new
nothing_written ms us s s' k z =
    let same : (Outcome.ok tt, new []) ≡ (Outcome.ok tt, append k.body (new [])) =
      rw z at k.written (new []) (omega arith) in
    sym (ap (λ (p : Outcome (Unit {0}) × Buffer). p.1.bytes) same)

pub unmarshal_composite_form :
    {S : Type 0} (code : ℕ) (ms : List MarshalField) (us : List (UnmarshalField S)) (s s' : S)
    (k : Body ms us s s') (rest : List ℕ)
    → code < 256
    → length us < 256
    → length k.body + 4 < 2 ^ 32
    → (b : Buffer) → unread b ≡ form_composite code (set_count ms) k.body ++ rest
    → IsValid b
    → Reads (unmarshal_composite code us s) b s' rest
unfolding unmarshal_composite
unmarshal_composite_form code ms us s s' k rest h few fits b u v =
    let n = set_count ms in
    let enough : ltb (length us) n ≡ false = le→ltb _ _ k.few in
    let fields : (c : Buffer)
        → unread c ≡ k.body ++ rest
        → IsValid c
        → Reads
            (if not (code == code)
              then fail invalid_header
              else if ltb (length us) n
              then fail invalid_length
              else read_fields n us s)
            c s' rest =
      rw (eq→== code code refl, enough) (λ c x y. k.back rest c x y) in
    elim (Bool-cases (n == 0)) [
      | inl z ↦
          let none_set : n ≡ 0 = ground arith in
          let empty : k.body ≡ [] = nothing_written ms us s s' k none_set in
          Reads-bind read_composite_header _ b (code, n) s' rest rest
            (Reads-code code b (code_list0 ∷ rest) rest n h (rw z at u) v
              (λ c x y. rw none_set (Reads-list0 c rest x y)))
            (λ c x y. fields c (rw empty x) y)
      | inr z ↦
          Reads-bind read_composite_header _ b (code, n) s' (k.body ++ rest) rest
            (Reads-code code b _ (k.body ++ rest) n h (rw z at u) v
              (λ c x y. Reads-list32 n k.body rest c (omega (arith, k.few)) fits x y))
            fields
    ]

pub body_length :
    (code n : ℕ) (body : List ℕ)
    → (n ≡ 0 → body ≡ [])
    → length (form_composite code n body) < 2 ^ 32
    → length body + 4 < 2 ^ 32
body_length code n body none_set h = elim (Bool-cases (n == 0)) [
  | inl z ↦ omega (arith, ap length (none_set (ground arith)))
  | inr z ↦ let wide = rw z at h in omega (arith, wide)
]

-- A composite whose fields are each omitted, or written with a value that the field of the struct
-- reads back, is written to a buffer that was read to its end without an error, and when it takes
-- less than 2 ^ 32 bytes, is read back into the struct; a field that is omitted is handled as a null,
-- also where the encoding ends before it. What follows is left.
pub unmarshal_composite-marshal_composite :
    {S : Type 0} (code : ℕ) (ms : List MarshalField) (us : List (UnmarshalField S)) (s s' : S)
    (wr : Buffer) (rest : List ℕ)
    → Trips ms us s s'
    → code < 256
    → length us < 256
    → IsValid wr
    → unread wr ≡ []
    → length (unread (marshal_composite code ms wr).1) < 2 ^ 32
    → ((marshal_composite code ms wr).0 ≡ ok tt)
      × Reads (unmarshal_composite code us s) (append rest (marshal_composite code ms wr).1) s' rest
unmarshal_composite-marshal_composite code ms us s s' wr rest ts h few v u fits =
    let k = trips-Body ts in
    let form = form_composite code (set_count ms) k.body in
    let ran : marshal_composite code ms wr ≡ (ok tt, append form wr) =
      marshal_composite-Writes code ms k.body k.written wr v in
    let all : unread (append form wr) ≡ form = unread-append wr form v ∙ rw u refl in
    let short : length form < 2 ^ 32 = rw all at (rw ran at fits) in
    rw ran (
      refl,
      read_back (unmarshal_composite code us s) s' (append form) wr form rest v u refl (
          unmarshal_composite_form code ms us s s' k rest h few
            (body_length code (set_count ms) k.body (nothing_written ms us s s' k) short)),
    )
