-- ===== src/Frames/Header.antt =====
-- internal/frames/parsing.go: `ParseHeader` and `Write`.
use go_amqp.Base.{
  ℕ, ◌+◌, ◌-◌, ◌%◌, ◌^◌, ◌≤◌, ◌<◌, ◌≡◌, refl, sym, ◌∙◌, ap, Bool, true, false, List, [], ◌∷◌, ◌++◌,
  arith, length, ltb, if◌then◌else◌, le→ltb, take, drop, get_or, append_assoc, length-append,
  drop-append_length, take-append, length-drop, drop-drop,
}
use mathlib.Core.Path.{ap₂, subst}
use go_amqp.Buffer.{
  Buffer, Step, ok, err, invalid_header, invalid_size, invalid_offset, too_long, ◌>>=◌, ◌>>◌,
  return, fail, next, len, unread, append, append_uint16, big_endian, bytes_uint16, bytes_uint32,
}
use go_amqp.Buffer.Laws.{IsValid, append-append, unread-append, append-IsValid, len-unread}
use go_amqp.Buffer.Reads.{Reads, Reads-return, Reads-bind, Reads-next}

abbrev pub header_size : ℕ
header_size = 8

pub record Header : Type 0 where
  pub size : ℕ
  pub data_offset : ℕ
  pub frame_type : ℕ
  pub channel : ℕ

-- The eight bytes of a header.
abbrev pub header_of : List ℕ → Header
header_of buf = record {
  size = big_endian (take 4 buf);
  data_offset = get_or buf 4 0;
  frame_type = get_or buf 5 0;
  channel = big_endian (take 2 (drop 6 buf));
}

abbrev pub checked : Header → Step Header
checked fh =
    if ltb fh.size header_size
    then fail (invalid_size fh.size)
    else if ltb fh.data_offset 2
    then fail (invalid_offset fh.data_offset)
    else return fh

abbrev pub header_from : List ℕ × Bool → Step Header
header_from (buf, got) = if got then checked (header_of buf) else fail invalid_header

unfoldable pub parse_header : Step Header
parse_header = do r ← next 8; header_from r

-- The first of the four bytes is at the buffer's position.
unfoldable pub put_uint32 : ℕ → Buffer → Buffer
put_uint32 n b = record b {
  bytes = take b.pos b.bytes ++ (bytes_uint32 n ++ drop (b.pos + 4) b.bytes);
}

abbrev pub fix_size : Step (Unit {0})
fix_size buf =
    if ltb (2 ^ 32 - 1) (len buf)
    then (err too_long, buf)
    else (ok tt, put_uint32 (len buf % 2 ^ 32) buf)

-- `body` marshals the frame's body.
unfoldable pub write : ℕ → ℕ → Step (Unit {0}) → Step (Unit {0})
write type_ channel body buf =
    let started = append_uint16 channel (append (0 ∷ 0 ∷ 0 ∷ 0 ∷ 2 ∷ type_ ∷ []) buf) in
    (body >> fix_size) started

-- What is relied on of a body: it is appended to any valid buffer.
abbrev pub Appends : Step (Unit {0}) → List ℕ → Type 0
Appends body payload = (b : Buffer) → IsValid b → body b ≡ (ok tt, append payload b)

-- A header that `ParseHeader` accepts states a size of at least eight and an offset of at least
-- two.
pub parse_header_checks :
    (b b' : Buffer) (fh : Header)
    → parse_header b ≡ (ok fh, b')
    → (header_size ≤ fh.size) × (2 ≤ fh.data_offset) × (b'.pos ≡ b.pos + 8)
unfolding parse_header next
parse_header_checks b b' fh e = ground arith

at_end : (wr : Buffer) → IsValid wr → unread wr ≡ [] → wr.pos ≡ length wr.bytes
unfolding unread
at_end wr v u = omega (arith, ap length u, length-drop wr.pos wr.bytes)

-- The first four of the bytes appended to a buffer read to its end are overwritten.
put_uint32-append :
    (n x₀ x₁ x₂ x₃ : ℕ) (ys : List ℕ) (wr : Buffer)
    → wr.pos ≡ length wr.bytes
    → put_uint32 n (append (x₀ ∷ x₁ ∷ x₂ ∷ x₃ ∷ ys) wr) ≡ append (bytes_uint32 n ++ ys) wr
unfolding put_uint32 append
put_uint32-append n x₀ x₁ x₂ x₃ ys wr p =
    let xs = x₀ ∷ x₁ ∷ x₂ ∷ x₃ ∷ ys in
    let front : take wr.pos (wr.bytes ++ xs) ≡ wr.bytes = rw p (take-append wr.bytes xs) in
    let back : drop (wr.pos + 4) (wr.bytes ++ xs) ≡ ys = rw p (
      sym (drop-drop (length wr.bytes) 4 (wr.bytes ++ xs))
      ∙ ap (drop 4) (drop-append_length wr.bytes xs)) in
    λ i. record {
      bytes = ap₂ (λ (f b : List ℕ). f ++ (bytes_uint32 n ++ b)) front back i;
      pos = wr.pos;
    }

-- What `write` leaves behind: the header with the frame's size, then the body.
write_result :
    (type_ channel : ℕ) (body : Step (Unit {0})) (payload : List ℕ) (wr : Buffer)
    → Appends body payload
    → length payload + 8 < 2 ^ 32
    → IsValid wr
    → unread wr ≡ []
    → write type_ channel body wr ≡ (
      ok tt,
      append (bytes_uint32 (length payload + 8) ++ 2 ∷ type_ ∷ bytes_uint16 channel ++ payload) wr,
    )
unfolding write append_uint16
write_result type_ channel body payload wr a fits v u =
    let head = 0 ∷ 0 ∷ 0 ∷ 0 ∷ 2 ∷ type_ ∷ bytes_uint16 channel in
    let started : append (bytes_uint16 channel) (append (0 ∷ 0 ∷ 0 ∷ 0 ∷ 2 ∷ type_ ∷ []) wr)
        ≡ append head wr =
      append-append wr _ _ in
    let whole : append payload (append head wr) ≡ append (head ++ payload) wr =
      append-append wr _ _ in
    let size : len (append (head ++ payload) wr) ≡ length payload + 8 =
      len-unread (append (head ++ payload) wr)
      ∙ ap length (unread-append wr (head ++ payload) v)
      ∙ omega (arith, ap length u, length-append (unread wr) (head ++ payload)) in
    let wrapped : (length payload + 8) % 2 ^ 32 ≡ length payload + 8 = omega arith in
    let small : ltb (2 ^ 32 - 1) (length payload + 8) ≡ false = ground arith in
    rw (started, a (append head wr) (append-IsValid wr head v), whole, size, small, wrapped)
      (ap (λ b. (ok tt, b))
        (put_uint32-append (length payload + 8) 0 0 0 0
          (2 ∷ type_ ∷ bytes_uint16 channel ++ payload) wr (at_end wr v u)))

-- When the body's marshalling appends a payload to any valid buffer and leaves the frame below
-- 2 ^ 32 bytes, the channel is a uint16, and the buffer was read to its end, `Write` succeeds, and `ParseHeader` reads back the frame's type,
-- channel and true size from what it wrote, and leaves the payload and what follows.
pub parse_header-write :
    (type_ channel : ℕ) (body : Step (Unit {0})) (payload rest : List ℕ) (wr : Buffer)
    → Appends body payload
    → length payload + 8 < 2 ^ 32
    → channel < 2 ^ 16
    → IsValid wr
    → unread wr ≡ []
    → ((write type_ channel body wr).0 ≡ ok tt)
      × Reads parse_header
          (append rest (write type_ channel body wr).1)
          (record {
            size = length payload + 8;
            data_offset = 2;
            frame_type = type_;
            channel = channel;
          })
          (payload ++ rest)
unfolding parse_header
parse_header-write type_ channel body payload rest wr a fits hc v u =
    let n = length payload + 8 in
    let head = bytes_uint32 n ++ 2 ∷ type_ ∷ bytes_uint16 channel in
    let done = write_result type_ channel body payload wr a fits v u in
    let fh : Header = record { size = n; data_offset = 2; frame_type = type_; channel = channel } in
    let size_back : big_endian (bytes_uint32 n) ≡ n = omega arith in
    let channel_back : big_endian (bytes_uint16 channel) ≡ channel = omega arith in
    let read : header_of head ≡ fh = λ i. record {
      size = size_back i;
      data_offset = 2;
      frame_type = type_;
      channel = channel_back i;
    } in
    let large : ltb n header_size ≡ false = le→ltb n header_size (omega arith) in
    let accepted : checked (header_of head) ≡ return fh = ap checked read ∙ rw large refl in
    let whole : append rest (append (head ++ payload) wr) ≡ append (head ++ (payload ++ rest)) wr =
      append-append wr (head ++ payload) rest
      ∙ ap (λ (xs : List ℕ). append xs wr) (append_assoc head payload rest) in
    (
      rw done refl,
      rw (done, whole)
          (Reads-bind (next 8) header_from (append (head ++ (payload ++ rest)) wr) (head, true) fh
            (payload ++ rest) (payload ++ rest)
            (Reads-next (append (head ++ (payload ++ rest)) wr) head (payload ++ rest)
              (unread-append wr (head ++ (payload ++ rest)) v ∙ rw u refl)
              (append-IsValid wr (head ++ (payload ++ rest)) v))
            (λ b q w.
              subst (λ (m : Step Header). Reads m b fh (payload ++ rest)) (sym accepted)
                (Reads-return fh b (payload ++ rest) q w))),
    )
