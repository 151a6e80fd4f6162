-- ===== src/Frames/Carried.antt =====
-- The values that a field carries: what is written is read back. One lemma for each type of a field,
-- and one for each form of a field.
use go_amqp.Base.{
  not, ℕ, ◌-◌, ◌^◌, ◌<◌, ◌≡◌, ◌≢◌, refl, sym, ap, ◌∙◌, Bool, Bool-cases, inl, inr, true, false,
  Option, none, some, List, [], ◌∷◌, ◌++◌, ltb, ◌==◌, length, arith,
}
use go_amqp.Buffer.{append_byte, append_uint16, Buffer, Step, Outcome, return, unread, bytes_uint16}
use go_amqp.Buffer.Laws.{IsValid, append-append}
use go_amqp.Buffer.Reads.{Reads, Reads-return, Reads-bind, Reads-read_byte, Reads-read_uint16}
use go_amqp.Encoding.Codes.{
  code_null, code_bool_true, code_bool_false, code_ubyte, code_ushort, code_vbin8, code_vbin32,
  code_str8, code_str32,
}
use go_amqp.Encoding.Back.{Reads-tag}
use go_amqp.Encoding.Utf8.{valid_string}
use go_amqp.Encoding.Write.{
  write_uint32, write_bool, write_ubyte, write_ushort, write_binary, write_string,
}
use go_amqp.Encoding.Read.{
  read_uint32, read_bool, read_ubyte, read_ushort, read_binary, read_string,
}
use go_amqp.Encoding.Unsigned.{form_uint32, write_uint32-form, read_uint32-form}
use go_amqp.Encoding.Variable.{
  form, store-form, Reads-binary, Reads-string, write_binary-store, write_string-store,
}
use go_amqp.Encoding.Composite.Fields.{Writes, IsValue, Trip, omitted, present}
use go_amqp.Encoding.Any.Write.{required, unless, always}
use go_amqp.Encoding.Any.Read.{mandatory, read_as}
use go_amqp.Encoding.Any.{Pairs, no_pairs, no_info}
use go_amqp.Frames.Fields.{pointer, into, field, field_or, field_pointer}

-- What `w` writes is a value that `m` reads back as `a`.
pub record Carried {A : Type 0} (w : Step (Unit {0})) (m : Step A) (a : A) : Type 0 where
  pub bytes : List ℕ
  pub written : Writes w bytes
  pub value : IsValue bytes
  pub back : (rest : List ℕ) (b : Buffer) → unread b ≡ bytes ++ rest → IsValid b → Reads m b a rest

form_uint32-IsValue : (n : ℕ) → IsValue (form_uint32 n)
form_uint32-IsValue n = elim (Bool-cases (n == 0)) [
  | inl e ↦ rw e (λ p. omega arith)
  | inr e ↦ elim (Bool-cases (ltb n 256)) [
    | inl s ↦ rw (e, s) (λ p. omega arith)
    | inr s ↦ rw (e, s) (λ p. omega arith)
  ]
]

pub uint32-Carried : (n : ℕ) → n < 2 ^ 32 → Carried (always (write_uint32 n)) read_uint32 n
uint32-Carried n h = record {
  bytes = form_uint32 n;
  written = λ b v. ap (λ (c : Buffer). (Outcome.ok tt, c)) (write_uint32-form n b);
  value = form_uint32-IsValue n;
  back = λ rest b u v. read_uint32-form n rest h b u v;
}

pub bool-Carried : (t : Bool) → Carried (always (write_bool t)) read_bool t
unfolding write_bool read_bool append_byte
bool-Carried true = record {
  bytes = code_bool_true ∷ [];
  written = λ b v. refl;
  value = λ p. omega arith;
  back = λ rest b u v.
      Reads-tag _ b code_bool_true true rest rest u v (λ c x y. Reads-return true c rest x y);
}
bool-Carried false = record {
  bytes = code_bool_false ∷ [];
  written = λ b v. refl;
  value = λ p. omega arith;
  back = λ rest b u v.
      Reads-tag _ b code_bool_false false rest rest u v (λ c x y. Reads-return false c rest x y);
}

pub ubyte-Carried : (n : ℕ) → Carried (always (write_ubyte n)) read_ubyte n
unfolding write_ubyte read_ubyte
ubyte-Carried n = record {
  bytes = code_ubyte ∷ n ∷ [];
  written = λ b v. refl;
  value = λ p. omega arith;
  back = λ rest b u v.
      Reads-tag _ b code_ubyte n (n ∷ rest) rest u v (λ c x y. Reads-read_byte c n rest x y);
}

pub ushort-Carried : (n : ℕ) → n < 2 ^ 16 → Carried (always (write_ushort n)) read_ushort n
unfolding write_ushort read_ushort append_byte append_uint16
ushort-Carried n h = record {
  bytes = code_ushort ∷ bytes_uint16 n;
  written = λ b v.
      ap (λ (c : Buffer). (Outcome.ok tt, c)) (append-append b (code_ushort ∷ []) (bytes_uint16 n));
  value = λ p. omega arith;
  back = λ rest b u v.
      Reads-tag _ b code_ushort n (bytes_uint16 n ++ rest) rest u v
        (λ c x y. Reads-read_uint16 c n rest h x y);
}

form-IsValue :
    (c8 c32 : ℕ) (xs : List ℕ) → c8 ≢ code_null → c32 ≢ code_null → IsValue (form c8 c32 xs)
form-IsValue c8 c32 xs h k = elim (Bool-cases (ltb (length xs) 256)) [
  | inl e ↦ rw e h
  | inr e ↦ rw e k
]

pub binary-Carried :
    (xs : List ℕ) → length xs < 2 ^ 32 - 1 → Carried (write_binary xs) read_binary xs
binary-Carried xs h = record {
  bytes = form code_vbin8 code_vbin32 xs;
  written = λ b v.
      write_binary-store xs b h
      ∙ ap (λ (c : Buffer). (Outcome.ok tt, c)) (store-form code_vbin8 code_vbin32 xs b);
  value = form-IsValue code_vbin8 code_vbin32 xs (λ p. omega arith) (λ p. omega arith);
  back = λ rest b u v. Reads-binary xs rest (omega arith) b u v;
}

pub string-Carried :
    (xs : List ℕ)
    → valid_string xs ≡ true
    → length xs < 2 ^ 32 - 1
    → Carried (write_string xs) read_string xs
string-Carried xs p h = record {
  bytes = form code_str8 code_str32 xs;
  written = λ b v.
      write_string-store xs b p h
      ∙ ap (λ (c : Buffer). (Outcome.ok tt, c)) (store-form code_str8 code_str32 xs b);
  value = form-IsValue code_str8 code_str32 xs (λ q. omega arith) (λ q. omega arith);
  back = λ rest b u v. Reads-string xs rest (omega arith) b u v;
}

module _ {S A : Type 0} (set : S → A → S) (w : Step (Unit {0})) (m : Step A) (a : A) (s : S)
    (k : Carried w m a) where
  into_back :
      (rest : List ℕ) (b : Buffer)
      → unread b ≡ k.bytes ++ rest
      → IsValid b
      → Reads (into set m s) b (set s a) rest
  into_back rest b u v =
      Reads-bind m (λ x. return (set s x)) b a (set s a) rest rest (k.back rest b u v)
        (λ c x y. Reads-return (set s a) c rest x y)

  -- A field that is never left out.
  pub Trip-required : Trip (required w) (mandatory (into set m)) s (set s a)
  Trip-required = present k.bytes refl k.written k.value into_back

  pub Trip-present : (omit : Bool) → omit ≡ false → Trip (unless omit w) (field set m) s (set s a)
  Trip-present omit o = present k.bytes o k.written k.value into_back

  -- A field that is left out where it has its default.
  pub Trip-field :
      (omit : Bool) → (omit ≡ true → set s a ≡ s) → Trip (unless omit w) (field set m) s (set s a)
  Trip-field omit d = elim (Bool-cases omit) [
    | inl o ↦ omitted o (ap (λ (x : S). Outcome.ok x) (sym (d o)))
    | inr o ↦ present k.bytes o k.written k.value into_back
  ]

  pub Trip-field_or :
      (omit : Bool) (e : A)
      → (omit ≡ true → e ≡ a)
      → Trip (unless omit w) (field_or e set m) s (set s a)
  Trip-field_or omit e d = elim (Bool-cases omit) [
    | inl o ↦ omitted o (ap (λ (x : A). Outcome.ok (set s x)) (d o))
    | inr o ↦ present k.bytes o k.written k.value into_back
  ]

-- A pointer; nil is what the empty struct has.
abbrev pub AllCarried : {A : Type 0} → (A → Step (Unit {0})) → Step A → Option A → Type 0
AllCarried w m none = Unit {0}
AllCarried w m (some a) = Carried (w a) m a

pub Trip-pointer :
    {S A : Type 0} (set : S → Option A → S) (w : A → Step (Unit {0})) (m : Step A) (o : Option A)
    (s : S)
    → AllCarried w m o
    → set s none ≡ s
    → Trip (pointer w o) (field_pointer set m) s (set s o)
Trip-pointer {S} set w m none s k d = omitted refl (ap (λ (x : S). Outcome.ok x) (sym d))
Trip-pointer {S} {A} set w m (some a) s k d = present k.bytes refl k.written k.value (λ rest b u v.
    Reads-bind (read_as some m) _ b (some a) (set s (some a)) rest rest
      (Reads-bind m _ b a (some a) rest rest (k.back rest b u v)
        (λ c x y. Reads-return (some a) c rest x y))
      (λ c x y. Reads-return (set s (some a)) c rest x y))

-- An optional uint32 is one.
abbrev pub InRange : ℕ → Option ℕ → Type 0
InRange m none = Unit {0}
InRange m (some n) = n < m

uint32s_carried :
    (o : Option ℕ) → InRange (2 ^ 32) o → AllCarried (λ n. always (write_uint32 n)) read_uint32 o
uint32s_carried none h = tt
uint32s_carried (some n) h = uint32-Carried n h

module _ {S : Type 0} (s : S) where
  pub pointer-Trip :
      (set : S → Option ℕ → S) (o : Option ℕ)
      → InRange (2 ^ 32) o
      → set s none ≡ s
      → Trip (pointer (λ n. always (write_uint32 n)) o) (field_pointer set read_uint32) s (set s o)
  pointer-Trip set o h d =
      Trip-pointer set (λ n. always (write_uint32 n)) read_uint32 o s (uint32s_carried o h) d

  pub flag-Trip :
      (set : S → Bool → S) (t : Bool)
      → set s false ≡ s
      → Trip (unless (not t) (always (write_bool t))) (field set read_bool) s (set s t)
  flag-Trip set true d = Trip-field set _ read_bool true s (bool-Carried true) false (λ e. cc)
  flag-Trip set false d = Trip-field set _ read_bool false s (bool-Carried false) true (λ e. d)

  pub no_map-Trip :
      (set : S → Pairs → S) (m : Step Pairs) (w : Step (Unit {0})) (p : Pairs)
      → p ≡ no_pairs
      → set s no_pairs ≡ s
      → Trip (unless (no_info p) w) (field set m) s (set s p)
  no_map-Trip set m w p e d =
      omitted (rw e refl) (ap (λ (x : S). Outcome.ok x) (sym (ap (set s) e ∙ d)))
