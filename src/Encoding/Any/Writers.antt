-- ===== src/Encoding/Any/Writers.antt =====
-- internal/encoding: the writers return a value or an error.
use go_amqp.Base.{ℕ, zero, suc, ◌≢◌, List, [], ◌∷◌, All, Bool-cases, inl, inr, ◌==◌, refl, arith}
use go_amqp.Buffer.{
  Buffer, Step, Outcome, ok, err, panic, follow, ◌>>◌, append_byte, append_uint32, append, len,
}
use go_amqp.Encoding.Write.{write_string, write_symbol, write_binary}
use go_amqp.Encoding.Arrays.{write_array_string}
use go_amqp.Encoding.Composite.{
  MarshalField, set_count, write_field, write_fields, marshal_composite, fix_size_at,
}
use go_amqp.Encoding.Any.{
  Array, ubytes, uint16s, uint32s, uint64s, floats, doubles, int8s, int16s, int32s, int64s,
  timestamps, bools, strings, symbols, binaries, uuids, Value, null, bool, ubyte, ushort, uint,
  ulong, float, double, byte, short, int, long, timestamp, binary, string, symbol, uuid, array,
  list, map, described, lifetime, error, state, Values, no_values, value, Pairs, no_pairs, pair,
  ErrorInfo, error_info, State, received, accepted, rejected, rejected_plain, released, modified,
  count_values, count_pairs,
}
use go_amqp.Encoding.Any.Write.{
  always, write_array, write_list, write_map, finish_map, write_annotation_key, write_value,
  write_values, write_pairs, write_annotation_pairs, write_error, write_state,
}

abbrev pub Returns : {A : Type 0} → Step A → Type 0
Returns m = (b : Buffer) → (m b).0 ≢ panic

pub Returns-then : (m k : Step (Unit {0})) → Returns m → Returns k → Returns (m >> k)
Returns-then m k f g b = after (m b) k (f b) g
  where
    after :
        (p : Outcome (Unit {0}) × Buffer) (k : Step (Unit {0}))
        → p.0 ≢ panic
        → Returns k
        → (follow p (λ x. k)).0 ≢ panic
    after (ok a, c) k n g = g c
    after (err e, c) k n g = λ p. cc
    after (panic, c) k n g = λ p. n refl

pub Returns-always : (w : Buffer → Buffer) → Returns (always w)
Returns-always w b p = cc

pub Returns-write_string : (xs : List ℕ) → Returns (write_string xs)
unfolding write_string
Returns-write_string xs b p = ground arith

pub Returns-write_symbol : (xs : List ℕ) → Returns (write_symbol xs)
unfolding write_symbol
Returns-write_symbol xs b p = ground arith

Returns-write_binary : (xs : List ℕ) → Returns (write_binary xs)
unfolding write_binary
Returns-write_binary xs b p = ground arith

Returns-write_array : (a : Array) → Returns (write_array a)
unfolding write_array write_array_string
Returns-write_array (strings a) b p = ground arith
Returns-write_array (ubytes a) b p = cc
Returns-write_array (int8s a) b p = cc
Returns-write_array (uint16s a) b p = cc
Returns-write_array (int16s a) b p = cc
Returns-write_array (uint32s a) b p = cc
Returns-write_array (int32s a) b p = cc
Returns-write_array (uint64s a) b p = cc
Returns-write_array (int64s a) b p = cc
Returns-write_array (floats a) b p = cc
Returns-write_array (doubles a) b p = cc
Returns-write_array (bools a) b p = cc
Returns-write_array (symbols a) b p = cc
Returns-write_array (binaries a) b p = cc
Returns-write_array (timestamps a) b p = cc
Returns-write_array (uuids a) b p = cc

Returns-write_list : (n : ℕ) (w : Step (Unit {0})) → Returns w → Returns (write_list n w)
unfolding write_list
Returns-write_list n w r b = elim (Bool-cases (n == 0)) [
  | inl e ↦ rw e (λ p. cc)
  | inr e ↦
      rw e (Returns-then w (fix_size_at (len (append_byte _ b))) r (λ c p. cc) (append_uint32 _ _))
]

pub Returns-write_map : (n : ℕ) (w : Step (Unit {0})) → Returns w → Returns (write_map n w)
unfolding write_map
Returns-write_map n w r b =
    Returns-then w (finish_map (len b) _) r (λ c p. ground arith) (append _ b)

-- A field that is written, or left out.
abbrev pub FieldReturns : MarshalField → Type 0
FieldReturns f = Returns f.write

pub Returns-write_field : (f : MarshalField) → FieldReturns f → Returns (write_field f)
Returns-write_field f r b = elim (Bool-cases f.omit) [ inl e ↦ rw e (λ p. cc) | inr e ↦ rw e (r b) ]

Returns-write_fields :
    (n : ℕ) (fs : List MarshalField) → All FieldReturns fs → Returns (write_fields n fs)
Returns-write_fields zero fs r = Returns-always (λ b. b)
Returns-write_fields (suc n) [] r = Returns-always (λ b. b)
Returns-write_fields (suc n) (f ∷ fs) (r, rs) =
    Returns-then (write_field f) (write_fields n fs) (Returns-write_field f r)
      (Returns-write_fields n fs rs)

Returns-marshal_composite :
    (code : ℕ) (fs : List MarshalField) → All FieldReturns fs → Returns (marshal_composite code fs)
unfolding marshal_composite
Returns-marshal_composite code fs r b = elim (Bool-cases (set_count fs == 0)) [
  | inl e ↦ rw e (λ p. cc)
  | inr e ↦ rw e (
      Returns-then (write_fields (set_count fs) fs) (fix_size_at _)
        (Returns-write_fields (set_count fs) fs r) (λ c p. cc) _)
]

Returns-write_annotation_key : (k : Value) → Returns (write_annotation_key k)
unfolding write_annotation_key
Returns-write_annotation_key (string xs) b p = Returns-write_symbol xs b p
Returns-write_annotation_key (symbol xs) b p = Returns-write_symbol xs b p
Returns-write_annotation_key null b p = cc
Returns-write_annotation_key (bool x) b p = cc
Returns-write_annotation_key (ubyte x) b p = cc
Returns-write_annotation_key (ushort x) b p = cc
Returns-write_annotation_key (uint x) b p = cc
Returns-write_annotation_key (ulong x) b p = cc
Returns-write_annotation_key (float x) b p = cc
Returns-write_annotation_key (double x) b p = cc
Returns-write_annotation_key (byte x) b p = cc
Returns-write_annotation_key (short x) b p = cc
Returns-write_annotation_key (int x) b p = cc
Returns-write_annotation_key (long x) b p = cc
Returns-write_annotation_key (timestamp x) b p = cc
Returns-write_annotation_key (binary x) b p = cc
Returns-write_annotation_key (uuid x) b p = cc
Returns-write_annotation_key (array x) b p = cc
Returns-write_annotation_key (list x) b p = cc
Returns-write_annotation_key (map x) b p = cc
Returns-write_annotation_key (described d v) b p = cc
Returns-write_annotation_key (lifetime x) b p = cc
Returns-write_annotation_key (error x) b p = cc
Returns-write_annotation_key (state x) b p = cc

mutual
  unfolding write_value write_values write_pairs write_annotation_pairs write_error write_state

  pub Returns-write_value : (v : Value) → Returns (write_value v)
  Returns-write_value null = (λ b p. cc)
  Returns-write_value (bool x) = (λ b p. cc)
  Returns-write_value (ubyte x) = (λ b p. cc)
  Returns-write_value (ushort x) = (λ b p. cc)
  Returns-write_value (uint x) = (λ b p. cc)
  Returns-write_value (ulong x) = (λ b p. cc)
  Returns-write_value (float x) = (λ b p. cc)
  Returns-write_value (double x) = (λ b p. cc)
  Returns-write_value (byte x) = (λ b p. cc)
  Returns-write_value (short x) = (λ b p. cc)
  Returns-write_value (int x) = (λ b p. cc)
  Returns-write_value (long x) = (λ b p. cc)
  Returns-write_value (timestamp x) = (λ b p. cc)
  Returns-write_value (uuid x) = (λ b p. cc)
  Returns-write_value (lifetime x) = (λ b p. cc)
  Returns-write_value (binary xs) = Returns-write_binary xs
  Returns-write_value (string xs) = Returns-write_string xs
  Returns-write_value (symbol xs) = Returns-write_symbol xs
  Returns-write_value (array a) = Returns-write_array a
  Returns-write_value (list vs) =
      Returns-write_list (count_values vs) (write_values vs) (Returns-write_values vs)
  Returns-write_value (map ps) =
      Returns-write_map (count_pairs ps) (write_pairs ps) (Returns-write_pairs ps)
  Returns-write_value (described d v) =
      Returns-then (always (append_byte 0)) (write_value d >> write_value v) (λ b p. cc)
        (Returns-then (write_value d) (write_value v) (Returns-write_value d)
          (Returns-write_value v))
  Returns-write_value (error e) = Returns-write_error e
  Returns-write_value (state s) = Returns-write_state s

  Returns-write_values : (vs : Values) → Returns (write_values vs)
  Returns-write_values no_values = Returns-always (λ b. b)
  Returns-write_values (value v vs) =
      Returns-then (write_value v) (write_values vs) (Returns-write_value v)
        (Returns-write_values vs)

  pub Returns-write_pairs : (ps : Pairs) → Returns (write_pairs ps)
  Returns-write_pairs no_pairs = Returns-always (λ b. b)
  Returns-write_pairs (pair k v ps) =
      Returns-then (write_value k) (write_value v >> write_pairs ps) (Returns-write_value k) (
        Returns-then (write_value v) (write_pairs ps) (Returns-write_value v)
          (Returns-write_pairs ps))

  Returns-write_annotation_pairs : (ps : Pairs) → Returns (write_annotation_pairs ps)
  Returns-write_annotation_pairs no_pairs = Returns-always (λ b. b)
  Returns-write_annotation_pairs (pair k v ps) =
      Returns-then (write_annotation_key k) (write_value v >> write_annotation_pairs ps)
        (Returns-write_annotation_key k)
        (Returns-then (write_value v) (write_annotation_pairs ps) (Returns-write_value v)
          (Returns-write_annotation_pairs ps))

  Returns-write_error : (e : ErrorInfo) → Returns (write_error e)
  Returns-write_error (error_info condition description info) = Returns-marshal_composite _ _ (
    Returns-write_symbol condition,
    (
      Returns-write_string description,
      (Returns-write_map (count_pairs info) (write_pairs info) (Returns-write_pairs info), tt),
    ),
  )

  Returns-write_state : (s : State) → Returns (write_state s)
  Returns-write_state (received number offset) =
      Returns-marshal_composite _ _ ((λ b p. cc), ((λ b p. cc), tt))
  Returns-write_state accepted = Returns-marshal_composite _ _ tt
  Returns-write_state (rejected e) = Returns-marshal_composite _ _ (Returns-write_error e, tt)
  Returns-write_state rejected_plain = Returns-marshal_composite _ _ (Returns-always (λ b. b), tt)
  Returns-write_state released = Returns-marshal_composite _ _ tt
  Returns-write_state (modified failed undeliverable annotations) = Returns-marshal_composite _ _ (
    (λ b p. cc),
    (
      (λ b p. cc),
      (
        Returns-write_map (count_pairs annotations) (write_annotation_pairs annotations)
            (Returns-write_annotation_pairs annotations),
        tt,
      ),
    ),
  )
