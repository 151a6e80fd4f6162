-- ===== src/Frames/Fields.antt =====
-- The fields of the frames: MultiSymbol, Milliseconds, ExpiryPolicy, Unsettled and Filter of
-- internal/encoding/types.go, and the forms that the Marshal and Unmarshal methods of
-- internal/frames/frames.go give a field. A struct is filled by setters, from one that is empty.
use go_amqp.Base.{
  ℕ, ◌-◌, ◌*◌, ◌/◌, ◌%◌, ◌^◌, Bool, true, false, ◌||◌, ◌&&◌, Option, none, some, List, [], ◌∷◌, ltb,
  ◌==◌, if◌then◌else◌, length,
}
use go_amqp.Buffer.{Step, ok, unknown_expiry_policy, ◌>>=◌, return, fail}
use go_amqp.Encoding.Codes.{code_sym8, code_sym32}
use go_amqp.Encoding.Write.{write_uint32}
use go_amqp.Encoding.Read.{peek_type, read_string, read_uint, read_map_header}
use go_amqp.Encoding.Arrays.{read_array_symbol}
use go_amqp.Encoding.Composite.{MarshalField, UnmarshalField, unmarshal}
use go_amqp.Encoding.Any.{Value, null, string, symbol, described, state, Pairs}
use go_amqp.Encoding.Any.Write.{required, unless}
use go_amqp.Encoding.Any.Read.{
  optional, read_as, read_pairs, read_described, read_delivery_state, rounds,
}

-- A pointer, left out where it is nil.
abbrev pub pointer : {A : Type 0} → (A → Step (Unit {0})) → Option A → MarshalField
pointer w none = unless true (return tt)
pointer w (some a) = required (w a)

module _ {S A : Type 0} where
  -- `{Field: &s.F}`
  abbrev pub into : (S → A → S) → Step A → S → Step S
  into set m s = do a ← m; return (set s a)

  abbrev pub field : (S → A → S) → Step A → UnmarshalField S
  field set m = optional (into set m)

  -- The same with a null handler that sets a default.
  abbrev pub field_or : A → (S → A → S) → Step A → UnmarshalField S
  field_or a set m = record { read = into set m; handle_null = λ s. ok (set s a) }

  -- A field that is read into what stands there.
  abbrev pub field_over : (S → A) → (S → A → S) → (A → Step A) → UnmarshalField S
  field_over get set m = optional (λ s. into set (m (get s)) s)

abbrev pub field_pointer : {S A : Type 0} → (S → Option A → S) → Step A → UnmarshalField S
field_pointer set m = field set (read_as some m)

unfoldable pub read_multi_symbol : List (List ℕ) → Step (List (List ℕ))
read_multi_symbol ms = do
  type_ ← peek_type
  if type_ == code_sym8 || type_ == code_sym32
      then read_as (λ s. s ∷ []) read_string
      else unmarshal (λ old. read_array_symbol) ms

-- A duration is an int64 of nanoseconds, by its bit pattern; its quotient rounds to zero.
unfoldable pub write_milliseconds : ℕ → Step (Unit {0})
write_milliseconds m wr =
    let ms = if ltb m (2 ^ 63) then m / 1000000 else 2 ^ 64 - (2 ^ 64 - m) / 1000000 in
    (ok tt, write_uint32 (ms % 2 ^ 32) wr)

unfoldable pub read_milliseconds : Step ℕ
read_milliseconds = do n ← read_uint; return (n * 1000000 % 2 ^ 64)

abbrev same_bytes : List ℕ → List ℕ → Bool
same_bytes [] [] = true
same_bytes [] (y ∷ ys) = false
same_bytes (x ∷ xs) [] = false
same_bytes (x ∷ xs) (y ∷ ys) = x == y && same_bytes xs ys

-- "link-detach", "session-end", "connection-close" and "never"
abbrev pub expiry_link_detach : List ℕ
expiry_link_detach = 108 ∷ 105 ∷ 110 ∷ 107 ∷ 45 ∷ 100 ∷ 101 ∷ 116 ∷ 97 ∷ 99 ∷ 104 ∷ []

abbrev pub expiry_session_end : List ℕ
expiry_session_end = 115 ∷ 101 ∷ 115 ∷ 115 ∷ 105 ∷ 111 ∷ 110 ∷ 45 ∷ 101 ∷ 110 ∷ 100 ∷ []

abbrev pub expiry_connection_close : List ℕ
expiry_connection_close =
    99 ∷ 111 ∷ 110 ∷ 110 ∷ 101 ∷ 99 ∷ 116 ∷ 105 ∷ 111 ∷ 110 ∷ 45 ∷ 99 ∷ 108 ∷ 111 ∷ 115 ∷ 101 ∷ []

abbrev pub expiry_never : List ℕ
expiry_never = 110 ∷ 101 ∷ 118 ∷ 101 ∷ 114 ∷ []

unfoldable pub validate_expiry_policy : List ℕ → Bool
validate_expiry_policy e =
    same_bytes e expiry_link_detach
    || same_bytes e expiry_session_end
    || same_bytes e expiry_connection_close
    || same_bytes e expiry_never

unfoldable pub read_expiry_policy : List ℕ → Step (List ℕ)
read_expiry_policy e = do
  e' ← unmarshal (λ old. read_string) e
  if validate_expiry_policy e' then return e' else fail unknown_expiry_policy

-- `Omit` of the expiry policy of a source or target.
abbrev pub ends_with_session : List ℕ → Bool
ends_with_session e = length e == 0 || same_bytes e expiry_session_end

module _ (any : Step Value) where
  unfoldable pub read_unsettled : Step Pairs
  read_unsettled = do
    count ← read_map_header
    read_pairs (unmarshal (λ old. read_as state (read_delivery_state any)) null) (λ k. ok k)
        (read_as string read_string) (rounds count)

  unfoldable pub read_filter : Step Pairs
  read_filter = do
    count ← read_map_header
    read_pairs (unmarshal (λ old. read_described any) (described null null)) (λ k. ok k)
        (read_as symbol read_string) (rounds count)
