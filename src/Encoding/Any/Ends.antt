-- ===== src/Encoding/Any/Ends.antt =====
-- Whether `ReadAny` comes to an end.
use go_amqp.Base.{
  ℕ, zero, suc, ◌+◌, ◌<◌, ◌≤◌, ◌≡◌, refl, Bool, Bool-cases, inl, inr, true, false, List, ltb,
  if◌then◌else◌, arith, length, get_or,
}
use go_amqp.Buffer.{
  unknown_type, Buffer, Step, Outcome, invalid_length, not_implemented, peek_byte, beyond, len,
  ◌>>=◌,
}
use go_amqp.Encoding.Read.{peek_type}
use go_amqp.Encoding.Any.{
  Array, ubytes, uint16s, uint32s, uint64s, floats, doubles, int8s, int16s, int32s, int64s,
  timestamps, bools, strings, symbols, binaries, uuids, Value, null, bool, ubyte, ushort, uint,
  ulong, float, double, byte, short, int, long, binary, string, uuid, array, list, map, error,
  state,
}
use go_amqp.Encoding.Read.{
  read_ubyte, read_ushort, read_uint32, read_ulong, read_sbyte, read_short, read_int32, read_long,
  read_float, read_double, read_bool, read_string, read_binary, read_uuid,
}
use go_amqp.Encoding.Arrays.{
  read_array_int8, read_array_ubyte, read_array_uint16, read_array_int16, read_array_uint32,
  read_array_int32, read_array_uint64, read_array_int64, read_array_float, read_array_double,
  read_array_bool, read_array_string, read_array_symbol, read_array_binary, read_array_timestamp,
  read_array_uuid,
}
use go_amqp.Encoding.Any.Read.{
  read_received, read_accepted, read_released, read_list, read_map_any, read_error, read_rejected,
  read_modified,
}
use go_amqp.Encoding.Any.Decode.{
  one_of, unimplemented, type_idx, read_array_of, array_cases, read_any_array, composite_type,
  composite_cases, read_composite, any_cases, peek_code, read_any,
}
use go_amqp.Encoding.Any.Fuel.{
  ran_out, Fine, Fine-return, Fine-fail, Fine-if, Fine-bind, Quiet, Fine-try_read_null, Fine-lift,
  Fine-unread_bytes,
}
use go_amqp.Encoding.Any.Readers.{
  Fine-read_ubyte, Fine-read_ushort, Fine-read_uint32, Fine-read_ulong, Fine-read_sbyte,
  Fine-read_short, Fine-read_int32, Fine-read_long, Fine-read_float, Fine-read_double,
  Fine-read_bool, Fine-read_string, Fine-read_binary, Fine-read_uuid, Fine-read_timestamp,
  Fine-read_lifetime, Fine-read_array_ubyte, Fine-read_array_int8, Fine-read_array_uint16,
  Fine-read_array_int16, Fine-read_array_uint32, Fine-read_array_int32, Fine-read_array_uint64,
  Fine-read_array_int64, Fine-read_array_float, Fine-read_array_double, Fine-read_array_bool,
  Fine-read_array_string, Fine-read_array_symbol, Fine-read_array_binary, Fine-read_array_timestamp,
  Fine-read_array_uuid,
}
use go_amqp.Encoding.Any.Enough.{
  AllFine, Fine-switch, Fine-read_as, Fine-read_list, Fine-read_map_any, Fine-read_described,
  Fine-read_error, Fine-read_rejected, Fine-read_modified, Fine-read_received, Fine-read_accepted,
  Fine-read_released,
}

pub quiet_if :
    {A : Type 0} (c : Bool) (o p : Outcome A)
    → ran_out o ≡ false
    → ran_out p ≡ false
    → ran_out (if c then o else p) ≡ false
quiet_if true o p r s = r
quiet_if false o p r s = s

type_idx_quiet : (buf : List ℕ) → ran_out (type_idx buf) ≡ false
type_idx_quiet buf = search (quiet_if) depth 10

composite_type_quiet : (buf : List ℕ) → ran_out (composite_type buf) ≡ false
unfolding composite_type
composite_type_quiet buf = search (quiet_if) depth 10

module _ (n : ℕ) where
  Fine-read_array_of :
      {A : Type 0} (g : A → Array) (m : Step A) → Fine n m → Fine n (read_array_of g m)
  Fine-read_array_of g m f = Fine-bind n m _ f (λ a. Fine-return n (array (g a)))

  array_cases_fine : AllFine n array_cases
  array_cases_fine = (
    Fine-read_array_of int8s read_array_int8 (Fine-read_array_int8 n),
    (
      Fine-read_array_of ubytes read_array_ubyte (Fine-read_array_ubyte n),
      (
        Fine-read_array_of uint16s read_array_uint16 (Fine-read_array_uint16 n),
        (
          Fine-read_array_of int16s read_array_int16 (Fine-read_array_int16 n),
          (
            Fine-read_array_of uint32s read_array_uint32 (Fine-read_array_uint32 n),
            (
              Fine-read_array_of int32s read_array_int32 (Fine-read_array_int32 n),
              (
                Fine-read_array_of uint64s read_array_uint64 (Fine-read_array_uint64 n),
                (
                  Fine-read_array_of int64s read_array_int64 (Fine-read_array_int64 n),
                  (
                    Fine-read_array_of floats read_array_float (Fine-read_array_float n),
                    (
                      Fine-read_array_of doubles read_array_double (Fine-read_array_double n),
                      (
                        Fine-read_array_of bools read_array_bool (Fine-read_array_bool n),
                        (
                          Fine-read_array_of strings read_array_string (Fine-read_array_string n),
                          (
                            Fine-read_array_of symbols read_array_symbol (Fine-read_array_symbol n),
                            (
                              Fine-read_array_of binaries read_array_binary
                                  (Fine-read_array_binary n),
                              (
                                Fine-read_array_of timestamps read_array_timestamp
                                    (Fine-read_array_timestamp n),
                                (
                                  Fine-read_array_of uuids read_array_uuid (Fine-read_array_uuid n),
                                  tt,
                                ),
                              ),
                            ),
                          ),
                        ),
                      ),
                    ),
                  ),
                ),
              ),
            ),
          ),
        ),
      ),
    ),
  )

  Fine-read_any_array : Fine n read_any_array
  unfolding read_any_array
  Fine-read_any_array = Fine-bind n _ _ (Fine-unread_bytes n) (λ buf.
      Fine-bind n _ _ (Fine-lift n (type_idx buf) (type_idx_quiet buf)) (λ idx.
        Fine-if n (ltb (length buf) (idx + 1)) _ _ (Fine-fail n invalid_length refl) (
          Fine-switch n array_cases (get_or buf idx 0) _ array_cases_fine
            (Fine-fail n (not_implemented (get_or buf idx 0)) refl))))

module _ (n : ℕ) (any : Step Value) (f : Fine n any) where
  composite_cases_fine : (type_ : ℕ) → AllFine (suc n) (composite_cases any type_)
  composite_cases_fine type_ = (
    Fine-read_as (suc n) error (read_error any) (Fine-read_error n any f),
    (
      Fine-read_lifetime (suc n),
      (
        Fine-read_as (suc n) state read_accepted (Fine-read_accepted n),
        (
          Fine-read_as (suc n) state (read_modified any) (Fine-read_modified n any f),
          (
            Fine-read_as (suc n) state read_received (Fine-read_received n),
            (
              Fine-read_as (suc n) state (read_rejected any) (Fine-read_rejected n any f),
              (
                Fine-read_as (suc n) state read_released (Fine-read_released n),
                (Fine-fail (suc n) (not_implemented type_) refl, tt),
              ),
            ),
          ),
        ),
      ),
    ),
  )

  Fine-read_composite : Fine (suc n) (read_composite any)
  unfolding read_composite
  Fine-read_composite = Fine-bind (suc n) _ _ (Fine-unread_bytes (suc n)) (λ buf.
      Fine-bind (suc n) _ _ (Fine-lift (suc n) (composite_type buf) (composite_type_quiet buf))
        (λ type_.
          Fine-switch (suc n) (composite_cases any type_) type_ _ (composite_cases_fine type_)
            (Fine-read_described n any f)))

  any_cases_fine : AllFine (suc n) (any_cases any)
  any_cases_fine = (
    Fine-read_composite,
    (
      Fine-read_as (suc n) bool read_bool (Fine-read_bool (suc n)),
      (
        Fine-read_as (suc n) ubyte read_ubyte (Fine-read_ubyte (suc n)),
        (
          Fine-read_as (suc n) ushort read_ushort (Fine-read_ushort (suc n)),
          (
            Fine-read_as (suc n) uint read_uint32 (Fine-read_uint32 (suc n)),
            (
              Fine-read_as (suc n) ulong read_ulong (Fine-read_ulong (suc n)),
              (
                Fine-read_as (suc n) byte read_sbyte (Fine-read_sbyte (suc n)),
                (
                  Fine-read_as (suc n) short read_short (Fine-read_short (suc n)),
                  (
                    Fine-read_as (suc n) int read_int32 (Fine-read_int32 (suc n)),
                    (
                      Fine-read_as (suc n) long read_long (Fine-read_long (suc n)),
                      (
                        Fine-read_as (suc n) float read_float (Fine-read_float (suc n)),
                        (
                          Fine-read_as (suc n) double read_double (Fine-read_double (suc n)),
                          (
                            Fine-read_as (suc n) binary read_binary (Fine-read_binary (suc n)),
                            (
                              Fine-read_as (suc n) string read_string (Fine-read_string (suc n)),
                              (
                                Fine-read_timestamp (suc n),
                                (
                                  Fine-read_as (suc n) uuid read_uuid (Fine-read_uuid (suc n)),
                                  (
                                    Fine-read_any_array (suc n),
                                    (
                                      Fine-read_as (suc n) list (read_list any)
                                          (Fine-read_list n any f),
                                      (
                                        Fine-read_as (suc n) map (read_map_any any)
                                            (Fine-read_map_any n any f),
                                        tt,
                                      ),
                                    ),
                                  ),
                                ),
                              ),
                            ),
                          ),
                        ),
                      ),
                    ),
                  ),
                ),
              ),
            ),
          ),
        ),
      ),
    ),
  )

Fine-peek_code : (n : ℕ) → Fine n peek_code
unfolding peek_type peek_byte
Fine-peek_code n = record {
  at = λ b h. elim (Bool-cases (beyond b 1)) [
    | inl e ↦ rw (e, peek_code) (refl, omega arith)
    | inr e ↦ rw (e, peek_code) (refl, omega arith)
  ];
}

-- The end of the buffer is an error, not a lack of fuel.
Fine-nothing : (k : ℕ → Step Value) → Fine 0 (peek_code >>= k)
unfolding peek_type peek_byte len
Fine-nothing k = record {
  at = λ b h.
      let past : beyond b 1 ≡ true = ground arith in rw (past, peek_code) (refl, omega arith);
}

Quiet-default :
    (type_ : ℕ)
    → Quiet (if one_of unimplemented type_ then not_implemented type_ else unknown_type type_)
Quiet-default type_ = elim (Bool-cases (one_of unimplemented type_)) [
  | inl e ↦ rw e refl
  | inr e ↦ rw e refl
]

no_less : (n : ℕ) → n < 0 → ⊥
no_less n h = omega arith

pub Fine-read_any : (fuel n : ℕ) → n < fuel → Fine n (read_any fuel)
unfolding read_any
Fine-read_any zero n h = elim (no_less n h) [ ]
Fine-read_any (suc fuel) zero h =
    Fine-bind 0 _ _ (Fine-try_read_null 0)
      (λ is_null. Fine-if 0 is_null _ _ (Fine-return 0 null) (Fine-nothing _))
Fine-read_any (suc fuel) (suc n) h = Fine-bind (suc n) _ _ (Fine-try_read_null (suc n)) (λ is_null.
    Fine-if (suc n) is_null _ _ (Fine-return (suc n) null) (
      Fine-bind (suc n) _ _ (Fine-peek_code (suc n)) (λ type_.
        Fine-switch (suc n) (any_cases (read_any fuel)) type_ _
          (any_cases_fine n (read_any fuel) (Fine-read_any fuel n (omega arith)))
          (Fine-fail (suc n)
            (if one_of unimplemented type_ then not_implemented type_ else unknown_type type_)
            (Quiet-default type_)))))

-- `ReadAny` ends on any buffer, whatever nesting its bytes describe: with more fuel than there are
-- unread bytes the model returns what a Go run does, a value, an error of the code's or a panic, and
-- not its own error for fuel; and there are then no more unread bytes than before.
pub read_any-ends :
    (fuel : ℕ) (b : Buffer)
    → len b < fuel
    → (ran_out (read_any fuel b).0 ≡ false) × (len (read_any fuel b).1 ≤ len b)
read_any-ends fuel b h = (Fine-read_any fuel (len b) h).at b (omega arith)
