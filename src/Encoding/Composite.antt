-- ===== src/Encoding/Composite.antt =====
-- internal/encoding: MarshalComposite and UnmarshalComposite. A field to marshal is its Omit flag and
-- what `Marshal` does with its value; a field to unmarshal is what `Unmarshal` does with the struct
-- `S` that it points into, and its null handler.
pub mod Fields
pub mod RoundTrip
use go_amqp.Base.{
  ℕ, zero, suc, ◌+◌, ◌-◌, ◌%◌, ◌^◌, Bool, true, false, ◌&&◌, not, List, [], ◌∷◌, ◌++◌, ltb, ◌==◌,
  if◌then◌else◌, length, take, drop,
}
use go_amqp.Buffer.{
  Buffer, Step, Outcome, ok, err, Error, invalid_header, invalid_length, ◌>>=◌, ◌>>◌, return, fail,
  append, append_byte, append_uint32, bytes_uint32, len,
}
use go_amqp.Encoding.Codes.{code_list0, code_list32, code_small_ulong}
use go_amqp.Encoding.Write.{write_null, write_descriptor}
use go_amqp.Encoding.Read.{try_read_null, read_composite_header}

pub record MarshalField : Type 0 where
  pub omit : Bool
  pub write : Step (Unit {0})

pub record UnmarshalField (S : Type 0) : Type 0 where
  pub read : S → Step S
  pub handle_null : S → Outcome S

-- `lastSetIdx + 1`: the number of fields up to the last that is not omitted.
abbrev pub set_count : List MarshalField → ℕ
set_count [] = 0
set_count (f ∷ fs) = let n = set_count fs in if f.omit && n == 0 then 0 else suc n

abbrev pub write_field : MarshalField → Step (Unit {0})
write_field f wr = if f.omit then (ok tt, write_null wr) else f.write wr

-- `for _, f := range fields[:lastSetIdx+1]`
abbrev pub write_fields : ℕ → List MarshalField → Step (Unit {0})
write_fields zero fs = return tt
write_fields (suc n) [] = return tt
write_fields (suc n) (f ∷ fs) = write_field f >> write_fields n fs

-- `binary.BigEndian.PutUint32(buf[i:], n)` on the unread bytes.
unfoldable pub put_at : ℕ → ℕ → Buffer → Buffer
put_at i n b = record b {
  bytes = take (b.pos + i) b.bytes ++ (bytes_uint32 n ++ drop (b.pos + i + 4) b.bytes);
}

abbrev pub fix_size_at : ℕ → Step (Unit {0})
fix_size_at size_idx wr = (ok tt, put_at size_idx ((len wr - (size_idx + 4)) % 2 ^ 32) wr)

unfoldable pub marshal_composite : ℕ → List MarshalField → Step (Unit {0})
marshal_composite code fields wr =
    let n = set_count fields in
    let headed = append_byte code_list32 (write_descriptor code wr) in
    let counted = append_uint32 (n % 2 ^ 32) (append (0 ∷ 0 ∷ 0 ∷ 0 ∷ []) headed) in
    if n == 0
    then (ok tt, append (0 ∷ code_small_ulong ∷ code ∷ code_list0 ∷ []) wr)
    else (write_fields n fields >> fix_size_at (len headed)) counted

module _ {S : Type 0} where
  abbrev pub lift : Outcome S → Step S
  lift o b = (o, b)

  -- `Unmarshal` of a field: a null leaves it alone.
  abbrev pub unmarshal : (S → Step S) → S → Step S
  unmarshal read s = do null ← try_read_null; if null then return s else read s

  -- The null handlers of the fields that did not come.
  abbrev pub null_fields : List (UnmarshalField S) → S → Step S
  null_fields [] s = return s
  null_fields (f ∷ fs) s = do s' ← lift (f.handle_null s); null_fields fs s'

  abbrev pub read_field : UnmarshalField S → S → Step S
  read_field f s = do
    null ← try_read_null
    if null then lift (f.handle_null s) else unmarshal f.read s

  -- `for i, field := range fields[:numFields]`, and the fields after those.
  abbrev pub read_fields : ℕ → List (UnmarshalField S) → S → Step S
  read_fields zero fs s = null_fields fs s
  read_fields (suc n) [] s = return s
  read_fields (suc n) (f ∷ fs) s = do s' ← read_field f s; read_fields n fs s'

  unfoldable pub unmarshal_composite : ℕ → List (UnmarshalField S) → S → Step S
  unmarshal_composite type_ fields s = do
    (c_type, num_fields) ← read_composite_header
    if not (c_type == type_)
        then fail invalid_header
        else if ltb (length fields) num_fields
        then fail invalid_length
        else read_fields num_fields fields s
