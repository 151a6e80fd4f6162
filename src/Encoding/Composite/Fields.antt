-- ===== src/Encoding/Composite/Fields.antt =====
-- The fields of a composite, written by `MarshalComposite` and read by `UnmarshalComposite`.
use go_amqp.Base.{
  ℕ, suc, ◌≤◌, ◌≡◌, ◌≢◌, refl, sym, ap, ◌∙◌, true, false, List, [], ◌∷◌, ◌++◌, ltb, ◌==◌, length,
  drop, arith, Bool-cases, inl, inr, ne→==, lt→ltb, append_assoc,
}
use go_amqp.Buffer.{Buffer, Step, Outcome, ok, ◌>>◌, append, append_byte, unread, skip}
use go_amqp.Buffer.Laws.{
  IsValid, append-append, append_nothing, append-IsValid, len-unread, unread-advance,
  advance-IsValid,
}
use go_amqp.Buffer.Reads.{Reads, Reads-return, Reads-bind}
use go_amqp.Encoding.Codes.{code_null}
use go_amqp.Encoding.Write.{write_null}
use go_amqp.Encoding.Read.{try_read_null}
use go_amqp.Encoding.Composite.{
  MarshalField, UnmarshalField, set_count, write_field, write_fields, read_field, read_fields,
}

-- What a writer of a value does, wherever it stands.
abbrev pub Writes : Step (Unit {0}) → List ℕ → Type 0
Writes m bytes = (b : Buffer) → IsValid b → m b ≡ (ok tt, append bytes b)

-- Some first byte that is not the null's.
abbrev pub IsValue : List ℕ → Type 0
IsValue [] = ⊥
IsValue (x ∷ xs) = x ≢ code_null

pub Reads-not_null :
    (b : Buffer) (xs rest : List ℕ)
    → IsValue xs
    → unread b ≡ xs ++ rest
    → IsValid b
    → Reads try_read_null b false (xs ++ rest)
unfolding try_read_null
Reads-not_null b [] rest h u v = elim h [ ]
Reads-not_null b (x ∷ xs) rest h u v = record {
  after = b;
  ran =
      let some_left : ltb 0 (suc (length (xs ++ rest))) ≡ true = lt→ltb _ _ (omega arith) in
      rw (len-unread b, u, ne→== x code_null h, some_left) refl;
  left = u;
  valid = v;
}

pub Reads-null :
    (b : Buffer) (rest : List ℕ)
    → unread b ≡ code_null ∷ rest
    → IsValid b
    → Reads try_read_null b true rest
unfolding try_read_null skip
Reads-null b rest u v = record {
  after = skip 1 b;
  ran =
      let some_left : ltb 0 (suc (length rest)) ≡ true = lt→ltb _ _ (omega arith) in
      rw (len-unread b, u, some_left) refl;
  left = unread-advance b 1 ∙ ap (drop 1) u;
  valid = advance-IsValid b 1 v (omega (arith, ap length u));
}

-- A field of a composite and of the struct that it is read into: from the struct `s` it leads to `s'`.
pub data Trip {S : Type 0} (m : MarshalField) (u : UnmarshalField S) (s s' : S) : Type 0 where
  omitted : m.omit ≡ true → u.handle_null s ≡ ok s' → Trip m u s s'
  present :
      (bytes : List ℕ)
      → m.omit ≡ false
      → Writes m.write bytes
      → IsValue bytes
      → ((rest : List ℕ) (b : Buffer)
          → unread b ≡ bytes ++ rest
          → IsValid b
          → Reads (u.read s) b s' rest)
      → Trip m u s s'

pub data Trips {S : Type 0} : List MarshalField → List (UnmarshalField S) → S → S → Type 0 where
  done : {s : S} → Trips [] [] s s
  next :
      {m : MarshalField} {u : UnmarshalField S} {ms : List MarshalField}
      {us : List (UnmarshalField S)} {s t s' : S}
      → Trip m u s t
      → Trips ms us t s'
      → Trips (m ∷ ms) (u ∷ us) s s'

-- The bytes of the fields, and that they are read.
pub record Body {S : Type 0} (ms : List MarshalField) (us : List (UnmarshalField S)) (s s' : S)
    : Type 0 where
  pub body : List ℕ
  pub written : Writes (write_fields (set_count ms) ms) body
  pub back :
      (rest : List ℕ) (b : Buffer)
      → unread b ≡ body ++ rest
      → IsValid b
      → Reads (read_fields (set_count ms) us s) b s' rest
  pub few : set_count ms ≤ length us

pub Writes-then :
    (m k : Step (Unit {0})) (xs ys : List ℕ)
    → Writes m xs
    → Writes k ys
    → Writes (m >> k) (xs ++ ys)
Writes-then m k xs ys w w' b v = rw (w b v) (
    w' (append xs b) (append-IsValid b xs v)
    ∙ ap (λ (c : Buffer). (Outcome.ok tt, c)) (append-append b xs ys))

null_written : (m : MarshalField) → m.omit ≡ true → Writes (write_field m) (code_null ∷ [])
unfolding write_null append_byte
null_written m o b v = rw o refl

value_written :
    (m : MarshalField) (bytes : List ℕ)
    → m.omit ≡ false
    → Writes m.write bytes
    → Writes (write_field m) bytes
value_written m bytes o w b v = rw o (w b v)

module _ {S : Type 0} where
  null_read :
      (u : UnmarshalField S) (s s' : S) (rest : List ℕ) (b : Buffer)
      → u.handle_null s ≡ ok s'
      → unread b ≡ code_null ∷ rest
      → IsValid b
      → Reads (read_field u s) b s' rest
  null_read u s s' rest b h q v =
      Reads-bind try_read_null _ b true s' rest rest (Reads-null b rest q v)
        (λ b' q' v'. record { after = b'; ran = rw h refl; left = q'; valid = v' })

  value_read :
      (u : UnmarshalField S) (s s' : S) (bytes rest : List ℕ) (b : Buffer)
      → IsValue bytes
      → ((rest : List ℕ) (b : Buffer)
          → unread b ≡ bytes ++ rest
          → IsValid b
          → Reads (u.read s) b s' rest)
      → unread b ≡ bytes ++ rest
      → IsValid b
      → Reads (read_field u s) b s' rest
  value_read u s s' bytes rest b x r q v =
      Reads-bind try_read_null _ b false s' (bytes ++ rest) rest (Reads-not_null b bytes rest x q v)
        (λ b' q' v'.
          Reads-bind try_read_null _ b' false s' (bytes ++ rest) rest
            (Reads-not_null b' bytes rest x q' v') (λ b'' q'' v''. r rest b'' q'' v''))

  -- A field that is written, as a null or as a value.
  cons-Body :
      (m : MarshalField) (u : UnmarshalField S) (ms : List MarshalField)
      (us : List (UnmarshalField S)) (s t s' : S) (bytes : List ℕ)
      → set_count (m ∷ ms) ≡ suc (set_count ms)
      → Writes (write_field m) bytes
      → ((rest : List ℕ) (b : Buffer)
          → unread b ≡ bytes ++ rest
          → IsValid b
          → Reads (read_field u s) b t rest)
      → Body ms us t s'
      → Body (m ∷ ms) (u ∷ us) s s'
  cons-Body m u ms us s t s' bytes e w r k = record {
    body = bytes ++ k.body;
    written =
        rw e
          (Writes-then (write_field m) (write_fields (set_count ms) ms) bytes k.body w k.written);
    back = rw e (λ rest b q v.
        Reads-bind (read_field u s) _ b t s' (k.body ++ rest) rest
          (r (k.body ++ rest) b (q ∙ append_assoc bytes k.body rest) v)
          (λ b' q' v'. k.back rest b' q' v'));
    few = rw e (omega (arith, k.few));
  }

  pub trips-Body :
      {ms : List MarshalField} {us : List (UnmarshalField S)} {s s' : S}
      → Trips ms us s s'
      → Body ms us s s'
  trips-Body {s = s} done = record {
    body = [];
    written = λ b v. ap (λ (c : Buffer). (Outcome.ok tt, c)) (sym (append_nothing b));
    back = λ rest b u v. Reads-return s b rest u v;
    few = omega arith;
  }
  trips-Body (next {m} {u} {ms} {us} {s} {t} {s'} (present bytes o w x r) ts) =
      cons-Body m u ms us s t s' bytes (rw o refl) (value_written m bytes o w)
        (λ rest b q v. value_read u s t bytes rest b x r q v) (trips-Body ts)
  trips-Body (next {m} {u} {ms} {us} {s} {t} {s'} (omitted o h) ts) =
      let k : Body ms us t s' = trips-Body ts in
      elim (Bool-cases (set_count ms == 0)) [
        | inl z ↦
            let none_set : set_count ms ≡ 0 = ground arith in
            let e : set_count (m ∷ ms) ≡ 0 = rw (o, z) refl in
            record {
              body = k.body;
              written = rw e (rw none_set at k.written);
              back = rw e (λ rest b q v. rw h (rw none_set at k.back rest b q v));
              few = rw e (omega arith);
            }
        | inr z ↦
            cons-Body m u ms us s t s' (code_null ∷ []) (rw (o, z) refl) (null_written m o)
              (λ rest b q v. null_read u s t rest b h q v) k
      ]
