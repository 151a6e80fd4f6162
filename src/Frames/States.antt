-- ===== src/Frames/States.antt =====
-- The delivery states that a field carries.
use go_amqp.Base.{
  ℕ, suc, ◌^◌, ◌<◌, ◌≡◌, refl, ◌∙◌, Bool, Bool-cases, inl, inr, true, false, not, none, some, List,
  [], ◌∷◌, ◌++◌, ltb, ◌==◌, length, arith, le→ltb,
}
use go_amqp.Buffer.{
  len, Buffer, Step, ok, ◌>>=◌, return, new, unread, fail, invalid_type, append, append_byte,
  append_uint32,
}
use go_amqp.Buffer.Laws.{IsValid, new-IsValid, unread-new, unread-append}
use go_amqp.Buffer.Reads.{Reads, Reads-return, Reads-bind}
use go_amqp.Encoding.Codes.{
  code_small_ulong, code_state_accepted, code_state_rejected, code_state_released,
  code_state_modified,
}
use go_amqp.Encoding.Write.{write_bool, write_descriptor, write_null}
use go_amqp.Encoding.Read.{read_bool}
use go_amqp.Encoding.Composite.{
  MarshalField, UnmarshalField, marshal_composite, unmarshal_composite, set_count, put_at,
}
use go_amqp.Encoding.Composite.Fields.{Writes, Trips, trips-Body, done, next, omitted, IsValue}
use go_amqp.Encoding.Composite.RoundTrip.{
  form_composite, marshal_composite-Writes, unmarshal_composite_form, body_length, nothing_written,
}
use go_amqp.Encoding.Any.{
  count_pairs, Value, Pairs, no_pairs, State, accepted, released, rejected_plain, modified,
  received, rejected,
}
use go_amqp.Encoding.Any.Write.{write_state, unless, always, write_map}
use go_amqp.Encoding.Any.Read.{
  read_annotations, read_error, optional, read_as, read_accepted, read_released, read_rejected,
  read_modified, read_state_of, read_delivery_state, peek_message_type,
}
use go_amqp.Frames.Carried.{Carried, flag-Trip}

form_composite-IsValue : (code n : ℕ) (body : List ℕ) → IsValue (form_composite code n body)
form_composite-IsValue code n body = elim (Bool-cases (n == 0)) [
  | inl e ↦ rw e (λ p. omega arith)
  | inr e ↦ rw e (λ p. omega arith)
]

-- The form of a composite that is written, and read back.
pub record Formed {S : Type 0} (code : ℕ) (ms : List MarshalField) (us : List (UnmarshalField S))
    (s s' : S) : Type 0 where
  pub count : ℕ
  pub body : List ℕ
  pub written : Writes (marshal_composite code ms) (form_composite code count body)
  pub back :
      (rest : List ℕ) (b : Buffer)
      → unread b ≡ form_composite code count body ++ rest
      → IsValid b
      → Reads (unmarshal_composite code us s) b s' rest

composite-Formed :
    {S : Type 0} (code : ℕ) (ms : List MarshalField) (us : List (UnmarshalField S)) (s s' : S)
    → Trips ms us s s'
    → code < 256
    → length us < 256
    → length (unread (marshal_composite code ms (new [])).1) < 2 ^ 32
    → Formed code ms us s s'
composite-Formed code ms us s s' ts h few fits =
    let k = trips-Body ts in
    let form = form_composite code (set_count ms) k.body in
    let ran : marshal_composite code ms (new []) ≡ (ok tt, append form (new [])) =
      marshal_composite-Writes code ms k.body k.written (new []) (new-IsValid []) in
    let all : unread (append form (new [])) ≡ form =
      unread-append (new []) form (new-IsValid []) ∙ rw (unread-new []) refl in
    record {
      count = set_count ms;
      body = k.body;
      written = marshal_composite-Writes code ms k.body k.written;
      back = λ rest b u v.
          unmarshal_composite_form code ms us s s' k rest h few
            (body_length code (set_count ms) k.body (nothing_written ms us s s' k)
              (rw all at (rw ran at fits)))
            b u v;
    }

-- The field of a delivery state takes the code from the third byte.
state_starts :
    (any : Step Value) (code n : ℕ) (body rest : List ℕ) (b : Buffer) (s : State)
    → unread b ≡ form_composite code n body ++ rest
    → Reads (read_state_of any code (fail (invalid_type code))) b s rest
    → Reads (read_delivery_state any) b s rest
unfolding read_delivery_state peek_message_type
state_starts any code n body rest b s u r = elim (Bool-cases (n == 0)) [
  | inl e ↦ at_front any code _ rest b s (rw e at u) r
  | inr e ↦ at_front any code _ rest b s (rw e at u) r
]
  where
    at_front :
        (any : Step Value) (code : ℕ) (tail rest : List ℕ) (b : Buffer) (s : State)
        → unread b ≡ 0 ∷ code_small_ulong ∷ code ∷ tail
        → Reads (read_state_of any code (fail (invalid_type code))) b s rest
        → Reads (read_delivery_state any) b s rest
    at_front any code tail rest b s u r =
        let long : ltb (suc (suc (suc (length tail)))) 3 ≡ false = le→ltb _ _ (omega arith) in
        record { after = r.after; ran = rw (u, long) r.ran; left = r.left; valid = r.valid }

-- A state without an error, positions or annotations.
abbrev pub IsSimple : State → Type 0
IsSimple accepted = Unit {0}
IsSimple released = Unit {0}
IsSimple rejected_plain = Unit {0}
IsSimple (modified failed undeliverable annotations) = annotations ≡ no_pairs
IsSimple s = ⊥

state-Formed :
    {S : Type 0} (any : Step Value) (code : ℕ) (ms : List MarshalField)
    (us : List (UnmarshalField S)) (s s' : S) (st : State)
    → Formed code ms us s s'
    → ((rest : List ℕ) (b : Buffer)
        → Reads (unmarshal_composite code us s) b s' rest
        → Reads (read_state_of any code (fail (invalid_type code))) b st rest)
    → Carried (marshal_composite code ms) (read_delivery_state any) st
state-Formed any code ms us s s' st k d = record {
  bytes = form_composite code k.count k.body;
  written = k.written;
  value = form_composite-IsValue code k.count k.body;
  back =
      λ rest b u v. state_starts any code k.count k.body rest b st u (d rest b (k.back rest b u v));
}

abbrev modified_marshal_fields : Bool → Bool → List MarshalField
modified_marshal_fields failed undeliverable =
    unless (not failed) (always (write_bool failed))
    ∷ unless (not undeliverable) (always (write_bool undeliverable))
    ∷ unless true (write_map 0 (return tt))
    ∷ []

-- What a modified state is read into.
abbrev Modified : Type 0
Modified = Bool × (Bool × Pairs)

abbrev modified_fields : Step Value → List (UnmarshalField Modified)
modified_fields any =
    optional (λ s. do b ← read_bool; return (b, s.1))
    ∷ optional (λ s. do b ← read_bool; return (s.0, (b, s.1.1)))
    ∷ optional (λ s. do a ← read_annotations any; return (s.0, (s.1.0, a)))
    ∷ []

modified_trips :
    (any : Step Value) (failed undeliverable : Bool)
    → Trips
        (modified_marshal_fields failed undeliverable)
        (modified_fields any)
        (false, (false, no_pairs))
        (failed, (undeliverable, no_pairs))
modified_trips any failed undeliverable =
    next (flag-Trip _ (λ (s : Modified) a. (a, s.1)) failed refl) (
      next (flag-Trip _ (λ (s : Modified) a. (s.0, (a, s.1.1))) undeliverable refl)
        (next (omitted refl refl) done))

modified_short :
    (failed undeliverable : Bool)
    → length (
        unread
          (marshal_composite code_state_modified
            (modified_marshal_fields failed undeliverable)
            (new [])).1)
      < 2 ^ 32
unfolding marshal_composite append append_byte append_uint32 write_descriptor write_null write_bool
    put_at unread new len
modified_short true true = omega arith
modified_short true false = omega arith
modified_short false true = omega arith
modified_short false false = omega arith

modified-Carried :
    (any : Step Value) (failed undeliverable : Bool)
    → Carried
        (write_state (modified failed undeliverable no_pairs))
        (read_delivery_state any)
        (modified failed undeliverable no_pairs)
unfolding write_state read_modified count_pairs
modified-Carried any failed undeliverable =
    state-Formed any code_state_modified (modified_marshal_fields failed undeliverable)
      (modified_fields any) (false, (false, no_pairs)) (failed, (undeliverable, no_pairs))
      (modified failed undeliverable no_pairs)
      (composite-Formed _ _ _ _ _ (modified_trips any failed undeliverable) (omega arith)
        (omega arith) (modified_short failed undeliverable))
      (λ rest b r. Reads-bind _ _ b _ _ rest rest r (λ c x y. Reads-return _ c rest x y))

-- The states that the receiver settles with, but for a rejection with an error, are read back.
pub state-Carried :
    (any : Step Value) (s : State)
    → IsSimple s
    → Carried (write_state s) (read_delivery_state any) s
unfolding write_state marshal_composite append unread new read_accepted read_released read_rejected
state-Carried any accepted h =
    state-Formed any code_state_accepted [] [] accepted accepted accepted
      (composite-Formed _ [] [] accepted accepted done (omega arith) (omega arith) (omega arith))
      (λ rest b r. r)
state-Carried any released h =
    state-Formed any code_state_released [] [] released released released
      (composite-Formed _ [] [] released released done (omega arith) (omega arith) (omega arith))
      (λ rest b r. r)
state-Carried any rejected_plain h =
    let ms = unless true (return tt) ∷ [] in
    let us = optional (λ s. read_as some (read_error any)) ∷ [] in
    state-Formed any code_state_rejected ms us none none rejected_plain
      (composite-Formed _ ms us none none (next (omitted refl refl) done) (omega arith)
        (omega arith) (omega arith))
      (λ rest b r.
        Reads-bind _ _ b none rejected_plain rest rest r
          (λ c x y. Reads-return rejected_plain c rest x y))
state-Carried any (modified failed undeliverable annotations) h =
    rw h (modified-Carried any failed undeliverable)
state-Carried any (received number offset) h = elim h [ ]
state-Carried any (rejected e) h = elim h [ ]
