-- ===== src/Frames/RoundTrip.antt =====
-- The bodies that the code marshals, and what `ParseBody` makes of them.
use go_amqp.Base.{
  ℕ, suc, ◌-◌, ◌^◌, ◌<◌, ◌≡◌, refl, sym, ap, ◌∙◌, Bool-cases, inl, inr, false, Option, none, some,
  List, [], ◌∷◌, ◌++◌, ltb, ◌==◌, length, arith, le→ltb,
}
use go_amqp.Buffer.{
  panic, follow, Buffer, Step, Outcome, ok, err, fail, append, unread, unknown_performative,
}
use go_amqp.Buffer.Laws.{IsValid, unread-append, append-IsValid}
use go_amqp.Buffer.Reads.{Reads, Reads-return, Reads-bind}
use go_amqp.Encoding.Codes.{code_small_ulong, code_flow, code_transfer, code_disposition}
use go_amqp.Encoding.Composite.{
  MarshalField, UnmarshalField, marshal_composite, unmarshal_composite, set_count,
}
use go_amqp.Encoding.Composite.Fields.{Trip, Trips, trips-Body, done, next, omitted, present}
use go_amqp.Encoding.Composite.RoundTrip.{
  form_composite, marshal_composite-Writes, unmarshal_composite-marshal_composite,
}
use go_amqp.Encoding.Any.{Value, no_pairs, State}
use go_amqp.Encoding.Write.{write_ubyte, write_binary}
use go_amqp.Encoding.Read.{read_ubyte, read_binary}
use go_amqp.Encoding.Any.Write.{always, unless, write_state}
use go_amqp.Frames.States.{IsSimple, state-Carried}
use go_amqp.Encoding.Any.Read.{read_as, read_delivery_state}
use go_amqp.Frames.Fields.{field_pointer}
use go_amqp.Encoding.Any.Decode.{switch, read_any}
use go_amqp.Frames.Flows.{
  PerformFlow, flow_marshal_fields, flow_fields, empty_flow, marshal_flow, unmarshal_flow,
  PerformTransfer, transfer_marshal_fields, transfer_fields, empty_transfer, marshal_transfer,
  unmarshal_transfer, bytes_of, PerformDisposition, disposition_marshal_fields, disposition_fields,
  empty_disposition, marshal_disposition, unmarshal_disposition,
}
use go_amqp.Frames.Parse.{
  ParsedBody, perform_flow, perform_transfer, perform_disposition, body_cases, parse_body,
}
use go_amqp.Frames.Carried.{
  uint32-Carried, bool-Carried, ubyte-Carried, binary-Carried, Trip-required, Trip-pointer,
  AllCarried, InRange, pointer-Trip, flag-Trip, no_map-Trip,
}

-- `ParseBody` takes the code from the third byte.
starts :
    (fuel code : ℕ) (tail : List ℕ) (b : Buffer) (a : ParsedBody) (left : List ℕ)
    → unread b ≡ 0 ∷ code_small_ulong ∷ code ∷ tail
    → Reads (switch (body_cases (read_any fuel)) code (fail (unknown_performative code))) b a left
    → Reads (parse_body fuel) b a left
unfolding parse_body
starts fuel code tail b a left u r =
    let long : ltb (suc (suc (suc (length tail)))) 3 ≡ false = le→ltb _ _ (omega arith) in
    record { after = r.after; ran = rw (u, long) r.ran; left = r.left; valid = r.valid }

starts_form :
    (fuel code n : ℕ) (body rest : List ℕ) (b : Buffer) (a : ParsedBody) (left : List ℕ)
    → unread b ≡ form_composite code n body ++ rest
    → Reads (switch (body_cases (read_any fuel)) code (fail (unknown_performative code))) b a left
    → Reads (parse_body fuel) b a left
starts_form fuel code n body rest b a left u r = elim (Bool-cases (n == 0)) [
  | inl e ↦ starts fuel code _ b a left (rw e at u) r
  | inr e ↦ starts fuel code _ b a left (rw e at u) r
]

-- A composite whose fields are read back is parsed as what the switch makes of it.
parse_composite :
    {S : Type 0} (fuel code : ℕ) (ms : List MarshalField) (us : List (UnmarshalField S)) (s s' : S)
    (a : ParsedBody) (wr : Buffer) (rest left : List ℕ)
    → Trips ms us s s'
    → code < 256
    → length us < 256
    → IsValid wr
    → unread wr ≡ []
    → length (unread (marshal_composite code ms wr).1) < 2 ^ 32
    → ((b : Buffer)
        → Reads (unmarshal_composite code us s) b s' rest
        → Reads
            (switch (body_cases (read_any fuel)) code (fail (unknown_performative code)))
            b
            a
            left)
    → ((marshal_composite code ms wr).0 ≡ ok tt)
      × Reads (parse_body fuel) (append rest (marshal_composite code ms wr).1) a left
parse_composite fuel code ms us s s' a wr rest left ts h few v u fits d =
    let k = trips-Body ts in
    let form = form_composite code (set_count ms) k.body in
    let ran : marshal_composite code ms wr ≡ (ok tt, append form wr) =
      marshal_composite-Writes code ms k.body k.written wr v in
    let there : unread (append rest (append form wr)) ≡ form ++ rest =
      unread-append (append form wr) rest (append-IsValid wr form v)
      ∙ ap (λ (xs : List ℕ). xs ++ rest) (unread-append wr form v ∙ rw u refl) in
    let p = unmarshal_composite-marshal_composite code ms us s s' wr rest ts h few v u fits in
    (
      p.0,
      starts_form fuel code (set_count ms) k.body rest _ a left
          (ap (λ (c : Outcome (Unit {0}) × Buffer). unread (append rest c.1)) ran ∙ there)
          (d _ p.1),
    )

-- A flow whose numbers are uint32s and that has no properties.
pub record IsFlow (f : PerformFlow) : Type 0 where
  pub incoming_id : InRange (2 ^ 32) f.next_incoming_id
  pub windows :
      (f.incoming_window < 2 ^ 32) × ((f.next_outgoing_id < 2 ^ 32) × (f.outgoing_window < 2 ^ 32))
  pub link : InRange (2 ^ 32) f.handle × InRange (2 ^ 32) f.delivery_count
  pub credit : InRange (2 ^ 32) f.link_credit × InRange (2 ^ 32) f.available
  pub properties : f.properties ≡ no_pairs

pub flow_trips :
    (any : Step Value) (f : PerformFlow)
    → IsFlow f
    → Trips (flow_marshal_fields f) (flow_fields any) empty_flow f
flow_trips any f h =
    next
      (pointer-Trip _ (λ s a. record s { next_incoming_id = a }) f.next_incoming_id h.incoming_id
        refl)
      (next (Trip-required _ _ _ f.incoming_window _ (uint32-Carried f.incoming_window h.windows.0))
        (next
          (Trip-required _ _ _ f.next_outgoing_id _
            (uint32-Carried f.next_outgoing_id h.windows.1.0))
          (next
            (Trip-required _ _ _ f.outgoing_window _
              (uint32-Carried f.outgoing_window h.windows.1.1))
            (next (pointer-Trip _ (λ s a. record s { handle = a }) f.handle h.link.0 refl) (
              next
                (pointer-Trip _ (λ s a. record s { delivery_count = a }) f.delivery_count h.link.1
                  refl)
                (next
                  (pointer-Trip _ (λ s a. record s { link_credit = a }) f.link_credit h.credit.0
                    refl)
                  (next
                    (pointer-Trip _ (λ s a. record s { available = a }) f.available h.credit.1 refl)
                    (next (flag-Trip _ (λ s a. record s { drain = a }) f.drain refl) (
                      next (flag-Trip _ (λ s a. record s { echo = a }) f.echo refl) (
                        next
                          (no_map-Trip _ (λ s a. record s { properties = a }) _ _ f.properties
                            h.properties refl)
                          done))))))))))

-- `ParseBody` gives back every flow without properties, whose numbers are uint32s, that `Marshal` wrote
-- to a buffer that was read to its end, in less than 2 ^ 32 bytes; what follows is left.
pub parse_body-marshal_flow :
    (fuel : ℕ) (f : PerformFlow) (wr : Buffer) (rest : List ℕ)
    → IsFlow f
    → IsValid wr
    → unread wr ≡ []
    → length (unread (marshal_flow f wr).1) < 2 ^ 32
    → ((marshal_flow f wr).0 ≡ ok tt)
      × Reads (parse_body fuel) (append rest (marshal_flow f wr).1) (perform_flow f) rest
unfolding marshal_flow unmarshal_flow
parse_body-marshal_flow fuel f wr rest h v u fits =
    parse_composite fuel code_flow (flow_marshal_fields f) (flow_fields (read_any fuel)) empty_flow
      f (perform_flow f) wr rest rest (flow_trips (read_any fuel) f h) (omega arith) (omega arith) v
      u fits
      (λ b r.
        Reads-bind _ _ b f (perform_flow f) rest rest r
          (λ c x y. Reads-return (perform_flow f) c rest x y))

-- A state, if there is one, is simple.
abbrev pub AllSimple : Option State → Type 0
AllSimple none = Unit {0}
AllSimple (some s) = IsSimple s

states_carried :
    (any : Step Value) (o : Option State)
    → AllSimple o
    → AllCarried write_state (read_delivery_state any) o
states_carried any none h = tt
states_carried any (some s) h = state-Carried any s h

-- A transfer whose numbers are in range, a tag below 4 GiB, and a state that is simple if it has one.
pub record IsTransfer (t : PerformTransfer) : Type 0 where
  pub handle : t.handle < 2 ^ 32
  pub delivery_id : InRange (2 ^ 32) t.delivery_id
  pub tag : length (bytes_of t.delivery_tag) < 2 ^ 32 - 1
  pub format : InRange (2 ^ 32) t.message_format
  pub state : AllSimple t.state

-- What becomes of a tag: `Marshal` leaves an empty one out.
abbrev pub sent_tag : Option (List ℕ) → Option (List ℕ)
sent_tag none = none
sent_tag (some []) = none
sent_tag (some (x ∷ xs)) = some (x ∷ xs)

tag-Trip :
    {S : Type 0} (set : S → Option (List ℕ) → S) (o : Option (List ℕ)) (s : S)
    → length (bytes_of o) < 2 ^ 32 - 1
    → set s none ≡ s
    → Trip
        (unless (length (bytes_of o) == 0) (write_binary (bytes_of o)))
        (field_pointer set read_binary)
        s
        (set s (sent_tag o))
tag-Trip {S} set none s h d = omitted refl (ap (λ (x : S). Outcome.ok x) (sym d))
tag-Trip {S} set (some []) s h d = omitted refl (ap (λ (x : S). Outcome.ok x) (sym d))
tag-Trip {S} set (some (x ∷ xs)) s h d =
    let k = binary-Carried (x ∷ xs) h in
    present k.bytes (ground arith) k.written k.value (λ rest b u v.
      Reads-bind (read_as some read_binary) _ b (some (x ∷ xs)) (set s (some (x ∷ xs))) rest rest
        (Reads-bind read_binary _ b (x ∷ xs) (some (x ∷ xs)) rest rest (k.back rest b u v)
          (λ c q w. Reads-return (some (x ∷ xs)) c rest q w))
        (λ c q w. Reads-return (set s (some (x ∷ xs))) c rest q w))

modes_carried : (o : Option ℕ) → AllCarried (λ n. always (write_ubyte n)) read_ubyte o
modes_carried none = tt
modes_carried (some n) = ubyte-Carried n

-- The transfer that comes back.
abbrev pub received : PerformTransfer → PerformTransfer
received t = record t { delivery_tag = sent_tag t.delivery_tag }

-- The struct before its payload is set.
abbrev headless : PerformTransfer → PerformTransfer
headless t = record (received t) { payload = [] }

transfer_trips :
    (any : Step Value) (t : PerformTransfer)
    → IsTransfer t
    → Trips (transfer_marshal_fields t) (transfer_fields any) empty_transfer (headless t)
transfer_trips any t h = next (Trip-required _ _ _ t.handle _ (uint32-Carried t.handle h.handle)) (
    next (pointer-Trip _ (λ s a. record s { delivery_id = a }) t.delivery_id h.delivery_id refl) (
      next
        (tag-Trip (λ (s : PerformTransfer) a. record s { delivery_tag = a }) t.delivery_tag _ h.tag
          refl)
        (next
          (pointer-Trip _ (λ s a. record s { message_format = a }) t.message_format h.format refl)
          (next (flag-Trip _ (λ s a. record s { settled = a }) t.settled refl) (
            next (flag-Trip _ (λ s a. record s { more = a }) t.more refl) (
              next
                (Trip-pointer (λ (s : PerformTransfer) a. record s { receiver_settle_mode = a })
                  (λ n. always (write_ubyte n)) read_ubyte t.receiver_settle_mode _
                  (modes_carried t.receiver_settle_mode) refl)
                (next
                  (Trip-pointer (λ (s : PerformTransfer) a. record s { state = a }) write_state
                    (read_delivery_state any) t.state _ (states_carried any t.state h.state) refl)
                  (next (flag-Trip _ (λ s a. record s { resume = a }) t.resume refl) (
                    next (flag-Trip _ (λ s a. record s { aborted = a }) t.aborted refl) (
                      next (flag-Trip _ (λ s a. record s { batchable = a }) t.batchable refl)
                        done))))))))))

transfer_read :
    (fuel : ℕ) (t : PerformTransfer) (b : Buffer)
    → Reads
        (unmarshal_composite code_transfer (transfer_fields (read_any fuel)) empty_transfer)
        b
        (headless t)
        t.payload
    → Reads (unmarshal_transfer (read_any fuel)) b (received t) t.payload
unfolding unmarshal_transfer
transfer_read fuel t b r =
    Reads-bind _ _ b (headless t) (received t) t.payload t.payload r
      (λ c x y. record { after = c; ran = rw x refl; left = x; valid = y })

-- `ParseBody` gives back every transfer that `Marshal` wrote to a buffer that was read to its end, its
-- payload included, where the numbers are in range, the tag is below 4 GiB, the state is none or simple,
-- and the part before the payload leaves less than 2 ^ 32 bytes unread; only a tag that is empty and not
-- nil comes back as nil. The payload is not taken off the buffer.
pub parse_body-marshal_transfer :
    (fuel : ℕ) (t : PerformTransfer) (wr : Buffer)
    → IsTransfer t
    → IsValid wr
    → unread wr ≡ []
    → length (unread (marshal_composite code_transfer (transfer_marshal_fields t) wr).1) < 2 ^ 32
    → ((marshal_transfer t wr).0 ≡ ok tt)
      × Reads (parse_body fuel) (marshal_transfer t wr).1 (perform_transfer (received t)) t.payload
unfolding marshal_transfer
parse_body-marshal_transfer fuel t wr h v u fits =
    let p =
      parse_composite fuel code_transfer (transfer_marshal_fields t)
        (transfer_fields (read_any fuel)) empty_transfer (headless t)
        (perform_transfer (received t)) wr t.payload t.payload (transfer_trips (read_any fuel) t h)
        (omega arith) (omega arith) v u fits
        (λ b r.
          Reads-bind _ _ b (received t) (perform_transfer (received t)) t.payload t.payload
            (transfer_read fuel t b r)
            (λ c x y. Reads-return (perform_transfer (received t)) c t.payload x y)) in
    after_composite fuel t (marshal_composite code_transfer (transfer_marshal_fields t) wr) p
  where
    after_composite :
        (fuel : ℕ) (t : PerformTransfer) (o : Outcome (Unit {0}) × Buffer)
        → (o.0 ≡ ok tt)
          × Reads (parse_body fuel) (append t.payload o.1) (perform_transfer (received t)) t.payload
        → ((follow o (λ x. always (append t.payload))).0 ≡ ok tt)
          × Reads
              (parse_body fuel)
              (follow o (λ x. always (append t.payload))).1
              (perform_transfer (received t))
              t.payload
    after_composite fuel t (ok tt, b) p = (refl, p.1)
    after_composite fuel t (err e, b) p = cc p.0
    after_composite fuel t (panic, b) p = cc p.0

-- A disposition whose numbers are uint32s, and whose state is simple if it has one.
pub record IsDisposition (d : PerformDisposition) : Type 0 where
  pub first : d.first < 2 ^ 32
  pub last : InRange (2 ^ 32) d.last
  pub state : AllSimple d.state

pub disposition_trips :
    (any : Step Value) (d : PerformDisposition)
    → IsDisposition d
    → Trips (disposition_marshal_fields d) (disposition_fields any) empty_disposition d
disposition_trips any d h = next (Trip-required _ _ _ d.role _ (bool-Carried d.role)) (
    next (Trip-required _ _ _ d.first _ (uint32-Carried d.first h.first)) (
      next (pointer-Trip _ (λ s a. record s { last = a }) d.last h.last refl) (
        next (flag-Trip _ (λ s a. record s { settled = a }) d.settled refl) (
          next
            (Trip-pointer (λ (s : PerformDisposition) a. record s { state = a }) write_state
              (read_delivery_state any) d.state _ (states_carried any d.state h.state) refl)
            (next (flag-Trip _ (λ s a. record s { batchable = a }) d.batchable refl) done)))))

-- `ParseBody` gives back every disposition that `Marshal` wrote to a buffer that was read to its end,
-- where its numbers are uint32s, its state is none or simple, and it takes less than 2 ^ 32 bytes; what
-- follows is left.
pub parse_body-marshal_disposition :
    (fuel : ℕ) (d : PerformDisposition) (wr : Buffer) (rest : List ℕ)
    → IsDisposition d
    → IsValid wr
    → unread wr ≡ []
    → length (unread (marshal_disposition d wr).1) < 2 ^ 32
    → ((marshal_disposition d wr).0 ≡ ok tt)
      × Reads
          (parse_body fuel)
          (append rest (marshal_disposition d wr).1)
          (perform_disposition d)
          rest
unfolding marshal_disposition unmarshal_disposition
parse_body-marshal_disposition fuel d wr rest h v u fits =
    parse_composite fuel code_disposition (disposition_marshal_fields d)
      (disposition_fields (read_any fuel)) empty_disposition d (perform_disposition d) wr rest rest
      (disposition_trips (read_any fuel) d h) (omega arith) (omega arith) v u fits
      (λ b r.
        Reads-bind _ _ b d (perform_disposition d) rest rest r
          (λ c x y. Reads-return (perform_disposition d) c rest x y))
