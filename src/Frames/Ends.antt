-- ===== src/Frames/Ends.antt =====
-- Whether `ParseBody` comes to an end.
use go_amqp.Base.{
  ℕ, suc, ◌<◌, ◌≤◌, ◌≡◌, refl, Bool-cases, inl, inr, false, List, ◌||◌, not, ltb, ◌==◌, length,
  get_or, arith,
}
use go_amqp.Buffer.{Buffer, Step, ok, len, fail, invalid_body, invalid_type, unknown_performative}
use go_amqp.Encoding.Codes.{code_small_ulong}
use go_amqp.Encoding.Any.{Value, null, state, string, symbol, described}
use go_amqp.Encoding.Any.Read.{
  read_as, peek_message_type, rounds, read_described, read_state_of, read_delivery_state,
}
use go_amqp.Encoding.Any.Decode.{read_any}
use go_amqp.Encoding.Any.Fuel.{
  ran_out, Fine, Fine-return, Fine-fail, Fine-if, Fine-bind, Takes-bind, Fine-lift,
  Fine-unread_bytes, fine_rules,
}
use go_amqp.Encoding.Any.Readers.{
  Fine-read_ubyte, Fine-read_ushort, Fine-read_uint32, Fine-read_ulong, Fine-read_bool,
  Fine-read_string, Fine-read_binary, Fine-read_array_symbol, Fine-read_uint,
}
use go_amqp.Encoding.Any.Enough.{
  AllFine, Fine-switch, Fine-unmarshal, Takes-read_map_header, Fine-unmarshal_composite,
  Fine-read_as, Fine-read_pairs, Fine-read_map_symbol, Fine-read_described, Fine-mono,
  Fine-read_error, Fine-read_rejected, Fine-read_modified, Fine-read_received, Fine-read_accepted,
  Fine-read_released,
}
use go_amqp.Encoding.Any.Ends.{Fine-read_any, quiet_if}
use go_amqp.Encoding.Read.{read_string, peek_type}
use go_amqp.Buffer.{peek_byte, beyond}
use go_amqp.Frames.Fields.{
  read_multi_symbol, read_milliseconds, read_expiry_policy, read_unsettled, read_filter,
}
use go_amqp.Frames.Terminus.{unmarshal_source, unmarshal_target}
use go_amqp.Frames.Bodies.{
  unmarshal_open, unmarshal_begin, unmarshal_attach, unmarshal_detach, unmarshal_end,
  unmarshal_close,
}
use go_amqp.Frames.Flows.{unmarshal_flow, unmarshal_transfer, unmarshal_disposition}
use go_amqp.Frames.Sasl.{
  unmarshal_sasl_mechanisms, unmarshal_sasl_challenge, unmarshal_sasl_outcome,
}
use go_amqp.Frames.Parse.{
  body_cases, parse_body, perform_open, perform_begin, perform_attach, perform_flow,
  perform_transfer, perform_disposition, perform_detach, perform_end, perform_close,
  sasl_mechanisms, sasl_challenge, sasl_outcome,
}

Fine-peek_type : (n : ℕ) → Fine n peek_type
unfolding peek_type peek_byte
Fine-peek_type n = record {
  at = λ b h. elim (Bool-cases (beyond b 1)) [
    | inl e ↦ rw e (refl, omega arith)
    | inr e ↦ rw e (refl, omega arith)
  ];
}

Fine-read_multi_symbol : (n : ℕ) (ms : List (List ℕ)) → Fine n (read_multi_symbol ms)
unfolding read_multi_symbol
Fine-read_multi_symbol n ms =
    search
      (
        fine_rules, Fine-peek_type, Fine-read_as, Fine-read_string, Fine-unmarshal,
        Fine-read_array_symbol,
      )
      depth 12

Fine-read_milliseconds : (n : ℕ) → Fine n read_milliseconds
unfolding read_milliseconds
Fine-read_milliseconds n = search (fine_rules, Fine-read_uint)

Fine-read_expiry_policy : (n : ℕ) (e : List ℕ) → Fine n (read_expiry_policy e)
unfolding read_expiry_policy
Fine-read_expiry_policy n e = search (fine_rules, Fine-unmarshal, Fine-read_string) depth 12

peek_message_type_quiet : (buf : List ℕ) → ran_out (peek_message_type buf) ≡ false
unfolding peek_message_type
peek_message_type_quiet buf = search (quiet_if) depth 12

ruleset reader_rules = (
  fine_rules, Fine-read_ubyte, Fine-read_ushort, Fine-read_uint32, Fine-read_ulong, Fine-read_bool,
  Fine-read_string, Fine-read_binary, Fine-read_as, Fine-read_multi_symbol, Fine-read_milliseconds,
  Fine-read_expiry_policy,
)

module _ (n : ℕ) (any : Step Value) (f : Fine n any) where
  Fine-read_delivery_state : Fine (suc n) (read_delivery_state any)
  unfolding read_delivery_state
  Fine-read_delivery_state =
      let a = Fine-read_accepted n in
      let b = Fine-read_modified n any f in
      let c = Fine-read_received n in
      let d = Fine-read_rejected n any f in
      let e = Fine-read_released n in
      Fine-bind (suc n) _ _ (Fine-unread_bytes (suc n)) (λ buf.
        Fine-bind (suc n) _ (λ p. read_state_of any p.0 (fail (invalid_type p.0)))
          (Fine-lift (suc n) (peek_message_type buf) (peek_message_type_quiet buf))
          (λ p. search fine_rules depth 12))

  inner : {A : Type 0} (m : Step A) → Fine (suc n) m → Fine n m
  inner m g = Fine-mono m n (suc n) (omega arith) g

  Fine-read_unsettled : Fine (suc n) (read_unsettled any)
  unfolding read_unsettled
  Fine-read_unsettled =
      let st = Fine-read_as n state _ (inner _ Fine-read_delivery_state) in
      Takes-bind n _ _ Takes-read_map_header (λ count.
        Fine-read_pairs n _
          (Fine-unmarshal n (λ old. read_as state (read_delivery_state any)) null st) (λ k. ok k) _
          (rounds count) (λ v. refl) (Fine-read_as n string read_string (Fine-read_string n)))

  Fine-read_filter : Fine (suc n) (read_filter any)
  unfolding read_filter
  Fine-read_filter =
      let d = inner _ (Fine-read_described n any f) in
      Takes-bind n _ _ Takes-read_map_header (λ count.
        Fine-read_pairs n _ (Fine-unmarshal n (λ old. read_described any) (described null null) d)
          (λ k. ok k) _ (rounds count) (λ v. refl)
          (Fine-read_as n symbol read_string (Fine-read_string n)))

  Fine-unmarshal_source : Fine (suc n) (unmarshal_source any)
  unfolding unmarshal_source
  Fine-unmarshal_source =
      let properties = inner _ (Fine-read_map_symbol n any f) in
      let filter = inner _ (Fine-read_filter) in
      Fine-unmarshal_composite n _ _ _ (search reader_rules depth 14)

  Fine-unmarshal_target : Fine (suc n) (unmarshal_target any)
  unfolding unmarshal_target
  Fine-unmarshal_target =
      let properties = inner _ (Fine-read_map_symbol n any f) in
      Fine-unmarshal_composite n _ _ _ (search reader_rules depth 14)

  Fine-unmarshal_open : Fine (suc n) (unmarshal_open any)
  unfolding unmarshal_open
  Fine-unmarshal_open =
      let properties = inner _ (Fine-read_map_symbol n any f) in
      Fine-unmarshal_composite n _ _ _ (search reader_rules depth 14)

  Fine-unmarshal_begin : Fine (suc n) (unmarshal_begin any)
  unfolding unmarshal_begin
  Fine-unmarshal_begin =
      let properties = inner _ (Fine-read_map_symbol n any f) in
      Fine-unmarshal_composite n _ _ _ (search reader_rules depth 14)

  Fine-unmarshal_attach : Fine (suc n) (unmarshal_attach any)
  unfolding unmarshal_attach
  Fine-unmarshal_attach =
      let properties = inner _ (Fine-read_map_symbol n any f) in
      let source = inner _ (Fine-unmarshal_source) in
      let target = inner _ (Fine-unmarshal_target) in
      let unsettled = inner _ (Fine-read_unsettled) in
      Fine-unmarshal_composite n _ _ _ (search reader_rules depth 14)

  Fine-unmarshal_flow : Fine (suc n) (unmarshal_flow any)
  unfolding unmarshal_flow
  Fine-unmarshal_flow =
      let properties = inner _ (Fine-read_map_symbol n any f) in
      Fine-unmarshal_composite n _ _ _ (search reader_rules depth 14)

  Fine-unmarshal_disposition : Fine (suc n) (unmarshal_disposition any)
  unfolding unmarshal_disposition
  Fine-unmarshal_disposition =
      let st = inner _ (Fine-read_delivery_state) in
      Fine-unmarshal_composite n _ _ _ (search reader_rules depth 14)

  Fine-unmarshal_detach : Fine (suc n) (unmarshal_detach any)
  unfolding unmarshal_detach
  Fine-unmarshal_detach =
      let failure = inner _ (Fine-read_error n any f) in
      Fine-unmarshal_composite n _ _ _ (search reader_rules depth 14)

  Fine-unmarshal_end : Fine (suc n) (unmarshal_end any)
  unfolding unmarshal_end
  Fine-unmarshal_end =
      let failure = inner _ (Fine-read_error n any f) in
      Fine-unmarshal_composite n _ _ _ (search reader_rules depth 14)

  Fine-unmarshal_close : Fine (suc n) (unmarshal_close any)
  unfolding unmarshal_close
  Fine-unmarshal_close =
      let failure = inner _ (Fine-read_error n any f) in
      Fine-unmarshal_composite n _ _ _ (search reader_rules depth 14)

  Fine-unmarshal_transfer : Fine (suc n) (unmarshal_transfer any)
  unfolding unmarshal_transfer
  Fine-unmarshal_transfer =
      let st = inner _ (Fine-read_delivery_state) in
      Fine-bind (suc n) _ _ (Fine-unmarshal_composite n _ _ _ (search reader_rules depth 14)) (λ t.
        Fine-bind (suc n) _ _ (Fine-unread_bytes (suc n))
          (λ buf. Fine-return (suc n) (record t { payload = buf })))

Fine-unmarshal_sasl_mechanisms : (n : ℕ) → Fine (suc n) unmarshal_sasl_mechanisms
unfolding unmarshal_sasl_mechanisms
Fine-unmarshal_sasl_mechanisms n = Fine-unmarshal_composite n _ _ _ (search reader_rules depth 14)

Fine-unmarshal_sasl_challenge : (n : ℕ) → Fine (suc n) unmarshal_sasl_challenge
unfolding unmarshal_sasl_challenge
Fine-unmarshal_sasl_challenge n = Fine-unmarshal_composite n _ _ _ (search reader_rules depth 14)

Fine-unmarshal_sasl_outcome : (n : ℕ) → Fine (suc n) unmarshal_sasl_outcome
unfolding unmarshal_sasl_outcome
Fine-unmarshal_sasl_outcome n = Fine-unmarshal_composite n _ _ _ (search reader_rules depth 14)

body_cases-Fine : (n : ℕ) (any : Step Value) → Fine n any → AllFine (suc n) (body_cases any)
body_cases-Fine n any f = (
  Fine-read_as (suc n) perform_open (unmarshal_open any) (Fine-unmarshal_open n any f),
  (
    Fine-read_as (suc n) perform_begin (unmarshal_begin any) (Fine-unmarshal_begin n any f),
    (
      Fine-read_as (suc n) perform_attach (unmarshal_attach any) (Fine-unmarshal_attach n any f),
      (
        Fine-read_as (suc n) perform_flow (unmarshal_flow any) (Fine-unmarshal_flow n any f),
        (
          Fine-read_as (suc n) perform_transfer (unmarshal_transfer any)
              (Fine-unmarshal_transfer n any f),
          (
            Fine-read_as (suc n) perform_disposition (unmarshal_disposition any)
                (Fine-unmarshal_disposition n any f),
            (
              Fine-read_as (suc n) perform_detach (unmarshal_detach any)
                  (Fine-unmarshal_detach n any f),
              (
                Fine-read_as (suc n) perform_end (unmarshal_end any) (Fine-unmarshal_end n any f),
                (
                  Fine-read_as (suc n) perform_close (unmarshal_close any)
                      (Fine-unmarshal_close n any f),
                  (
                    Fine-read_as (suc n) sasl_mechanisms unmarshal_sasl_mechanisms
                        (Fine-unmarshal_sasl_mechanisms n),
                    (
                      Fine-read_as (suc n) sasl_challenge unmarshal_sasl_challenge
                          (Fine-unmarshal_sasl_challenge n),
                      (
                        Fine-read_as (suc n) sasl_outcome unmarshal_sasl_outcome
                            (Fine-unmarshal_sasl_outcome n),
                        tt,
                      ),
                    ),
                  ),
                ),
              ),
            ),
          ),
        ),
      ),
    ),
  ),
)

Fine-parse_body : (fuel n : ℕ) → n < fuel → Fine (suc n) (parse_body fuel)
unfolding parse_body
Fine-parse_body fuel n h =
    let cases = body_cases-Fine n (read_any fuel) (Fine-read_any fuel n h) in
    Fine-bind (suc n) _ _ (Fine-unread_bytes (suc n)) (λ payload.
      Fine-if (suc n)
        (ltb (length payload) 3
          || not (get_or payload 0 0 == 0)
          || not (get_or payload 1 0 == code_small_ulong))
        _ _ (Fine-fail (suc n) invalid_body refl)
        (Fine-switch (suc n) (body_cases (read_any fuel)) (get_or payload 2 0) _ cases
          (Fine-fail (suc n) (unknown_performative (get_or payload 2 0)) refl)))

-- `ParseBody` ends on any buffer: with more fuel for `ReadAny` than there are unread bytes, the model
-- returns what a Go run does, a frame, an error of the code's or a panic, and not its own error for
-- fuel; and there are then no more unread bytes than before.
pub parse_body-ends :
    (fuel : ℕ) (b : Buffer)
    → len b < fuel
    → (ran_out (parse_body fuel b).0 ≡ false) × (len (parse_body fuel b).1 ≤ len b)
parse_body-ends fuel b h = (Fine-parse_body fuel (len b) h).at b (omega arith)
