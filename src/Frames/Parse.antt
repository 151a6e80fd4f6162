-- ===== src/Frames/Parse.antt =====
-- internal/frames/parsing.go: `ParseBody`. The body is unmarshaled with `ReadAny` on the given fuel.
use go_amqp.Base.{ℕ, ◌||◌, not, List, [], ◌∷◌, ltb, ◌==◌, if◌then◌else◌, length, get_or}
use go_amqp.Buffer.{Step, invalid_body, unknown_performative, ◌>>=◌, fail}
use go_amqp.Encoding.Codes.{
  code_small_ulong, code_open, code_begin, code_attach, code_flow, code_transfer, code_disposition,
  code_detach, code_end, code_close, code_sasl_mechanism, code_sasl_challenge, code_sasl_outcome,
}
use go_amqp.Encoding.Any.{Value}
use go_amqp.Encoding.Any.Read.{unread_bytes, read_as}
use go_amqp.Encoding.Any.Decode.{switch, read_any}
use go_amqp.Frames.Bodies.{
  PerformOpen, PerformBegin, PerformAttach, PerformDetach, PerformEnd, PerformClose, unmarshal_open,
  unmarshal_begin, unmarshal_attach, unmarshal_detach, unmarshal_end, unmarshal_close,
}
use go_amqp.Frames.Flows.{
  PerformFlow, PerformTransfer, PerformDisposition, unmarshal_flow, unmarshal_transfer,
  unmarshal_disposition,
}
use go_amqp.Frames.Sasl.{
  SaslMechanisms, SaslChallenge, SaslOutcome, unmarshal_sasl_mechanisms, unmarshal_sasl_challenge,
  unmarshal_sasl_outcome,
}

pub data ParsedBody : Type 0 where
  perform_open : PerformOpen → ParsedBody
  perform_begin : PerformBegin → ParsedBody
  perform_attach : PerformAttach → ParsedBody
  perform_flow : PerformFlow → ParsedBody
  perform_transfer : PerformTransfer → ParsedBody
  perform_disposition : PerformDisposition → ParsedBody
  perform_detach : PerformDetach → ParsedBody
  perform_end : PerformEnd → ParsedBody
  perform_close : PerformClose → ParsedBody
  sasl_mechanisms : SaslMechanisms → ParsedBody
  sasl_challenge : SaslChallenge → ParsedBody
  sasl_outcome : SaslOutcome → ParsedBody

abbrev pub body_cases : Step Value → List (List ℕ × Step ParsedBody)
body_cases any =
    ((code_open ∷ []), read_as perform_open (unmarshal_open any))
    ∷ ((code_begin ∷ []), read_as perform_begin (unmarshal_begin any))
    ∷ ((code_attach ∷ []), read_as perform_attach (unmarshal_attach any))
    ∷ ((code_flow ∷ []), read_as perform_flow (unmarshal_flow any))
    ∷ ((code_transfer ∷ []), read_as perform_transfer (unmarshal_transfer any))
    ∷ ((code_disposition ∷ []), read_as perform_disposition (unmarshal_disposition any))
    ∷ ((code_detach ∷ []), read_as perform_detach (unmarshal_detach any))
    ∷ ((code_end ∷ []), read_as perform_end (unmarshal_end any))
    ∷ ((code_close ∷ []), read_as perform_close (unmarshal_close any))
    ∷ ((code_sasl_mechanism ∷ []), read_as sasl_mechanisms unmarshal_sasl_mechanisms)
    ∷ ((code_sasl_challenge ∷ []), read_as sasl_challenge unmarshal_sasl_challenge)
    ∷ ((code_sasl_outcome ∷ []), read_as sasl_outcome unmarshal_sasl_outcome)
    ∷ []

unfoldable pub parse_body : ℕ → Step ParsedBody
parse_body fuel = do
  payload ← unread_bytes
  if ltb (length payload) 3
        || not (get_or payload 0 0 == 0)
        || not (get_or payload 1 0 == code_small_ulong)
      then fail invalid_body
      else switch (body_cases (read_any fuel)) (get_or payload 2 0)
          (fail (unknown_performative (get_or payload 2 0)))
