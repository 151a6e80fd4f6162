-- ===== src/Frames/Sasl.antt =====
-- internal/frames/frames.go: the frames of the SASL exchange. A byte slice is its bytes:
-- sasl.go tells nil from empty only of a challenge, which is mandatory, and not nil once it is read.
use go_amqp.Base.{ℕ, List, [], ◌∷◌, ◌==◌, length}
use go_amqp.Buffer.{Step}
use go_amqp.Encoding.Codes.{
  code_sasl_mechanism, code_sasl_init, code_sasl_challenge, code_sasl_response, code_sasl_outcome,
}
use go_amqp.Encoding.Write.{write_string, write_symbol, write_binary, write_ubyte}
use go_amqp.Encoding.Read.{read_string, read_binary, read_ubyte}
use go_amqp.Encoding.Arrays.{write_array_symbol}
use go_amqp.Encoding.Composite.{
  MarshalField, UnmarshalField, marshal_composite, unmarshal_composite,
}
use go_amqp.Encoding.Any.Write.{required, unless, always}
use go_amqp.Encoding.Any.Read.{mandatory}
use go_amqp.Frames.Fields.{into, field, read_multi_symbol}

pub record SaslInit : Type 0 where
  pub mechanism : List ℕ
  pub initial_response : List ℕ
  pub hostname : List ℕ

abbrev pub empty_sasl_init : SaslInit
empty_sasl_init = record { mechanism = []; initial_response = []; hostname = [] }

abbrev pub sasl_init_marshal_fields : SaslInit → List MarshalField
sasl_init_marshal_fields i =
    required (write_symbol i.mechanism)
    ∷ required (write_binary i.initial_response)
    ∷ unless (length i.hostname == 0) (write_string i.hostname)
    ∷ []

abbrev pub sasl_init_fields : List (UnmarshalField SaslInit)
sasl_init_fields =
    mandatory (into (λ s a. record s { mechanism = a }) read_string)
    ∷ field (λ s a. record s { initial_response = a }) read_binary
    ∷ field (λ s a. record s { hostname = a }) read_string
    ∷ []

unfoldable pub marshal_sasl_init : SaslInit → Step (Unit {0})
marshal_sasl_init i = marshal_composite code_sasl_init (sasl_init_marshal_fields i)

unfoldable pub unmarshal_sasl_init : Step SaslInit
unmarshal_sasl_init = unmarshal_composite code_sasl_init (sasl_init_fields) empty_sasl_init

pub record SaslMechanisms : Type 0 where
  pub mechanisms : List (List ℕ)

abbrev pub empty_sasl_mechanisms : SaslMechanisms
empty_sasl_mechanisms = record { mechanisms = [] }

abbrev pub sasl_mechanisms_marshal_fields : SaslMechanisms → List MarshalField
sasl_mechanisms_marshal_fields m = required (always (write_array_symbol m.mechanisms)) ∷ []

abbrev pub sasl_mechanisms_fields : List (UnmarshalField SaslMechanisms)
sasl_mechanisms_fields =
    mandatory (λ s. into (λ s a. record s { mechanisms = a }) (read_multi_symbol s.mechanisms) s)
    ∷ []

unfoldable pub marshal_sasl_mechanisms : SaslMechanisms → Step (Unit {0})
marshal_sasl_mechanisms m = marshal_composite code_sasl_mechanism (sasl_mechanisms_marshal_fields m)

unfoldable pub unmarshal_sasl_mechanisms : Step SaslMechanisms
unmarshal_sasl_mechanisms =
    unmarshal_composite code_sasl_mechanism (sasl_mechanisms_fields) empty_sasl_mechanisms

pub record SaslChallenge : Type 0 where
  pub challenge : List ℕ

abbrev pub empty_sasl_challenge : SaslChallenge
empty_sasl_challenge = record { challenge = [] }

abbrev pub sasl_challenge_marshal_fields : SaslChallenge → List MarshalField
sasl_challenge_marshal_fields c = required (write_binary c.challenge) ∷ []

abbrev pub sasl_challenge_fields : List (UnmarshalField SaslChallenge)
sasl_challenge_fields = mandatory (into (λ s a. record s { challenge = a }) read_binary) ∷ []

unfoldable pub marshal_sasl_challenge : SaslChallenge → Step (Unit {0})
marshal_sasl_challenge c = marshal_composite code_sasl_challenge (sasl_challenge_marshal_fields c)

unfoldable pub unmarshal_sasl_challenge : Step SaslChallenge
unmarshal_sasl_challenge =
    unmarshal_composite code_sasl_challenge (sasl_challenge_fields) empty_sasl_challenge

pub record SaslResponse : Type 0 where
  pub response : List ℕ

abbrev pub empty_sasl_response : SaslResponse
empty_sasl_response = record { response = [] }

abbrev pub sasl_response_marshal_fields : SaslResponse → List MarshalField
sasl_response_marshal_fields r = required (write_binary r.response) ∷ []

abbrev pub sasl_response_fields : List (UnmarshalField SaslResponse)
sasl_response_fields = mandatory (into (λ s a. record s { response = a }) read_binary) ∷ []

unfoldable pub marshal_sasl_response : SaslResponse → Step (Unit {0})
marshal_sasl_response r = marshal_composite code_sasl_response (sasl_response_marshal_fields r)

unfoldable pub unmarshal_sasl_response : Step SaslResponse
unmarshal_sasl_response =
    unmarshal_composite code_sasl_response (sasl_response_fields) empty_sasl_response

pub record SaslOutcome : Type 0 where
  pub code : ℕ
  pub additional_data : List ℕ

abbrev pub empty_sasl_outcome : SaslOutcome
empty_sasl_outcome = record { code = 0; additional_data = [] }

abbrev pub sasl_outcome_marshal_fields : SaslOutcome → List MarshalField
sasl_outcome_marshal_fields o =
    required (always (write_ubyte o.code))
    ∷ unless (length o.additional_data == 0) (write_binary o.additional_data)
    ∷ []

abbrev pub sasl_outcome_fields : List (UnmarshalField SaslOutcome)
sasl_outcome_fields =
    mandatory (into (λ s a. record s { code = a }) read_ubyte)
    ∷ field (λ s a. record s { additional_data = a }) read_binary
    ∷ []

unfoldable pub marshal_sasl_outcome : SaslOutcome → Step (Unit {0})
marshal_sasl_outcome o = marshal_composite code_sasl_outcome (sasl_outcome_marshal_fields o)

unfoldable pub unmarshal_sasl_outcome : Step SaslOutcome
unmarshal_sasl_outcome =
    unmarshal_composite code_sasl_outcome (sasl_outcome_fields) empty_sasl_outcome
