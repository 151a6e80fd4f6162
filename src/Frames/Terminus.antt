-- ===== src/Frames/Terminus.antt =====
-- internal/frames/frames.go: the source and the target of a link. An address or a capability is its
-- bytes. The source gives `Marshal` a pointer to its default outcome, of type `*any`.
use go_amqp.Base.{ℕ, Bool, false, not, Option, none, List, [], ◌∷◌, ◌==◌, length}
use go_amqp.Buffer.{Step, ok}
use go_amqp.Encoding.Codes.{code_source, code_target}
use go_amqp.Encoding.Write.{write_string, write_symbol, write_uint32, write_bool}
use go_amqp.Encoding.Read.{read_string, read_uint32, read_bool}
use go_amqp.Encoding.Arrays.{write_array_symbol}
use go_amqp.Encoding.Composite.{
  MarshalField, UnmarshalField, marshal_composite, unmarshal_composite,
}
use go_amqp.Encoding.Any.{Value, Pairs, no_pairs, count_pairs, no_info}
use go_amqp.Encoding.Any.Write.{unless, always, write_map, write_pairs, write_value}
use go_amqp.Encoding.Any.Switch.{any_, pointer_to, marshal_as}
use go_amqp.Encoding.Any.Read.{read_map_symbol}
use go_amqp.Frames.Fields.{
  pointer, into, field, field_over, field_pointer, read_multi_symbol, expiry_session_end,
  read_expiry_policy, ends_with_session, read_filter,
}

pub record Source : Type 0 where
  pub address : List ℕ
  pub durable : ℕ
  pub expiry_policy : List ℕ
  pub timeout : ℕ
  pub dynamic : Bool
  pub dynamic_node_properties : Pairs
  pub distribution_mode : List ℕ
  pub filter : Pairs
  pub default_outcome : Option Value
  pub outcomes : List (List ℕ)
  pub capabilities : List (List ℕ)

abbrev pub empty_source : Source
empty_source = record {
  address = [];
  durable = 0;
  expiry_policy = [];
  timeout = 0;
  dynamic = false;
  dynamic_node_properties = no_pairs;
  distribution_mode = [];
  filter = no_pairs;
  default_outcome = none;
  outcomes = [];
  capabilities = [];
}

abbrev pub source_marshal_fields : Source → List MarshalField
source_marshal_fields s =
    unless (length s.address == 0) (write_string s.address)
    ∷ unless (s.durable == 0) (always (write_uint32 s.durable))
    ∷ unless (ends_with_session s.expiry_policy) (write_symbol s.expiry_policy)
    ∷ unless (s.timeout == 0) (always (write_uint32 s.timeout))
    ∷ unless (not s.dynamic) (always (write_bool s.dynamic))
    ∷ unless (no_info s.dynamic_node_properties)
        (write_map (count_pairs s.dynamic_node_properties) (write_pairs s.dynamic_node_properties))
    ∷ unless (length s.distribution_mode == 0) (write_symbol s.distribution_mode)
    ∷ unless (no_info s.filter) (write_map (count_pairs s.filter) (write_pairs s.filter))
    ∷ pointer (λ v. marshal_as (pointer_to any_) (write_value v)) s.default_outcome
    ∷ unless (length s.outcomes == 0) (always (write_array_symbol s.outcomes))
    ∷ unless (length s.capabilities == 0) (always (write_array_symbol s.capabilities))
    ∷ []

abbrev pub source_fields : (any : Step Value) → List (UnmarshalField Source)
source_fields any =
    field (λ s a. record s { address = a }) read_string
    ∷ field (λ s a. record s { durable = a }) read_uint32
    ∷ record {
      read =
          λ s. into (λ s a. record s { expiry_policy = a }) (read_expiry_policy s.expiry_policy) s;
      handle_null = λ s. ok (record s { expiry_policy = expiry_session_end });
    }
    ∷ field (λ s a. record s { timeout = a }) read_uint32
    ∷ field (λ s a. record s { dynamic = a }) read_bool
    ∷ field (λ s a. record s { dynamic_node_properties = a }) (read_map_symbol any)
    ∷ field (λ s a. record s { distribution_mode = a }) read_string
    ∷ field (λ s a. record s { filter = a }) (read_filter any)
    ∷ field_pointer (λ s a. record s { default_outcome = a }) any
    ∷ field_over (λ s. s.outcomes) (λ s a. record s { outcomes = a }) read_multi_symbol
    ∷ field_over (λ s. s.capabilities) (λ s a. record s { capabilities = a }) read_multi_symbol
    ∷ []

unfoldable pub marshal_source : Source → Step (Unit {0})
marshal_source s = marshal_composite code_source (source_marshal_fields s)

unfoldable pub unmarshal_source : (any : Step Value) → Step Source
unmarshal_source any = unmarshal_composite code_source (source_fields any) empty_source

pub record Target : Type 0 where
  pub address : List ℕ
  pub durable : ℕ
  pub expiry_policy : List ℕ
  pub timeout : ℕ
  pub dynamic : Bool
  pub dynamic_node_properties : Pairs
  pub capabilities : List (List ℕ)

abbrev pub empty_target : Target
empty_target = record {
  address = [];
  durable = 0;
  expiry_policy = [];
  timeout = 0;
  dynamic = false;
  dynamic_node_properties = no_pairs;
  capabilities = [];
}

abbrev pub target_marshal_fields : Target → List MarshalField
target_marshal_fields t =
    unless (length t.address == 0) (write_string t.address)
    ∷ unless (t.durable == 0) (always (write_uint32 t.durable))
    ∷ unless (ends_with_session t.expiry_policy) (write_symbol t.expiry_policy)
    ∷ unless (t.timeout == 0) (always (write_uint32 t.timeout))
    ∷ unless (not t.dynamic) (always (write_bool t.dynamic))
    ∷ unless (no_info t.dynamic_node_properties)
        (write_map (count_pairs t.dynamic_node_properties) (write_pairs t.dynamic_node_properties))
    ∷ unless (length t.capabilities == 0) (always (write_array_symbol t.capabilities))
    ∷ []

abbrev pub target_fields : (any : Step Value) → List (UnmarshalField Target)
target_fields any =
    field (λ s a. record s { address = a }) read_string
    ∷ field (λ s a. record s { durable = a }) read_uint32
    ∷ record {
      read =
          λ s. into (λ s a. record s { expiry_policy = a }) (read_expiry_policy s.expiry_policy) s;
      handle_null = λ s. ok (record s { expiry_policy = expiry_session_end });
    }
    ∷ field (λ s a. record s { timeout = a }) read_uint32
    ∷ field (λ s a. record s { dynamic = a }) read_bool
    ∷ field (λ s a. record s { dynamic_node_properties = a }) (read_map_symbol any)
    ∷ field_over (λ s. s.capabilities) (λ s a. record s { capabilities = a }) read_multi_symbol
    ∷ []

unfoldable pub marshal_target : Target → Step (Unit {0})
marshal_target t = marshal_composite code_target (target_marshal_fields t)

unfoldable pub unmarshal_target : (any : Step Value) → Step Target
unmarshal_target any = unmarshal_composite code_target (target_fields any) empty_target
