-- ===== src/Frames/Performatives.antt =====
-- internal/frames/frames.go: the fields of the performatives that the session, the links and the
-- connection act on. An optional field is an `Option`, a uint32 a number, a handle to a Go channel
-- a number. What the code only passes through (properties, addresses, capabilities) is left out.
use Prim.Native.String.{String}
use go_amqp.Base.{ℕ, Bool, List, Option}

-- encoding.Error: its condition.
abbrev pub AmqpError : Type 0
AmqpError = String

abbrev pub err_cond_not_allowed : AmqpError
err_cond_not_allowed = "amqp:not-allowed"

abbrev pub err_cond_message_size_exceeded : AmqpError
err_cond_message_size_exceeded = "amqp:link:message-size-exceeded"

-- encoding.Role: RoleSender is false, RoleReceiver is true.
abbrev pub Role : Type 0
Role = Bool

-- The outcome of a delivery; a rejection may carry an error.
pub data DeliveryState : Type 0 where
  accepted released modified received : DeliveryState
  rejected : Option AmqpError → DeliveryState

pub record Flow : Type 0 where
  pub next_incoming_id : Option ℕ
  pub incoming_window : ℕ
  pub next_outgoing_id : ℕ
  pub outgoing_window : ℕ
  pub handle : Option ℕ
  pub delivery_count : Option ℕ
  pub link_credit : Option ℕ
  pub drain : Bool
  pub echo : Bool

pub record Transfer : Type 0 where
  pub handle : ℕ
  pub delivery_id : Option ℕ
  pub delivery_tag : Option (List ℕ)
  pub message_format : Option ℕ
  pub settled : Bool
  pub more : Bool
  pub aborted : Bool
  pub payload : List ℕ
  pub done : Option ℕ

pub record Disposition : Type 0 where
  pub role : Role
  pub first : ℕ
  pub last : Option ℕ
  pub settled : Bool
  pub state : Option DeliveryState

pub record Attach : Type 0 where
  pub name : List ℕ
  pub handle : ℕ
  pub role : Role
  pub sender_settle_mode : Option ℕ
  pub receiver_settle_mode : Option ℕ
  pub max_message_size : ℕ

pub record Detach : Type 0 where
  pub handle : ℕ
  pub closed : Bool
  pub error : Option AmqpError

pub record Begin : Type 0 where
  pub remote_channel : Option ℕ
  pub next_outgoing_id : ℕ
  pub incoming_window : ℕ
  pub outgoing_window : ℕ
  pub handle_max : ℕ

pub data FrameBody : Type 0 where
  flow : Flow → FrameBody
  transfer : Transfer → FrameBody
  disposition : Disposition → FrameBody
  attach : Attach → FrameBody
  detach : Detach → FrameBody
  begin : Begin → FrameBody
  end : Option AmqpError → FrameBody
  close : Option AmqpError → FrameBody
  other : ℕ → FrameBody
