-- ===== src/Frames/DefaultOutcome.antt =====
-- What becomes of a source with a default outcome.
use go_amqp.Base.{◌≡◌, false, Option, List, ◌∷◌}
use go_amqp.Buffer.{Buffer, Step, Error, err}
use go_amqp.Encoding.Any.{Value}
use go_amqp.Encoding.Any.Write.{write_value}
use go_amqp.Encoding.Any.Switch.{any_, pointer_to, marshal_as}
use go_amqp.Encoding.Any.Writers.{FieldReturns}
use go_amqp.Encoding.Composite.{MarshalField}
use go_amqp.Frames.Fields.{pointer}

-- A step that returns an error.
abbrev Fails : Step (Unit {0}) → Type 0
Fails m = (b : Buffer) → (e : Error) × ((m b).0 ≡ err e)

-- One of the fields is not omitted and cannot be written, and those before it return.
data Bad : List MarshalField → Type 0 where
  here : {m : MarshalField} {ms : List MarshalField} → m.omit ≡ false → Fails m.write → Bad (m ∷ ms)
  there : {m : MarshalField} {ms : List MarshalField} → FieldReturns m → Bad ms → Bad (m ∷ ms)

-- The field of the default outcome.
abbrev outcome_field : Option Value → MarshalField
outcome_field = pointer (λ w. marshal_as (pointer_to any_) (write_value w))
