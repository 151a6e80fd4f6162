-- ===== src/Creditor.antt =====
-- creditor.go: the credit that a receiver queues up for its next flow frame, and its drains. A
-- channel is a number; `closed` holds those that were closed. Each method runs under the mutex, so
-- it is one step. `drain` is the part of `Drain` before it waits, and returns the channel that it
-- waits on. The receiver's counts enter as arguments.
pub mod Laws
use go_amqp.Base.{
  ℕ, ◌+◌, ◌%◌, ◌^◌, Bool, true, false, ◌||◌, Option, none, some, List, [], ◌∷◌, ltb, ◌==◌,
  if◌then◌else◌, add32,
}

pub record Creditor : Type 0 where
  pub pending_drain : Bool
  pub credits_to_add : ℕ
  pub drained : Option ℕ
  pub next_channel : ℕ
  pub closed : List ℕ

pub data Error : Type 0 where
  link_draining already_draining credit_exceeded : Error

pub data Result (A : Type 0) : Type 0 where
  ok : A → Result A
  err : Error → Result A

abbrev pub start : Creditor
start = record {
  pending_drain = false;
  credits_to_add = 0;
  drained = none;
  next_channel = 0;
  closed = [];
}

abbrev pub close_channel : Creditor → Option ℕ → Creditor
close_channel mc none = mc
close_channel mc (some c) = record mc { closed = c ∷ mc.closed; drained = none }

unfoldable pub end_drain : Creditor → Creditor
end_drain mc = close_channel mc mc.drained

unfoldable pub flow_bits : ℕ → Creditor → Creditor × Bool × ℕ
flow_bits current_credits mc =
    let drain = mc.pending_drain in
    let credits =
      if drain || mc.credits_to_add == 0 then 0 else add32 mc.credits_to_add current_credits in
    (record mc { pending_drain = false; credits_to_add = 0 }, drain, credits)

abbrev pub begin_drain : Creditor → Option ℕ → Creditor × Result ℕ
begin_drain mc (some c) = (mc, err already_draining)
begin_drain mc none = (
  record mc {
    drained = some mc.next_channel;
    next_channel = mc.next_channel + 1;
    pending_drain = true;
  },
  ok mc.next_channel,
)

unfoldable pub drain : Creditor → Creditor × Result ℕ
drain mc = begin_drain mc mc.drained

-- `credits+unsettled+availableCredit > maxCredit`, in uint32 arithmetic.
abbrev pub exceeds : ℕ → ℕ → ℕ → ℕ → Bool
exceeds credits unsettled available max = ltb max (add32 (add32 credits unsettled) available)

abbrev pub queue_credit : ℕ → Bool → Creditor → Option ℕ → Creditor × Result (Unit {0})
queue_credit credits over mc (some c) = (mc, err link_draining)
queue_credit credits true mc none = (mc, err credit_exceeded)
queue_credit credits false mc none =
    (record mc { credits_to_add = add32 mc.credits_to_add credits }, ok tt)

unfoldable pub issue_credit : ℕ → ℕ → ℕ → ℕ → Creditor → Creditor × Result (Unit {0})
issue_credit credits unsettled available max mc =
    queue_credit credits (exceeds credits unsettled available max) mc mc.drained
