-- ===== src/Sender/Mux/Credit.antt =====
-- sender.go: the peer's credit bounds what the sender's mux hands on.
use go_amqp.Base.{
  ℕ, suc, ◌+◌, ◌-◌, ◌^◌, ◌≡◌, refl, true, false, Option, none, some, List, add32, IsU32, arith,
}
use go_amqp.Frames.Performatives.{Flow, Transfer, FrameBody, flow}
use go_amqp.Sender.Mux.{
  SenderMux, reacts, DetachError, set_credit, or_zero, mux_handle_frame, takes, handed_on,
}

-- The delivery count at which the credit ends.
abbrev pub limit : SenderMux → ℕ
limit m = add32 m.delivery_count m.available_credit

-- A flow frame with a link credit sets the limit to what it grants, its delivery count plus its
-- link credit, whatever was sent before, and leaves the delivery count.
pub mux_handle_frame-limit :
    (fr : Flow) (credit : ℕ) (m m' : SenderMux) (out : List FrameBody) (e : Option DetachError)
    → fr.link_credit ≡ some credit
    → IsU32 credit
    → IsU32 (or_zero fr.delivery_count)
    → IsU32 m.delivery_count
    → mux_handle_frame (flow fr) m ≡ reacts m' out e
    → (limit m' ≡ add32 (or_zero fr.delivery_count) credit)
      × (m'.delivery_count ≡ m.delivery_count)
      × (e ≡ none)
unfolding mux_handle_frame
mux_handle_frame-limit fr credit m m' out e c a b d h = ground arith

-- `Hands n m m'`: from `m` to `m'` the mux hands on transfers that complete `n` messages, each
-- while it listens, and no frame comes in between.
pub data Hands : ℕ → SenderMux → SenderMux → Type 0 where
  rest : {m : SenderMux} → Hands 0 m m
  part :
      {n : ℕ} {m t : SenderMux} (tr : Transfer)
      → Hands n m t
      → takes t ≡ true
      → tr.more ≡ true
      → Hands n m (handed_on tr t)
  whole :
      {n : ℕ} {m t : SenderMux} (tr : Transfer)
      → Hands n m t
      → takes t ≡ true
      → tr.more ≡ false
      → Hands (suc n) m (handed_on tr t)

whole_step :
    (n : ℕ) (m t : SenderMux) (tr : Transfer)
    → takes t ≡ true
    → tr.more ≡ false
    → IsU32 m.available_credit
    → n + t.available_credit ≡ m.available_credit
    → t.delivery_count ≡ add32 m.delivery_count n
    → (suc n + (handed_on tr t).available_credit ≡ m.available_credit)
      × ((handed_on tr t).delivery_count ≡ add32 m.delivery_count (suc n))
unfolding takes handed_on
whole_step n m t tr k r u a b = ground arith

-- Without a flow frame in between, the mux completes no more messages than it has credit for:
-- their number and what is left of the credit add up to the credit, and the delivery count goes up
-- by their number.
pub Hands_within :
    (n : ℕ) (m m' : SenderMux)
    → IsU32 m.available_credit
    → IsU32 m.delivery_count
    → Hands n m m'
    → (n + m'.available_credit ≡ m.available_credit)
      × (m'.delivery_count ≡ add32 m.delivery_count n)
unfolding handed_on
Hands_within n m m' u v rest = (omega arith, omega (arith, v))
Hands_within n m m' u v (part {t = t} fr s k r) =
    let same : handed_on fr t ≡ t = rw (handed_on, r) refl in rw same (Hands_within n m t u v s)
Hands_within n m m' u v (whole {n = k} {t = t} fr s l r) =
    let (a, b) = Hands_within k m t u v s in whole_step k m t fr l r u a b

-- A flow frame that takes the credit away while a message's last transfer waits for the session is
-- not heeded: afterwards the credit is the largest uint32, and the mux goes on taking transfers.
pub handed_on-set_credit :
    (fr : Flow) (credit : ℕ) (tr : Transfer) (m : SenderMux)
    → tr.more ≡ false
    → IsU32 credit
    → IsU32 m.delivery_count
    → add32 (or_zero fr.delivery_count) credit ≡ m.delivery_count
    → ((handed_on tr (set_credit fr credit m)).available_credit ≡ 2 ^ 32 - 1)
      × (takes (handed_on tr (set_credit fr credit m)) ≡ true)
unfolding handed_on takes
handed_on-set_credit fr credit tr m r u v h = ground arith
