-- ===== src/Creditor/Laws.antt =====
-- What the creditor promises the receiver, and where its check of the limit is not enough.
use go_amqp.Base.{
  ℕ, ◌+◌, ◌^◌, ◌≤◌, ◌<◌, ◌≡◌, ◌≢◌, Bool, true, false, Option, none, some, List, [], ◌∷◌, arith,
  IsU32, ◌⊎◌, All, refl, if◌then◌else◌,
}
use go_amqp.Creditor.{
  Creditor, ok, err, link_draining, already_draining, credit_exceeded, start, queue_credit,
  end_drain, begin_drain, close_channel, flow_bits, drain, issue_credit, exceeds,
}

-- A flow frame asks for a drain or for credit, never for both; it empties the queue, so that the
-- next one asks for nothing.
pub flow_bits_once :
    (mc : Creditor) (current later : ℕ)
    → let (mc', drains, credits) = flow_bits current mc in
      ((drains ≡ true) × (credits ≡ 0) ⊎ (drains ≡ false))
      × ((flow_bits later mc').1 ≡ false)
      × ((flow_bits later mc').2 ≡ 0)
unfolding flow_bits
flow_bits_once mc current later = ground arith

-- The credit of the next flow frame is the queued credit added to the current, while no drain is
-- pending and the sum does not wrap.
pub issue_credit-flow_bits :
    (mc : Creditor) (credits unsettled available max : ℕ)
    → mc.drained ≡ none
    → mc.pending_drain ≡ false
    → 0 < credits
    → mc.credits_to_add + credits + available < 2 ^ 32
    → credits + unsettled + available ≤ max
    → IsU32 max
    → let (mc', r) = issue_credit credits unsettled available max mc in
      (r ≡ ok tt) × ((flow_bits available mc').2 ≡ mc.credits_to_add + credits + available)
unfolding issue_credit flow_bits
issue_credit-flow_bits mc credits unsettled available max d p pos_ fits small word = ground arith

-- The channels in use are old, and the one waited on is open: `close` is never called on a closed
-- channel, which would panic.
abbrev pub IsOpen : Creditor → Option ℕ → Type 0
IsOpen mc none = Unit
IsOpen mc (some c) = (c < mc.next_channel) × All (λ x. x ≢ c) mc.closed

pub record IsValid (mc : Creditor) : Type 0 where
  pub old : All (λ x. x < mc.next_channel) mc.closed
  pub open_ : IsOpen mc mc.drained

below_next :
    (n : ℕ) (xs : List ℕ) → All (λ x. x < n) xs → All (λ x. x < n + 1) xs × All (λ x. x ≢ n) xs
below_next n [] h = (tt, tt)
below_next n (x ∷ xs) (h, hs) =
    let (lt, ne) = below_next n xs hs in ((omega arith, lt), (omega arith, ne))

close_channel-IsValid :
    (mc : Creditor) (d : Option ℕ) → IsOpen mc d → IsValid mc → IsValid (close_channel mc d)
close_channel-IsValid mc none o v = v
close_channel-IsValid mc (some c) o v = record { old = (o.0, v.old); open_ = tt }

begin_drain-IsValid : (mc : Creditor) (d : Option ℕ) → IsValid mc → IsValid (begin_drain mc d).0
begin_drain-IsValid mc (some c) v = v
begin_drain-IsValid mc none v =
    let (below, apart) = below_next mc.next_channel mc.closed v.old in
    record { old = below; open_ = (omega arith, apart) }

queue_credit-IsValid :
    (mc : Creditor) (credits : ℕ) (over : Bool) (d : Option ℕ)
    → IsValid mc
    → IsValid (queue_credit credits over mc d).0
queue_credit-IsValid mc credits true none v = v
queue_credit-IsValid mc credits false none v = record { old = v.old; open_ = v.open_ }
queue_credit-IsValid mc credits over (some c) v = v

-- One use of a creditor.
pub data Call : Type 0 where
  ends_drain drains : Call
  flows : ℕ → Call
  issues : ℕ → ℕ → ℕ → ℕ → Call

unfoldable pub step : Creditor → Call → Creditor
step mc ends_drain = end_drain mc
step mc drains = (drain mc).0
step mc (flows current) = (flow_bits current mc).0
step mc (issues credits unsettled available max) =
    (issue_credit credits unsettled available max mc).0

-- Every use keeps the channels in order.
pub step-IsValid : (mc : Creditor) (c : Call) → IsValid mc → IsValid (step mc c)
unfolding step end_drain drain flow_bits issue_credit
step-IsValid mc ends_drain v = close_channel-IsValid mc mc.drained v.open_ v
step-IsValid mc drains v = begin_drain-IsValid mc mc.drained v
step-IsValid mc (flows current) v = ground arith
step-IsValid mc (issues credits unsettled available max) v =
    queue_credit-IsValid mc credits (exceeds credits unsettled available max) mc.drained v

unfoldable pub run : Creditor → List Call → Creditor
run mc [] = mc
run mc (c ∷ cs) = run (step mc c) cs

run-IsValid : (mc : Creditor) (cs : List Call) → IsValid mc → IsValid (run mc cs)
unfolding run
run-IsValid mc [] v = v
run-IsValid mc (c ∷ cs) v = run-IsValid (step mc c) cs (step-IsValid mc c v)

-- After any history, the channel of the drain under way, if there is one, has not been closed: the
-- `close` in `EndDrain` cannot panic.
pub run-IsOpen : (cs : List Call) → IsOpen (run start cs) (run start cs).drained
run-IsOpen cs = (run-IsValid start cs (record { old = tt; open_ = tt })).open_

-- Only `EndDrain` ends a drain.
drained-step :
    (mc : Creditor) (x : Call) (c : ℕ)
    → mc.drained ≡ some c
    → x ≢ ends_drain
    → (step mc x).drained ≡ some c
unfolding step drain flow_bits issue_credit
drained-step mc ends_drain c d n = absurd (n refl)
drained-step mc drains c d n = ground arith
drained-step mc (flows current) c d n = d
drained-step mc (issues credits unsettled available max) c d n = ground arith

drained-run :
    (mc : Creditor) (cs : List Call) (c : ℕ)
    → mc.drained ≡ some c
    → All (λ x. x ≢ ends_drain) cs
    → (run mc cs).drained ≡ some c
unfolding run
drained-run mc [] c d h = d
drained-run mc (x ∷ cs) c d (n, h) = drained-run (step mc x) cs c (drained-step mc x c d n) h

-- What is refused while a channel is waited on, and taken once `EndDrain` has closed it.
excluded :
    (mc : Creditor) (c credits unsettled available max : ℕ)
    → mc.drained ≡ some c
    → (issue_credit credits unsettled available max mc ≡ (mc, err link_draining))
      × (drain mc ≡ (mc, err already_draining))
      × ((drain (end_drain mc)).1 ≡ ok mc.next_channel)
      × ((issue_credit credits unsettled available max (end_drain mc)).1
          ≡ (if exceeds credits unsettled available max then err credit_exceeded else ok tt))
unfolding drain issue_credit end_drain
excluded mc c credits unsettled available max d = ground arith

drained-drain :
    (mc mc₁ : Creditor) (c available : ℕ)
    → drain mc ≡ (mc₁, ok c)
    → (mc₁.drained ≡ some c) × ((flow_bits available mc₁).1 ≡ true)
unfolding drain flow_bits
drained-drain mc mc₁ c available e = ground arith

-- After `Drain` has succeeded, the next flow frame asks for a drain; and whatever is called but
-- `EndDrain`, credit is then refused and so is a second drain, and both leave the creditor as it is.
-- After `EndDrain`, a drain succeeds, and credit is refused only beyond the limit.
pub drain_excludes :
    (mc mc₁ : Creditor) (c credits unsettled available max : ℕ) (cs : List Call)
    → drain mc ≡ (mc₁, ok c)
    → All (λ x. x ≢ ends_drain) cs
    → let mc' = run mc₁ cs in
      ((flow_bits available mc₁).1 ≡ true)
      × (issue_credit credits unsettled available max mc' ≡ (mc', err link_draining))
      × (drain mc' ≡ (mc', err already_draining))
      × ((drain (end_drain mc')).1 ≡ ok mc'.next_channel)
      × ((issue_credit credits unsettled available max (end_drain mc')).1
          ≡ (if exceeds credits unsettled available max then err credit_exceeded else ok tt))
drain_excludes mc mc₁ c credits unsettled available max cs e h =
    let (waits, asks) = drained-drain mc mc₁ c available e in
    let (no_credit, no_drain, drains_again, credit_again) =
      excluded (run mc₁ cs) c credits unsettled available max (drained-run mc₁ cs c waits h) in
    (asks, no_credit, no_drain, drains_again, credit_again)

-- While no drain is under way and the unsettled messages and the available credit together are
-- within the limit, a request that brings the sum to 2 ^ 32 or more is accepted, though the true sum
-- is above the limit.
pub issue_credit_wraps :
    (mc : Creditor) (credits unsettled available max : ℕ)
    → mc.drained ≡ none
    → IsU32 credits
    → IsU32 max
    → unsettled + available ≤ max
    → 2 ^ 32 ≤ credits + unsettled + available
    → ((issue_credit credits unsettled available max mc).1 ≡ ok tt)
      × (max < credits + unsettled + available)
unfolding issue_credit
issue_credit_wraps mc credits unsettled available max d c m fits big = ground arith

-- While no drain is under way or asked for and nothing is queued, two requests that are within the
-- limit one by one, the first of them not for 0, are both accepted, and the next flow frame states the
-- sum of both and the available credit, whether or not that is above the limit, as long as it is below
-- 2 ^ 32.
pub issue_credit_twice :
    (mc : Creditor) (c₁ c₂ unsettled available max : ℕ)
    → mc.drained ≡ none
    → mc.pending_drain ≡ false
    → mc.credits_to_add ≡ 0
    → 0 < c₁
    → c₁ + unsettled + available ≤ max
    → c₂ + unsettled + available ≤ max
    → c₁ + c₂ + available < 2 ^ 32
    → IsU32 max
    → let (mc₁, r₁) = issue_credit c₁ unsettled available max mc in
      let (mc₂, r₂) = issue_credit c₂ unsettled available max mc₁ in
      (r₁ ≡ ok tt) × (r₂ ≡ ok tt) × ((flow_bits available mc₂).2 ≡ c₁ + c₂ + available)
unfolding issue_credit flow_bits
issue_credit_twice mc c₁ c₂ unsettled available max d p z pos_ h₁ h₂ fits word = ground arith
