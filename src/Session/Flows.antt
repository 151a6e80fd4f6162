-- ===== src/Session/Flows.antt =====
-- Session flow control: the windows of session.go after a flow frame and after each transfer.
use go_amqp.Base.{
  ℕ, suc, ◌+◌, ◌-◌, ◌/◌, ◌≤◌, ◌<◌, ◌≡◌, ◌≢◌, refl, sym, ◌∙◌, ap, Bool, true, false, Option, none,
  some, List, [], ◌∷◌, leb, ◌==◌, if◌then◌else◌, add32, arith, IsU32, inl, inr, ◌⊎◌, Bool-cases,
}
use go_amqp.Base.Maps.{lookup}
use go_amqp.Frames.Performatives.{Flow, Transfer, flow, transfer}
use go_amqp.Session.{
  Mux, Round, goes_on, Action, sends, to_link, can_transfer, on_flow, on_tx_transfer, on_transfer,
  count_transfer, receive_transfer, session_flow, update_windows, record_delivery, forget_settled,
  await_settlement, record_remote, flow_if_due, transfer_to, with_next_id, after_flow,
}

-- The first transfer id that the peer does not accept yet.
abbrev pub limit : Mux → ℕ
limit s = add32 s.next_outgoing_id s.remote_incoming_window

after_flow_state :
    (body : Flow) (h : Option ℕ) (s s' : Mux) (sent : List Action)
    → after_flow body h s ≡ goes_on s' sent
    → s' ≡ s
after_flow_state body (some h) s s' sent e = cc
after_flow_state body none s s' sent e = ground arith

after_limit :
    (body : Flow) (id : ℕ) (s : Mux)
    → IsU32 id
    → IsU32 body.incoming_window
    → IsU32 s.next_outgoing_id
    → limit (update_windows body id s) ≡ add32 id body.incoming_window
after_limit body id s hi hw hs = omega arith

-- When the mux goes on after a flow frame with a `next-incoming-id`, the frame has set the limit
-- to what it grants, `next-incoming-id + incoming-window`, whatever was sent before, and the other
-- windows to those it states.
pub on_flow-limit :
    (body : Flow) (id : ℕ) (s s' : Mux) (sent : List Action)
    → body.next_incoming_id ≡ some id
    → IsU32 id
    → IsU32 body.incoming_window
    → IsU32 s.next_outgoing_id
    → on_flow body s ≡ goes_on s' sent
    → (limit s' ≡ add32 id body.incoming_window)
      × (s'.next_incoming_id ≡ body.next_outgoing_id)
      × (s'.remote_outgoing_window ≡ body.outgoing_window)
      × (s'.next_outgoing_id ≡ s.next_outgoing_id)
unfolding on_flow
on_flow-limit body id s s' sent e hi hw hs r =
    let done : with_next_id body (some id) s ≡ goes_on s' sent =
      ap (λ (o : Option ℕ). with_next_id body o s) (sym e) ∙ r in
    let same : s' ≡ update_windows body id s =
      after_flow_state body body.handle (update_windows body id s) s' sent done in
    rw same (after_limit body id s hi hw hs, refl, refl, refl)

-- The steps of a transfer before it is counted leave what flow control reads.
record SameWindows (s t : Mux) : Type 0 where
  outgoing_id : t.next_outgoing_id ≡ s.next_outgoing_id
  window : t.remote_incoming_window ≡ s.remote_incoming_window
  own_window : t.outgoing_window ≡ s.outgoing_window

record_delivery_windows :
    (fr : Transfer) (id : Option ℕ) (s : Mux) → SameWindows s (record_delivery fr id s).0
record_delivery_windows fr (some id) s = record {
  outgoing_id = refl;
  window = refl;
  own_window = refl;
}
record_delivery_windows fr none s = record { outgoing_id = refl; window = refl; own_window = refl }

forget_settled_windows : (fr : Transfer) (id : ℕ) (s : Mux) → SameWindows s (forget_settled fr id s)
forget_settled_windows fr id s = elim (Bool-cases fr.settled) [
  | inl e ↦ rw e (record { outgoing_id = refl; window = refl; own_window = refl })
  | inr e ↦ rw e (record { outgoing_id = refl; window = refl; own_window = refl })
]

await_settlement_windows :
    (settled : Bool) (waiter : Option ℕ) (id : ℕ) (s : Mux)
    → SameWindows s (await_settlement settled waiter id s).0
await_settlement_windows false (some waiter) id s = record {
  outgoing_id = refl;
  window = refl;
  own_window = refl;
}
await_settlement_windows false none id s = record {
  outgoing_id = refl;
  window = refl;
  own_window = refl;
}
await_settlement_windows true waiter id s = record {
  outgoing_id = refl;
  window = refl;
  own_window = refl;
}

on_tx_transfer_windows :
    (fr : Transfer) (s s' : Mux) (sent : List Action)
    → on_tx_transfer fr s ≡ goes_on s' sent
    → (s'.next_outgoing_id ≡ add32 s.next_outgoing_id 1)
      × (s'.remote_incoming_window ≡ (
          if s.remote_incoming_window == 0
          then s.remote_incoming_window
          else s.remote_incoming_window - 1))
      × (s'.outgoing_window ≡ s.outgoing_window)
unfolding on_tx_transfer
on_tx_transfer_windows fr s s' sent e =
    let (s₁, id) = record_delivery fr fr.delivery_id s in
    let s₂ = forget_settled fr id s₁ in
    let s₃ : Mux = (await_settlement fr.settled fr.done id s₂).0 in
    let a = record_delivery_windows fr fr.delivery_id s in
    let b = forget_settled_windows fr id s₁ in
    let c = await_settlement_windows fr.settled fr.done id s₂ in
    let same : s' ≡ count_transfer s₃ = cc in
    let i : s₃.next_outgoing_id ≡ s.next_outgoing_id =
      c.outgoing_id ∙ b.outgoing_id ∙ a.outgoing_id in
    let w : s₃.remote_incoming_window ≡ s.remote_incoming_window = c.window ∙ b.window ∙ a.window in
    let o : s₃.outgoing_window ≡ s.outgoing_window = c.own_window ∙ b.own_window ∙ a.own_window in
    rw same (rw i refl, rw w refl, o)

-- A run of transfers, each begun in a round in which the select listens for one.
pub data Sends : ℕ → Mux → Mux → Type 0 where
  rest : {s : Mux} → Sends 0 s s
  send :
      {n : ℕ} {s t u : Mux} (fr : Transfer) (sent : List Action)
      → Sends n s t
      → can_transfer t ≡ true
      → on_tx_transfer fr t ≡ goes_on u sent
      → Sends (suc n) s u

can_transfer_open :
    (s : Mux) → can_transfer s ≡ true → (s.remote_incoming_window ≢ 0) × (s.outgoing_window ≢ 0)
unfolding can_transfer
can_transfer_open s h = ground arith

-- However many transfers are sent one after another, each while the windows are open, the peer's
-- window covers them: their number and what is left of the window add up to the window, the
-- transfer ids are consecutive, and the limit that the peer set has not moved.
pub Sends_within :
    (n : ℕ) (s t : Mux)
    → IsU32 s.next_outgoing_id
    → Sends n s t
    → (n + t.remote_incoming_window ≡ s.remote_incoming_window)
      × (t.next_outgoing_id ≡ add32 s.next_outgoing_id n)
      × (limit t ≡ limit s)
Sends_within n s t h rest = omega arith
Sends_within (suc n) s u h (send {t = t} fr sent before open_ e) =
    let (count, ids, same) = Sends_within n s t h before in
    let (id', window', _) = on_tx_transfer_windows fr t u sent e in
    let some_left : t.remote_incoming_window ≢ 0 = (can_transfer_open t open_).0 in
    let one_less : u.remote_incoming_window ≡ t.remote_incoming_window - 1 = ground arith in
    omega arith

Sends_started : (n : ℕ) (s t : Mux) → Sends n s t → ((n ≡ 0) × (t ≡ s)) ⊎ (can_transfer s ≡ true)
Sends_started n s t rest = inl (refl, refl)
Sends_started (suc n) s u (send {t = t} fr sent before open_ e) =
    elim (Sends_started n s t before) [
      | inl (z, same) ↦ inr (ap can_transfer (sym same) ∙ open_)
      | inr h ↦ inr h
    ]

-- While a window is 0, on either side, no transfer is sent.
pub Sends_blocked :
    (n : ℕ) (s t : Mux)
    → (s.remote_incoming_window ≡ 0) ⊎ (s.outgoing_window ≡ 0)
    → Sends n s t
    → (n ≡ 0) × (t ≡ s)
Sends_blocked n s t zero_window sends_n = elim (Sends_started n s t sends_n) [
  | inl none_sent ↦ none_sent
  | inr h ↦
      let (a, b) = can_transfer_open s h in
      elim zero_window [ inl z ↦ absurd (a z) | inr z ↦ absurd (b z) ]
]

-- What the settle-mode bookkeeping of a transfer leaves alone.
record_remote_keeps :
    (body : Transfer) (id mode : Option ℕ) (s : Mux)
    → let t = record_remote body id mode s in
      (t.need_flow_count ≡ s.need_flow_count)
      × (t.incoming_window ≡ s.incoming_window)
      × (t.next_incoming_id ≡ s.next_incoming_id)
record_remote_keeps body (some id) (some mode) s = ground arith
record_remote_keeps body (some id) none s = (refl, refl, refl)
record_remote_keeps body none mode s = (refl, refl, refl)

-- The two ends of a received transfer.
abbrev Replenished : ℕ → Mux → Action → Round → Type 0
Replenished before s first r =
    (s' : Mux) × (sent : List Action) × (r ≡ goes_on s' (first ∷ sent))
    × (s'.next_incoming_id ≡ s.next_incoming_id)
    × (((before < s.incoming_window / 2) × (s'.need_flow_count ≡ before) × (sent ≡ []))
        ⊎ ((s.incoming_window / 2 ≤ before)
            × (s'.need_flow_count ≡ 0)
            × (sent ≡ sends (flow (session_flow s')) none ∷ [])))

flow_if_due-Replenished :
    (first : Action) (s : Mux) → Replenished s.need_flow_count s first (flow_if_due (first ∷ []) s)
flow_if_due-Replenished first s =
    elim (Bool-cases (leb (s.incoming_window / 2) s.need_flow_count)) [
      | inl e ↦
          let s' = record s { need_flow_count = 0 } in
          (
            s',
            sends (flow (session_flow s)) none ∷ [],
            rw e refl,
            refl,
            inr (ground arith, refl, refl),
          )
      | inr e ↦ (s, [], rw e refl, refl, inl (ground arith, refl, refl))
    ]

-- A transfer for a known link: the frame goes to the link, and the id after this transfer's is
-- expected next. If the count of transfers, this one included, is below half the window, that count
-- is kept and nothing more is sent; else a flow frame with the session's new state follows, and the
-- count starts again at 0.
pub on_transfer_replenishes :
    (body : Transfer) (l : ℕ) (s : Mux)
    → lookup body.handle s.links ≡ some l
    → (s' : Mux) × (sent : List Action) × (on_transfer body s
        ≡ goes_on s' (to_link l (transfer body) ∷ sent))
      × (s'.next_incoming_id ≡ add32 s.next_incoming_id 1)
      × (((add32 s.need_flow_count 1 < s.incoming_window / 2)
            × (s'.need_flow_count ≡ add32 s.need_flow_count 1)
            × (sent ≡ []))
          ⊎ ((s.incoming_window / 2 ≤ add32 s.need_flow_count 1)
              × (s'.need_flow_count ≡ 0)
              × (sent ≡ sends (flow (session_flow s')) none ∷ [])))
unfolding on_transfer
on_transfer_replenishes body l s e =
    let r = receive_transfer s in
    let t = record_remote body body.delivery_id (lookup l s.link_modes) r in
    let (count, window, id) = record_remote_keeps body body.delivery_id (lookup l s.link_modes) r in
    let (s', sent, ran, id', ends) = flow_if_due-Replenished (to_link l (transfer body)) t in
    (
      s',
      sent,
      ap (λ (o : Option ℕ). transfer_to body o r) e ∙ ran,
      id' ∙ id,
      rw (window, count) at ends,
    )
