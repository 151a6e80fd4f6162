-- ===== src/Runs/Sessions.antt =====
-- The session mux of session.go on concrete inputs.
use go_amqp.Base.{
  ℕ, ◌+◌, ◌-◌, ◌/◌, ◌<◌, ◌≤◌, true, false, ◌&&◌, Option, none, some, List, [], ◌∷◌, ◌≡◌, refl,
  arith, leb, if◌then◌else◌, add32, ◌⊎◌,
}
use go_amqp.Base.Maps.{lookup, insert, delete}
use go_amqp.Frames.Performatives.{Flow, Transfer, Disposition, transfer, disposition, flow}
use go_amqp.Session.{
  Mux, Action, sends, to_link, settles, goes_on, start, can_transfer, session_flow, on_flow,
  on_transfer, on_tx_transfer,
}
use go_amqp.Session.Flows.{
  limit, Sends, rest, send, on_flow-limit, Sends_within, on_transfer_replenishes,
}
use go_amqp.Session.Dispose.{dispose, on_disposition, dispose_loop, handles_for}
use go_amqp.Session.Settlement.{
  on_disposition-total, on_disposition_endless, on_disposition_forgets, dispose_settles_once,
}

abbrev opened : Mux
opened = start 100 100 (record {
  remote_channel = some 0;
  next_outgoing_id = 5;
  incoming_window = 3;
  outgoing_window = 4;
  handle_max = 7;
})

-- One link, 4, on the peer's handle 0, with delivery 8 sent from our handle 0 and waited on.
abbrev busy : Mux
busy = record opened {
  links = (0, 4) ∷ [];
  handles_by_delivery_id = (8, 0) ∷ [];
  settlement_by_delivery_id = (8, 6) ∷ [];
}

abbrev flow_frame : Flow
flow_frame = record {
  next_incoming_id = some 2;
  incoming_window = 10;
  next_outgoing_id = 6;
  outgoing_window = 11;
  handle = none;
  delivery_count = none;
  link_credit = none;
  drain = false;
  echo = false;
}

abbrev flowed : Mux
flowed = record opened {
  remote_incoming_window = 12;
  next_incoming_id = 6;
  remote_outgoing_window = 11;
}

on_flow_run : on_flow flow_frame opened ≡ goes_on flowed []
unfolding on_flow start
on_flow_run = refl

on_flow-limit_example :
    (limit flowed ≡ add32 2 10)
    × (flowed.next_incoming_id ≡ 6)
    × (flowed.remote_outgoing_window ≡ 11)
    × (flowed.next_outgoing_id ≡ opened.next_outgoing_id)
unfolding start
on_flow-limit_example =
    on_flow-limit flow_frame 2 opened flowed [] refl (omega arith) (omega arith) (omega arith)
      on_flow_run

abbrev message : Transfer
message = record {
  handle = 0;
  delivery_id = some 9;
  delivery_tag = some (1 ∷ []);
  message_format = some 0;
  settled = true;
  more = false;
  aborted = false;
  payload = 7 ∷ [];
  done = none;
}

-- The session after the message; the id of the delivery is kept for its handle.
abbrev after_message : Mux
after_message = record opened {
  delivery_id_by_handle = (0, 9) ∷ [];
  next_outgoing_id = 1;
  remote_incoming_window = 2;
}

message_run :
    on_tx_transfer message opened ≡ goes_on after_message (sends (transfer message) none ∷ [])
unfolding on_tx_transfer start insert delete lookup
message_run = refl

can_send : can_transfer opened ≡ true
unfolding can_transfer start
can_send = refl

one_sent : Sends 1 opened after_message
one_sent = send message (sends (transfer message) none ∷ []) rest can_send message_run

Sends_within_example :
    (1 + after_message.remote_incoming_window ≡ opened.remote_incoming_window)
    × (after_message.next_outgoing_id ≡ add32 opened.next_outgoing_id 1)
    × (limit after_message ≡ limit opened)
unfolding start
Sends_within_example = Sends_within 1 opened after_message (omega arith) one_sent

on_transfer_replenishes_example :
    (s' : Mux) × (sent : List Action) × (on_transfer message busy
      ≡ goes_on s' (to_link 4 (transfer message) ∷ sent))
    × (s'.next_incoming_id ≡ add32 busy.next_incoming_id 1)
    × (((add32 busy.need_flow_count 1 < busy.incoming_window / 2)
          × (s'.need_flow_count ≡ add32 busy.need_flow_count 1)
          × (sent ≡ []))
        ⊎ ((busy.incoming_window / 2 ≤ add32 busy.need_flow_count 1)
            × (s'.need_flow_count ≡ 0)
            × (sent ≡ sends (flow (session_flow s')) none ∷ [])))
unfolding lookup
on_transfer_replenishes_example = on_transfer_replenishes message 4 busy refl

abbrev settled_range : Option ℕ → Disposition
settled_range last = record { role = true; first = 8; last = last; settled = true; state = none }

on_disposition-total_example :
    (r : Mux × List Action) × (on_disposition (2 + (10 - 8)) (settled_range (some 10)) busy
      ≡ some r)
on_disposition-total_example =
    on_disposition-total (settled_range (some 10)) busy (omega arith) (omega arith)

on_disposition_endless_example : on_disposition 1000 (settled_range (some 0xffff_ffff)) busy ≡ none
on_disposition_endless_example =
    on_disposition_endless 1000 (settled_range (some 0xffff_ffff)) busy (omega arith) refl

abbrev settled_busy : Mux
settled_busy = record busy { handles_by_delivery_id = []; settlement_by_delivery_id = [] }

disposition_run :
    on_disposition 4 (settled_range (some 10)) busy
    ≡ some (settled_busy, settles 6 none ∷ to_link 4 (disposition (settled_range (some 10))) ∷ [])
unfolding on_disposition dispose_loop dispose lookup delete start
disposition_run = refl

on_disposition_forgets_example :
    (lookup 8 (handles_for true settled_busy)
      ≡ (if leb 8 8 && leb 8 10 then none else lookup 8 (handles_for true busy)))
    × (handles_for false settled_busy ≡ handles_for false busy)
on_disposition_forgets_example =
    on_disposition_forgets 4 (settled_range (some 10)) 8 busy settled_busy
      (settles 6 none ∷ to_link 4 (disposition (settled_range (some 10))) ∷ []) (omega arith)
      (omega arith) disposition_run

dispose_settles_once_example :
    ((dispose (settled_range none) 8 busy).1
      ≡ settles 6 none ∷ to_link 4 (disposition (settled_range none)) ∷ [])
    × (lookup 8 (dispose (settled_range none) 8 busy).0.settlement_by_delivery_id ≡ none)
    × (dispose (settled_range none) 8 (dispose (settled_range none) 8 busy).0
        ≡ ((dispose (settled_range none) 8 busy).0, []))
unfolding lookup
dispose_settles_once_example =
    dispose_settles_once (settled_range none) 8 0 6 4 busy refl refl refl refl refl
