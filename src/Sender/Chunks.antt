-- ===== src/Sender/Chunks.antt =====
-- sender.go: what the loop of `send` hands over when the mux takes every transfer.
use go_amqp.Base.{
  ℕ, zero, suc, ◌+◌, ◌≡◌, refl, ◌<◌, ◌≤◌, Bool, true, false, Option, some, List, [], ◌∷◌, ◌++◌, ltb,
  length, take, drop, arith, inl, inr, take-le, Bool-cases, take-append-drop, length-drop,
  length-take, ltb→lt,
}
use go_amqp.Frames.Performatives.{Transfer}
use go_amqp.Sender.{Wake, handed, SendEnd, sent_all, cleared, handed_over, send_loop}

abbrev pub always : ℕ → Wake
always n = handed

-- The transfers that carry a message's bytes, after the fields of `fr`: full chunks that promise
-- more, then the last one, which is not empty, has the settled flag and the channel. Only the first
-- transfer has the id, the tag and the format.
pub data Carries (sender_settled : Bool) (channel size : ℕ)
    : Transfer → List ℕ → List Transfer → Type 0 where
  last :
      (fr : Transfer) (xs : List ℕ)
      → 0 < length xs
      → length xs ≤ size
      → Carries sender_settled channel size fr xs (
          record fr { payload = xs; more = false; settled = sender_settled; done = some channel }
          ∷ [])
  chunk :
      (fr : Transfer) (xs ys bytes : List ℕ) (frs : List Transfer)
      → xs ++ ys ≡ bytes
      → length xs ≡ size
      → Carries sender_settled channel size
          (cleared (record fr { payload = xs; more = true }))
          ys
          frs
      → Carries sender_settled channel size fr bytes (record fr { payload = xs; more = true } ∷ frs)

pub send_loop_more :
    (fuel n channel size : ℕ) (st : Bool) (wakes : ℕ → Wake) (bytes : List ℕ) (fr : Transfer)
    → fr.more ≡ true
    → ltb 0 (length (drop size bytes)) ≡ true
    → wakes n ≡ handed
    → let filled = record fr { payload = take size bytes; more = true } in
      send_loop (suc fuel) st channel size wakes n bytes fr
      ≡ handed_over filled
          (send_loop fuel st channel size wakes (n + 1) (drop size bytes) (cleared filled))
unfolding send_loop
send_loop_more fuel n channel size st wakes bytes fr m e h = rw (m, e, h) refl

send_loop_last :
    (fuel n channel size : ℕ) (st : Bool) (bytes : List ℕ) (fr : Transfer)
    → fr.more ≡ true
    → ltb 0 (length (drop size bytes)) ≡ false
    → let filled = record fr {
      payload = take size bytes;
      more = false;
      settled = st;
      done = some channel;
    } in
      send_loop (suc (suc fuel)) st channel size always n bytes fr
      ≡ some (filled ∷ [], sent_all (some channel))
unfolding send_loop
send_loop_last fuel n channel size st bytes fr m e = rw (m, e) refl

abbrev pub Sent : Bool → ℕ → ℕ → Transfer → List ℕ → Option (List Transfer × SendEnd) → Type 0
Sent st channel size fr bytes r =
    (frs : List Transfer) × (r ≡ some (frs, sent_all (some channel)))
    × Carries st channel size fr bytes frs

whole :
    (st : Bool) (channel size : ℕ) (fr : Transfer) (bytes : List ℕ)
    → 0 < length bytes
    → length bytes ≤ size
    → Carries st channel size fr bytes (
        record fr { payload = take size bytes; more = false; settled = st; done = some channel }
        ∷ [])
whole st channel size fr bytes b h = rw (take-le size bytes h) (last fr bytes b h)

nothing_left :
    (size : ℕ) (bytes : List ℕ) → ltb 0 (length (drop size bytes)) ≡ false → length bytes ≤ size
nothing_left size bytes p = ground (arith, length-drop size bytes)

pub send_loop-Sent :
    (fuel n channel size : ℕ) (st : Bool) (bytes : List ℕ) (fr : Transfer)
    → fr.more ≡ true
    → 0 < size
    → 0 < length bytes
    → length bytes < fuel
    → Sent st channel size fr bytes (send_loop (suc fuel) st channel size always n bytes fr)
send_loop-Sent zero n channel size st bytes fr m s b f = absurd (omega (arith, f))
send_loop-Sent (suc fuel) n channel size st bytes fr m s b f =
    elim (Bool-cases (ltb 0 (length (drop size bytes)))) [
      | inl p ↦
          let left : 0 < length (drop size bytes) = ltb→lt 0 (length (drop size bytes)) p in
          let shorter : length (drop size bytes) < fuel = omega (arith, length-drop size bytes) in
          let filled = record fr { payload = take size bytes; more = true } in
          let (frs, ran, carries) =
            send_loop-Sent fuel (n + 1) channel size st (drop size bytes) (cleared filled) refl s
              left shorter in
          (
            filled ∷ frs,
            rw (send_loop_more (suc fuel) n channel size st always bytes fr m p refl, ran) refl,
            chunk fr (take size bytes) (drop size bytes) bytes frs (take-append-drop size bytes)
                (omega (arith, length-take size bytes, length-drop size bytes, left)) carries,
          )
      | inr p ↦ (
        record fr { payload = take size bytes; more = false; settled = st; done = some channel }
            ∷ [],
        send_loop_last fuel n channel size st bytes fr m p,
        whole st channel size fr bytes b (nothing_left size bytes p),
      )
    ]
