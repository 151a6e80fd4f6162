-- ===== src/Session/Settlement.antt =====
-- What a disposition does to the deliveries, and when its loop ends.
use go_amqp.Base.{
  ℕ, zero, suc, ◌+◌, ◌-◌, ◌^◌, ◌<◌, ◌≡◌, refl, ◌∙◌, ap, Bool, true, false, ◌&&◌, not, Option, none,
  some, List, [], ◌∷◌, ◌++◌, ltb, leb, ◌==◌, if◌then◌else◌, add32, arith, IsU32, Bool-cases, inl,
  inr, eq→==,
}
use mathlib.Core.Path.{ap₂}
use go_amqp.Base.Maps.{lookup, delete, lookup-delete}
use go_amqp.Frames.Performatives.{Disposition, disposition}
use go_amqp.Session.{Mux, Action, to_link, settles, frame_to}
use go_amqp.Session.Dispose.{
  handles_for, forget, confirm, settle, dispose_found, dispose, dispose_loop, last_of,
  on_disposition,
}

-- The loop ends when the last id is not the largest uint32: as many rounds as there are ids, and
-- one.
dispose_loop-total :
    (fuel : ℕ) (body : Disposition) (id last : ℕ) (s : Mux) (sent : List Action)
    → last < 2 ^ 32 - 1
    → IsU32 id
    → last + 1 < id + fuel
    → 0 < fuel
    → (r : Mux × List Action) × (dispose_loop fuel body id last s sent ≡ some r)
unfolding dispose_loop
dispose_loop-total zero body id last s sent h hi hf p = absurd (omega arith)
dispose_loop-total (suc fuel) body id last s sent h hi hf p = elim (Bool-cases (ltb last id)) [
  | inl e ↦ ((s, sent), rw e refl)
  | inr e ↦
      let (s', more) = dispose body id s in
      rw e (
        dispose_loop-total fuel body (add32 id 1) last s' (sent ++ more) h (omega arith)
          (ground arith) (ground arith))
]

-- A disposition whose last id is below 2 ^ 32 - 1 is worked off, with two rounds more than the
-- distance from the first id to the last.
pub on_disposition-total :
    (body : Disposition) (s : Mux)
    → IsU32 body.first
    → last_of body body.last < 2 ^ 32 - 1
    → (r : Mux × List Action) × (on_disposition (2 + (last_of body body.last - body.first)) body s
        ≡ some r)
unfolding on_disposition
on_disposition-total body s hf hl =
    dispose_loop-total (2 + (last_of body body.last - body.first)) body body.first
      (last_of body body.last) s [] hl hf (omega arith) (omega arith)

-- The counter wraps: a disposition whose last id is the largest uint32 is never worked off,
-- whatever its first id and however many rounds the loop is given. The mux does not come back.
pub on_disposition_endless :
    (fuel : ℕ) (body : Disposition) (s : Mux)
    → IsU32 body.first
    → last_of body body.last ≡ 2 ^ 32 - 1
    → on_disposition fuel body s ≡ none
unfolding on_disposition
on_disposition_endless fuel body s hf hl =
    endless fuel body body.first (last_of body body.last) s [] hf hl
  where
    endless :
        (fuel : ℕ) (body : Disposition) (id last : ℕ) (s : Mux) (sent : List Action)
        → IsU32 id
        → last ≡ 2 ^ 32 - 1
        → dispose_loop fuel body id last s sent ≡ none
    endless zero body id last s sent h e = refl
    endless (suc fuel) body id last s sent h e =
        let goes : ltb last id ≡ false = ground arith in
        let (s', more) = dispose body id s in
        rw goes (endless fuel body (add32 id 1) last s' (sent ++ more) (omega arith) e)

confirm_handles :
    (body : Disposition) (id : ℕ) (o : Option ℕ) (s : Mux) (role : Bool)
    → (handles_for role (confirm body id o s).0 ≡ handles_for role s)
      × ((confirm body id o s).0.links ≡ s.links)
confirm_handles body id none s role = (refl, refl)
confirm_handles body id (some c) s true = (refl, refl)
confirm_handles body id (some c) s false = (refl, refl)

settle_handles :
    (body : Disposition) (id : ℕ) (s : Mux) (role : Bool)
    → (handles_for role (settle body id s).0 ≡ handles_for role s)
      × ((settle body id s).0.links ≡ s.links)
settle_handles body id s role = elim (Bool-cases (body.settled && body.role)) [
  | inl e ↦ rw e (confirm_handles body id (lookup id s.settlement_by_delivery_id) s role)
  | inr e ↦ rw e (refl, refl)
]

lookup-forget :
    (role : Bool) (id j : ℕ) (s : Mux)
    → lookup j (handles_for role (forget role id s))
      ≡ (if id == j then none else lookup j (handles_for role s))
lookup-forget true id j s = lookup-delete id j s.handles_by_delivery_id
lookup-forget false id j s = lookup-delete id j s.handles_by_remote_delivery_id

dispose_found_handles :
    (body : Disposition) (id j : ℕ) (o : Option ℕ) (s : Mux)
    → lookup id (handles_for body.role s) ≡ o
    → lookup j (handles_for body.role (dispose_found body id o s).0)
      ≡ (if id == j then none else lookup j (handles_for body.role s))
dispose_found_handles body id j none s e = elim (Bool-cases (id == j)) [
  | inl q ↦ let same : id ≡ j = ground arith in rw (q, ← same) e
  | inr q ↦ rw q refl
]
dispose_found_handles body id j (some h) s e =
    ap (lookup j) (settle_handles body id (forget body.role id s) body.role).0
    ∙ lookup-forget body.role id j s

-- One round forgets its id and no other.
lookup-dispose :
    (body : Disposition) (id j : ℕ) (s : Mux)
    → lookup j (handles_for body.role (dispose body id s).0)
      ≡ (if id == j then none else lookup j (handles_for body.role s))
unfolding dispose
lookup-dispose body id j s =
    dispose_found_handles body id j (lookup id (handles_for body.role s)) s refl

range_step :
    (id last j : ℕ) (a b : Option ℕ)
    → a ≡ (if id == j then none else b)
    → last < 2 ^ 32 - 1
    → ltb last id ≡ false
    → (if leb (add32 id 1) j && leb j last then none else a)
      ≡ (if leb id j && leb j last then none else b)
range_step id last j a b e h p = ground arith

dispose_loop_handles :
    (fuel : ℕ) (body : Disposition) (id last j : ℕ) (s s' : Mux) (sent out : List Action)
    → last < 2 ^ 32 - 1
    → IsU32 id
    → dispose_loop fuel body id last s sent ≡ some (s', out)
    → lookup j (handles_for body.role s')
      ≡ (if leb id j && leb j last then none else lookup j (handles_for body.role s))
unfolding dispose_loop
dispose_loop_handles zero body id last j s s' sent out h hi e = cc
dispose_loop_handles (suc fuel) body id last j s s' sent out h hi e =
    let (s₁, more) = dispose body id s in
    elim (Bool-cases (ltb last id)) [
      | inl p ↦
          let same : s' ≡ s = cc (rw p at e) in
          let outside : leb id j && leb j last ≡ false = ground arith in rw (same, outside) refl
      | inr p ↦
          let later : dispose_loop fuel body (add32 id 1) last s₁ (sent ++ more) ≡ some (s', out) =
            rw p at e in
          dispose_loop_handles fuel body (add32 id 1) last j s₁ s' (sent ++ more) out h
            (omega arith) later
          ∙ range_step id last j (lookup j (handles_for body.role s₁))
              (lookup j (handles_for body.role s)) (lookup-dispose body id j s) h p
    ]

handles_for-forget_other :
    (role : Bool) (id : ℕ) (s : Mux)
    → handles_for (not role) (forget role id s) ≡ handles_for (not role) s
handles_for-forget_other true id s = refl
handles_for-forget_other false id s = refl

dispose_found_other :
    (body : Disposition) (id : ℕ) (o : Option ℕ) (s : Mux)
    → handles_for (not body.role) (dispose_found body id o s).0 ≡ handles_for (not body.role) s
dispose_found_other body id none s = refl
dispose_found_other body id (some h) s =
    (settle_handles body id (forget body.role id s) (not body.role)).0
    ∙ handles_for-forget_other body.role id s

-- The deliveries of the other side stay as they are.
dispose_loop_other :
    (fuel : ℕ) (body : Disposition) (id last : ℕ) (s s' : Mux) (sent out : List Action)
    → dispose_loop fuel body id last s sent ≡ some (s', out)
    → handles_for (not body.role) s' ≡ handles_for (not body.role) s
unfolding dispose_loop dispose
dispose_loop_other zero body id last s s' sent out e = cc
dispose_loop_other (suc fuel) body id last s s' sent out e =
    let (s₁, more) = dispose body id s in
    elim (Bool-cases (ltb last id)) [
      | inl p ↦ let same : s' ≡ s = cc (rw p at e) in rw same refl
      | inr p ↦
          dispose_loop_other fuel body (add32 id 1) last s₁ s' (sent ++ more) out (rw p at e)
          ∙ dispose_found_other body id (lookup id (handles_for body.role s)) s
    ]

-- When the session has worked off a disposition whose last id is below 2 ^ 32 - 1, it has forgotten
-- the deliveries from its first id to its last, on the side that its role names, and remembers all
-- others of that side and every one of the other side.
pub on_disposition_forgets :
    (fuel : ℕ) (body : Disposition) (j : ℕ) (s s' : Mux) (out : List Action)
    → last_of body body.last < 2 ^ 32 - 1
    → IsU32 body.first
    → on_disposition fuel body s ≡ some (s', out)
    → (lookup j (handles_for body.role s') ≡ (
        if leb body.first j && leb j (last_of body body.last)
        then none
        else lookup j (handles_for body.role s)))
      × (handles_for (not body.role) s' ≡ handles_for (not body.role) s)
unfolding on_disposition
on_disposition_forgets fuel body j s s' out h hf e = (
  dispose_loop_handles fuel body body.first (last_of body body.last) j s s' [] out h hf e,
  dispose_loop_other fuel body body.first (last_of body body.last) s s' [] out e,
)

-- The session after a settlement by the receiver.
abbrev settled_mux : ℕ → Mux → Mux
settled_mux id s = record s {
  handles_by_delivery_id = delete id s.handles_by_delivery_id;
  settlement_by_delivery_id = delete id s.settlement_by_delivery_id;
}

dispose_settled :
    (body : Disposition) (id h c l : ℕ) (s : Mux)
    → body.role ≡ true
    → body.settled ≡ true
    → lookup id s.handles_by_delivery_id ≡ some h
    → lookup id s.settlement_by_delivery_id ≡ some c
    → lookup h s.links ≡ some l
    → dispose body id s
      ≡ (settled_mux id s, settles c body.state ∷ to_link l (disposition body) ∷ [])
unfolding dispose
dispose_settled body id h c l s role settled found waits known =
    let open_ : lookup id (handles_for body.role s) ≡ some h =
      ap (λ (r : Bool). lookup id (handles_for r s)) role ∙ found in
    let both : body.settled && body.role ≡ true = ap₂ ◌&&◌ settled role in
    let gone : forget body.role id s ≡ forget true id s = ap (λ (r : Bool). forget r id s) role in
    let paid : settle body id (forget true id s) ≡ (settled_mux id s, settles c body.state ∷ []) =
      rw (both, waits) refl in
    ap (λ (o : Option ℕ). dispose_found body id o s) open_
    ∙ ap (finish body) (ap (settle body id) gone ∙ paid)
    ∙ ap
        (λ (o : Option ℕ). (settled_mux id s, settles c body.state ∷ frame_to o (disposition body)))
        known
  where
    finish : Disposition → Mux × List Action → Mux × List Action
    finish body (s', sent) = (s', sent ++ frame_to (lookup h s'.links) (disposition body))

-- When the receiver settles a delivery of a known link that a sender waits on, the sender's
-- channel gets the state and is closed, then the link gets the frame; afterwards neither the
-- delivery nor the channel is remembered, and the same settlement once more does nothing.
pub dispose_settles_once :
    (body : Disposition) (id h c l : ℕ) (s : Mux)
    → body.role ≡ true
    → body.settled ≡ true
    → lookup id s.handles_by_delivery_id ≡ some h
    → lookup id s.settlement_by_delivery_id ≡ some c
    → lookup h s.links ≡ some l
    → ((dispose body id s).1 ≡ settles c body.state ∷ to_link l (disposition body) ∷ [])
      × (lookup id (dispose body id s).0.settlement_by_delivery_id ≡ none)
      × (dispose body id (dispose body id s).0 ≡ ((dispose body id s).0, []))
unfolding dispose
dispose_settles_once body id h c l s role settled found waits known =
    let first = dispose_settled body id h c l s role settled found waits known in
    let forgotten : lookup id (delete id s.handles_by_delivery_id) ≡ none =
      lookup-delete id id s.handles_by_delivery_id ∙ rw (eq→== id id refl) refl in
    let paid : lookup id (delete id s.settlement_by_delivery_id) ≡ none =
      lookup-delete id id s.settlement_by_delivery_id ∙ rw (eq→== id id refl) refl in
    let nothing : lookup id (handles_for body.role (settled_mux id s)) ≡ none =
      ap (λ (r : Bool). lookup id (handles_for r (settled_mux id s))) role ∙ forgotten in
    rw first (refl, paid, ap (λ (o : Option ℕ). dispose_found body id o (settled_mux id s)) nothing)
