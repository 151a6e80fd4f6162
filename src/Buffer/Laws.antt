-- ===== src/Buffer/Laws.antt =====
-- The buffer as a queue of bytes: what is unread after each operation, and the invariant.
use go_amqp.Base.{
  ℕ, ◌≤◌, ◌≡◌, refl, sym, List, ◌++◌, arith, length, drop, ltb, length-append, length-drop,
  drop-append, drop-drop, append_assoc, append-nil, [],
}
use go_amqp.Buffer.{Buffer, new, unread, advance, reclaim, len, append, beyond}

-- The position is within the bytes.
abbrev pub IsValid : Buffer → Type 0
IsValid b = b.pos ≤ length b.bytes

pub new-IsValid : (xs : List ℕ) → IsValid (new xs)
unfolding new
new-IsValid xs = omega arith

pub unread-new : (xs : List ℕ) → unread (new xs) ≡ xs
unfolding unread new
unread-new xs = refl

-- `Len` counts what is unread.
pub len-unread : (b : Buffer) → len b ≡ length (unread b)
unfolding len unread
len-unread b = sym (length-drop b.pos b.bytes)

pub append-IsValid : (b : Buffer) (p : List ℕ) → IsValid b → IsValid (append p b)
unfolding append
append-IsValid b p v = omega (arith, length-append b.bytes p)

pub unread-append : (b : Buffer) (p : List ℕ) → IsValid b → unread (append p b) ≡ unread b ++ p
unfolding unread append
unread-append b p v = drop-append b.pos b.bytes p v

pub append-append : (b : Buffer) (p q : List ℕ) → append q (append p b) ≡ append (p ++ q) b
unfolding append
append-append b p q = λ i. record { bytes = append_assoc b.bytes p q i; pos = b.pos }

-- Reclaiming space keeps what is unread.
pub unread-reclaim : (b : Buffer) → unread (reclaim b) ≡ unread b
unfolding unread reclaim
unread-reclaim b = refl

-- There are as many bytes from the position on as are unread.
pub beyond-unread : (b : Buffer) (n : ℕ) → IsValid b → beyond b n ≡ ltb (length (unread b)) n
unfolding unread
beyond-unread b n v = ground (arith, length-drop b.pos b.bytes)

pub advance-IsValid :
    (b : Buffer) (n : ℕ) → IsValid b → n ≤ length (unread b) → IsValid (advance n b)
unfolding unread
advance-IsValid b n v h = omega (arith, length-drop b.pos b.bytes)

pub unread-advance : (b : Buffer) (n : ℕ) → unread (advance n b) ≡ drop n (unread b)
unfolding unread
unread-advance b n = sym (drop-drop b.pos n b.bytes)

pub append_nothing : (b : Buffer) → append [] b ≡ b
unfolding append
append_nothing b = λ i. record { bytes = append-nil b.bytes i; pos = b.pos }
