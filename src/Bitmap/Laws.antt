-- ===== src/Bitmap/Laws.antt =====
-- What a bitmap holds after `new`, `add` and `remove`, as a set of numbers.
use Prim.Native.Nat.{bit_and, bit_or}
use go_amqp.Base.{
  ℕ, zero, suc, ◌+◌, ◌-◌, ◌/◌, ◌%◌, ◌^◌, ◌≤◌, ◌<◌, ◌≡◌, ◌≢◌, refl, ◌∙◌, ap, Bool, true, false, ◌&&◌,
  ◌||◌, not, List, [], ◌∷◌, ◌++◌, arith, length, get_or, set, replicate, leb, ltb, ◌==◌, Bool-cases,
  inl, inr, ne→==,
}
use go_amqp.Base.Bits.{bit, bit-bit_and, bit-bit_or, bit-pow, bit-complement, bit-zero}
use go_amqp.Bitmap.{Bitmap, new, add, remove, contains, expanded}
use go_amqp.Bitmap.Valid.{length-expanded, pow-lt}
use native.Mathlib.Decide.{ℕ_discrete}

pub get_or-set_self : (ws : List ℕ) (i v : ℕ) → i < length ws → get_or (set ws i v) i 0 ≡ v
get_or-set_self [] i v h = absurd (omega arith)
get_or-set_self (w ∷ ws) zero v h = refl
get_or-set_self (w ∷ ws) (suc i) v h = get_or-set_self ws i v (omega arith)

pub get_or-set_ne : (ws : List ℕ) (i j v : ℕ) → i ≢ j → get_or (set ws i v) j 0 ≡ get_or ws j 0
get_or-set_ne [] i j v h = refl
get_or-set_ne (w ∷ ws) zero zero v h = absurd (h refl)
get_or-set_ne (w ∷ ws) zero (suc j) v h = refl
get_or-set_ne (w ∷ ws) (suc i) zero v h = refl
get_or-set_ne (w ∷ ws) (suc i) (suc j) v h = get_or-set_ne ws i j v (λ e. h (ap suc e))

get_or-replicate : (n j : ℕ) → get_or {A = ℕ} (replicate n 0) j 0 ≡ 0
get_or-replicate zero j = refl
get_or-replicate (suc n) zero = refl
get_or-replicate (suc n) (suc j) = get_or-replicate n j

get_or-append_zeros : (ws : List ℕ) (n j : ℕ) → get_or (ws ++ replicate n 0) j 0 ≡ get_or ws j 0
get_or-append_zeros [] n j = get_or-replicate n j
get_or-append_zeros (w ∷ ws) n zero = refl
get_or-append_zeros (w ∷ ws) n (suc j) = get_or-append_zeros ws n j

-- Growing the words changes no bit.
get_or-expanded : (ws : List ℕ) (i j : ℕ) → get_or (expanded ws i) j 0 ≡ get_or ws j 0
get_or-expanded ws i j = elim (Bool-cases (leb (length ws) i)) [
  | inl e ↦ rw e (get_or-append_zeros ws (i - length ws + 1) j)
  | inr e ↦ rw e refl
]

get_or-above : (ws : List ℕ) (i : ℕ) → length ws ≤ i → get_or ws i 0 ≡ 0
get_or-above [] i h = refl
get_or-above (w ∷ ws) zero h = absurd (omega arith)
get_or-above (w ∷ ws) (suc i) h = get_or-above ws i (omega arith)

-- Two numbers are equal when their words and their offsets are.
same_place : (n m : ℕ) → n / 64 ≡ m / 64 → (n % 64 == m % 64) ≡ (n == m)
same_place n m h = ground arith

other_word : (n m : ℕ) → n / 64 ≢ m / 64 → (n == m) ≡ false
other_word n m h = ground arith

-- One word is written, and one bit of it set.
pub bit-set_or :
    (ws : List ℕ) (n m : ℕ)
    → n / 64 < length ws
    → bit
        (get_or (set ws (n / 64) (bit_or (get_or ws (n / 64) 0) (2 ^ (n % 64)))) (m / 64) 0)
        (m % 64)
      ≡ (n == m) || bit (get_or ws (m / 64) 0) (m % 64)
bit-set_or ws n m h = elim (ℕ_discrete (n / 64) (m / 64)) [
  | yes e ↦
      rw (← e, get_or-set_self ws (n / 64) _ h, bit-bit_or, bit-pow, same_place n m e)
        (or_comm (bit (get_or ws (n / 64) 0) (m % 64)) (n == m))
  | no d ↦ rw (get_or-set_ne ws (n / 64) (m / 64) _ d, other_word n m d) refl
]
  where
    or_comm : (a b : Bool) → a || b ≡ b || a
    or_comm a b = ground arith

-- A new bitmap is empty.
pub contains-new : (max n : ℕ) → contains (new max) n ≡ false
unfolding contains new
contains-new max n = bit-zero (n % 64)

-- `add` puts its number into the set, if it is at most the maximum, and nothing else.
pub contains-add :
    (b : Bitmap) (n m : ℕ) → contains (add b n) m ≡ (leb n b.max && (n == m)) || contains b m
unfolding contains add
contains-add b n m = elim (Bool-cases (ltb b.max n)) [
  | inl e ↦ let above : leb n b.max ≡ false = ground arith in rw (e, above) refl
  | inr e ↦
      let within : leb n b.max ≡ true = ground arith in
      rw (e, within)
        (bit-set_or (expanded b.bits (n / 64)) n m (length-expanded b.bits (n / 64)).0
          ∙ rw (get_or-expanded b.bits (n / 64) (m / 64)) refl)
]

-- The mask of `remove` keeps every bit but one.
bit-mask : (k j : ℕ) → k < 64 → j < 64 → bit (2 ^ 64 - 1 - 2 ^ k) j ≡ not (k == j)
bit-mask k j hk hj = rw (bit-complement 64 (2 ^ k) j (pow-lt 64 k hk) hj, bit-pow) refl

pub bit-set_and :
    (ws : List ℕ) (n m : ℕ)
    → n / 64 < length ws
    → bit
        (get_or
          (set ws (n / 64) (bit_and (get_or ws (n / 64) 0) (2 ^ 64 - 1 - 2 ^ (n % 64))))
          (m / 64)
          0)
        (m % 64)
      ≡ not (n == m) && bit (get_or ws (m / 64) 0) (m % 64)
bit-set_and ws n m h = elim (ℕ_discrete (n / 64) (m / 64)) [
  | yes e ↦
      rw
        (
          ← e,
          get_or-set_self ws (n / 64) _ h,
          bit-bit_and,
          bit-mask (n % 64) (m % 64) (omega arith) (omega arith),
          same_place n m e,
        )
        (and_comm (bit (get_or ws (n / 64) 0) (m % 64)) (not (n == m)))
  | no d ↦ rw (get_or-set_ne ws (n / 64) (m / 64) _ d, other_word n m d) refl
]
  where
    and_comm : (a b : Bool) → a && b ≡ b && a
    and_comm a b = ground arith

-- A word that is not there holds nothing.
absent : (ws : List ℕ) (n : ℕ) → length ws ≤ n / 64 → bit (get_or ws (n / 64) 0) (n % 64) ≡ false
absent ws n h = rw (get_or-above ws (n / 64) h) (bit-zero (n % 64))

-- `remove` takes its number out of the set, and nothing else.
pub contains-remove :
    (b : Bitmap) (n m : ℕ) → contains (remove b n) m ≡ not (n == m) && contains b m
unfolding contains remove
contains-remove b n m = elim (Bool-cases (leb (length b.bits) (n / 64))) [
  | inl e ↦ elim (ℕ_discrete n m) [
    | yes q ↦
        let gone : bit (get_or b.bits (m / 64) 0) (m % 64) ≡ false =
          absent b.bits m (ground arith) in
        rw (e, gone) (ground arith)
    | no d ↦ let apart : (n == m) ≡ false = ne→== n m d in rw (e, apart) refl
  ]
  | inr e ↦ rw e (bit-set_and b.bits n m (ground arith))
]
