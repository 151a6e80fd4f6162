-- ===== src/Bitmap/Valid.antt =====
-- The invariant of a bitmap: its maximum is a uint32, its words are uint64s, and there are no more
-- words than the maximum calls for, so `uint32(i*64 + offset)` does not wrap.
use go_amqp.Base.{
  ℕ, zero, suc, ◌+◌, ◌-◌, ◌/◌, ◌%◌, ◌^◌, ◌≤◌, ◌<◌, List, [], ◌∷◌, ◌++◌, arith, length, get_or, set,
  replicate, All, IsU32, leb, ltb, length-set, length-append, length-replicate, Bool-cases, inl,
  inr, ◌≡◌, refl, Option, none, some, ◌*◌,
}
use Prim.Native.Nat.{bit_or, bit_and}
use go_amqp.Base.Bits.{bit_or-lt, bit_and-lt}
use go_amqp.Bitmap.{
  Bitmap, new, add, remove, expanded, next, at_open, append_word, take_open, first_open,
  trailing_zeros,
}
use native.Mathlib.Nat.{pow-suc, one-le-pow}

abbrev pub IsWord : ℕ → Type 0
IsWord w = w < 2 ^ 64

pub record IsValid (b : Bitmap) : Type 0 where
  pub max_fits : IsU32 b.max
  pub words : All IsWord b.bits
  pub in_range : length b.bits ≤ b.max / 64 + 1

pub get_or-IsWord : (ws : List ℕ) (i : ℕ) → All IsWord ws → IsWord (get_or ws i 0)
get_or-IsWord [] i h = omega arith
get_or-IsWord (w ∷ ws) zero h = h.0
get_or-IsWord (w ∷ ws) (suc i) h = get_or-IsWord ws i h.1

pub set-IsWord : (ws : List ℕ) (i v : ℕ) → IsWord v → All IsWord ws → All IsWord (set ws i v)
set-IsWord [] i v hv h = h
set-IsWord (w ∷ ws) zero v hv h = (hv, h.1)
set-IsWord (w ∷ ws) (suc i) v hv h = (h.0, set-IsWord ws i v hv h.1)

pub append-IsWord : (xs ys : List ℕ) → All IsWord xs → All IsWord ys → All IsWord (xs ++ ys)
append-IsWord [] ys hx hy = hy
append-IsWord (x ∷ xs) ys hx hy = (hx.0, append-IsWord xs ys hx.1 hy)

replicate-IsWord : (n : ℕ) → All IsWord (replicate n 0)
replicate-IsWord zero = tt
replicate-IsWord (suc n) = (omega arith, replicate-IsWord n)

pub pow-lt : (n k : ℕ) → k < n → 2 ^ k < 2 ^ n
pow-lt zero k h = absurd (omega arith)
pow-lt (suc n) zero h = omega (arith, pow-suc 2 n, one-le-pow n 2)
pow-lt (suc n) (suc k) h = omega (arith, pow-suc 2 n, pow-suc 2 k, pow-lt n k (omega arith))

expanded-IsWord : (bits : List ℕ) (idx : ℕ) → All IsWord bits → All IsWord (expanded bits idx)
expanded-IsWord bits idx h = elim (Bool-cases (leb (length bits) idx)) [
  | inl e ↦ rw e (append-IsWord bits _ h (replicate-IsWord _))
  | inr e ↦ rw e h
]

pub length-expanded :
    (bits : List ℕ) (idx : ℕ)
    → (idx < length (expanded bits idx))
      × (length (expanded bits idx) ≤ length bits + (idx + 1 - length bits))
length-expanded bits idx = ground (
  arith,
  length-append bits (replicate (idx - length bits + 1) 0),
  length-replicate {A = ℕ} (idx - length bits + 1) 0,
)

pub new-IsValid : (max : ℕ) → IsU32 max → IsValid (new max)
unfolding new
new-IsValid max h = record { max_fits = h; words = tt; in_range = omega arith }

pub add-IsValid : (b : Bitmap) (n : ℕ) → IsValid b → IsValid (add b n)
unfolding add
add-IsValid b n v = elim (Bool-cases (ltb b.max n)) [
  | inl e ↦ rw e v
  | inr e ↦
      let ws = expanded b.bits (n / 64) in
      let grown : All IsWord ws = expanded-IsWord b.bits (n / 64) v.words in
      let small : n ≤ b.max = ground arith in
      rw e (record {
        max_fits = v.max_fits;
        words =
            set-IsWord ws (n / 64) _
              (bit_or-lt 64 _ _ (get_or-IsWord ws (n / 64) grown)
                (pow-lt 64 (n % 64) (omega arith)))
              grown;
        in_range = omega (
          arith,
          v.in_range,
          length-set ws (n / 64) (bit_or (get_or ws (n / 64) 0) (2 ^ (n % 64))),
          length-expanded b.bits (n / 64),
        );
      })
]

pub remove-IsValid : (b : Bitmap) (n : ℕ) → IsValid b → IsValid (remove b n)
unfolding remove
remove-IsValid b n v = elim (Bool-cases (leb (length b.bits) (n / 64))) [
  | inl e ↦ rw e v
  | inr e ↦ rw e (record {
    max_fits = v.max_fits;
    words =
        set-IsWord b.bits (n / 64) _ (bit_and-lt 64 _ _ (get_or-IsWord b.bits (n / 64) v.words))
          v.words;
    in_range = omega (
      arith,
      v.in_range,
      length-set b.bits (n / 64) (bit_and (get_or b.bits (n / 64) 0) (2 ^ 64 - 1 - 2 ^ (n % 64))),
    );
  })
]

-- The maximum of a bitmap does not change.
at_open-max : (b : Bitmap) (r : Option (ℕ × ℕ)) → (at_open b r).0.max ≡ b.max
unfolding at_open append_word take_open
at_open-max b none = elim (Bool-cases (ltb b.max (length b.bits * 64 % 2 ^ 64))) [
  | inl e ↦ rw e refl
  | inr e ↦ rw e refl
]
at_open-max b (some (i, v)) =
    elim (Bool-cases (ltb b.max ((i * 64 + trailing_zeros 64 (2 ^ 64 - 1 - v)) % 2 ^ 32))) [
      | inl e ↦ rw e refl
      | inr e ↦ rw e refl
    ]

pub next-max : (b : Bitmap) → (next b).0.max ≡ b.max
unfolding next
next-max b = at_open-max b (first_open 0 b.bits)

pub remove-max : (b : Bitmap) (n : ℕ) → (remove b n).max ≡ b.max
unfolding remove
remove-max b n = elim (Bool-cases (leb (length b.bits) (n / 64))) [
  | inl e ↦ rw e refl
  | inr e ↦ rw e refl
]
