-- ===== src/Bitmap/Alloc.antt =====
-- What a caller of `next` relies on: the statements about the number handed out, about a refusal,
-- and that the invariant is kept.
use go_amqp.Base.{
  ℕ, ◌+◌, ◌-◌, ◌*◌, ◌%◌, ◌^◌, ◌≤◌, ◌≡◌, ◌≢◌, refl, true, false, ◌&&◌, ◌||◌, not, Option, none, some,
  [], ◌∷◌, arith, length, ltb, ◌==◌, Bool-cases, inl, inr, ◌⊎◌, length-append, length-set,
}
use go_amqp.Base.Bits.{bit_or-lt, trailing_zeros, trailing_zeros-complement}
use go_amqp.Bitmap.{Bitmap, next, first_open, take_open, append_word, at_open, contains, remove}
use go_amqp.Bitmap.Valid.{
  IsWord, IsValid, set-IsWord, append-IsWord, get_or-IsWord, pow-lt, remove-IsValid,
}
use go_amqp.Bitmap.Next.{NextResult, next-NextResult, Finds, first_open-Finds}
use go_amqp.Bitmap.Laws.{contains-remove}

-- On a valid bitmap, when `next` hands out `n`: `n` is at most the maximum and was free, every
-- number `m` below it was taken, and afterwards exactly `n` is taken besides what was.
pub next_free :
    (b b' : Bitmap) (n m : ℕ)
    → IsValid b
    → next b ≡ (b', n, true)
    → (n ≤ b.max)
      × (contains b n ≡ false)
      × (ltb m n && not (contains b m) ≡ false)
      × (contains b' m ≡ (n == m) || contains b m)
next_free b b' n m valid e =
    let (small, free, below, after) = e_at in (small, free, lower (Bool-cases (ltb m n)), after m)
  where
    e_at : NextResult b (b', n, true)
    e_at = rw e at (next-NextResult b valid)

    lower : (ltb m n ≡ true) ⊎ (ltb m n ≡ false) → ltb m n && not (contains b m) ≡ false
    lower (inl h) = rw (h, e_at.2 m (ground arith)) refl
    lower (inr h) = rw h refl

-- On a valid bitmap, when `next` refuses, every number up to the maximum is taken and the bitmap
-- is unchanged.
pub next_refuses :
    (b b' : Bitmap) (n m : ℕ)
    → IsValid b
    → next b ≡ (b', n, false)
    → m ≤ b.max
    → (b' ≡ b) × (contains b m ≡ true)
next_refuses b b' n m valid e h = (refused.0, refused.1 m h)
  where
    refused : NextResult b (b', n, false)
    refused = rw e at (next-NextResult b valid)

take_open-IsValid :
    (b : Bitmap) (i v : ℕ) → IsValid b → IsWord v → v ≢ 2 ^ 64 - 1 → IsValid (take_open b i v).0
unfolding take_open
take_open-IsValid b i v valid word open_ =
    elim (Bool-cases (ltb b.max ((i * 64 + trailing_zeros 64 (2 ^ 64 - 1 - v)) % 2 ^ 32))) [
      | inl e ↦ rw e valid
      | inr e ↦
          let offset = trailing_zeros 64 (2 ^ 64 - 1 - v) in
          rw e (record {
            max_fits = valid.max_fits;
            words =
                set-IsWord b.bits i _
                  (bit_or-lt 64 v (2 ^ offset) word
                    (pow-lt 64 offset (trailing_zeros-complement 64 v word open_).0))
                  valid.words;
            in_range = rw length-set valid.in_range;
          })
    ]

append_word-IsValid : (b : Bitmap) → IsValid b → IsValid (append_word b).0
unfolding append_word
append_word-IsValid b valid = elim (Bool-cases (ltb b.max (length b.bits * 64 % 2 ^ 64))) [
  | inl e ↦ rw e valid
  | inr e ↦ rw e (record {
    max_fits = valid.max_fits;
    words = append-IsWord b.bits (1 ∷ []) valid.words (omega arith, tt);
    in_range =
        ground (arith, valid.in_range, valid.max_fits, length-append {A = ℕ} b.bits (1 ∷ []));
  })
]

-- `next` keeps a bitmap valid.
pub next-IsValid : (b : Bitmap) → IsValid b → IsValid (next b).0
unfolding next at_open
next-IsValid b valid = step (first_open 0 b.bits) (first_open-Finds 0 b.bits)
  where
    step : (r : Option (ℕ × ℕ)) → Finds 0 b.bits r → IsValid (at_open b r).0
    step none h = append_word-IsValid b valid
    step (some (j, v)) (d, at, inside, word, open_, below) =
        take_open-IsValid b j v valid (rw (← word) (get_or-IsWord b.bits d valid.words)) open_

-- When `n` is removed from a valid bitmap and `next` then hands out `m`, `m` is at most `n`, if `n`
-- is in range: a number that was given back is not passed over.
pub next-remove :
    (b b' : Bitmap) (n m : ℕ) → IsValid b → n ≤ b.max → next (remove b n) ≡ (b', m, true) → m ≤ n
next-remove b b' n m valid h e = elim (Bool-cases (ltb n m)) [
  | inl lt ↦
      let (_, _, taken, _) = next_free (remove b n) b' m n (remove-IsValid b n valid) e in
      let gone : contains (remove b n) n ≡ false = rw contains-remove (ground arith) in
      absurd (contradiction lt gone taken)
  | inr ge ↦ ground arith
]
  where
    contradiction :
        ltb n m ≡ true
        → contains (remove b n) n ≡ false
        → ltb n m && not (contains (remove b n) n) ≡ false
        → ⊥
    contradiction p q r = ground arith
