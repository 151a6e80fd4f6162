-- ===== src/Bitmap/Next.antt =====
-- `next` hands out the lowest free number, or reports that the whole range is taken.
use Prim.Native.Nat.{bit_or}
use go_amqp.Base.{
  ℕ, zero, suc, ◌+◌, ◌-◌, ◌*◌, ◌/◌, ◌%◌, ◌^◌, ◌≤◌, ◌<◌, ◌≡◌, ◌≢◌, refl, sym, ◌∙◌, Bool, true, false,
  ◌||◌, Option, none, some, List, [], ◌∷◌, ◌++◌, arith, length, get_or, set, ltb, ◌==◌,
  if◌then◌else◌, Bool-cases, inl, inr,
}
use go_amqp.Base.Bits.{
  bit, bit-full, bit-pow, bit-zero, trailing_zeros, trailing_zeros-complement, below-trailing_zeros,
}
use go_amqp.Bitmap.{Bitmap, next, first_open, take_open, append_word, at_open, contains}
use go_amqp.Bitmap.Valid.{IsWord, IsValid, get_or-IsWord}
use go_amqp.Bitmap.Laws.{bit-set_or}
use native.Mathlib.Decide.{dec_lt}

abbrev pub full : ℕ
full = 2 ^ 64 - 1

-- Every word before place `d` is full.
abbrev pub FullBelow : List ℕ → ℕ → Type 0
FullBelow ws d = (k : ℕ) → k < d → get_or ws k 0 ≡ full

abbrev pub Finds : ℕ → List ℕ → Option (ℕ × ℕ) → Type 0
Finds i ws none = FullBelow ws (length ws)
Finds i ws (some (j, v)) =
    (d : ℕ) × (j ≡ i + d) × (d < length ws) × (get_or ws d 0 ≡ v) × (v ≢ full) × FullBelow ws d

later_full : (w : ℕ) (ws : List ℕ) (d : ℕ) → w ≡ full → FullBelow ws d → FullBelow (w ∷ ws) (suc d)
later_full w ws d e h zero k = e
later_full w ws d e h (suc k) hk = h k (omega arith)

shift_Finds :
    (i w : ℕ) (ws : List ℕ) (r : Option (ℕ × ℕ))
    → w ≡ full
    → Finds (i + 1) ws r
    → Finds i (w ∷ ws) r
shift_Finds i w ws none e h = later_full w ws (length ws) e h
shift_Finds i w ws (some (j, v)) e (d, at, inside, word, open_, below) =
    (suc d, omega arith, omega arith, word, open_, later_full w ws d e below)

pub first_open-Finds : (i : ℕ) (ws : List ℕ) → Finds i ws (first_open i ws)
unfolding first_open
first_open-Finds i [] = λ k h. absurd (omega arith)
first_open-Finds i (w ∷ ws) = elim (Bool-cases (w == full)) [
  | inl e ↦
      rw e (shift_Finds i w ws (first_open (i + 1) ws) (ground arith) (first_open-Finds (i + 1) ws))
  | inr e ↦
      rw e (0, omega arith, omega arith, refl, (λ h. ground arith), λ k h. absurd (omega arith))
]

-- What `next` promises: the number is in range, was free, is the lowest such, and is now taken,
-- all others being as they were; or every number in range is taken and nothing changes.
abbrev pub NextResult : Bitmap → Bitmap × ℕ × Bool → Type 0
NextResult b (b', n, true) =
    (n ≤ b.max)
    × (contains b n ≡ false)
    × ((m : ℕ) → m < n → contains b m ≡ true)
    × ((m : ℕ) → contains b' m ≡ (n == m) || contains b m)
NextResult b (b', n, false) = (b' ≡ b) × ((m : ℕ) → m ≤ b.max → contains b m ≡ true)

-- All numbers of full words are taken.
full_contains : (b : Bitmap) (d m : ℕ) → FullBelow b.bits d → m / 64 < d → contains b m ≡ true
unfolding contains
full_contains b d m h lt = rw (h (m / 64) lt) (bit-full 64 (m % 64) (omega arith))

-- The number in word `d` at which `next` stops.
lowest : ℕ → ℕ → ℕ
lowest d v = d * 64 + trailing_zeros 64 (2 ^ 64 - 1 - v)

-- It does not wrap.
lowest-lt :
    (b : Bitmap) (d v : ℕ)
    → IsValid b
    → d < length b.bits
    → IsWord v
    → v ≢ full
    → (lowest d v % 2 ^ 32 ≡ lowest d v)
      × (lowest d v / 64 ≡ d)
      × (lowest d v % 64 ≡ trailing_zeros 64 (2 ^ 64 - 1 - v))
unfolding lowest
lowest-lt b d v valid inside word open_ =
    omega (arith, valid.in_range, valid.max_fits, (trailing_zeros-complement 64 v word open_).0)

lowest_free :
    (b : Bitmap) (d : ℕ)
    → IsValid b
    → d < length b.bits
    → get_or b.bits d 0 ≢ full
    → contains b (lowest d (get_or b.bits d 0)) ≡ false
unfolding contains
lowest_free b d valid inside open_ =
    let v = get_or b.bits d 0 in
    let word : IsWord v = get_or-IsWord b.bits d valid.words in
    let (whole, place, offset) = lowest-lt b d v valid inside word open_ in
    rw (place, offset) (trailing_zeros-complement 64 v word open_).1

lowest_below :
    (b : Bitmap) (d : ℕ)
    → IsValid b
    → d < length b.bits
    → get_or b.bits d 0 ≢ full
    → FullBelow b.bits d
    → (m : ℕ) → m < lowest d (get_or b.bits d 0)
    → contains b m ≡ true
lowest_below b d valid inside open_ below m h =
    let v = get_or b.bits d 0 in
    let word : IsWord v = get_or-IsWord b.bits d valid.words in
    elim (dec_lt (m / 64) d) [
      | yes lt ↦ full_contains b d m below lt
      | no ge ↦
          let here : m / 64 ≡ d =
            unfold lowest in omega (arith, (trailing_zeros-complement 64 v word open_).0) in
          unfold contains in
          rw here (below-trailing_zeros 64 v (m % 64) word (unfold lowest in omega arith))
    ]

set_at :
    (ws : List ℕ) (d k n m : ℕ)
    → n / 64 ≡ d
    → n % 64 ≡ k
    → d < length ws
    → bit (get_or (set ws d (bit_or (get_or ws d 0) (2 ^ k))) (m / 64) 0) (m % 64)
      ≡ (n == m) || bit (get_or ws (m / 64) 0) (m % 64)
set_at ws d k n m e f h = rw (← e, ← f) (bit-set_or ws n m (rw e h))

take_open-NextResult :
    (b : Bitmap) (d : ℕ)
    → IsValid b
    → d < length b.bits
    → get_or b.bits d 0 ≢ full
    → FullBelow b.bits d
    → NextResult b (take_open b d (get_or b.bits d 0))
unfolding take_open
take_open-NextResult b d valid inside open_ below =
    let v = get_or b.bits d 0 in
    let word : IsWord v = get_or-IsWord b.bits d valid.words in
    let n = lowest d v in
    let (whole, place, offset) = lowest-lt b d v valid inside word open_ in
    let wrapped : (d * 64 + trailing_zeros 64 (2 ^ 64 - 1 - v)) % 2 ^ 32 ≡ n =
      unfold lowest in whole in
    elim (Bool-cases (ltb b.max n)) [
      | inl e ↦
          rw (wrapped, e) (refl, λ m h. lowest_below b d valid inside open_ below m (ground arith))
      | inr e ↦
          rw (wrapped, e)
            (
              ground arith,
              lowest_free b d valid inside open_,
              lowest_below b d valid inside open_ below,
              λ m. unfold contains in set_at b.bits d _ n m place offset inside,
            )
    ]

get_or-append_one :
    (ws : List ℕ) (j : ℕ)
    → get_or (ws ++ 1 ∷ []) j 0 ≡ (if length ws == j then 1 else get_or ws j 0)
get_or-append_one [] zero = refl
get_or-append_one [] (suc j) = ground arith
get_or-append_one (w ∷ ws) zero = ground arith
get_or-append_one (w ∷ ws) (suc j) = get_or-append_one ws j ∙ ground arith

get_or-past : (ws : List ℕ) (j : ℕ) → length ws ≤ j → get_or ws j 0 ≡ 0
get_or-past [] j h = refl
get_or-past (w ∷ ws) zero h = absurd (omega arith)
get_or-past (w ∷ ws) (suc j) h = get_or-past ws j (omega arith)

bit-append_one :
    (ws : List ℕ) (m : ℕ)
    → bit (get_or (ws ++ 1 ∷ []) (m / 64) 0) (m % 64)
      ≡ (length ws * 64 == m) || bit (get_or ws (m / 64) 0) (m % 64)
bit-append_one ws m = elim (Bool-cases (length ws == m / 64)) [
  | inl e ↦
      let past : get_or ws (m / 64) 0 ≡ 0 = get_or-past ws (m / 64) (ground arith) in
      rw (get_or-append_one, e, bit-pow 0 (m % 64), past, bit-zero) (ground arith)
  | inr e ↦
      let apart : (length ws * 64 == m) ≡ false = ground arith in
      rw (get_or-append_one, e, apart) refl
]

append_word-NextResult :
    (b : Bitmap) → IsValid b → FullBelow b.bits (length b.bits) → NextResult b (append_word b)
unfolding append_word
append_word-NextResult b valid below =
    let narrow : length b.bits * 64 % 2 ^ 64 ≡ length b.bits * 64 =
      omega (arith, valid.in_range, valid.max_fits) in
    elim (Bool-cases (ltb b.max (length b.bits * 64))) [
      | inl e ↦ rw (narrow, e) (refl, λ m h. full_contains b (length b.bits) m below (ground arith))
      | inr e ↦
          let fits : length b.bits * 64 % 2 ^ 32 ≡ length b.bits * 64 =
            ground (arith, valid.max_fits) in
          rw (narrow, e, fits)
            (
              ground arith,
              unfold contains in
                  rw (get_or-past b.bits (length b.bits * 64 / 64) (omega arith), bit-zero) refl,
              (λ m h. full_contains b (length b.bits) m below (omega arith)),
              λ m. unfold contains in bit-append_one b.bits m,
            )
    ]

-- On a valid bitmap `next` either returns the lowest free number, at most the maximum, and marks
-- it taken and no other; or it reports failure, every number in range is taken, and the bitmap is
-- as it was.
pub next-NextResult : (b : Bitmap) → IsValid b → NextResult b (next b)
unfolding next at_open
next-NextResult b valid = step (first_open 0 b.bits) (first_open-Finds 0 b.bits)
  where
    at_word :
        (j v d : ℕ)
        → j ≡ d
        → get_or b.bits d 0 ≡ v
        → d < length b.bits
        → v ≢ full
        → FullBelow b.bits d
        → NextResult b (take_open b j v)
    at_word j v d at word inside open_ below =
        rw (at, ← word) (take_open-NextResult b d valid inside (λ q. open_ (sym word ∙ q)) below)

    step : (r : Option (ℕ × ℕ)) → Finds 0 b.bits r → NextResult b (at_open b r)
    step none h = append_word-NextResult b valid h
    step (some (j, v)) (d, at, inside, word, open_, below) =
        at_word j v d (omega arith) word inside open_ below
