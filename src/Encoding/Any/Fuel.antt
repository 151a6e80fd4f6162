-- ===== src/Encoding/Any/Fuel.antt =====
-- What a reader takes of the buffer, and that it does not run out of fuel: one rule for each way to
-- build a reader.
use go_amqp.Base.{
  ◌&&◌, ℕ, suc, ◌+◌, ◌≤◌, ◌≡◌, refl, ap, Bool, Bool-cases, inl, inr, true, false, ltb, ◌==◌,
  if◌then◌else◌, length, arith, get_or,
}
use go_amqp.Buffer.{
  Buffer, Step, Outcome, ok, err, panic, Error, out_of_fuel, ◌>>=◌, follow, return, fail, len, next,
  read_byte, read_uint, beyond, skip, unread,
}
use go_amqp.Encoding.Codes.{code_null}
use go_amqp.Encoding.Composite.{lift}
use go_amqp.Encoding.Any.Read.{unread_bytes}
use go_amqp.Encoding.Read.{need, unread_len, try_read_null}

-- The model's own error.
abbrev pub is_fuel : Error → Bool
is_fuel out_of_fuel = true
is_fuel e = false

abbrev pub ran_out : {A : Type 0} → Outcome A → Bool
ran_out (err e) = is_fuel e
ran_out o = false

abbrev pub taken : {A : Type 0} → Outcome A → ℕ
taken (ok a) = 1
taken o = 0

-- From `n` unread bytes at most, the step does not run out of fuel, and it unreads no byte.
pub record Fine {A : Type 0} (n : ℕ) (m : Step A) : Type 0 where
  pub at : (b : Buffer) → len b ≤ n → (ran_out (m b).0 ≡ false) × (len (m b).1 ≤ len b)

-- The same from any buffer, and a value takes a byte at least.
pub record Takes {A : Type 0} (m : Step A) : Type 0 where
  pub at : (b : Buffer) → (ran_out (m b).0 ≡ false) × (len (m b).1 + taken (m b).0 ≤ len b)

module _ {A : Type 0} (n : ℕ) where
  pub Takes-Fine : (m : Step A) → Takes m → Fine n m
  Takes-Fine m t = record { at = λ b h. let p = t.at b in (p.0, omega (arith, p.1)) }

  pub Fine-return : (a : A) → Fine n (return a)
  Fine-return a = record { at = λ b h. (refl, omega arith) }

  pub Fine-fail : (e : Error) → is_fuel e ≡ false → Fine n (fail {A = A} e)
  Fine-fail e r = record { at = λ b h. (r, omega arith) }

  pub Fine-if : (c : Bool) (m k : Step A) → Fine n m → Fine n k → Fine n (if c then m else k)
  Fine-if true m k x y = x
  Fine-if false m k x y = y

module _ {A B : Type 0} where
  follow-Fine :
      (n l : ℕ) (o : Outcome A) (c : Buffer) (k : A → Step B)
      → ran_out o ≡ false
      → len c ≤ l
      → ((a : A) → o ≡ ok a → len c ≤ n)
      → ((a : A) → Fine n (k a))
      → (ran_out (follow (o, c) k).0 ≡ false) × (len (follow (o, c) k).1 ≤ l)
  follow-Fine n l (ok a) c k r h few f =
      let p = (f a).at c (few a refl) in (p.0, omega (arith, p.1))
  follow-Fine n l (err e) c k r h few f = (r, h)
  follow-Fine n l panic c k r h few f = (refl, h)

  pub Fine-bind :
      (n : ℕ) (m : Step A) (k : A → Step B) → Fine n m → ((a : A) → Fine n (k a)) → Fine n (m >>= k)
  Fine-bind n m k fm fk = record {
    at = λ b h.
        let p = fm.at b h in
        follow-Fine n (len b) (m b).0 (m b).1 k p.0 p.1 (λ a e. omega (arith, p.1)) fk;
  }

  -- After a step that takes a byte there is one unread byte less.
  pub Takes-bind :
      (n : ℕ) (m : Step A) (k : A → Step B)
      → Takes m
      → ((a : A) → Fine n (k a))
      → Fine (suc n) (m >>= k)
  Takes-bind n m k t fk = record {
    at = λ b h.
        let p = t.at b in
        follow-Fine n (len b) (m b).0 (m b).1 k p.0 (omega (arith, p.1))
          (λ a e. let one = ap taken e in omega (arith, p.1, one)) fk;
  }

taken_le : {A : Type 0} (o : Outcome A) → taken o ≤ 1
taken_le (ok a) = omega arith
taken_le (err e) = omega arith
taken_le panic = omega arith

module _ {A B : Type 0} where
  follow-Takes :
      (o : Outcome A) (c : Buffer) (l : ℕ) (k : A → Step B)
      → ran_out o ≡ false
      → len c + taken o ≤ l
      → ((a : A) → (ran_out (k a c).0 ≡ false) × (len (k a c).1 ≤ len c))
      → (ran_out (follow (o, c) k).0 ≡ false)
        × (len (follow (o, c) k).1 + taken (follow (o, c) k).0 ≤ l)
  follow-Takes (ok a) c l k r h f = let p = f a in (p.0, omega (arith, p.1, taken_le (k a c).0))
  follow-Takes (err e) c l k r h f = (r, h)
  follow-Takes panic c l k r h f = (refl, h)

  -- What begins with a step that takes a byte takes one.
  pub Takes-then :
      (m : Step A) (k : A → Step B) → Takes m → ((n : ℕ) (a : A) → Fine n (k a)) → Takes (m >>= k)
  Takes-then m k t f = record {
    at = λ b.
        let p = t.at b in
        follow-Takes (m b).0 (m b).1 (len b) k p.0 p.1
          (λ a. (f (len (m b).1) a).at (m b).1 (omega arith));
  }

abbrev pub Quiet : Error → Type 0
Quiet e = is_fuel e ≡ false

pub Takes-read_byte : Takes read_byte
unfolding read_byte len
Takes-read_byte = record {
  at = λ b. elim (Bool-cases (beyond b 1)) [
    | inl e ↦ rw e (refl, omega arith)
    | inr e ↦ rw e (
      refl,
      let some_left : b.pos + 1 ≤ length b.bytes = ground arith in omega (arith, some_left),
    )
  ];
}

module _ (n : ℕ) where
  pub Fine-next : (k : ℕ) → Fine n (next k)
  unfolding next len
  Fine-next k = record {
    at = λ b h. elim (Bool-cases (ltb (length b.bytes) b.pos)) [
      | inl e ↦ rw e (refl, omega arith)
      | inr e ↦ elim (Bool-cases (beyond b k)) [
        | inl f ↦ rw (e, f) (refl, omega arith)
        | inr f ↦ rw (e, f) (refl, omega arith)
      ]
    ];
  }

  pub Fine-need : (k : ℕ) (e : Error) → Quiet e → Fine n (need k e)
  Fine-need k e q =
      Fine-bind n (next k) _ (Fine-next k)
        (λ p. Fine-if n p.1 _ _ (Fine-return n p.0) (Fine-fail n e q))

  pub Fine-read_uint : (w : ℕ) → Fine n (read_uint w)
  unfolding read_uint len
  Fine-read_uint w = record {
    at = λ b h. elim (Bool-cases (beyond b w)) [
      | inl e ↦ rw e (refl, omega arith)
      | inr e ↦ rw e (refl, omega arith)
    ];
  }

  pub Fine-unread_len : Fine n unread_len
  Fine-unread_len = record { at = λ b h. (refl, omega arith) }

  pub Fine-try_read_null : Fine n try_read_null
  unfolding try_read_null skip len
  Fine-try_read_null = record {
    at = λ b h. elim (Bool-cases (ltb 0 (len b) && get_or (unread b) 0 0 == code_null)) [
      | inl e ↦ rw e (refl, omega arith)
      | inr e ↦ rw e (refl, omega arith)
    ];
  }

module _ {A : Type 0} (n : ℕ) where
  pub Fine-lift : (o : Outcome A) → ran_out o ≡ false → Fine n (lift o)
  Fine-lift o r = record { at = λ b h. (r, omega arith) }

pub Fine-unread_bytes : (n : ℕ) → Fine n unread_bytes
Fine-unread_bytes n = record { at = λ b h. (refl, omega arith) }

pub ruleset fine_rules = (
  Fine-return, Fine-fail, Fine-if, Fine-need, Fine-next, Fine-read_uint, Fine-unread_len,
  Fine-try_read_null, Fine-bind, Takes-Fine, Takes-read_byte, Fine-unread_bytes,
)
