-- ===== src/Encoding/Any/Enough.antt =====
-- The compound readers and fuel.
use go_amqp.Base.{
  ℕ, zero, suc, ◌≤◌, ◌≡◌, refl, some, Bool-cases, inl, inr, false, List, [], ◌∷◌, arith,
}
use go_amqp.Buffer.{Step, Outcome, ok}
use go_amqp.Encoding.Read.{
  read_type, read_list_header, read_map_header, read_string, read_composite_header, sizes8, sizes32,
}
use go_amqp.Encoding.Composite.{
  UnmarshalField, unmarshal, null_fields, read_fields, unmarshal_composite,
}
use go_amqp.Encoding.Any.{
  symbol, Value, value, no_values, pair, no_pairs, ErrorInfo, error_info, string,
}
use go_amqp.Encoding.Any.Read.{
  read_as, is_slice_or_map, hashable, stored, checked_key, rounds, read_condition, read_description,
  read_received, read_accepted, as_rejected, read_released, read_values, read_list, read_pairs,
  read_map_any, read_map_string, read_annotations, read_map_symbol, read_described, read_info,
  read_error, read_rejected, read_modified,
}
use go_amqp.Encoding.Any.Decode.{one_of, switch}
use go_amqp.Encoding.Any.Fuel.{
  ran_out, Fine, Takes, Fine-return, Fine-if, Fine-bind, Takes-bind, Takes-read_byte, Takes-then,
  Fine-lift, Fine-try_read_null, fine_rules,
}
use go_amqp.Encoding.Any.Readers.{
  Fine-read_uint32, Fine-read_ulong, Fine-read_bool, Fine-read_string, Fine-read_list_header,
}

-- The compound readers, where the reader of a value inside is fine.
abbrev pub AllFine : {A : Type 0} → ℕ → List (List ℕ × Step A) → Type 0
AllFine n [] = Unit {0}
AllFine n ((codes, m) ∷ cases) = Fine n m × AllFine n cases

pub Fine-switch :
    {A : Type 0} (n : ℕ) (cases : List (List ℕ × Step A)) (code : ℕ) (d : Step A)
    → AllFine n cases
    → Fine n d
    → Fine n (switch cases code d)
Fine-switch n [] code d f g = g
Fine-switch n ((codes, m) ∷ cases) code d f g =
    Fine-if n (one_of codes code) _ _ f.0 (Fine-switch n cases code d f.1 g)

-- The fields of a composite: none runs out, and no null handler does.
abbrev pub FineFields : {S : Type 0} → ℕ → List (UnmarshalField S) → Type 0
FineFields n [] = Unit {0}
FineFields {S} n (f ∷ fs) =
    (((s : S) → Fine n (f.read s)) × ((s : S) → ran_out (f.handle_null s) ≡ false))
    × FineFields n fs

module _ {S : Type 0} (n : ℕ) where
  pub Fine-unmarshal : (read : S → Step S) (s : S) → Fine n (read s) → Fine n (unmarshal read s)
  Fine-unmarshal read s f = search fine_rules

  pub Fine-null_fields :
      (fs : List (UnmarshalField S)) (s : S) → FineFields n fs → Fine n (null_fields fs s)
  Fine-null_fields [] s f = Fine-return n s
  Fine-null_fields (u ∷ fs) s f =
      Fine-bind n _ _ (Fine-lift n _ (f.0.1 s)) (λ t. Fine-null_fields fs t f.1)

  pub Fine-read_fields :
      (k : ℕ) (fs : List (UnmarshalField S)) (s : S) → FineFields n fs → Fine n (read_fields k fs s)
  Fine-read_fields zero fs s f = Fine-null_fields fs s f
  Fine-read_fields (suc k) [] s f = Fine-return n s
  Fine-read_fields (suc k) (u ∷ fs) s f =
      Fine-bind n _ _
        (Fine-bind n _ _ (Fine-try_read_null n) (λ is_null.
          Fine-if n is_null _ _ (Fine-lift n _ (f.0.1 s)) (Fine-unmarshal u.read s (f.0.0 s))))
        (λ t. Fine-read_fields k fs t f.1)

Takes-read_composite_header : Takes read_composite_header
unfolding read_composite_header read_type
Takes-read_composite_header =
    Takes-then _ _ Takes-read_byte
      (λ n type_. search (fine_rules, Fine-read_ulong, Fine-read_list_header) depth 12)

Takes-read_list_header : Takes read_list_header
unfolding read_list_header read_type sizes8 sizes32
Takes-read_list_header = Takes-then _ _ Takes-read_byte (λ n type_. search fine_rules depth 12)

pub Takes-read_map_header : Takes read_map_header
unfolding read_map_header read_type sizes8 sizes32
Takes-read_map_header = Takes-then _ _ Takes-read_byte (λ n type_. search fine_rules depth 12)

-- The fields come after the header, which takes a byte.
pub Fine-unmarshal_composite :
    {S : Type 0} (n code : ℕ) (fs : List (UnmarshalField S)) (s : S)
    → FineFields n fs
    → Fine (suc n) (unmarshal_composite code fs s)
unfolding unmarshal_composite
Fine-unmarshal_composite n code fs s f =
    Takes-bind n _ _ Takes-read_composite_header (λ p. search (fine_rules, Fine-read_fields))

stored_quiet : (k : Value) → ran_out (stored k) ≡ false
stored_quiet k = elim (Bool-cases (hashable k)) [ inl e ↦ rw e refl | inr e ↦ rw e refl ]

checked_key_quiet : (k : Value) → ran_out (checked_key k) ≡ false
checked_key_quiet k = elim (Bool-cases (is_slice_or_map k)) [
  | inl e ↦ rw e refl
  | inr e ↦ rw e (stored_quiet k)
]

pub Fine-read_as : {A B : Type 0} (n : ℕ) (g : A → B) (m : Step A) → Fine n m → Fine n (read_as g m)
Fine-read_as n g m f = Fine-bind n m _ f (λ a. Fine-return n (g a))

module _ (n : ℕ) (any : Step Value) (f : Fine n any) where
  pub Fine-read_values : (k : ℕ) → Fine n (read_values any k)
  Fine-read_values zero = Fine-return n no_values
  Fine-read_values (suc k) =
      Fine-bind n _ _ f
        (λ v. Fine-bind n _ _ (Fine-read_values k) (λ vs. Fine-return n (value v vs)))

  pub Fine-read_list : Fine (suc n) (read_list any)
  unfolding read_list
  Fine-read_list =
      Takes-bind n _ _ Takes-read_list_header (λ count. search (fine_rules, Fine-read_values))

  pub Fine-read_pairs :
      (check : Value → Outcome Value) (key : Step Value) (k : ℕ)
      → ((v : Value) → ran_out (check v) ≡ false)
      → Fine n key
      → Fine n (read_pairs any check key k)
  Fine-read_pairs check key zero q g = Fine-return n no_pairs
  Fine-read_pairs check key (suc k) q g = Fine-bind n _ _ g (λ a. Fine-bind n _ _ f (λ v.
      Fine-bind n _ _ (Fine-lift n (check a) (q a)) (λ a'.
        Fine-bind n _ _ (Fine-read_pairs check key k q g) (λ ps. Fine-return n (pair a' v ps)))))

  pub Fine-read_map_any : Fine (suc n) (read_map_any any)
  unfolding read_map_any
  Fine-read_map_any =
      Takes-bind n _ _ Takes-read_map_header
        (λ count. Fine-read_pairs checked_key any (rounds count) checked_key_quiet f)

  pub Fine-read_map_string : Fine (suc n) (read_map_string any)
  unfolding read_map_string
  Fine-read_map_string = Takes-bind n _ _ Takes-read_map_header (λ count.
      Fine-read_pairs (λ k. ok k) _ (rounds count) (λ v. refl)
        (Fine-read_as n string read_string (Fine-read_string n)))

  pub Fine-read_map_symbol : Fine (suc n) (read_map_symbol any)
  unfolding read_map_symbol
  Fine-read_map_symbol = Takes-bind n _ _ Takes-read_map_header (λ count.
      Fine-read_pairs (λ k. ok k) _ (rounds count) (λ v. refl)
        (Fine-read_as n symbol read_string (Fine-read_string n)))

  pub Fine-read_annotations : Fine (suc n) (read_annotations any)
  unfolding read_annotations
  Fine-read_annotations =
      Takes-bind n _ _ Takes-read_map_header
        (λ count. Fine-read_pairs stored any (rounds count) stored_quiet f)

  pub Fine-read_described : Fine (suc n) (read_described any)
  unfolding read_described
  Fine-read_described =
      Takes-bind n _ _ Takes-read_byte (λ b. search (fine_rules, Fine-unmarshal) depth 12)

-- A smaller buffer needs no more.
pub Fine-mono : {A : Type 0} (m : Step A) (n k : ℕ) → n ≤ k → Fine k m → Fine n m
Fine-mono m n k h f = record { at = λ b l. f.at b (omega arith) }

module _ (n : ℕ) (any : Step Value) (f : Fine n any) where
  pub Fine-read_error : Fine (suc n) (read_error any)
  unfolding read_error
  Fine-read_error =
      Fine-unmarshal_composite n _ _ _
        ((condition, λ s. refl), ((description, λ s. refl), ((info, λ s. refl), tt)))
    where
      condition : (s : ErrorInfo) → Fine n (read_condition s)
      condition (error_info c d i) = search (fine_rules, Fine-read_string)

      description : (s : ErrorInfo) → Fine n (read_description s)
      description (error_info c d i) = search (fine_rules, Fine-read_string)

      info : (s : ErrorInfo) → Fine n (read_info any s)
      info (error_info c d i) =
          Fine-bind n _ _ (Fine-mono _ n (suc n) (omega arith) (Fine-read_map_string n any f))
            (λ a. Fine-return n _)

  pub Fine-read_rejected : Fine (suc n) (read_rejected any)
  unfolding read_rejected
  Fine-read_rejected = Fine-read_as (suc n) as_rejected _ (
      Fine-unmarshal_composite n _ _ _ (
        (
          λ s. Fine-read_as n some _ (Fine-mono _ n (suc n) (omega arith) Fine-read_error),
          λ s. refl,
        ),
        tt,
      ))

  pub Fine-read_modified : Fine (suc n) (read_modified any)
  unfolding read_modified
  Fine-read_modified = Fine-read_as (suc n) _ _ (
      Fine-unmarshal_composite n _ _ _ (
        (λ s. search (fine_rules, Fine-read_bool), λ s. refl),
        (
          (λ s. search (fine_rules, Fine-read_bool), λ s. refl),
          (
            (
              λ s.
                  Fine-bind n _ _
                    (Fine-mono _ n (suc n) (omega arith) (Fine-read_annotations n any f))
                    (λ a. Fine-return n _),
              λ s. refl,
            ),
            tt,
          ),
        ),
      ))

pub Fine-read_received : (n : ℕ) → Fine (suc n) read_received
unfolding read_received
Fine-read_received n = Fine-read_as (suc n) _ _ (
    Fine-unmarshal_composite n _ _ _ (
      (λ s. search (fine_rules, Fine-read_uint32), λ s. refl),
      ((λ s. search (fine_rules, Fine-read_ulong), λ s. refl), tt),
    ))

pub Fine-read_accepted : (n : ℕ) → Fine (suc n) read_accepted
unfolding read_accepted
Fine-read_accepted n = Fine-unmarshal_composite n _ _ _ tt

pub Fine-read_released : (n : ℕ) → Fine (suc n) read_released
unfolding read_released
Fine-read_released n = Fine-unmarshal_composite n _ _ _ tt
