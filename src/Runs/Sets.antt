-- ===== src/Runs/Sets.antt =====
-- The bitmap of internal/bitmap, the creditor of creditor.go and the handles of session.go on
-- concrete inputs.
use go_amqp.Base.{
  ◌+◌, ◌<◌, ◌≤◌, true, false, ◌&&◌, ◌||◌, not, some, List, [], ◌∷◌, ◌≡◌, refl, arith, ltb, ◌==◌,
  if◌then◌else◌,
}
use go_amqp.Bitmap.{
  Bitmap, new, add, remove, next, contains, first_open, take_open, append_word, at_open,
}
use go_amqp.Bitmap.Valid.{IsValid}
use go_amqp.Bitmap.Alloc.{next_free}
use go_amqp.Creditor.{
  Creditor, link_draining, already_draining, credit_exceeded, exceeds, ok, err, start, drain,
  end_drain, flow_bits, issue_credit,
}
use go_amqp.Creditor.Laws.{
  Call, drains, ends_drain, flows, issues, IsOpen, run, drain_excludes, run-IsOpen,
  issue_credit_wraps, issue_credit_twice,
}
use go_amqp.Session.Handles.{
  LinkKey, Table, new_table, allocate_handle, deallocate_handle, find_link, new_table-IsValid,
  allocate_handle-IsValid, deallocate_handle-IsValid,
}
use go_amqp.Session.Handles
use go_amqp.Session.Lifecycle.{Answer, allocate_handle_answers}
use go_amqp.Base.Bits.{trailing_zeros}
use go_amqp.Base.Maps.{bytes_eq}

-- 0 and 1 are taken, of 0 to 2.
abbrev two_taken : Bitmap
two_taken = record { max = 2; bits = 3 ∷ [] }

abbrev all_taken : Bitmap
all_taken = record { max = 2; bits = 7 ∷ [] }

two_taken-IsValid : IsValid two_taken
two_taken-IsValid = record {
  max_fits = omega arith;
  words = (omega arith, tt);
  in_range = ground arith;
}

all_taken-IsValid : IsValid all_taken
all_taken-IsValid = record {
  max_fits = omega arith;
  words = (omega arith, tt);
  in_range = ground arith;
}

next_two : next two_taken ≡ (all_taken, 2, true)
unfolding next first_open at_open take_open trailing_zeros
next_two = refl

next_none : next all_taken ≡ (all_taken, 3, false)
unfolding next first_open at_open take_open trailing_zeros
next_none = refl

next_again : next (remove all_taken 2) ≡ (all_taken, 2, true)
unfolding next first_open at_open take_open trailing_zeros remove
next_again = refl

next_free_example :
    (2 ≤ 2)
    × (contains two_taken 2 ≡ false)
    × (ltb 1 2 && not (contains two_taken 1) ≡ false)
    × (contains all_taken 1 ≡ (2 == 1) || contains two_taken 1)
next_free_example = next_free two_taken all_taken 2 1 two_taken-IsValid next_two

abbrev draining : Creditor
draining = record start { pending_drain = true; drained = some 0; next_channel = 1 }

drain_start : drain start ≡ (draining, ok 0)
unfolding drain
drain_start = refl

-- A flow frame goes out and the receiver asks for credit.
abbrev meanwhile : List Call
meanwhile = flows 4 ∷ issues 3 1 2 10 ∷ []

drain_excludes_example :
    let mc' = run draining meanwhile in
    ((flow_bits 2 draining).1 ≡ true)
    × (issue_credit 3 1 2 10 mc' ≡ (mc', err link_draining))
    × (drain mc' ≡ (mc', err already_draining))
    × ((drain (end_drain mc')).1 ≡ ok mc'.next_channel)
    × ((issue_credit 3 1 2 10 (end_drain mc')).1
        ≡ (if exceeds 3 1 2 10 then err credit_exceeded else ok tt))
drain_excludes_example =
    drain_excludes start draining 0 3 1 2 10 meanwhile drain_start ((λ e. cc), ((λ e. cc), tt))

abbrev history : List Call
history = drains ∷ flows 4 ∷ ends_drain ∷ drains ∷ []

run-IsOpen_example : IsOpen (run start history) (run start history).drained
run-IsOpen_example = run-IsOpen history

issue_credit_wraps_example :
    ((issue_credit 0xffff_ffff 1 2 10 start).1 ≡ ok tt) × (10 < 0xffff_ffff + 1 + 2)
issue_credit_wraps_example =
    issue_credit_wraps start 0xffff_ffff 1 2 10 refl (omega arith) (omega arith) (omega arith)
      (omega arith)

issue_credit_twice_example :
    let (mc₁, r₁) = issue_credit 6 1 2 10 start in
    let (mc₂, r₂) = issue_credit 7 1 2 10 mc₁ in
    (r₁ ≡ ok tt) × (r₂ ≡ ok tt) × ((flow_bits 2 mc₂).2 ≡ 6 + 7 + 2)
issue_credit_twice_example =
    issue_credit_twice start 6 7 1 2 10 refl refl refl (omega arith) (omega arith) (omega arith)
      (omega arith) (omega arith)

abbrev key_a : LinkKey
key_a = record { name = 97 ∷ []; role = true }

abbrev empty_table : Table
empty_table = new_table 1

abbrev one_link : Table
one_link = (allocate_handle key_a empty_table).0

found_a : find_link key_a one_link.links ≡ some 0
unfolding allocate_handle find_link new_table next first_open at_open append_word new add bytes_eq
found_a = refl

allocate_handle-IsValid_example : Handles.IsValid (allocate_handle key_a (new_table 1)).0
allocate_handle-IsValid_example =
    allocate_handle-IsValid key_a empty_table (new_table-IsValid 1 (omega arith))

deallocate_handle-IsValid_example : Handles.IsValid (deallocate_handle key_a 0 one_link)
deallocate_handle-IsValid_example =
    deallocate_handle-IsValid key_a 0 one_link found_a
      (allocate_handle-IsValid key_a empty_table (new_table-IsValid 1 (omega arith)))

allocate_handle_answers_example : Answer key_a empty_table (allocate_handle key_a empty_table)
allocate_handle_answers_example =
    allocate_handle_answers key_a empty_table (new_table-IsValid 1 (omega arith))
