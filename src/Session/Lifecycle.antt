-- ===== src/Session/Lifecycle.antt =====
-- The answers of `allocateHandle`, and a link's handle from allocation to deallocation.
use go_amqp.Base.{
  ℕ, ◌+◌, ◌≤◌, ◌≡◌, refl, ◌∙◌, Bool, true, false, ◌&&◌, Option, none, some, List, [], ◌∷◌, ltb,
  arith, All, Bool-cases, inl, inr, eq→==,
}
use go_amqp.Base.Maps.{bytes_eq_refl}
use go_amqp.Bitmap.{Bitmap, next, contains}
use go_amqp.Bitmap.Laws.{contains-remove}
use go_amqp.Bitmap.Alloc.{next_free, next_refuses}
use go_amqp.Session.Handles.{
  LinkKey, Table, Allocation, allocated, name_taken, handle_max_reached, find_link, delete_link,
  key_eq, bool_eq, add_link, allocate_new, allocate_handle, deallocate_handle, IsValid, Other,
  free-Other,
}

key_eq_refl : (k : LinkKey) → key_eq k k ≡ true
key_eq_refl k = rw (bytes_eq_refl k.name) (same_role k.role)
  where
    same_role : (b : Bool) → bool_eq b b ≡ true
    same_role true = refl
    same_role false = refl

find_link-deleted : (k : LinkKey) (ls : List (LinkKey × ℕ)) → find_link k (delete_link k ls) ≡ none
unfolding find_link delete_link
find_link-deleted k [] = refl
find_link-deleted k ((j, m) ∷ ls) = elim (Bool-cases (key_eq j k)) [
  | inl q ↦ rw q (find_link-deleted k ls)
  | inr q ↦ rw (q, q) (find_link-deleted k ls)
]

-- What `allocateHandle` answers, and with which table.
abbrev pub Answer : LinkKey → Table → Table × Allocation → Type 0
Answer k t (t', allocated h) =
    (h ≤ t.handles.max)
    × All (Other h) t.links
    × (find_link k t.links ≡ none)
    × (t'.links ≡ (k, h) ∷ t.links)
    × (contains t.handles h ≡ false)
Answer k t (t', name_taken) = (t' ≡ t) × ((h : ℕ) × (find_link k t.links ≡ some h))
Answer k t (t', handle_max_reached) =
    (t' ≡ t)
    × ((h : ℕ) → contains t.handles h && ltb h (t.handles.max + 1) ≡ ltb h (t.handles.max + 1))

add_link-Answer :
    (k : LinkKey) (t : Table) (r : Bitmap × ℕ × Bool)
    → find_link k t.links ≡ none
    → next t.handles ≡ r
    → IsValid t
    → Answer k t (add_link k t r)
add_link-Answer k t (b, h, true) n e v =
    let (small, free, _, _) = next_free t.handles b h h v.bitmap e in
    (small, free-Other t.handles h t.links free v.taken, n, refl, free)
add_link-Answer k t (b, h, false) n e v =
    let same : b ≡ t.handles = (next_refuses t.handles b h 0 v.bitmap e (omega arith)).0 in
    (
      rw same refl,
      λ m. elim (Bool-cases (ltb m (t.handles.max + 1))) [
        | inl small ↦ rw (small, (next_refuses t.handles b h m v.bitmap e (ground arith)).1) refl
        | inr large ↦ rw large (ground arith)
      ],
    )

-- `allocateHandle` on a valid table: it gives a handle within the range that no link holds, and
-- enters the link; or the name is taken; or all handles up to the maximum are in use. In the two
-- cases of an error the table is as it was.
pub allocate_handle_answers :
    (k : LinkKey) (t : Table) → IsValid t → Answer k t (allocate_handle k t)
unfolding allocate_handle
allocate_handle_answers k t v = step (find_link k t.links) refl
  where
    step : (o : Option ℕ) → find_link k t.links ≡ o → Answer k t (allocate_new k t o)
    step none e = add_link-Answer k t (next t.handles) e refl v
    step (some h) e = (refl, (h, e))

-- After deallocation the key and the handle are free again.
pub deallocate_handle_frees :
    (k : LinkKey) (h : ℕ) (t : Table)
    → (find_link k (deallocate_handle k h t).links ≡ none)
      × (contains (deallocate_handle k h t).handles h ≡ false)
unfolding deallocate_handle
deallocate_handle_frees k h t =
    (find_link-deleted k t.links, contains-remove t.handles h h ∙ rw (eq→== h h refl) refl)
