-- ===== src/Session/Handles.antt =====
-- session.go, `allocateHandle` and `deallocateHandle`: the links of a session by key, and the
-- bitmap of their handles. An entry of the table is a link: its key and the handle that it was
-- given.
use go_amqp.Base.{
  ℕ, ◌^◌, ◌-◌, ◌≡◌, ◌≢◌, refl, sym, ◌∙◌, ap, Bool, true, false, ◌&&◌, ◌||◌, not, Option, none, some,
  List, [], ◌∷◌, ◌==◌, if◌then◌else◌, arith, All, IsU32, Bool-cases, inl, inr, eq→==, ne→==,
}
use go_amqp.Base.Maps.{bytes_eq}
use go_amqp.Bitmap.{Bitmap, next, remove, contains, new}
use go_amqp.Bitmap.Valid.{remove-IsValid, new-IsValid}
use go_amqp.Bitmap.Valid
use go_amqp.Bitmap.Laws.{contains-remove}
use go_amqp.Bitmap.Alloc.{next_free, next_refuses, next-IsValid}

-- Name and local role.
pub record LinkKey : Type 0 where
  pub name : List ℕ
  pub role : Bool

abbrev pub bool_eq : Bool → Bool → Bool
bool_eq true b = b
bool_eq false b = not b

abbrev pub key_eq : LinkKey → LinkKey → Bool
key_eq a b = bytes_eq a.name b.name && bool_eq a.role b.role

pub record Table : Type 0 where
  pub handle_max : ℕ
  pub handles : Bitmap
  pub links : List (LinkKey × ℕ)

pub data Allocation : Type 0 where
  allocated : ℕ → Allocation
  name_taken : Allocation
  handle_max_reached : Allocation

unfoldable pub find_link : LinkKey → List (LinkKey × ℕ) → Option ℕ
find_link k [] = none
find_link k ((j, h) ∷ ls) = if key_eq j k then some h else find_link k ls

unfoldable pub delete_link : LinkKey → List (LinkKey × ℕ) → List (LinkKey × ℕ)
delete_link k [] = []
delete_link k ((j, h) ∷ ls) =
    let rest = delete_link k ls in if key_eq j k then rest else (j, h) ∷ rest

abbrev pub add_link : LinkKey → Table → Bitmap × ℕ × Bool → Table × Allocation
add_link k t (b, h, true) = (record t { handles = b; links = (k, h) ∷ t.links }, allocated h)
add_link k t (b, h, false) = (record t { handles = b }, handle_max_reached)

abbrev pub allocate_new : LinkKey → Table → Option ℕ → Table × Allocation
allocate_new k t (some h) = (t, name_taken)
allocate_new k t none = add_link k t (next t.handles)

unfoldable pub allocate_handle : LinkKey → Table → Table × Allocation
unfolding find_link
allocate_handle k t = allocate_new k t (find_link k t.links)

-- The table's part; the close of the link's channel, which ends it, is left out.
unfoldable pub deallocate_handle : LinkKey → ℕ → Table → Table
unfolding delete_link
deallocate_handle k h t = record t { links = delete_link k t.links; handles = remove t.handles h }

-- The largest handle under `MaxLinks`, where 0 stands for no option.
abbrev handle_max_of : ℕ → ℕ
handle_max_of max_links = if max_links == 0 then 2 ^ 32 - 1 else max_links - 1

-- As `newSession` makes it, with the largest handle.
unfoldable pub new_table : ℕ → Table
new_table handle_max = record { handle_max = handle_max; handles = new handle_max; links = [] }

unfoldable new_session_table : ℕ → Table
unfolding new_table
new_session_table max_links = new_table (handle_max_of max_links)

abbrev pub Taken : Bitmap → LinkKey × ℕ → Type 0
Taken b (k, h) = contains b h ≡ true

abbrev pub Other : ℕ → LinkKey × ℕ → Type 0
Other n (k, h) = h ≢ n

-- No two links have one handle.
abbrev pub Distinct : List (LinkKey × ℕ) → Type 0
Distinct [] = Unit
Distinct ((k, h) ∷ ls) = All (Other h) ls × Distinct ls

pub record IsValid (t : Table) : Type 0 where
  pub bitmap : Valid.IsValid t.handles
  pub taken : All (Taken t.handles) t.links
  pub distinct : Distinct t.links

pub new_table-IsValid : (handle_max : ℕ) → IsU32 handle_max → IsValid (new_table handle_max)
unfolding new_table
new_table-IsValid m h = record { bitmap = new-IsValid m h; taken = tt; distinct = tt }

pub free-Other :
    (b : Bitmap) (n : ℕ) (ls : List (LinkKey × ℕ))
    → contains b n ≡ false
    → All (Taken b) ls
    → All (Other n) ls
free-Other b n [] f t = tt
free-Other b n ((k, h) ∷ ls) f (t, ts) = ((λ e. cc (ap (contains b) e)), free-Other b n ls f ts)

still-Taken :
    (b b' : Bitmap) (n : ℕ) (ls : List (LinkKey × ℕ))
    → ((m : ℕ) → contains b' m ≡ (n == m) || contains b m)
    → All (Taken b) ls
    → All (Taken b') ls
still-Taken b b' n [] f t = tt
still-Taken b b' n ((k, h) ∷ ls) f (t, ts) = (f h ∙ rw t (ground arith), still-Taken b b' n ls f ts)

add_link-IsValid :
    (k : LinkKey) (t : Table) (r : Bitmap × ℕ × Bool)
    → next t.handles ≡ r
    → IsValid t
    → IsValid (add_link k t r).0
add_link-IsValid k t (b, h, true) e v =
    let after = λ (m : ℕ). (next_free t.handles b h m v.bitmap e).3 in
    let free : contains t.handles h ≡ false = (next_free t.handles b h h v.bitmap e).1 in
    record {
      bitmap = rw e at (next-IsValid t.handles v.bitmap);
      taken = (after h ∙ rw (eq→== h h refl) refl, still-Taken t.handles b h t.links after v.taken);
      distinct = (free-Other t.handles h t.links free v.taken, v.distinct);
    }
add_link-IsValid k t (b, h, false) e v =
    let same : b ≡ t.handles = (next_refuses t.handles b h 0 v.bitmap e (omega arith)).0 in
    record { bitmap = rw same v.bitmap; taken = rw same v.taken; distinct = v.distinct }

allocate_new-IsValid :
    (k : LinkKey) (t : Table) (o : Option ℕ) → IsValid t → IsValid (allocate_new k t o).0
allocate_new-IsValid k t (some h) v = v
allocate_new-IsValid k t none v = add_link-IsValid k t (next t.handles) refl v

new_session_table-IsValid :
    (max_links : ℕ) → IsU32 max_links → IsValid (new_session_table max_links)
unfolding new_session_table
new_session_table-IsValid max_links h = new_table-IsValid (handle_max_of max_links) (ground arith)

-- Allocation on a valid table keeps it valid, whatever its outcome: the links' handles are distinct
-- and marked as taken.
pub allocate_handle-IsValid :
    (k : LinkKey) (t : Table) → IsValid t → IsValid (allocate_handle k t).0
unfolding allocate_handle
allocate_handle-IsValid k t v = allocate_new-IsValid k t (find_link k t.links) v

found-Other :
    (k : LinkKey) (n h : ℕ) (ls : List (LinkKey × ℕ))
    → All (Other n) ls
    → find_link k ls ≡ some h
    → h ≢ n
unfolding find_link
found-Other k n h [] a e = λ q. cc
found-Other k n h ((j, m) ∷ ls) (o, os) e = elim (Bool-cases (key_eq j k)) [
  | inl q ↦ let same : m ≡ h = cc (rw q at e) in λ z. o (same ∙ z)
  | inr q ↦ found-Other k n h ls os (rw q at e)
]

delete_link-All :
    (P : LinkKey × ℕ → Type 0) (k : LinkKey) (ls : List (LinkKey × ℕ))
    → All P ls
    → All P (delete_link k ls)
unfolding delete_link
delete_link-All P k [] a = tt
delete_link-All P k ((j, m) ∷ ls) (p, ps) = elim (Bool-cases (key_eq j k)) [
  | inl q ↦ rw q (delete_link-All P k ls ps)
  | inr q ↦ rw q (p, delete_link-All P k ls ps)
]

deleted-Other :
    (k : LinkKey) (h : ℕ) (ls : List (LinkKey × ℕ))
    → Distinct ls
    → find_link k ls ≡ some h
    → All (Other h) (delete_link k ls)
unfolding find_link delete_link
deleted-Other k h [] d e = tt
deleted-Other k h ((j, m) ∷ ls) (o, d) e = elim (Bool-cases (key_eq j k)) [
  | inl q ↦ let same : m ≡ h = cc (rw q at e) in rw (q, ← same) (delete_link-All (Other m) k ls o)
  | inr q ↦
      let later : find_link k ls ≡ some h = rw q at e in
      rw q ((λ z. found-Other k m h ls o later (sym z)), deleted-Other k h ls d later)
]

delete_link-Distinct :
    (k : LinkKey) (ls : List (LinkKey × ℕ)) → Distinct ls → Distinct (delete_link k ls)
unfolding delete_link
delete_link-Distinct k [] d = tt
delete_link-Distinct k ((j, m) ∷ ls) (o, d) = elim (Bool-cases (key_eq j k)) [
  | inl q ↦ rw q (delete_link-Distinct k ls d)
  | inr q ↦ rw q (delete_link-All (Other m) k ls o, delete_link-Distinct k ls d)
]

Taken-without :
    (b : Bitmap) (n : ℕ) (ls : List (LinkKey × ℕ))
    → All (Other n) ls
    → All (Taken b) ls
    → All (Taken (remove b n)) ls
Taken-without b n [] o t = tt
Taken-without b n ((k, h) ∷ ls) (o, os) (t, ts) =
    (contains-remove b n h ∙ rw (ne→== n h (λ e. o (sym e)), t) refl, Taken-without b n ls os ts)

-- Deallocating a link with the handle that it holds keeps the table valid: the handles of all other
-- links stay taken.
pub deallocate_handle-IsValid :
    (k : LinkKey) (h : ℕ) (t : Table)
    → find_link k t.links ≡ some h
    → IsValid t
    → IsValid (deallocate_handle k h t)
unfolding deallocate_handle
deallocate_handle-IsValid k h t e v = record {
  bitmap = remove-IsValid t.handles h v.bitmap;
  taken =
      Taken-without t.handles h (delete_link k t.links) (deleted-Other k h t.links v.distinct e)
        (delete_link-All (Taken t.handles) k t.links v.taken);
  distinct = delete_link-Distinct k t.links v.distinct;
}
