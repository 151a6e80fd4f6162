-- ===== src/Encoding/Back.antt =====
-- How a round trip is proved: a writer appends a form, and a reader takes the form.
use go_amqp.Base.{ℕ, ◌≡◌, ◌∙◌, ap, List, [], ◌∷◌, ◌++◌}
use go_amqp.Buffer.{Buffer, Step, ◌>>=◌, return, unread, append, read_byte}
use go_amqp.Buffer.Laws.{IsValid, unread-append, append-IsValid, append-append}
use go_amqp.Buffer.Reads.{Reads, Reads-return, Reads-bind, Reads-read_byte}
use go_amqp.Encoding.Read.{read_type}

-- A step that takes `xs` takes them where a writer appended them to a buffer read to its end.
pub read_back_then :
    {A : Type 0} (m : Step A) (a : A) (w : Buffer → Buffer) (wr : Buffer) (xs more rest : List ℕ)
    → IsValid wr
    → unread wr ≡ []
    → w wr ≡ append xs wr
    → ((b : Buffer) → unread b ≡ xs ++ more → IsValid b → Reads m b a rest)
    → Reads m (append more (w wr)) a rest
read_back_then m a w wr xs more rest v u e k =
    let whole : append more (w wr) ≡ append (xs ++ more) wr =
      ap (append more) e ∙ append-append wr xs more in
    rw whole (
      k (append (xs ++ more) wr)
        (unread-append wr (xs ++ more) v ∙ ap (λ (ys : List ℕ). ys ++ (xs ++ more)) u)
        (append-IsValid wr (xs ++ more) v))

pub read_back :
    {A : Type 0} (m : Step A) (a : A) (w : Buffer → Buffer) (wr : Buffer) (xs rest : List ℕ)
    → IsValid wr
    → unread wr ≡ []
    → w wr ≡ append xs wr
    → ((b : Buffer) → unread b ≡ xs ++ rest → IsValid b → Reads m b a rest)
    → Reads m (append rest (w wr)) a rest
read_back m a w wr xs rest v u e k = read_back_then m a w wr xs rest rest v u e k

-- A type code, then what depends on it.
pub Reads-tag :
    {A : Type 0} (f : ℕ → Step A) (b : Buffer) (code : ℕ) (a : A) (mid rest : List ℕ)
    → unread b ≡ code ∷ mid
    → IsValid b
    → ((b' : Buffer) → unread b' ≡ mid → IsValid b' → Reads (f code) b' a rest)
    → Reads (read_type >>= f) b a rest
unfolding read_type
Reads-tag f b code a mid rest u v k =
    Reads-bind read_byte f b code a mid rest (Reads-read_byte b code mid u v) k

pub Reads-value :
    {A : Type 0} (a' a : A) (b : Buffer) (rest : List ℕ)
    → a' ≡ a
    → unread b ≡ rest
    → IsValid b
    → Reads (return a') b a rest
Reads-value a' a b rest e u v = rw e (Reads-return a b rest u v)
