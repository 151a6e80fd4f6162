-- ===== src/Encoding/Utf8.antt =====
-- Go's utf8.ValidString: the byte sequences of RFC 3629.
use go_amqp.Base.{
  ℕ, Bool, true, false, ◌&&◌, List, [], ◌∷◌, leb, ltb, ◌==◌, if◌then◌else◌, Option, none, some,
}

abbrev tail_byte : ℕ × ℕ
tail_byte = (0x80, 0xbf)

-- The ranges of the bytes that must follow a first byte; `none` if it can start no character.
unfoldable pub following : ℕ → Option (List (ℕ × ℕ))
following x =
    if ltb x 0x80
    then some []
    else if ltb x 0xc2
    then none
    else if leb x 0xdf
    then some (tail_byte ∷ [])
    else if x == 0xe0
    then some ((0xa0, 0xbf) ∷ tail_byte ∷ [])
    else if x == 0xed
    then some ((0x80, 0x9f) ∷ tail_byte ∷ [])
    else if leb x 0xef
    then some (tail_byte ∷ tail_byte ∷ [])
    else if x == 0xf0
    then some ((0x90, 0xbf) ∷ tail_byte ∷ tail_byte ∷ [])
    else if leb x 0xf3
    then some (tail_byte ∷ tail_byte ∷ tail_byte ∷ [])
    else if x == 0xf4
    then some ((0x80, 0x8f) ∷ tail_byte ∷ tail_byte ∷ [])
    else none

-- The list of ranges is what the character under way still wants.
unfoldable pub valid_from : List (ℕ × ℕ) → List ℕ → Bool
unfolding following
valid_from [] [] = true
valid_from (r ∷ rs) [] = false
valid_from [] (x ∷ xs) = elim (following x) [ none ↦ false | some rs ↦ valid_from rs xs ]
valid_from ((lo, hi) ∷ rs) (x ∷ xs) = leb lo x && leb x hi && valid_from rs xs

unfoldable pub valid_string : List ℕ → Bool
unfolding valid_from
valid_string s = valid_from [] s
