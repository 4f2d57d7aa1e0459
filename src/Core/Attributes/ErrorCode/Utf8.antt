-- ===== src/Core/Attributes/ErrorCode/Utf8.antt =====
-- Well-formed UTF-8 (Unicode, table 3-7), which `str::from_utf8` of the standard library tests.
use mstun.Base.{ℕ, Bool, true, false, ◌&&◌, ◌||◌, List, [], ◌∷◌, leb, ◌==◌, if◌then◌else◌}

-- A continuation byte.
abbrev pub tail_byte : ℕ → Bool
tail_byte b = leb 0x80 b && leb b 0xbf

-- The second byte of a sequence of three or four bytes, by the first.
abbrev pub second_of_three : ℕ → ℕ → Bool
second_of_three a b =
    if a == 0xe0
    then leb 0xa0 b && leb b 0xbf
    else if a == 0xed
    then leb 0x80 b && leb b 0x9f
    else tail_byte b

abbrev pub second_of_four : ℕ → ℕ → Bool
second_of_four a b =
    if a == 0xf0
    then leb 0x90 b && leb b 0xbf
    else if a == 0xf4
    then leb 0x80 b && leb b 0x8f
    else tail_byte b

-- The bytes that a sequence with the first byte `a` still needs, each with its test.
abbrev pub sequence : ℕ → List (ℕ → Bool)
sequence a =
    if leb 0xc2 a && leb a 0xdf
    then tail_byte ∷ []
    else if leb 0xe0 a && leb a 0xef
    then second_of_three a ∷ tail_byte ∷ []
    else second_of_four a ∷ tail_byte ∷ tail_byte ∷ []

-- The first byte of any sequence.
abbrev pub lead_byte : ℕ → Bool
lead_byte a = leb a 0x7f || (leb 0xc2 a && leb a 0xf4)

-- The tests that the next bytes must pass, then the rest of the text.
unfoldable pub utf8_from : List (ℕ → Bool) → List ℕ → Bool
utf8_from [] [] = true
utf8_from (test ∷ tests) [] = false
utf8_from [] (a ∷ bytes) = lead_byte a && utf8_from (if leb a 0x7f then [] else sequence a) bytes
utf8_from (test ∷ tests) (b ∷ bytes) = test b && utf8_from tests bytes

unfoldable pub is_utf8 : List ℕ → Bool
unfolding utf8_from
is_utf8 bytes = utf8_from [] bytes
