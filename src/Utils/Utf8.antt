-- ===== src/Utils/Utf8.antt =====
-- src/utils/Utf8.cpp and Utf8.h: reading and writing UTF-8. A pointer and its bound are the bytes
-- between them; what a read leaves is the text from the moved pointer on, and what a write gives is
-- the bytes it puts down in `room` places.
pub mod Fields
pub mod Shapes
pub mod Safe
pub mod RoundTrip
pub mod Written
pub mod Exact
pub mod Back
use search_engines.Base.{
  ℕ, ◌+◌, ◌*◌, ◌/◌, ◌%◌, ◌^◌, suc, zero, bit_and, bit_or, Bool, true, false, not, ◌&&◌, ◌||◌,
  if◌then◌else◌, leb, ltb, ◌==◌, List, [], ◌∷◌, Text, get_or,
}

abbrev pub replacement_character : ℕ
replacement_character = 0xfffd

-- Surrogates and noncharacters.
abbrev pub is_forbidden_character : ℕ → Bool
is_forbidden_character c =
    if leb 0xd800 c && leb c 0xdfff
    then true
    else if leb 0xfdd0 c && leb c 0xfdef
    then true
    else (c == 0xfffe) || (c == 0xffff)

abbrev pub size_of_utf8 : ℕ → ℕ
size_of_utf8 c =
    if leb c 0x7f
    then 1
    else if leb c 0x7ff
    then 2
    else if leb c 0xffff
    then 3
    else if leb c 0x1fffff
    then 4
    else if leb c 0x3ffffff
    then 5
    else if leb c 0x7fffffff
    then 6
    else 3

abbrev pub indicated_length : ℕ → ℕ
indicated_length b =
    if bit_and b 0x80 == 0
    then 1
    else if bit_and b 0xe0 == 0xc0
    then 2
    else if bit_and b 0xf0 == 0xe0
    then 3
    else if bit_and b 0xf8 == 0xf0
    then 4
    else if bit_and b 0xfc == 0xf8
    then 5
    else if bit_and b 0xfe == 0xfc
    then 6
    else 1

-- What `ReadUtf8` returns, and the text that `*pp` is left at.
pub record Read : Type 0 where
  pub value : ℕ
  pub rest : Text

abbrev pub malformed : Text → Read
malformed s = record { value = replacement_character; rest = s }

-- `(p[i] & 0xC0) == 0x80`
unfoldable pub continues : ℕ → Bool
continues b = bit_and b 0xc0 == 0x80

-- The six bits of a continuation byte.
abbrev pub low_six : ℕ → ℕ
low_six b = bit_and b 0x3f

unfoldable pub two_bytes : ℕ → ℕ → ℕ
two_bytes b p1 = bit_or (bit_and b 0x1f * 2 ^ 6) (low_six p1)

unfoldable pub three_bytes : ℕ → ℕ → ℕ → ℕ
three_bytes b p1 p2 = bit_or (bit_or (bit_and b 0x0f * 2 ^ 12) (low_six p1 * 2 ^ 6)) (low_six p2)

unfoldable pub four_bytes : ℕ → ℕ → ℕ → ℕ → ℕ
four_bytes b p1 p2 p3 =
    bit_or (bit_or (bit_or (bit_and b 0x07 * 2 ^ 18) (low_six p1 * 2 ^ 12)) (low_six p2 * 2 ^ 6))
      (low_six p3)

unfoldable pub five_bytes : ℕ → ℕ → ℕ → ℕ → ℕ → ℕ
five_bytes b p1 p2 p3 p4 =
    bit_or
      (bit_or
        (bit_or (bit_or (bit_and b 0x03 * 2 ^ 24) (low_six p1 * 2 ^ 18)) (low_six p2 * 2 ^ 12))
        (low_six p3 * 2 ^ 6))
      (low_six p4)

unfoldable pub six_bytes : ℕ → ℕ → ℕ → ℕ → ℕ → ℕ → ℕ
six_bytes b p1 p2 p3 p4 p5 =
    bit_or
      (bit_or
        (bit_or
          (bit_or (bit_or (bit_and b 0x01 * 2 ^ 30) (low_six p1 * 2 ^ 24)) (low_six p2 * 2 ^ 18))
          (low_six p3 * 2 ^ 12))
        (low_six p4 * 2 ^ 6))
      (low_six p5)

-- A value below `least` is overlong.
abbrev pub at_least : ℕ → ℕ → Text → Read
at_least least c s = if ltb c least then malformed s else record { value = c; rest = s }

-- The checks of a value of three bytes.
abbrev pub checked_three : ℕ → Text → Read
checked_three c s = if is_forbidden_character c then malformed s else at_least 0x800 c s

unfoldable pub read_two : ℕ → Text → Read
read_two b (p1 ∷ s) =
    if not (continues p1) then malformed (p1 ∷ s) else at_least 0x80 (two_bytes b p1) s
read_two b [] = malformed []

unfoldable pub read_three : ℕ → Text → Read
read_three b (p1 ∷ p2 ∷ s) =
    if not (continues p1)
    then malformed (p1 ∷ p2 ∷ s)
    else if not (continues p2)
    then malformed (p2 ∷ s)
    else checked_three (three_bytes b p1 p2) s
read_three b (p1 ∷ []) = malformed []
read_three b [] = malformed []

unfoldable pub read_four : ℕ → Text → Read
read_four b (p1 ∷ p2 ∷ p3 ∷ s) =
    if not (continues p1)
    then malformed (p1 ∷ p2 ∷ p3 ∷ s)
    else if not (continues p2)
    then malformed (p2 ∷ p3 ∷ s)
    else if not (continues p3)
    then malformed (p3 ∷ s)
    else at_least 0x10000 (four_bytes b p1 p2 p3) s
read_four b (p1 ∷ p2 ∷ []) = malformed []
read_four b (p1 ∷ []) = malformed []
read_four b [] = malformed []

unfoldable pub read_five : ℕ → Text → Read
read_five b (p1 ∷ p2 ∷ p3 ∷ p4 ∷ s) =
    if not (continues p1)
    then malformed (p1 ∷ p2 ∷ p3 ∷ p4 ∷ s)
    else if not (continues p2)
    then malformed (p2 ∷ p3 ∷ p4 ∷ s)
    else if not (continues p3)
    then malformed (p3 ∷ p4 ∷ s)
    else if not (continues p4)
    then malformed (p4 ∷ s)
    else at_least 0x200000 (five_bytes b p1 p2 p3 p4) s
read_five b (p1 ∷ p2 ∷ p3 ∷ []) = malformed []
read_five b (p1 ∷ p2 ∷ []) = malformed []
read_five b (p1 ∷ []) = malformed []
read_five b [] = malformed []

unfoldable pub read_six : ℕ → Text → Read
read_six b (p1 ∷ p2 ∷ p3 ∷ p4 ∷ p5 ∷ s) =
    if not (continues p1)
    then malformed (p1 ∷ p2 ∷ p3 ∷ p4 ∷ p5 ∷ s)
    else if not (continues p2)
    then malformed (p2 ∷ p3 ∷ p4 ∷ p5 ∷ s)
    else if not (continues p3)
    then malformed (p3 ∷ p4 ∷ p5 ∷ s)
    else if not (continues p4)
    then malformed (p4 ∷ p5 ∷ s)
    else if not (continues p5)
    then malformed (p5 ∷ s)
    else at_least 0x4000000 (six_bytes b p1 p2 p3 p4 p5) s
read_six b (p1 ∷ p2 ∷ p3 ∷ p4 ∷ []) = malformed []
read_six b (p1 ∷ p2 ∷ p3 ∷ []) = malformed []
read_six b (p1 ∷ p2 ∷ []) = malformed []
read_six b (p1 ∷ []) = malformed []
read_six b [] = malformed []

unfoldable pub read_utf8 : Text → Read
read_utf8 [] = record { value = 0; rest = [] }
read_utf8 (b ∷ s) =
    if ltb b 0x80
    then record { value = b; rest = s }
    else if ltb b 0xc0
    then malformed s
    else if ltb b 0xe0
    then read_two b s
    else if ltb b 0xf0
    then read_three b s
    else if ltb b 0xf8
    then read_four b s
    else if ltb b 0xfc
    then read_five b s
    else if ltb b 0xfe
    then read_six b s
    else malformed s

abbrev pub get_utf8 : Text → ℕ
get_utf8 s = (read_utf8 s).value

abbrev pub next_utf8 : Text → Text
next_utf8 s = (read_utf8 s).rest

-- The loop of `PreviousUtf8`: the nearest place before `p` that does not hold a continuation byte,
-- or the bound, which is place 0 of the text.
unfoldable pub scan_back : Text → ℕ → ℕ
scan_back s zero = zero
scan_back s (suc p) = let earlier = scan_back s p in if continues (get_or s p 0) then earlier else p

-- `PreviousUtf8` with the bound at place 0.
unfoldable pub previous_utf8 : Text → ℕ → ℕ
previous_utf8 s zero = zero
previous_utf8 s (suc p) = if not (continues (get_or s p 0)) then p else scan_back s p

-- The conversion to `Utf8`.
abbrev pub to_byte : ℕ → ℕ
to_byte c = c % 2 ^ 8

-- A continuation byte with the six bits from `shift` on.
abbrev pub trail : ℕ → ℕ → ℕ
trail shift c = to_byte (bit_or 0x80 (bit_and (c / 2 ^ shift) 0x3f))

-- The sequence, where its bytes have room.
abbrev pub fits : ℕ → ℕ → Text → Text
fits room n bytes = if ltb room n then [] else bytes

unfoldable pub write_utf8 : ℕ → ℕ → Text
write_utf8 room c =
    if leb room 0
    then []
    else if leb c 0x7f
    then to_byte c ∷ []
    else if leb c 0x7ff
    then fits room 2 (to_byte (bit_or 0xc0 (c / 2 ^ 6)) ∷ trail 0 c ∷ [])
    else if leb c 0xffff
    then fits room 3 (to_byte (bit_or 0xe0 (c / 2 ^ 12)) ∷ trail 6 c ∷ trail 0 c ∷ [])
    else if leb c 0x1fffff
    then fits room 4 (to_byte (bit_or 0xf0 (c / 2 ^ 18)) ∷ trail 12 c ∷ trail 6 c ∷ trail 0 c ∷ [])
    else if leb c 0x3ffffff
    then fits room 5
        (to_byte (bit_or 0xf8 (c / 2 ^ 24)) ∷ trail 18 c ∷ trail 12 c ∷ trail 6 c ∷ trail 0 c ∷ [])
    else if leb c 0x7fffffff
    then fits room 6 (
        to_byte (bit_or 0xfc (c / 2 ^ 30))
        ∷ trail 24 c
        ∷ trail 18 c
        ∷ trail 12 c
        ∷ trail 6 c
        ∷ trail 0 c
        ∷ [])
    else fits room 3 (0xef ∷ 0xbf ∷ 0xbd ∷ [])
