-- ===== src/Utils/Utf16.antt =====
-- src/utils/Utf8.cpp: reading and writing UTF-16, as lists of 16-bit units up to the bound.
use search_engines.Base.{
  ℕ, ◌+◌, ◌-◌, ◌*◌, ◌/◌, ◌%◌, ◌^◌, ◌≤◌, ◌<◌, bit_and, bit_or, ◌&&◌, ◌||◌, ◌≡◌, if◌then◌else◌, leb,
  ltb, [], ◌∷◌, ◌++◌, Text, arith, length, ◌⊎◌,
}
use search_engines.Base.Bits.{low_bits_ten}
use search_engines.Utils.Utf8.{Read, replacement_character}
use search_engines.Utils.Utf8.Fields.{shifted-bit_or}

abbrev pub size_of_utf16 : ℕ → ℕ
size_of_utf16 c = if leb c 0xffff then 2 else if leb c 0x10ffff then 4 else 2

-- The value of a surrogate pair.
unfoldable pub pair_value : ℕ → ℕ → ℕ
pair_value first second = 0x10000 + bit_or ((first - 0xd800) * 2 ^ 10) (second - 0xdc00)

-- A high surrogate with what follows it.
unfoldable pub read_pair : ℕ → Text → Read
read_pair first [] = record { value = first; rest = [] }
read_pair first (second ∷ s) =
    if leb 0xdc00 second && leb second 0xdfff
    then record { value = pair_value first second; rest = s }
    else record { value = first; rest = second ∷ s }

unfoldable pub read_utf16 : Text → Read
read_utf16 [] = record { value = 0; rest = [] }
read_utf16 (first ∷ s) =
    if ltb first 0xd800 || ltb 0xdfff first
    then record { value = first; rest = s }
    else if leb first 0xdbff
    then read_pair first s
    else record { value = first; rest = s }

abbrev pub get_utf16 : Text → ℕ
get_utf16 s = (read_utf16 s).value

abbrev pub next_utf16 : Text → Text
next_utf16 s = (read_utf16 s).rest

abbrev pub to_unit : ℕ → ℕ
to_unit c = c % 2 ^ 16

-- A value that is already at most 0x10ffff.
unfoldable pub write_unit : ℕ → ℕ → Text
write_unit room c =
    if leb c 0xffff
    then to_unit c ∷ []
    else if leb room 1
    then []
    else to_unit (0xd800 + (c - 0x10000) / 2 ^ 10)
      ∷ to_unit (0xdc00 + bit_and (c - 0x10000) 0x3ff)
      ∷ []

unfoldable pub write_utf16 : ℕ → ℕ → Text
write_utf16 room c =
    if leb room 0 then [] else write_unit room (if ltb 0x10ffff c then replacement_character else c)

-- The units written for `c` have the size that `SizeOfUtf16` tells, in bytes, where that has room;
-- otherwise nothing is written. This holds for every 32-bit value.
pub length-write_utf16 :
    (room c : ℕ)
    → 2 * length (write_utf16 room c)
      ≡ (if ltb (2 * room) (size_of_utf16 c) then 0 else size_of_utf16 c)
unfolding write_utf16 write_unit
length-write_utf16 room c = ground arith

pair_value-eq :
    (c : ℕ)
    → 0x10000 ≤ c
    → c ≤ 0x10ffff
    → pair_value (0xd800 + (c - 0x10000) / 1024) (0xdc00 + (c - 0x10000) % 1024) ≡ c
unfolding pair_value
pair_value-eq c h k = omega (
  arith,
  shifted-bit_or 10 (0xdc00 + (c - 0x10000) % 1024 - 0xdc00)
      (0xd800 + (c - 0x10000) / 1024 - 0xd800) (omega arith),
  shifted-bit_or 10 ((c - 0x10000) % 1024) ((c - 0x10000) / 1024) (omega arith),
)

-- Reading the units written for `c` gives `c` back and stops right behind them, for every Unicode
-- value but the surrogates, where at least two units had room.
pub read_utf16-write_utf16 :
    (room c : ℕ) (s : Text)
    → 2 ≤ room
    → c ≤ 0x10ffff
    → (c < 0xd800) ⊎ (0xdfff < c)
    → read_utf16 (write_utf16 room c ++ s) ≡ record { value = c; rest = s }
unfolding read_utf16 write_utf16 write_unit read_pair
read_utf16-write_utf16 room c s h k good =
    ground (arith, pair_value-eq c, low_bits_ten (c - 0x10000))
