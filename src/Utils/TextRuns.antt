-- ===== src/Utils/TextRuns.antt =====
-- Characters of several widths.
use search_engines.Base.{[], ◌∷◌, refl, ◌≡◌, arith, inr, ◌++◌}
use search_engines.Utils.Utf16.{read_utf16, write_utf16, read_utf16-write_utf16}
use search_engines.Utils.Utf8.{read_utf8, write_utf8, get_utf8, next_utf8}
use search_engines.Utils.Utf8.Safe.{Consumes, IsAllowed, next_utf8-Consumes}
use search_engines.Utils.Utf8.Exact.{IsExact, read_utf8-IsAllowed}
use search_engines.Utils.Utf8.RoundTrip.{read_utf8-write_utf8}

-- The euro sign, written and read.
read_utf8-write_utf8_example :
    read_utf8 (write_utf8 6 0x20ac ++ (65 ∷ [])) ≡ record { value = 0x20ac; rest = 65 ∷ [] }
read_utf8-write_utf8_example =
    read_utf8-write_utf8 6 0x20ac (65 ∷ []) (omega arith) (omega arith) refl

-- A cut sequence.
next_utf8-Consumes_example : Consumes (0xe2 ∷ 0x82 ∷ []) (next_utf8 (0xe2 ∷ 0x82 ∷ []))
next_utf8-Consumes_example = next_utf8-Consumes 0xe2 (0x82 ∷ [])

-- The three bytes of a surrogate.
read_utf8-IsAllowed_example :
    IsAllowed (get_utf8 (0xed ∷ 0xa0 ∷ 0x80 ∷ []))
    × IsExact (0xed ∷ 0xa0 ∷ 0x80 ∷ []) (read_utf8 (0xed ∷ 0xa0 ∷ 0x80 ∷ []))
read_utf8-IsAllowed_example =
    read_utf8-IsAllowed 0xed (0xa0 ∷ 0x80 ∷ []) (omega arith, (omega arith, tt))

read_utf16-write_utf16_example :
    read_utf16 (write_utf16 2 0x1f600 ++ (65 ∷ [])) ≡ record { value = 0x1f600; rest = 65 ∷ [] }
read_utf16-write_utf16_example =
    read_utf16-write_utf16 2 0x1f600 (65 ∷ []) (omega arith) (omega arith) (inr (omega arith))
