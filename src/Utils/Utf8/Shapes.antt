-- ===== src/Utils/Utf8/Shapes.antt =====
-- src/utils/Utf8.cpp: how many bytes a write puts down, and their values.
use search_engines.Base.{ℕ, Bool, true, false, ◌≡◌, refl, arith, Text, length, if◌then◌else◌, ltb}
use search_engines.Utils.Utf8.{write_utf8, size_of_utf8}

length-if :
    (c : Bool) (s t : Text) → length (if c then s else t) ≡ (if c then length s else length t)
length-if true s t = refl
length-if false s t = refl

-- A write puts down the whole sequence of `SizeOfUtf8` bytes or, where that has no room, nothing at
-- all; this holds for every 32-bit value.
pub length-write_utf8 :
    (room c : ℕ)
    → length (write_utf8 room c) ≡ (if ltb room (size_of_utf8 c) then 0 else size_of_utf8 c)
unfolding write_utf8
length-write_utf8 room c = ground arith
