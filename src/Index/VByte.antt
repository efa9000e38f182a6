-- ===== src/Index/VByte.antt =====
-- src/index/src/lib/vbyte.cpp: 32-bit numbers in groups of seven bits, and delta-coded lists.
-- A byte buffer is a list of numbers. `none` stands for undefined behaviour: a read past the end
-- of the buffer, or a shift of a 32-bit value by 32 or more.
pub mod Encode
pub mod Decode
pub mod Delta
mod Runs
use mathlib.Core.Logic.{dite}
use mathlib.Core.WellFounded.{Acc}
use search_engines.Base.{
  ℕ, zero, suc, ◌+◌, ◌-◌, ◌*◌, ◌/◌, ◌%◌, ◌^◌, ◌<◌, bit_and, bit_or, List, [], ◌∷◌, ◌++◌, Option,
  none, some, ◌>>=◌, leb, ◌==◌, if◌then◌else◌, dec_lt, arith,
}
use search_engines.Base.Order.{lt_wf}

abbrev pub IsU32 : ℕ → Type 0
IsU32 n = n < 2 ^ 32

abbrev pub IsByte : ℕ → Type 0
IsByte n = n < 256

-- `uint32_t` addition and subtraction.
unfoldable pub add32 : ℕ → ℕ → ℕ
add32 a b = (a + b) % 2 ^ 32

unfoldable pub sub32 : ℕ → ℕ → ℕ
sub32 a b = (a + 2 ^ 32 - b) % 2 ^ 32

pub shift_shrinks : (v : ℕ) → 0 < v / 128 → v / 128 < v
shift_shrinks v h = omega arith

-- The bytes that the loop writes to `out`, for the value that is left.
pub encode_loop : (value : ℕ) → Acc ◌<◌ value → List ℕ
encode_loop value (Acc.intro _ smaller) =
    let byte = bit_and value 0x7f % 256 in
    dite (dec_lt 0 (value / 128))
      (λ more. bit_or byte 0x80 ∷ encode_loop (value / 128) (smaller _ (shift_shrinks value more)))
      (λ _. byte ∷ [])

unfoldable pub encode : ℕ → List ℕ
unfolding encode_loop lt_wf dec_lt
encode value = encode_loop value (lt_wf.apply value)

-- The buffer is what stands from `ptr` on; the second result is where `ptr` is left.
pub decode_loop : List ℕ → ℕ → ℕ → Option (ℕ × List ℕ)
decode_loop [] result shift = none
decode_loop (b ∷ rest) result shift =
    let result' = bit_or result (bit_and b 0x7f * 2 ^ shift % 2 ^ 32) in
    let more = decode_loop rest result' (shift + 7) in
    if leb 32 shift then none else if bit_and b 0x80 == 0 then some (result', rest) else more

unfoldable pub decode : List ℕ → Option (ℕ × List ℕ)
unfolding decode_loop
decode ptr = decode_loop ptr 0 0

pub encode_deltas : ℕ → List ℕ → List ℕ
encode_deltas prev [] = []
encode_deltas prev (loc ∷ locations) = encode (sub32 loc prev) ++ encode_deltas loc locations

unfoldable pub encode_delta_list : List ℕ → List ℕ
unfolding encode_deltas
encode_delta_list locations = encode_deltas 0 locations

unfoldable pub decode_deltas : ℕ → List ℕ → ℕ → Option (List ℕ)
decode_deltas zero ptr prev = some []
decode_deltas (suc count) ptr prev = decode ptr >>= λ (delta, rest).
    let loc = add32 prev delta in
    decode_deltas count rest loc >>= λ locations. some (loc ∷ locations)

unfoldable pub decode_delta_list : List ℕ → ℕ → Option (List ℕ)
unfolding decode_deltas
decode_delta_list ptr count = decode_deltas count ptr 0
