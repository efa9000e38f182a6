-- ===== src/Index/VByte/Encode.antt =====
-- What `encode` writes.
use mathlib.Core.WellFounded.{Acc}
use mathlib.Core.Logic.{dif_pos}
use native.Mathlib.Bridge.{le_prop}
use search_engines.Base.{
  ℕ, zero, suc, ◌+◌, ◌/◌, ◌%◌, ◌^◌, ◌≤◌, ◌<◌, ◌≡◌, bit_and, bit_or, List, [], ◌∷◌, length, All,
  dec_lt, arith,
}
use search_engines.Base.Bits.{low_bits, set_top_bit}
use search_engines.Index.VByte.{IsU32, IsByte, shift_shrinks, encode_loop, encode}
use search_engines.Base.Order.{lt_wf}

pub low_group : (v : ℕ) → bit_and v 0x7f % 256 ≡ v % 128
low_group v = omega (arith, low_bits v)

pub inner_group : (v : ℕ) → bit_or (bit_and v 0x7f % 256) 0x80 ≡ v % 128 + 128
inner_group v =
    omega (arith, low_group v, set_top_bit (bit_and v 0x7f % 256) (omega (arith, low_group v)))

pub encode_loop_last : (v : ℕ) (w : Acc ◌<◌ v) → v < 128 → encode_loop v w ≡ v ∷ []
unfolding encode_loop
encode_loop_last v (Acc.intro _ smaller) h = ground (arith, low_group v)

pub encode_loop_more :
    (v : ℕ) (w : Acc ◌<◌ v)
    → 128 ≤ v
    → (w' : Acc ◌<◌ (v / 128)) × (encode_loop v w ≡ (v % 128 + 128) ∷ encode_loop (v / 128) w')
unfolding encode_loop
encode_loop_more v (Acc.intro _ smaller) h =
    let more : 0 < v / 128 = omega arith in
    (
      smaller (v / 128) (shift_shrinks v more),
      rw (dif_pos (dec_lt 0 (v / 128)) le_prop more, inner_group v),
    )

abbrev ShortBytes : ℕ → List ℕ → Type 0
ShortBytes n bytes = All IsByte bytes × (1 ≤ length bytes) × (length bytes ≤ n)

encode_loop_shape :
    (k v : ℕ) (w : Acc ◌<◌ v) → v < 128 ^ suc k → ShortBytes (suc k) (encode_loop v w)
encode_loop_shape zero v w h = rw (encode_loop_last v w (omega arith)) (omega arith)
encode_loop_shape (suc k) v w h = elim (dec_lt v 128) [
  | yes small ↦ rw (encode_loop_last v w small) (omega arith)
  | no large ↦
      let (w', e) = encode_loop_more v w (omega arith) in
      rw e (
        let (bytes, low, high) = encode_loop_shape k (v / 128) w' (omega arith) in
        ((omega arith, bytes), omega arith, omega arith))
]

-- Every `uint32_t` is encoded in one to five elements, each of which is a byte: the
-- five-byte buffer of `encodeDeltaList` is never overrun.
pub encode_shape :
    (v : ℕ) → IsU32 v → All IsByte (encode v) × (1 ≤ length (encode v)) × (length (encode v) ≤ 5)
unfolding encode
encode_shape v h = encode_loop_shape 4 v (lt_wf.apply v) (omega arith)
