-- ===== src/Index/VByte/Decode.antt =====
-- `decode` reads back what `encode` wrote.
use mathlib.Core.WellFounded.{Acc}
use search_engines.Base.{
  ℕ, zero, suc, ◌+◌, ◌*◌, ◌/◌, ◌%◌, ◌^◌, ◌<◌, ◌≡◌, ◌++◌, ap, List, ◌∷◌, some, arith, dec_lt, refl,
  ◌∙◌, length, bit_or, bit_and, Bool-cases, leb, inl, inr, ◌==◌, [],
}
use search_engines.Base.Bits.{low_bits, top_bit, bit_or_shifted}
use search_engines.Index.VByte.{IsU32, encode_loop, encode, decode_loop, decode}
use search_engines.Index.VByte.Encode.{encode_loop_last, encode_loop_more}
use search_engines.Base.Order.{lt_wf}
use native.Mathlib.Nat.{div-add-mod}
use native.Mathlib.Numerals.{towards_suc}

next_group : (at : ℕ) → 2 ^ (at + 7) ≡ 128 * 2 ^ at
next_group at = simp towards_suc (omega arith)

-- One call of the loop, on the last byte of a number and on a byte before it.
read_last :
    (byte got at : ℕ) (rest : List ℕ)
    → got < 2 ^ at
    → at < 32
    → byte < 128
    → IsU32 (got + byte * 2 ^ at)
    → decode_loop (byte ∷ rest) got at ≡ some (got + byte * 2 ^ at, rest)
unfolding decode_loop
read_last byte got at rest room low small fits =
    ground (arith, bit_or_shifted at got byte room, top_bit byte, low_bits byte)

read_more :
    (bits got at : ℕ) (rest : List ℕ)
    → got < 2 ^ at
    → at < 32
    → bits < 128
    → IsU32 (got + bits * 2 ^ at)
    → decode_loop ((bits + 128) ∷ rest) got at ≡ decode_loop rest (got + bits * 2 ^ at) (at + 7)
unfolding decode_loop
read_more bits got at rest room low small fits =
    ground (arith, bit_or_shifted at got bits room, top_bit (bits + 128), low_bits (bits + 128))

-- The lowest seven bits of `left`, and the others.
groups : (left at : ℕ) → left % 128 * 2 ^ at + left / 128 * 2 ^ (at + 7) ≡ left * 2 ^ at
groups left at =
    let parts = ap (λ (t : ℕ). t * 2 ^ at) (div-add-mod left 128) in
    let wide = ap (λ (t : ℕ). left / 128 * t) (next_group at) in omega (arith, parts, wide)

-- `w` is what is still to be read, and it counts from bit `s` on.
decode_loop-encode_loop :
    (k w : ℕ) (a : Acc ◌<◌ w) (acc s : ℕ) (rest : List ℕ)
    → w < 128 ^ suc k
    → s + 7 * k ≡ 28
    → acc < 2 ^ s
    → IsU32 (acc + w * 2 ^ s)
    → decode_loop (encode_loop w a ++ rest) acc s ≡ some (acc + w * 2 ^ s, rest)
decode_loop-encode_loop zero w a acc s rest hw hs ha fits =
    rw (encode_loop_last w a (omega arith))
      (read_last w acc s rest ha (omega arith) (omega arith) fits)
decode_loop-encode_loop (suc k) w a acc s rest hw hs ha fits = elim (dec_lt w 128) [
  | yes small ↦ rw (encode_loop_last w a small) (read_last w acc s rest ha (omega arith) small fits)
  | no large ↦
      let (a', e) = encode_loop_more w a (omega arith) in
      let split = groups w s in
      let bound : acc + w % 128 * 2 ^ s < 2 ^ (s + 7) = grind (arith, next_group s) in
      rw (e, read_more (w % 128) acc s _ ha (omega arith) (omega arith) (omega arith))
        (decode_loop-encode_loop k (w / 128) a' (acc + w % 128 * 2 ^ s) (s + 7) rest (omega arith)
            (omega arith) bound (omega arith)
          ∙ ap (λ n. some (n, rest)) (omega arith))
]

-- `decode` reads back every `uint32_t` that `encode` wrote, and stops right behind it.
pub decode-encode : (v : ℕ) (rest : List ℕ) → IsU32 v → decode (encode v ++ rest) ≡ some (v, rest)
unfolding decode encode
decode-encode v rest h =
    decode_loop-encode_loop 4 v (lt_wf.apply v) 0 0 rest (omega arith) refl (omega arith)
      (omega arith)
    ∙ ap (λ n. some (n, rest)) (omega arith)

decode_loop-shorter :
    (ptr : List ℕ) (result shift : ℕ) {n : ℕ} {rest : List ℕ}
    → decode_loop ptr result shift ≡ some (n, rest)
    → length rest < length ptr
unfolding decode_loop
decode_loop-shorter [] result shift h = cc
decode_loop-shorter (b ∷ bs) result shift {n} {rest} h =
    let result' = bit_or result (bit_and b 0x7f * 2 ^ shift % 2 ^ 32) in
    elim (Bool-cases (leb 32 shift)) [
      | inl e ↦ cc (rw e at h)
      | inr e ↦ elim (Bool-cases (bit_and b 0x80 == 0)) [
        | inl last ↦ let same : rest ≡ bs = cc (rw (e, last) at h) in omega (arith, ap length same)
        | inr more ↦
            let h' : decode_loop bs result' (shift + 7) ≡ some (n, rest) = rw (e, more) at h in
            omega (arith, decode_loop-shorter bs result' (shift + 7) h')
      ]
    ]

-- `decode` moves the pointer.
pub decode-shorter :
    (ptr : List ℕ) {n : ℕ} {rest : List ℕ} → decode ptr ≡ some (n, rest) → length rest < length ptr
unfolding decode
decode-shorter ptr h = decode_loop-shorter ptr 0 0 h
