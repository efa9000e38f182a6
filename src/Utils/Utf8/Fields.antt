-- ===== src/Utils/Utf8/Fields.antt =====
-- The bytes of a sequence as numbers: what the masks keep and what the shifts put together.
use search_engines.Base.{ℕ, ◌+◌, ◌*◌, ◌/◌, ◌%◌, ◌^◌, ◌<◌, bit_or, true, ◌≡◌, arith, ◌==◌}
use search_engines.Base.Bits.{
  bit_or_comm, bit_or_shifted, low_bits_six, top_two_bits, low_bits_five, low_bits_four,
  low_bits_three, low_bit, low_bits_two,
}
use search_engines.Utils.Utf8.{
  continues, four_bytes, three_bytes, two_bytes, five_bytes, six_bytes, to_byte, trail,
}

-- `(b << s) | a` is a sum where `a` fits below bit `s`.
pub shifted-bit_or : (s a b : ℕ) → a < 2 ^ s → bit_or (b * 2 ^ s) a ≡ b * 2 ^ s + a
shifted-bit_or s a b h = omega (arith, bit_or_comm (b * 2 ^ s) a, bit_or_shifted s a b h)

pub continues_iff : (b : ℕ) → b < 256 → continues b ≡ (b / 64 == 2)
unfolding continues
continues_iff b h = ground (arith, top_two_bits b h)

pub two_bytes-eq : (b p : ℕ) → two_bytes b p ≡ b % 32 * 64 + p % 64
unfolding two_bytes
two_bytes-eq b p =
    rw (low_bits_five b, low_bits_six p) (shifted-bit_or 6 (p % 64) (b % 32) (omega arith))

pub three_bytes-eq : (b p q : ℕ) → three_bytes b p q ≡ b % 16 * 4096 + p % 64 * 64 + q % 64
unfolding three_bytes
three_bytes-eq b p q =
    let e : bit_or (b % 16 * 2 ^ 12) (p % 64 * 2 ^ 6) ≡ (b % 16 * 64 + p % 64) * 2 ^ 6 =
      omega (arith, shifted-bit_or 12 (p % 64 * 2 ^ 6) (b % 16) (omega arith)) in
    rw (low_bits_four b, low_bits_six p, low_bits_six q, e)
      (omega (arith, shifted-bit_or 6 (q % 64) (b % 16 * 64 + p % 64) (omega arith)))

pub four_bytes-eq :
    (b p q r : ℕ) → four_bytes b p q r ≡ b % 8 * 262144 + p % 64 * 4096 + q % 64 * 64 + r % 64
unfolding four_bytes
four_bytes-eq b p q r =
    let e : bit_or (b % 8 * 2 ^ 18) (p % 64 * 2 ^ 12) ≡ (b % 8 * 64 + p % 64) * 2 ^ 12 =
      omega (arith, shifted-bit_or 18 (p % 64 * 2 ^ 12) (b % 8) (omega arith)) in
    let f : bit_or ((b % 8 * 64 + p % 64) * 2 ^ 12) (q % 64 * 2 ^ 6)
        ≡ (b % 8 * 4096 + p % 64 * 64 + q % 64) * 2 ^ 6 =
      omega (arith, shifted-bit_or 12 (q % 64 * 2 ^ 6) (b % 8 * 64 + p % 64) (omega arith)) in
    rw (low_bits_three b, low_bits_six p, low_bits_six q, low_bits_six r, e, f)
      (omega (arith, shifted-bit_or 6 (r % 64) (b % 8 * 4096 + p % 64 * 64 + q % 64) (omega arith)))

pub five_bytes-eq :
    (b p q r t : ℕ)
    → five_bytes b p q r t
      ≡ b % 4 * 16777216 + p % 64 * 262144 + q % 64 * 4096 + r % 64 * 64 + t % 64
unfolding five_bytes
five_bytes-eq b p q r t =
    let e : bit_or (b % 4 * 2 ^ 24) (p % 64 * 2 ^ 18) ≡ (b % 4 * 64 + p % 64) * 2 ^ 18 =
      omega (arith, shifted-bit_or 24 (p % 64 * 2 ^ 18) (b % 4) (omega arith)) in
    let f : bit_or ((b % 4 * 64 + p % 64) * 2 ^ 18) (q % 64 * 2 ^ 12)
        ≡ (b % 4 * 4096 + p % 64 * 64 + q % 64) * 2 ^ 12 =
      omega (arith, shifted-bit_or 18 (q % 64 * 2 ^ 12) (b % 4 * 64 + p % 64) (omega arith)) in
    let g : bit_or ((b % 4 * 4096 + p % 64 * 64 + q % 64) * 2 ^ 12) (r % 64 * 2 ^ 6)
        ≡ (b % 4 * 262144 + p % 64 * 4096 + q % 64 * 64 + r % 64) * 2 ^ 6 =
      omega (
        arith,
        shifted-bit_or 12 (r % 64 * 2 ^ 6) (b % 4 * 4096 + p % 64 * 64 + q % 64) (omega arith),
      ) in
    rw (low_bits_two b, low_bits_six p, low_bits_six q, low_bits_six r, low_bits_six t, e, f, g)
      (omega (
        arith,
        shifted-bit_or 6 (t % 64) (b % 4 * 262144 + p % 64 * 4096 + q % 64 * 64 + r % 64)
            (omega arith),
      ))

pub six_bytes-eq :
    (b p q r t u : ℕ)
    → six_bytes b p q r t u
      ≡ b % 2 * 1073741824
        + p % 64 * 16777216
        + q % 64 * 262144
        + r % 64 * 4096
        + t % 64 * 64
        + u % 64
unfolding six_bytes
six_bytes-eq b p q r t u =
    let n1 : ℕ = b % 2 * 64 + p % 64 in
    let n2 : ℕ = n1 * 64 + q % 64 in
    let n3 : ℕ = n2 * 64 + r % 64 in
    let n4 : ℕ = n3 * 64 + t % 64 in
    let e : bit_or (b % 2 * 2 ^ 30) (p % 64 * 2 ^ 24) ≡ n1 * 2 ^ 24 =
      omega (arith, shifted-bit_or 30 (p % 64 * 2 ^ 24) (b % 2) (omega arith)) in
    let f : bit_or (n1 * 2 ^ 24) (q % 64 * 2 ^ 18) ≡ n2 * 2 ^ 18 =
      omega (arith, shifted-bit_or 24 (q % 64 * 2 ^ 18) n1 (omega arith)) in
    let g : bit_or (n2 * 2 ^ 18) (r % 64 * 2 ^ 12) ≡ n3 * 2 ^ 12 =
      omega (arith, shifted-bit_or 18 (r % 64 * 2 ^ 12) n2 (omega arith)) in
    let h : bit_or (n3 * 2 ^ 12) (t % 64 * 2 ^ 6) ≡ n4 * 2 ^ 6 =
      omega (arith, shifted-bit_or 12 (t % 64 * 2 ^ 6) n3 (omega arith)) in
    rw
      (
        low_bit b,
        low_bits_six p,
        low_bits_six q,
        low_bits_six r,
        low_bits_six t,
        low_bits_six u,
        e,
        f,
        g,
        h,
      )
      (omega (arith, shifted-bit_or 6 (u % 64) n4 (omega arith)))

-- The first byte of a sequence, and a byte behind it.
pub marked :
    (s m a : ℕ) → a < 2 ^ s → m * 2 ^ s + a < 256 → to_byte (bit_or (m * 2 ^ s) a) ≡ m * 2 ^ s + a
marked s m a h k = omega (arith, shifted-bit_or s a m h)

pub trail-eq : (shift c : ℕ) → trail shift c ≡ 128 + c / 2 ^ shift % 64
trail-eq shift c =
    rw (low_bits_six (c / 2 ^ shift)) (marked 6 2 (c / 2 ^ shift % 64) (omega arith) (omega arith))

pub trail-continues : (shift c : ℕ) → continues (trail shift c) ≡ true
trail-continues shift c =
    rw (trail-eq shift c) (ground (arith, continues_iff (128 + c / 2 ^ shift % 64) (omega arith)))
