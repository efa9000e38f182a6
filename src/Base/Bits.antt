-- ===== src/Base/Bits.antt =====
-- Masks and disjoint fields of machine words as arithmetic.
use Prim.Native.Nat.{digits, bit_or-bitwise, bit_and-bitwise}
use native.Mathlib.Nat.{pow-suc}
use search_engines.Base.{
  ℕ, zero, suc, ◌+◌, ◌*◌, ◌/◌, ◌%◌, ◌^◌, ◌≤◌, ◌<◌, max, min, bit_and, bit_or, ◌≡◌, refl, ap, arith,
}

-- The native operation is a recursion on binary digits with fuel; any fuel from `a` on serves.
module _ (alone : ℕ → ℕ) (op : ℕ → ℕ → ℕ) where
  -- Fuel beyond the first number changes nothing.
  digits_surplus :
      (x y few many : ℕ) → x ≤ few → few ≤ many → digits alone op many x y ≡ digits alone op few x y
  digits_surplus zero y zero zero h k = refl
  digits_surplus zero y zero (suc many) h k = refl
  digits_surplus zero y (suc few) zero h k = refl
  digits_surplus zero y (suc few) (suc many) h k = refl
  digits_surplus (suc x) y (suc few) (suc many) h k =
      ap (λ (t : ℕ). t * 2 + op (suc x % 2) (y % 2))
        (digits_surplus (suc x / 2) (y / 2) few many (omega arith) (omega arith))
  digits_surplus (suc x) y zero many h k = absurd (omega arith)
  digits_surplus (suc x) y (suc few) zero h k = absurd (omega arith)

pub zero-bit_or : (b : ℕ) → bit_or 0 b ≡ b
zero-bit_or b = bit_or-bitwise 0 b

-- One binary digit at a time.
pub bit_or_digit : (a b : ℕ) → bit_or a b ≡ bit_or (a / 2) (b / 2) * 2 + max (a % 2) (b % 2)
bit_or_digit zero b = omega (arith, zero-bit_or b, zero-bit_or (b / 2))
bit_or_digit (suc a) b = omega (
  arith,
  digits_surplus (λ y. y) max (suc a / 2) (b / 2) (suc a / 2) a (omega arith) (omega arith),
  bit_or-bitwise (suc a / 2) (b / 2),
  bit_or-bitwise (suc a) b,
)

-- `a | (b << s)` is a sum where `a` fits below bit `s`.
pub bit_or_shifted : (s a b : ℕ) → a < 2 ^ s → bit_or a (b * 2 ^ s) ≡ a + b * 2 ^ s
bit_or_shifted zero a b h =
    let e : a ≡ 0 = omega arith in rw e (omega (arith, zero-bit_or (b * 2 ^ 0)))
bit_or_shifted (suc s) a b h = ground (
  arith,
  bit_or_digit a (b * 2 ^ suc s),
  pow-suc 2 s,
  ap (λ (t : ℕ). b * t) (pow-suc 2 s),
  bit_or_shifted s (a / 2) b (omega (arith, pow-suc 2 s)),
)

zero-bit_and : (b : ℕ) → bit_and 0 b ≡ 0
zero-bit_and b = bit_and-bitwise 0 b

bit_and_digit : (a b : ℕ) → bit_and a b ≡ bit_and (a / 2) (b / 2) * 2 + min (a % 2) (b % 2)
bit_and_digit zero b = omega (arith, zero-bit_and b, zero-bit_and (b / 2))
bit_and_digit (suc a) b = omega (
  arith,
  digits_surplus (λ y. zero) min (suc a / 2) (b / 2) (suc a / 2) a (omega arith) (omega arith),
  bit_and-bitwise (suc a / 2) (b / 2),
  bit_and-bitwise (suc a) b,
)

bit_and-zero_below : (n a : ℕ) → a < n → bit_and a 0 ≡ 0
bit_and-zero_below zero a h = absurd (omega arith)
bit_and-zero_below (suc n) zero h = zero-bit_and 0
bit_and-zero_below (suc n) (suc a) h =
    omega (arith, bit_and_digit (suc a) 0, bit_and-zero_below n (suc a / 2) (omega arith))

bit_and-zero : (a : ℕ) → bit_and a 0 ≡ 0
bit_and-zero a = bit_and-zero_below (a + 1) a (omega arith)

bit_and_three_bits : (a : ℕ) → bit_and a 7 ≡ a % 8
bit_and_three_bits a = omega (
  arith,
  bit_and_digit a 7,
  bit_and_digit (a / 2) 3,
  bit_and_digit (a / 2 / 2) 1,
  bit_and-zero (a / 2 / 2 / 2),
)

pub even_mask : (a m : ℕ) → bit_and a (m * 2) ≡ bit_and (a / 2) m * 2
even_mask a m =
    let half : m * 2 / 2 ≡ m = omega arith in
    omega (arith, bit_and_digit a (m * 2), ap (λ (t : ℕ). bit_and (a / 2) t) half)

odd_mask : (a : ℕ) → bit_and a 1 ≡ a % 2
odd_mask a = omega (arith, bit_and_digit a 1, bit_and-zero (a / 2))

-- The bit above them, in a byte.
pub top_bit : (b : ℕ) → b < 256 → bit_and b 0x80 ≡ b / 128 * 128
top_bit b h = omega (
  arith,
  even_mask b 64,
  even_mask (b / 2) 32,
  even_mask (b / 2 / 2) 16,
  even_mask (b / 2 / 2 / 2) 8,
  even_mask (b / 2 / 2 / 2 / 2) 4,
  even_mask (b / 2 / 2 / 2 / 2 / 2) 2,
  even_mask (b / 2 / 2 / 2 / 2 / 2 / 2) 1,
  odd_mask (b / 2 / 2 / 2 / 2 / 2 / 2 / 2),
)

pub set_top_bit : (b : ℕ) → b < 128 → bit_or b 0x80 ≡ b + 128
set_top_bit b h = bit_or_shifted 7 b 1 h

-- The mask of the seven low bits of a word of any width.
pub low_bits : (a : ℕ) → bit_and a 0x7f ≡ a % 128
low_bits a = omega (
  arith,
  bit_and_digit a 127,
  bit_and_digit (a / 2) 63,
  bit_and_digit (a / 2 / 2) 31,
  bit_and_digit (a / 2 / 2 / 2) 15,
  bit_and_three_bits (a / 2 / 2 / 2 / 2),
)

bit_or_comm_below : (n a b : ℕ) → a + b < n → bit_or a b ≡ bit_or b a
bit_or_comm_below zero a b h = absurd (omega arith)
bit_or_comm_below (suc n) zero zero h = refl
bit_or_comm_below (suc n) zero (suc b) h = omega (
  arith,
  bit_or_digit 0 (suc b),
  bit_or_digit (suc b) 0,
  bit_or_comm_below n 0 (suc b / 2) (omega arith),
)
bit_or_comm_below (suc n) (suc a) b h = omega (
  arith,
  bit_or_digit (suc a) b,
  bit_or_digit b (suc a),
  bit_or_comm_below n (suc a / 2) (b / 2) (omega arith),
)

pub bit_or_comm : (a b : ℕ) → bit_or a b ≡ bit_or b a
bit_or_comm a b = bit_or_comm_below (a + b + 1) a b (omega arith)

-- The masks of the low bits.
pub low_bit : (a : ℕ) → bit_and a 0x01 ≡ a % 2
low_bit a = odd_mask a

pub low_bits_two : (a : ℕ) → bit_and a 0x03 ≡ a % 4
low_bits_two a = omega (arith, bit_and_digit a 3, odd_mask (a / 2))

pub low_bits_three : (a : ℕ) → bit_and a 0x07 ≡ a % 8
low_bits_three a = bit_and_three_bits a

pub low_bits_four : (a : ℕ) → bit_and a 0x0f ≡ a % 16
low_bits_four a = omega (arith, bit_and_digit a 15, bit_and_three_bits (a / 2))

pub low_bits_five : (a : ℕ) → bit_and a 0x1f ≡ a % 32
low_bits_five a = omega (arith, bit_and_digit a 31, low_bits_four (a / 2))

pub low_bits_six : (a : ℕ) → bit_and a 0x3f ≡ a % 64
low_bits_six a = omega (arith, bit_and_digit a 63, low_bits_five (a / 2))

-- The two bits above them, in a byte.
pub top_two_bits : (b : ℕ) → b < 256 → bit_and b 0xc0 ≡ b / 64 * 64
top_two_bits b h = omega (
  arith,
  even_mask b 96,
  even_mask (b / 2) 48,
  even_mask (b / 2 / 2) 24,
  even_mask (b / 2 / 2 / 2) 12,
  even_mask (b / 2 / 2 / 2 / 2) 6,
  even_mask (b / 2 / 2 / 2 / 2 / 2) 3,
  low_bits_two (b / 2 / 2 / 2 / 2 / 2 / 2),
)

pub low_bits_ten : (a : ℕ) → bit_and a 0x3ff ≡ a % 1024
low_bits_ten a = omega (
  arith,
  bit_and_digit a 1023,
  bit_and_digit (a / 2) 511,
  bit_and_digit (a / 2 / 2) 255,
  low_bits (a / 2 / 2 / 2),
)
