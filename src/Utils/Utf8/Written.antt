-- ===== src/Utils/Utf8/Written.antt =====
-- src/utils/Utf8.cpp: the value of a sequence of bytes is written as these bytes.
use search_engines.Base.{
  ℕ, ◌≤◌, ◌<◌, ◌≡◌, refl, ◌++◌, ◌∷◌, Text, ◌%◌, ◌*◌, ◌+◌, ◌/◌, ap, arith, sym, ◌∙◌,
}
use search_engines.Utils.Utf8.{write_utf8, trail}
use search_engines.Utils.Utf8.Fields.{trail-eq}
use search_engines.Utils.Utf8.RoundTrip.{write_five, write_four, write_six, write_three, write_two}

pub two-written :
    (b p c : ℕ) (s : Text)
    → c ≡ b % 32 * 64 + p % 64
    → 192 ≤ b
    → b < 224
    → p / 64 ≡ 2
    → 128 ≤ c
    → b ∷ p ∷ s ≡ write_utf8 6 c ++ s
two-written b p c s v from below hp low =
    let first : 192 + c / 64 ≡ b = omega arith in
    let ep : trail 0 c ≡ p = omega (arith, trail-eq 0 c) in
    sym (
      ap (λ w. w ++ s) (write_two 6 c (omega arith) (omega arith) (omega arith))
      ∙ rw (first, ep) refl)

pub three-written :
    (b p q c : ℕ) (s : Text)
    → c ≡ b % 16 * 4096 + p % 64 * 64 + q % 64
    → 224 ≤ b
    → b < 240
    → p / 64 ≡ 2
    → q / 64 ≡ 2
    → 2048 ≤ c
    → b ∷ p ∷ q ∷ s ≡ write_utf8 6 c ++ s
three-written b p q c s v from below hp hq low =
    let first : 224 + c / 4096 ≡ b = omega arith in
    let ep : trail 6 c ≡ p = omega (arith, trail-eq 6 c) in
    let eq : trail 0 c ≡ q = omega (arith, trail-eq 0 c) in
    sym (
      ap (λ w. w ++ s) (write_three 6 c (omega arith) (omega arith) (omega arith))
      ∙ rw (first, ep, eq) refl)

pub four-written :
    (b p q r c : ℕ) (s : Text)
    → c ≡ b % 8 * 262144 + p % 64 * 4096 + q % 64 * 64 + r % 64
    → 240 ≤ b
    → b < 248
    → p / 64 ≡ 2
    → q / 64 ≡ 2
    → r / 64 ≡ 2
    → 65536 ≤ c
    → b ∷ p ∷ q ∷ r ∷ s ≡ write_utf8 6 c ++ s
four-written b p q r c s v from below hp hq hr low =
    let first : 240 + c / 262144 ≡ b = omega arith in
    let ep : trail 12 c ≡ p = omega (arith, trail-eq 12 c) in
    let eq : trail 6 c ≡ q = omega (arith, trail-eq 6 c) in
    let er : trail 0 c ≡ r = omega (arith, trail-eq 0 c) in
    sym (
      ap (λ w. w ++ s) (write_four 6 c (omega arith) (omega arith) (omega arith))
      ∙ rw (first, ep, eq, er) refl)

pub five-written :
    (b p q r t c : ℕ) (s : Text)
    → c ≡ b % 4 * 16777216 + p % 64 * 262144 + q % 64 * 4096 + r % 64 * 64 + t % 64
    → 248 ≤ b
    → b < 252
    → p / 64 ≡ 2
    → q / 64 ≡ 2
    → r / 64 ≡ 2
    → t / 64 ≡ 2
    → 2097152 ≤ c
    → b ∷ p ∷ q ∷ r ∷ t ∷ s ≡ write_utf8 6 c ++ s
five-written b p q r t c s v from below hp hq hr ht low =
    let first : 248 + c / 16777216 ≡ b = omega arith in
    let ep : trail 18 c ≡ p = omega (arith, trail-eq 18 c) in
    let eq : trail 12 c ≡ q = omega (arith, trail-eq 12 c) in
    let er : trail 6 c ≡ r = omega (arith, trail-eq 6 c) in
    let et : trail 0 c ≡ t = omega (arith, trail-eq 0 c) in
    sym (
      ap (λ w. w ++ s) (write_five 6 c (omega arith) (omega arith) (omega arith))
      ∙ rw (first, ep, eq, er, et) refl)

pub six-written :
    (b p q r t u c : ℕ) (s : Text)
    → c
      ≡ b % 2 * 1073741824
        + p % 64 * 16777216
        + q % 64 * 262144
        + r % 64 * 4096
        + t % 64 * 64
        + u % 64
    → 252 ≤ b
    → b < 254
    → p / 64 ≡ 2
    → q / 64 ≡ 2
    → r / 64 ≡ 2
    → t / 64 ≡ 2
    → u / 64 ≡ 2
    → 67108864 ≤ c
    → b ∷ p ∷ q ∷ r ∷ t ∷ u ∷ s ≡ write_utf8 6 c ++ s
six-written b p q r t u c s v from below hp hq hr ht hu low =
    let first : 252 + c / 1073741824 ≡ b = omega arith in
    let ep : trail 24 c ≡ p = omega (arith, trail-eq 24 c) in
    let eq : trail 18 c ≡ q = omega (arith, trail-eq 18 c) in
    let er : trail 12 c ≡ r = omega (arith, trail-eq 12 c) in
    let et : trail 6 c ≡ t = omega (arith, trail-eq 6 c) in
    let eu : trail 0 c ≡ u = omega (arith, trail-eq 0 c) in
    sym (
      ap (λ w. w ++ s) (write_six 6 c (omega arith) (omega arith) (omega arith))
      ∙ rw (first, ep, eq, er, et, eu) refl)
