-- ===== src/Crawler/Bloom/Packed.antt =====
-- src/crawler/url_dedup.cpp: a snapshot's bytes give the bits back.
use native.Mathlib.Nat.{pow-suc}
use search_engines.Base.Bits.{low_bit, even_mask, bit_or_digit, bit_or_comm, zero-bit_or}
use search_engines.Base.{
  ℕ, ◌+◌, ◌*◌, ◌/◌, ◌%◌, ◌^◌, ◌≤◌, ◌<◌, suc, zero, Bool, true, false, ◌≡◌, refl, List, [], ◌∷◌,
  length, get_or, set, arith, ◌||◌, inl, inr, Bool-cases, ◌==◌, not, bit_and, bit_or, ap, ap₂, ◌∙◌,
  sym, ltb, replicate, length-replicate, length-set, if◌then◌else◌, ◌&&◌, ==_iff,
}
use search_engines.Crawler.Bloom.{
  pack_bit, unpack_bit, pack_below, unpack, unpack_below, packed_bits, UrlBloomFilter,
}
use search_engines.Crawler.Bloom.Member.{IsFilter}

-- Bit `k` of a number.
bit_at : ℕ → ℕ → Bool
bit_at zero a = a % 2 == 1
bit_at (suc k) a = bit_at k (a / 2)

mask-bit_at : (k a : ℕ) → not (bit_and a (2 ^ k) == 0) ≡ bit_at k a
unfolding bit_at
mask-bit_at zero a = ground (arith, low_bit a)
mask-bit_at (suc k) a =
    let half = mask-bit_at k (a / 2) in
    let e : bit_and a (2 ^ suc k) ≡ bit_and (a / 2) (2 ^ k) * 2 =
      ap (λ (t : ℕ). bit_and a t) (pow-suc 2 k) ∙ even_mask a (2 ^ k) in
    let f : (bit_and (a / 2) (2 ^ k) * 2 == 0) ≡ (bit_and (a / 2) (2 ^ k) == 0) = ground arith in
    ap (λ t. not (t == 0)) e ∙ ap not f ∙ half

bit_or-zero : (a : ℕ) → bit_or a 0 ≡ a
bit_or-zero a = bit_or_comm a 0 ∙ zero-bit_or a

bit_at-bit_or : (j k a : ℕ) → bit_at j (bit_or a (2 ^ k)) ≡ ((j == k) || bit_at j a)
unfolding bit_at
bit_at-bit_or zero zero a = ground (arith, bit_or_digit a 1)
bit_at-bit_or zero (suc k) a = ground (arith, bit_or_digit a (2 ^ suc k), pow-suc 2 k)
bit_at-bit_or (suc j) zero a =
    let e : bit_or a 1 / 2 ≡ a / 2 = omega (arith, bit_or_digit a 1, bit_or-zero (a / 2)) in
    let f : (suc j == 0) ≡ false = ground arith in
    ap (bit_at j) e ∙ ap (λ t. t || bit_at j (a / 2)) (sym f)
bit_at-bit_or (suc j) (suc k) a =
    let h : 2 ^ suc k / 2 ≡ 2 ^ k = omega (arith, pow-suc 2 k) in
    let e : bit_or a (2 ^ suc k) / 2 ≡ bit_or (a / 2) (2 ^ k) =
      omega (arith, bit_or_digit a (2 ^ suc k), pow-suc 2 k, ap (λ (t : ℕ). bit_or (a / 2) t) h) in
    let f : (suc j == suc k) ≡ (j == k) = ground arith in
    ap (bit_at j) e ∙ bit_at-bit_or j k (a / 2) ∙ ap (λ t. t || bit_at j (a / 2)) (sym f)

get_or-set :
    {A : Type 0} (xs : List A) (i j : ℕ) (v d : A)
    → i < length xs
    → get_or (set xs i v) j d ≡ (if j == i then v else get_or xs j d)
get_or-set [] i j v d h = absurd (omega arith)
get_or-set (x ∷ xs) zero zero v d h = refl
get_or-set (x ∷ xs) zero (suc j) v d h =
    let f : (suc j == 0) ≡ false = ground arith in ap (λ t. if t then v else get_or xs j d) (sym f)
get_or-set (x ∷ xs) (suc i) zero v d h =
    let f : (0 == suc i) ≡ false = ground arith in ap (λ t. if t then v else x) (sym f)
get_or-set (x ∷ xs) (suc i) (suc j) v d h =
    let f : (suc j == suc i) ≡ (j == i) = ground arith in
    get_or-set xs i j v d (omega arith) ∙ ap (λ t. if t then v else get_or xs j d) (sym f)

length-pack_bit :
    (packed : List ℕ) (i : ℕ) (b : Bool) → length (pack_bit packed i b) ≡ length packed
length-pack_bit packed i true =
    length-set packed (i / 8) (bit_or (get_or packed (i / 8) 0) (2 ^ (i % 8)))
length-pack_bit packed i false = refl

unpack_bit-eq :
    (packed : List ℕ) (i : ℕ) → unpack_bit packed i ≡ bit_at (i % 8) (get_or packed (i / 8) 0)
unfolding unpack_bit
unpack_bit-eq packed i = mask-bit_at (i % 8) (get_or packed (i / 8) 0)

and_false : (a b : Bool) → ((a && false) || b) ≡ b
and_false true b = refl
and_false false b = refl

and_true : (a b : Bool) → ((a && true) || b) ≡ (a || b)
and_true true b = refl
and_true false b = refl

-- Packing one bit changes that bit only.
unpack_bit-pack_bit :
    (packed : List ℕ) (n i : ℕ) (b : Bool)
    → n / 8 < length packed
    → unpack_bit (pack_bit packed n b) i ≡ (((i == n) && b) || unpack_bit packed i)
unpack_bit-pack_bit packed n i false h = sym (and_false (i == n) (unpack_bit packed i))
unpack_bit-pack_bit packed n i true h =
    let byte = get_or packed (n / 8) 0 in
    let new = bit_or byte (2 ^ (n % 8)) in
    unpack_bit-eq (set packed (n / 8) new) i
    ∙ ap (bit_at (i % 8)) (get_or-set packed (n / 8) (i / 8) new 0 h)
    ∙ elim (Bool-cases (i / 8 == n / 8)) [
      | inl same ↦
          let place : i / 8 ≡ n / 8 = (==_iff (i / 8) (n / 8)).0 same in
          let bit : (i % 8 == n % 8) ≡ (i == n) = ground (arith, place) in
          rw same (
            bit_at-bit_or (i % 8) (n % 8) byte
            ∙ ap₂ (λ a b. a || b) bit
                (ap (λ (k : ℕ). bit_at (i % 8) (get_or packed k 0)) (sym place))
            ∙ ap (λ b. (i == n) || b) (sym (unpack_bit-eq packed i))
            ∙ sym (and_true (i == n) (unpack_bit packed i)))
      | inr other ↦
          let bit : (i == n) ≡ false = ground (arith, other) in
          rw (other, bit) (sym (unpack_bit-eq packed i))
    ]

length-pack_below :
    (bits : List Bool) (packed : List ℕ) (n : ℕ) → length (pack_below bits packed n) ≡ length packed
unfolding pack_below
length-pack_below bits packed zero = refl
length-pack_below bits packed (suc n) =
    length-pack_bit (pack_below bits packed n) n (get_or bits n false)
    ∙ length-pack_below bits packed n

next_bit :
    (i n : ℕ) (last this old : Bool)
    → (i ≡ n → last ≡ this)
    → (((i == n) && last) || ((ltb i n && this) || old)) ≡ ((ltb i (suc n) && this) || old)
next_bit i n last this old h = elim (Bool-cases (i == n)) [
  | inl same ↦
      let place : i ≡ n = (==_iff i n).0 same in
      let f : ltb i n ≡ false = ground arith in
      let g : ltb i (suc n) ≡ true = ground arith in rw (same, f, g) (ap (λ b. b || old) (h place))
  | inr other ↦
      let f : ltb i n ≡ ltb i (suc n) = ground (arith, other) in
      rw other (ap (λ t. (t && this) || old) f)
]

-- The bits below `n` are packed, the others are as they were.
unpack_bit-pack_below :
    (bits : List Bool) (packed : List ℕ) (n i : ℕ)
    → (n + 7) / 8 ≤ length packed
    → unpack_bit (pack_below bits packed n) i
      ≡ ((ltb i n && get_or bits i false) || unpack_bit packed i)
unfolding pack_below
unpack_bit-pack_below bits packed zero i h =
    let f : ltb i 0 ≡ false = ground arith in
    ap (λ t. (t && get_or bits i false) || unpack_bit packed i) (sym f)
unpack_bit-pack_below bits packed (suc n) i h =
    unpack_bit-pack_bit (pack_below bits packed n) n i (get_or bits n false)
      (omega (arith, length-pack_below bits packed n))
    ∙ ap (λ b. ((i == n) && get_or bits n false) || b)
        (unpack_bit-pack_below bits packed n i (omega arith))
    ∙ next_bit i n (get_or bits n false) (get_or bits i false) (unpack_bit packed i)
        (λ e. ap (λ (k : ℕ). get_or bits k false) (sym e))

bit_at-zero : (k : ℕ) → bit_at k 0 ≡ false
unfolding bit_at
bit_at-zero zero = refl
bit_at-zero (suc k) = bit_at-zero k

get_or-replicate : {A : Type 0} (k i : ℕ) (a : A) → get_or (replicate k a) i a ≡ a
get_or-replicate zero i a = refl
get_or-replicate (suc k) zero a = refl
get_or-replicate (suc k) (suc i) a = get_or-replicate k i a

unpack_bit-blank : (k i : ℕ) → unpack_bit (replicate k 0) i ≡ false
unpack_bit-blank k i =
    unpack_bit-eq (replicate k 0) i
    ∙ ap (bit_at (i % 8)) (get_or-replicate k (i / 8) 0)
    ∙ bit_at-zero (i % 8)

length-unpack_below :
    (packed : List ℕ) (bits : List Bool) (n : ℕ) → length (unpack_below packed bits n) ≡ length bits
unfolding unpack_below
length-unpack_below packed bits zero = refl
length-unpack_below packed bits (suc n) = elim (Bool-cases (unpack_bit packed n)) [
  | inl on ↦
      rw on (length-set (unpack_below packed bits n) n true ∙ length-unpack_below packed bits n)
  | inr off ↦ rw off (length-unpack_below packed bits n)
]

set_next :
    (i n : ℕ) (this old : Bool) {before : Bool}
    → before ≡ ((ltb i n && this) || old)
    → (i ≡ n → this ≡ true)
    → (if i == n then true else before) ≡ ((ltb i (suc n) && this) || old)
set_next i n this old e h = elim (Bool-cases (i == n)) [
  | inl same ↦
      let place : i ≡ n = (==_iff i n).0 same in
      let g : ltb i (suc n) ≡ true = ground arith in rw (same, g, h place) refl
  | inr other ↦
      let f : ltb i n ≡ ltb i (suc n) = ground (arith, other) in
      rw other (e ∙ ap (λ t. (t && this) || old) f)
]

skip_next :
    (i n : ℕ) (this old : Bool)
    → (i ≡ n → this ≡ false)
    → ((ltb i n && this) || old) ≡ ((ltb i (suc n) && this) || old)
skip_next i n this old h = elim (Bool-cases (i == n)) [
  | inl same ↦
      let place : i ≡ n = (==_iff i n).0 same in
      let f : ltb i n ≡ false = ground arith in
      let g : ltb i (suc n) ≡ true = ground arith in rw (f, g, h place) refl
  | inr other ↦
      let f : ltb i n ≡ ltb i (suc n) = ground (arith, other) in ap (λ t. (t && this) || old) f
]

get_or-unpack_below :
    (packed : List ℕ) (bits : List Bool) (n i : ℕ)
    → n ≤ length bits
    → get_or (unpack_below packed bits n) i false
      ≡ ((ltb i n && unpack_bit packed i) || get_or bits i false)
unfolding unpack_below
get_or-unpack_below packed bits zero i h =
    let f : ltb i 0 ≡ false = ground arith in
    ap (λ t. (t && unpack_bit packed i) || get_or bits i false) (sym f)
get_or-unpack_below packed bits (suc n) i h = elim (Bool-cases (unpack_bit packed n)) [
  | inl on ↦ rw on (
      get_or-set (unpack_below packed bits n) n i true false
        (omega (arith, length-unpack_below packed bits n))
      ∙ set_next i n (unpack_bit packed i) (get_or bits i false)
          (get_or-unpack_below packed bits n i (omega arith)) (λ e. ap (unpack_bit packed) e ∙ on))
  | inr off ↦ rw off (
      get_or-unpack_below packed bits n i (omega arith)
      ∙ skip_next i n (unpack_bit packed i) (get_or bits i false)
          (λ e. ap (unpack_bit packed) e ∙ off))
]

get_or-ext :
    (xs ys : List Bool)
    → length xs ≡ length ys
    → ((i : ℕ) → i < length xs → get_or xs i false ≡ get_or ys i false)
    → xs ≡ ys
get_or-ext [] [] e h = refl
get_or-ext [] (y ∷ ys) e h = absurd (omega arith)
get_or-ext (x ∷ xs) [] e h = absurd (omega arith)
get_or-ext (x ∷ xs) (y ∷ ys) e h =
    ap₂ (λ a rest. a ∷ rest) (h 0 (omega arith))
      (get_or-ext xs ys (omega arith) (λ i k. h (suc i) (omega arith)))

twice_false : (b : Bool) → ((b || false) || false) ≡ b
twice_false true = refl
twice_false false = refl

-- Unpacking the bytes of a snapshot gives the bits of the filter back, for a filter with the number of
-- bits that it says and at least one.
pub unpack-packed_bits :
    (filter : UrlBloomFilter)
    → IsFilter filter
    → unpack filter.bit_count (packed_bits filter) ≡ filter.bits
unfolding unpack packed_bits
unpack-packed_bits filter (pos, size) =
    let n = filter.bit_count in
    let packed = pack_below filter.bits (replicate ((n + 7) / 8) 0) n in
    let whole : length (unpack_below packed (replicate n false) n) ≡ n =
      length-unpack_below packed (replicate n false) n ∙ length-replicate n false in
    get_or-ext (unpack_below packed (replicate n false) n) filter.bits (whole ∙ sym size) (λ i h.
      let below : ltb i n ≡ true = ground (arith, whole) in
      get_or-unpack_below packed (replicate n false) n i (omega (arith, length-replicate n false))
      ∙ ap₂ (λ a b. (ltb i n && a) || b)
          (unpack_bit-pack_below filter.bits (replicate ((n + 7) / 8) 0) n i
              (omega (arith, length-replicate {A = ℕ} ((n + 7) / 8) 0))
            ∙ ap (λ b. (ltb i n && get_or filter.bits i false) || b)
                (unpack_bit-blank ((n + 7) / 8) i))
          (get_or-replicate n i false)
      ∙ rw below (twice_false (get_or filter.bits i false)))
