-- ===== src/Crawler/Bloom.antt =====
-- src/crawler/url_dedup.cpp: the class UrlBloomFilter. The MD5 digest of a key, cut into its two
-- words, is a parameter.
pub mod Member
pub mod Packed
use search_engines.Base.{
  ℕ, ◌+◌, ◌*◌, ◌/◌, ◌%◌, ◌^◌, suc, zero, Bool, true, false, not, if◌then◌else◌, ◌==◌, List, [], ◌∷◌,
  Text, length, get_or, set, replicate, bit_and, bit_or, ◌&&◌,
}

pub record UrlBloomFilter : Type 0 where
  pub bit_count : ℕ
  pub hash_count : ℕ
  pub bits : List Bool

unfoldable pub get_bit : List Bool → ℕ → Bool
get_bit bits index = get_or bits index false

unfoldable pub set_bit : List Bool → ℕ → List Bool
set_bit bits index = set bits index true

-- The place of hash number `i`; the sum is one of 64-bit words.
unfoldable pub index_of : ℕ → ℕ × ℕ → ℕ → ℕ
index_of bit_count (h1, h2) i = (h1 + (i + 1) * h2) % 2 ^ 64 % bit_count

-- The loop of `probablyContains`, over the hashes below `n`.
unfoldable pub all_set : ℕ → ℕ × ℕ → List Bool → ℕ → Bool
all_set bit_count h bits zero = true
all_set bit_count h bits (suc n) =
    all_set bit_count h bits n && get_bit bits (index_of bit_count h n)

-- The loop of `insert`, over the hashes below `n`.
unfoldable pub set_all : ℕ → ℕ × ℕ → List Bool → ℕ → List Bool
set_all bit_count h bits zero = bits
set_all bit_count h bits (suc n) = set_bit (set_all bit_count h bits n) (index_of bit_count h n)

abbrev pub is_empty : Text → Bool
is_empty [] = true
is_empty (c ∷ s) = false

module _ (hash_key : Text → ℕ × ℕ) where
  unfoldable pub probably_contains : UrlBloomFilter → Text → Bool
  probably_contains filter key =
      if is_empty key
      then false
      else all_set filter.bit_count (hash_key key) filter.bits filter.hash_count

  unfoldable pub insert : UrlBloomFilter → Text → UrlBloomFilter
  insert filter key = if is_empty key then filter else record filter {
    bits = set_all filter.bit_count (hash_key key) filter.bits filter.hash_count;
  }

  -- Whether the key was not there, and the filter with it.
  unfoldable pub check_and_insert : UrlBloomFilter → Text → Bool × UrlBloomFilter
  check_and_insert filter key =
      if is_empty key
      then (false, filter)
      else if all_set filter.bit_count (hash_key key) filter.bits filter.hash_count
      then (false, filter)
      else (
        true,
        record filter {
          bits = set_all filter.bit_count (hash_key key) filter.bits filter.hash_count;
        },
      )

-- The bytes of a snapshot, eight bits in each: the loop over the bits below `n`.
abbrev pub pack_bit : List ℕ → ℕ → Bool → List ℕ
pack_bit packed i true = set packed (i / 8) (bit_or (get_or packed (i / 8) 0) (2 ^ (i % 8)))
pack_bit packed i false = packed

unfoldable pub pack_below : List Bool → List ℕ → ℕ → List ℕ
pack_below bits packed zero = packed
pack_below bits packed (suc n) = pack_bit (pack_below bits packed n) n (get_or bits n false)

unfoldable pub packed_bits : UrlBloomFilter → List ℕ
packed_bits filter =
    pack_below filter.bits (replicate ((filter.bit_count + 7) / 8) 0) filter.bit_count

-- Bit `i` of a snapshot.
unfoldable pub unpack_bit : List ℕ → ℕ → Bool
unpack_bit packed i = not (bit_and (get_or packed (i / 8) 0) (2 ^ (i % 8)) == 0)

-- The loop of `deserializeFromStream`, over the bits below `n`.
unfoldable pub unpack_below : List ℕ → List Bool → ℕ → List Bool
unpack_below packed bits zero = bits
unpack_below packed bits (suc n) =
    let before = unpack_below packed bits n in
    if unpack_bit packed n then set before n true else before

unfoldable pub unpack : ℕ → List ℕ → List Bool
unpack bit_count packed = unpack_below packed (replicate bit_count false) bit_count
