-- ===== src/Crawler/Bloom/Member.antt =====
-- src/crawler/url_dedup.cpp: what was inserted is found.
use native.Mathlib.Nat.{mod-lt}
use search_engines.Base.{
  ℕ, ◌+◌, ◌<◌, suc, zero, Bool, true, false, ◌≡◌, refl, List, [], ◌∷◌, Text, length, arith, inl,
  inr, Bool-cases, length-set, not, ◌∙◌, ◌*◌, ◌%◌, ◌^◌,
}
use search_engines.Crawler.Bloom.{
  UrlBloomFilter, all_set, get_bit, index_of, probably_contains, set_all, check_and_insert, insert,
  set_bit, is_empty,
}

-- A filter with the number of bits that it says, and at least one.
abbrev pub IsFilter : UrlBloomFilter → Type 0
IsFilter filter = (0 < filter.bit_count) × (length filter.bits ≡ filter.bit_count)

-- Every bit of the first is set in the second.
abbrev pub IsWithin : List Bool → List Bool → Type 0
IsWithin before after = (i : ℕ) → get_bit before i ≡ true → get_bit after i ≡ true

get_bit-set_bit : (bits : List Bool) (i : ℕ) → i < length bits → get_bit (set_bit bits i) i ≡ true
unfolding get_bit set_bit
get_bit-set_bit [] i h = absurd (omega arith)
get_bit-set_bit (b ∷ bits) zero h = refl
get_bit-set_bit (b ∷ bits) (suc i) h = get_bit-set_bit bits i (omega arith)

set_bit-IsWithin : (bits : List Bool) (i : ℕ) → IsWithin bits (set_bit bits i)
unfolding get_bit set_bit
set_bit-IsWithin [] i j h = h
set_bit-IsWithin (b ∷ bits) zero zero h = refl
set_bit-IsWithin (b ∷ bits) zero (suc j) h = h
set_bit-IsWithin (b ∷ bits) (suc i) zero h = h
set_bit-IsWithin (b ∷ bits) (suc i) (suc j) h = set_bit-IsWithin bits i j h

set_all-IsWithin :
    (bit_count : ℕ) (h : ℕ × ℕ) (bits : List Bool) (n : ℕ)
    → IsWithin bits (set_all bit_count h bits n)
unfolding set_all
set_all-IsWithin bit_count h bits zero i e = e
set_all-IsWithin bit_count h bits (suc n) i e =
    set_bit-IsWithin (set_all bit_count h bits n) (index_of bit_count h n) i
      (set_all-IsWithin bit_count h bits n i e)

length-set_all :
    (bit_count : ℕ) (h : ℕ × ℕ) (bits : List Bool) (n : ℕ)
    → length (set_all bit_count h bits n) ≡ length bits
unfolding set_all set_bit
length-set_all bit_count h bits zero = refl
length-set_all bit_count h bits (suc n) =
    length-set (set_all bit_count h bits n) (index_of bit_count h n) true
    ∙ length-set_all bit_count h bits n

all_set-IsWithin :
    (bit_count : ℕ) (h : ℕ × ℕ) (bits more : List Bool) (n : ℕ)
    → IsWithin bits more
    → all_set bit_count h bits n ≡ true
    → all_set bit_count h more n ≡ true
unfolding all_set
all_set-IsWithin bit_count h bits more zero w e = refl
all_set-IsWithin bit_count h bits more (suc n) w e =
    elim (Bool-cases (all_set bit_count h bits n)) [
      | inl first ↦
          rw (all_set-IsWithin bit_count h bits more n w first)
            (w (index_of bit_count h n) (rw first at e))
      | inr none_first ↦ cc (rw none_first at e)
    ]

index_of-below :
    (bit_count : ℕ) (h : ℕ × ℕ) (i : ℕ) → 0 < bit_count → index_of bit_count h i < bit_count
unfolding index_of
index_of-below bit_count (h1, h2) i pos = mod-lt ((h1 + (i + 1) * h2) % 2 ^ 64) pos

all_set-set_all :
    (bit_count : ℕ) (h : ℕ × ℕ) (bits : List Bool) (n : ℕ)
    → 0 < bit_count
    → length bits ≡ bit_count
    → all_set bit_count h (set_all bit_count h bits n) n ≡ true
unfolding all_set set_all
all_set-set_all bit_count h bits zero pos size = refl
all_set-set_all bit_count h bits (suc n) pos size =
    let before = set_all bit_count h bits n in
    let i = index_of bit_count h n in
    rw
      (all_set-IsWithin bit_count h before (set_bit before i) n (set_bit-IsWithin before i)
        (all_set-set_all bit_count h bits n pos size))
      (get_bit-set_bit before i
        (omega (arith, index_of-below bit_count h n pos, length-set_all bit_count h bits n)))

module _ (hash_key : Text → ℕ × ℕ) where
  -- The Bloom filter has no false negatives: a key that is not empty is found right after it was
  -- inserted into a well-formed filter, and also after any other key was inserted behind it.
  pub probably_contains-insert :
      (filter : UrlBloomFilter) (key other : Text)
      → IsFilter filter
      → is_empty key ≡ false
      → (probably_contains hash_key (insert hash_key filter key) key ≡ true)
        × (probably_contains hash_key (insert hash_key (insert hash_key filter key) other) key
            ≡ true)
  unfolding probably_contains insert
  probably_contains-insert filter key other (pos, size) full =
      let n = filter.hash_count in
      let one = all_set-set_all filter.bit_count (hash_key key) filter.bits n pos size in
      let first = set_all filter.bit_count (hash_key key) filter.bits n in
      (
        rw full one,
        elim (Bool-cases (is_empty other)) [
          | inl nothing ↦ rw (full, nothing) one
          | inr some_key ↦
              rw (full, some_key)
                (all_set-IsWithin filter.bit_count (hash_key key) first
                  (set_all filter.bit_count (hash_key other) first n) n
                  (set_all-IsWithin filter.bit_count (hash_key other) first n) one)
        ],
      )

  -- `checkAndInsert` says true exactly where a key that is not empty was not in the filter, leaves
  -- the filter well-formed, and the key in it.
  pub check_and_insert_lem :
      (filter : UrlBloomFilter) (key : Text)
      → IsFilter filter
      → is_empty key ≡ false
      → ((check_and_insert hash_key filter key).0 ≡ not (probably_contains hash_key filter key))
        × IsFilter (check_and_insert hash_key filter key).1
        × (probably_contains hash_key (check_and_insert hash_key filter key).1 key ≡ true)
  unfolding probably_contains check_and_insert
  check_and_insert_lem filter key (pos, size) full =
      let n = filter.hash_count in
      elim (Bool-cases (all_set filter.bit_count (hash_key key) filter.bits n)) [
        | inl present ↦
            (rw (full, present) refl, rw (full, present) (pos, size), rw (full, present) present)
        | inr absent ↦ (
          rw (full, absent) refl,
          rw (full, absent)
              (pos, length-set_all filter.bit_count (hash_key key) filter.bits n ∙ size),
          rw (full, absent)
              (all_set-set_all filter.bit_count (hash_key key) filter.bits n pos size),
        )
      ]
