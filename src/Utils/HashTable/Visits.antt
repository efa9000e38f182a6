-- ===== src/Utils/HashTable/Visits.antt =====
-- src/utils/hash/HashTable.h: the walk over the table by its iterator.
use search_engines.Base.{◌≡◌, refl, ap, arith, drop, ℕ, List, length, [], ◌∷◌, suc, ◌≤◌, zero, ◌++◌}
use search_engines.Utils.HashTable.{Bucket, HashTable, advance, begin, scan}
use search_engines.Utils.HashTable.Chains.{entries}

module _ {K V : Type 0} where
  -- What a loop from the iterator to `end` sees, in at most `n` rounds.
  abbrev pub visited_from : ℕ → HashTable K V → ℕ → List (Bucket K V) → List (Bucket K V)
  visited_from zero table i chain = []
  visited_from (suc n) table i [] = []
  visited_from (suc n) table i (b ∷ chain) =
      let next = advance table (record { bucket_index = i; current_bucket = b ∷ chain }) in
      b ∷ visited_from n table next.bucket_index next.current_bucket

  abbrev pub visited : ℕ → HashTable K V → List (Bucket K V)
  visited n table = visited_from n table (begin table).bucket_index (begin table).current_bucket

  drop-suc :
      (i : ℕ) (chains : List (List (Bucket K V))) {c : List (Bucket K V)}
      {cs : List (List (Bucket K V))}
      → drop i chains ≡ c ∷ cs
      → drop (suc i) chains ≡ cs
  drop-suc zero [] h = cc
  drop-suc (suc i) [] h = cc
  drop-suc zero (c ∷ chains) h = cc
  drop-suc (suc i) (c ∷ chains) h = drop-suc i chains h

  chain-visits :
      (table : HashTable K V) (i : ℕ) (rest : List (List (Bucket K V)))
      → drop (suc i) table.buckets ≡ rest
      → ((m : ℕ)
          → length (entries rest) ≤ m
          → visited_from m table (scan (suc i) rest).bucket_index (scan (suc i) rest).current_bucket
            ≡ entries rest)
      → (n : ℕ) (b : Bucket K V) (chain : List (Bucket K V))
      → length ((b ∷ chain) ++ entries rest) ≤ n
      → visited_from n table i (b ∷ chain) ≡ (b ∷ chain) ++ entries rest
  unfolding advance
  chain-visits table i rest h behind zero b chain le = absurd (omega arith)
  chain-visits table i rest h behind (suc n) b [] le =
      ap (λ t. b ∷ t) (rw h (behind n (omega arith)))
  chain-visits table i rest h behind (suc n) b (b' ∷ chain) le =
      ap (λ t. b ∷ t) (chain-visits table i rest h behind n b' chain (omega arith))

  scan-visits :
      (table : HashTable K V) (i : ℕ) (rest : List (List (Bucket K V)))
      → drop i table.buckets ≡ rest
      → (n : ℕ) → length (entries rest) ≤ n
      → visited_from n table (scan i rest).bucket_index (scan i rest).current_bucket ≡ entries rest
  scan-visits table i [] h zero le = refl
  scan-visits table i [] h (suc n) le = refl
  scan-visits table i ([] ∷ rest) h n le =
      scan-visits table (suc i) rest (drop-suc i table.buckets h) n le
  scan-visits table i ((b ∷ chain) ∷ rest) h n le =
      let next = drop-suc i table.buckets h in
      chain-visits table i rest next (scan-visits table (suc i) rest next) n b chain le

  -- The walk from `begin` sees every bucket once, chain by chain, and then ends.
  pub visited_lem :
      (n : ℕ) (table : HashTable K V)
      → length (entries table.buckets) ≤ n
      → visited n table ≡ entries table.buckets
  visited_lem n table le = scan-visits table 0 table.buckets refl n le
