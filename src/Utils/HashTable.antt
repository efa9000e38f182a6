-- ===== src/Utils/HashTable.antt =====
-- src/utils/hash/HashTable.h: a table of chained buckets. A chain is a list, the array of the chains a
-- list of lists; the hash and the comparison of the keys are parameters. The count of the keys is below
-- 2 ^ 52, so that its product with the loading of 1.5 is exact and the doubling does not wrap.
pub mod Chains
pub mod Keys
pub mod Finds
pub mod Adds
pub mod Visits
use search_engines.Base.{
  ℕ, ◌*◌, ◌/◌, ◌%◌, suc, zero, Bool, if◌then◌else◌, ◌==◌, leb, ltb, List, [], ◌∷◌, Option, drop,
  replicate, set, none, some,
}

abbrev pub initial_bucket_count : ℕ
initial_bucket_count = 2048

pub record Bucket (K V : Type 0) : Type 0 where
  pub key : K
  pub hash_value : ℕ
  pub value : V

pub record HashTable (K V : Type 0) : Type 0 where
  pub buckets : List (List (Bucket K V))
  pub number_of_buckets : ℕ
  pub unique_keys : ℕ

-- A place of the iteration: the index of the chain, and what is left of the chain.
pub record Iterator (K V : Type 0) : Type 0 where
  pub bucket_index : ℕ
  pub current_bucket : List (Bucket K V)

-- The doubling of `Optimize`, at most `n` times.
unfoldable pub grown : ℕ → ℕ → ℕ → ℕ
grown zero size desired = size
grown (suc n) size desired = if ltb size desired then grown n (size * 2) desired else size

module _ {K V : Type 0} where
  -- `buckets[i]`
  abbrev pub chain_at : List (List (Bucket K V)) → ℕ → List (Bucket K V)
  chain_at [] i = []
  chain_at (chain ∷ chains) zero = chain
  chain_at (chain ∷ chains) (suc i) = chain_at chains i

  -- The bucket goes to the front of its chain, in an array of `size` chains.
  unfoldable pub link : ℕ → Bucket K V → List (List (Bucket K V)) → List (List (Bucket K V))
  link size b chains = let i = b.hash_value % size in set chains i (b ∷ chain_at chains i)

  -- The buckets of one chain go to the new array, and then those of all chains.
  abbrev pub relink : ℕ → List (Bucket K V) → List (List (Bucket K V)) → List (List (Bucket K V))
  relink size [] chains = chains
  relink size (b ∷ current) chains = relink size current (link size b chains)

  abbrev pub relink_all :
      ℕ → List (List (Bucket K V)) → List (List (Bucket K V)) → List (List (Bucket K V))
  relink_all size [] chains = chains
  relink_all size (current ∷ old) chains = relink_all size old (relink size current chains)

  abbrev pub desired_size : HashTable K V → ℕ
  desired_size table = table.unique_keys * 3 / 2

  abbrev pub new_size : HashTable K V → ℕ
  new_size table =
      grown (desired_size table)
        (if table.number_of_buckets == 0 then 1 else table.number_of_buckets) (desired_size table)

  unfoldable pub resize : ℕ → HashTable K V → HashTable K V
  resize size table = record table {
    buckets = relink_all size table.buckets (replicate size []);
    number_of_buckets = size;
  }

  -- With the loading of 1.5 that it has where none is given.
  unfoldable pub optimize : HashTable K V → HashTable K V
  optimize table =
      if leb (desired_size table) table.number_of_buckets
      then table
      else resize (new_size table) table

  unfoldable pub create : ℕ → HashTable K V
  create n =
      let size = if n == 0 then initial_bucket_count else n in
      record { buckets = replicate size []; number_of_buckets = size; unique_keys = 0 }

  -- What `clear` leaves, and a move leaves behind.
  abbrev pub cleared : HashTable K V
  cleared = record { buckets = []; number_of_buckets = 0; unique_keys = 0 }

  -- The first chain that is not empty, from the index on.
  abbrev pub scan : ℕ → List (List (Bucket K V)) → Iterator K V
  scan i [] = record { bucket_index = i; current_bucket = [] }
  scan i ([] ∷ chains) = scan (suc i) chains
  scan i ((b ∷ chain) ∷ chains) = record { bucket_index = i; current_bucket = b ∷ chain }

  abbrev pub begin : HashTable K V → Iterator K V
  begin table = scan 0 table.buckets

  abbrev pub end : HashTable K V → Iterator K V
  end table = record { bucket_index = table.number_of_buckets; current_bucket = [] }

  -- `++` on an iterator.
  abbrev pub step_from : HashTable K V → ℕ → List (Bucket K V) → Iterator K V
  step_from table i (b ∷ next ∷ chain) = record { bucket_index = i; current_bucket = next ∷ chain }
  step_from table i (b ∷ []) = scan (suc i) (drop (suc i) table.buckets)
  step_from table i [] = scan (suc i) (drop (suc i) table.buckets)

  unfoldable pub advance : HashTable K V → Iterator K V → Iterator K V
  advance table it = step_from table it.bucket_index it.current_bucket

module _ {K V : Type 0} (compare_equal : K → K → Bool) (hash : K → ℕ) where
  -- The value of the first bucket of a chain that has the key.
  abbrev pub find_in : K → List (Bucket K V) → Option V
  find_in k [] = none
  find_in k (b ∷ chain) =
      let rest = find_in k chain in if compare_equal b.key k then some b.value else rest

  -- `Find` without an initial value; `none` for the null pointer.
  unfoldable pub find : HashTable K V → K → Option V
  find table k = find_in k (chain_at table.buckets (hash k % table.number_of_buckets))

  unfoldable pub add : K → V → HashTable K V → HashTable K V
  add k v table = record table {
    buckets =
        link table.number_of_buckets (record { key = k; hash_value = hash k; value = v })
          table.buckets;
    unique_keys = suc table.unique_keys;
  }

  abbrev pub found_or_added : Option V → K → V → HashTable K V → V × HashTable K V
  found_or_added (some value) k v table = (value, table)
  found_or_added none k v table = (v, add k v (optimize table))

  -- `Find` with an initial value: the value of the entry that is found or added, and the table.
  unfoldable pub find_or_add : HashTable K V → K → V → V × HashTable K V
  find_or_add table k v = found_or_added (find table k) k v table
