-- ===== src/Utils/HashTable/Finds.antt =====
-- src/utils/hash/HashTable.h: the table as a map from keys to values.
use search_engines.Base.{
  ◌≡◌, refl, sym, ap, ◌∙◌, ◌+◌, ◌%◌, arith, Bool, ℕ, List, replicate, ◌<◌, All, [], length, set,
  ◌≤◌, suc, ◌∷◌, All-append, Bool-cases, length-replicate, ltb, zero, inl, ◌*◌, inr, true, subst,
  ℕ_discrete, ◌==◌,
}
use native.Mathlib.Nat.{mod-lt}
use search_engines.Utils.HashTable.{
  find, Bucket, HashTable, grown, link, resize, relink, chain_at, find_in, create,
  initial_bucket_count,
}
use search_engines.Utils.HashTable.Keys.{
  AreSorted, Belongs, counts_for, latest, or_else, value_if, or_else_assoc, or_else-none,
  latest-find_in, find_in-entries,
}
use search_engines.Utils.HashTable.Chains.{
  weigh, entries, relink_all-entries, weigh-relink, entries-replicate, length-relink, length-link,
  weigh-one, chain_at-set_self, chain_at-set_ne,
}

pub leb_grown :
    (n size desired : ℕ) → 0 < size → desired ≤ size + n → desired ≤ grown n size desired
unfolding grown
leb_grown zero size desired pos h = omega arith
leb_grown (suc n) size desired pos h = elim (Bool-cases (ltb size desired)) [
  | inl more ↦ rw more (leb_grown n (size * 2) desired (omega arith) (omega arith))
  | inr enough ↦ rw enough (ground (arith, enough))
]

module _ {K : Type 0} (compare_equal : K → K → Bool) (hash : K → ℕ) where
  AreSorted-replicate :
      (V : Type 0) (size i n : ℕ) → AreSorted {V = V} compare_equal hash size i (replicate n [])
  AreSorted-replicate V size i zero = tt
  AreSorted-replicate V size i (suc n) = (tt, AreSorted-replicate V size (suc i) n)

module _ {K V : Type 0} (compare_equal : K → K → Bool) (hash : K → ℕ) where
  -- Every bucket is in its chain, no key has two, and they are as many as `unique_keys` says.
  abbrev pub IsTable : HashTable K V → Type 0
  IsTable table =
      (0 < table.number_of_buckets)
      × (length table.buckets ≡ table.number_of_buckets)
      × AreSorted compare_equal hash table.number_of_buckets 0 table.buckets
      × ((k : K) → weigh (counts_for compare_equal hash k) (entries table.buckets) ≤ 1)
      × (length (entries table.buckets) ≡ table.unique_keys)

  AreSorted-set :
      (size i j : ℕ) (b : Bucket K V) (chains : List (List (Bucket K V)))
      → Belongs compare_equal hash size (i + j) b
      → AreSorted compare_equal hash size i chains
      → AreSorted compare_equal hash size i (set chains j (b ∷ chain_at chains j))
  AreSorted-set size i j b [] at h = tt
  AreSorted-set size i zero b (chain ∷ chains) at h = (((at.0, omega (arith, at.1)), h.0), h.1)
  AreSorted-set size i (suc j) b (chain ∷ chains) at h =
      (h.0, AreSorted-set size (suc i) j b chains (at.0, omega (arith, at.1)) h.1)

  pub AreSorted-link :
      (size : ℕ) (b : Bucket K V) (chains : List (List (Bucket K V)))
      → b.hash_value ≡ hash b.key
      → AreSorted compare_equal hash size 0 chains
      → AreSorted compare_equal hash size 0 (link size b chains)
  unfolding link
  AreSorted-link size b chains e h =
      AreSorted-set size 0 (b.hash_value % size) b chains (e, omega arith) h

  abbrev HasHash : Bucket K V → Type 0
  HasHash b = b.hash_value ≡ hash b.key

  AreSorted-relink :
      (size : ℕ) (xs : List (Bucket K V)) (chains : List (List (Bucket K V)))
      → All HasHash xs
      → AreSorted compare_equal hash size 0 chains
      → AreSorted compare_equal hash size 0 (relink size xs chains)
  AreSorted-relink size [] chains at h = h
  AreSorted-relink size (b ∷ xs) chains at h =
      AreSorted-relink size xs (link size b chains) at.1 (AreSorted-link size b chains at.0 h)

  chain-HasHash :
      (size i : ℕ) (chain : List (Bucket K V))
      → All (Belongs compare_equal hash size i) chain
      → All HasHash chain
  chain-HasHash size i [] h = tt
  chain-HasHash size i (b ∷ chain) h = (h.0.0, chain-HasHash size i chain h.1)

  entries-HasHash :
      (size i : ℕ) (chains : List (List (Bucket K V)))
      → AreSorted compare_equal hash size i chains
      → All HasHash (entries chains)
  entries-HasHash size i [] h = tt
  entries-HasHash size i (chain ∷ chains) h =
      All-append HasHash chain (entries chains) (chain-HasHash size i chain h.0)
        (entries-HasHash size (suc i) chains h.1)

  resize-eq :
      (size : ℕ) (table : HashTable K V)
      → (resize size table).buckets ≡ relink size (entries table.buckets) (replicate size [])
  unfolding resize
  resize-eq size table = relink_all-entries size table.buckets (replicate size [])

  -- The weights of the buckets of a resized table.
  weigh-resize :
      (w : Bucket K V → ℕ) (size : ℕ) (table : HashTable K V)
      → 0 < size
      → weigh w (entries (resize size table).buckets) ≡ weigh w (entries table.buckets)
  weigh-resize w size table pos =
      let rows : List (List (Bucket K V)) = replicate size [] in
      omega (
        arith,
        ap (λ c. weigh w (entries c)) (resize-eq size table),
        weigh-relink w size (entries table.buckets) rows pos (length-replicate size []),
        ap (weigh w) (entries-replicate {K = K} {V = V} size),
      )

  pub resize-IsTable :
      (size : ℕ) (table : HashTable K V) → 0 < size → IsTable table → IsTable (resize size table)
  unfolding resize
  resize-IsTable size table pos h =
      let rows : List (List (Bucket K V)) = replicate size [] in
      (
        pos,
        ap length (resize-eq size table)
            ∙ length-relink size (entries table.buckets) rows
            ∙ length-replicate size [],
        subst (AreSorted compare_equal hash size 0) (sym (resize-eq size table)) (
            AreSorted-relink size (entries table.buckets) rows
              (entries-HasHash table.number_of_buckets 0 table.buckets h.2)
              (AreSorted-replicate compare_equal hash V size 0 size)),
        λ k. omega (arith, weigh-resize (counts_for compare_equal hash k) size table pos, h.3 k),
        omega (
          arith,
          weigh-resize (λ b. 1) size table pos,
          weigh-one (entries (resize size table).buckets),
          weigh-one (entries table.buckets),
          h.4,
        ),
      )

  module _ (same_key : (a b : K) → compare_equal a b ≡ true → a ≡ b) where
    -- A link puts its bucket before the others of its key, and leaves the other keys alone.
    pub find_in-link :
        (k : K) (size : ℕ) (b : Bucket K V) (chains : List (List (Bucket K V)))
        → 0 < size
        → length chains ≡ size
        → b.hash_value ≡ hash b.key
        → find_in compare_equal hash k (chain_at (link size b chains) (hash k % size))
          ≡ or_else
              (value_if compare_equal hash (compare_equal b.key k) b.value)
              (find_in compare_equal hash k (chain_at chains (hash k % size)))
    unfolding link
    find_in-link k size b chains pos len at =
        let i = b.hash_value % size in
        let j = hash k % size in
        let lt : j < length chains = omega (arith, mod-lt (hash k) pos) in
        let here : i ≡ j
            → chain_at (set chains i (b ∷ chain_at chains i)) j ≡ b ∷ chain_at chains j =
          λ e.
            ap (λ p. chain_at (set chains p (b ∷ chain_at chains p)) j) e
            ∙ chain_at-set_self chains j (b ∷ chain_at chains j) lt in
        elim (Bool-cases (compare_equal b.key k)) [
          | inl same ↦
              let e : i ≡ j = ap (λ h. h % size) (at ∙ ap hash (same_key b.key k same)) in
              ap (find_in compare_equal hash k) (here e) ∙ rw same refl
          | inr other ↦ elim (ℕ_discrete i j) [
            | yes e ↦ ap (find_in compare_equal hash k) (here e) ∙ rw other refl
            | no ne ↦
                ap (find_in compare_equal hash k)
                  (chain_at-set_ne chains (b ∷ chain_at chains i) ne)
                ∙ rw other refl
          ]
        ]

    find_in-relink :
        (k : K) (size : ℕ) (xs : List (Bucket K V)) (chains : List (List (Bucket K V)))
        → 0 < size
        → length chains ≡ size
        → All HasHash xs
        → find_in compare_equal hash k (chain_at (relink size xs chains) (hash k % size))
          ≡ or_else
              (latest compare_equal hash k xs)
              (find_in compare_equal hash k (chain_at chains (hash k % size)))
    find_in-relink k size [] chains pos len h = refl
    find_in-relink k size (b ∷ xs) chains pos len h =
        find_in-relink k size xs (link size b chains) pos (length-link size b chains ∙ len) h.1
        ∙ ap (or_else (latest compare_equal hash k xs)) (find_in-link k size b chains pos len h.0)
        ∙ sym (
            or_else_assoc (latest compare_equal hash k xs)
              (value_if compare_equal hash (compare_equal b.key k) b.value)
              (find_in compare_equal hash k (chain_at chains (hash k % size))))

    chain_at-replicate : (n i : ℕ) → chain_at {K = K} {V = V} (replicate n []) i ≡ []
    chain_at-replicate zero i = refl
    chain_at-replicate (suc n) zero = refl
    chain_at-replicate (suc n) (suc i) = chain_at-replicate n i

    pub find-resize :
        (k : K) (size : ℕ) (table : HashTable K V)
        → 0 < size
        → IsTable table
        → find compare_equal hash (resize size table) k ≡ find compare_equal hash table k
    unfolding find resize
    find-resize k size table pos h =
        let rows : List (List (Bucket K V)) = replicate size [] in
        ap (λ c. find_in compare_equal hash k (chain_at c (hash k % size))) (resize-eq size table)
        ∙ find_in-relink k size (entries table.buckets) rows pos (length-replicate size [])
            (entries-HasHash table.number_of_buckets 0 table.buckets h.2)
        ∙ ap
            (λ c.
              or_else (latest compare_equal hash k (entries table.buckets))
                (find_in compare_equal hash k c))
            (chain_at-replicate size (hash k % size))
        ∙ or_else-none (latest compare_equal hash k (entries table.buckets))
        ∙ latest-find_in compare_equal hash k (entries table.buckets) (h.3 k)
        ∙ find_in-entries compare_equal hash same_key k table.number_of_buckets 0
            (hash k % table.number_of_buckets) table.buckets h.2 (omega arith)

module _ {K : Type 0} (V : Type 0) (compare_equal : K → K → Bool) (hash : K → ℕ) where
  -- The table of a size above 0, without a key.
  empty-IsTable :
      (size : ℕ)
      → 0 < size
      → IsTable {K = K} {V = V} compare_equal hash
          (record { buckets = replicate size []; number_of_buckets = size; unique_keys = 0 })
  empty-IsTable size pos = (
    pos,
    length-replicate size [],
    AreSorted-replicate compare_equal hash V size 0 size,
    λ k.
        omega
          (arith, ap (weigh {V = V} (counts_for compare_equal hash k)) (entries-replicate size)),
    ap length (entries-replicate {K = K} {V = V} size),
  )

  create-IsTable : (n : ℕ) → IsTable {K = K} {V = V} compare_equal hash (create n)
  unfolding create
  create-IsTable n = elim (Bool-cases (n == 0)) [
    | inl empty ↦ rw empty (empty-IsTable initial_bucket_count (omega arith))
    | inr some_buckets ↦ rw some_buckets (empty-IsTable n (ground (arith, some_buckets)))
  ]
