-- ===== src/Utils/HashTable/Adds.antt =====
-- src/utils/hash/HashTable.h: finding a key, and adding it where it is missing.
use search_engines.Base.{
  if◌then◌else◌, ◌≡◌, refl, sym, ap, ◌∙◌, ◌%◌, arith, Bool, Option, ℕ, true, ◌≤◌, List, some,
  Bool-cases, none, leb, ◌==◌, inl, ◌∷◌, [], inr, ◌<◌, false,
}
use search_engines.Utils.HashTable.{
  Bucket, HashTable, find, find_in, find_or_add, found_or_added, add, optimize, desired_size,
  new_size, resize, link,
}
use search_engines.Utils.HashTable.Keys.{counts_for, one_if, find_in-entries}
use search_engines.Utils.HashTable.Finds.{
  IsTable, leb_grown, resize-IsTable, find-resize, find_in-link, AreSorted-link,
}
use search_engines.Utils.HashTable.Chains.{weigh, entries, length-link, weigh-link, weigh-one}

pub new_size-enough : {K V : Type 0} (table : HashTable K V) → desired_size table ≤ new_size table
new_size-enough table = elim (Bool-cases (table.number_of_buckets == 0)) [
  | inl empty ↦
      rw empty (leb_grown (desired_size table) 1 (desired_size table) (omega arith) (omega arith))
  | inr some_buckets ↦ rw some_buckets (
      leb_grown (desired_size table) table.number_of_buckets (desired_size table)
        (ground (arith, some_buckets)) (omega arith))
]

value_absent :
    {V : Type 0} (c : Bool) (v : V) (rest : Option V)
    → (if c then some v else rest) ≡ none
    → (c ≡ false) × (rest ≡ none)
value_absent true v rest h = cc
value_absent false v rest h = (refl, h)

module _ {K V : Type 0} (compare_equal : K → K → Bool) (hash : K → ℕ)
    (same_key : (a b : K) → compare_equal a b ≡ true → a ≡ b) where
  -- The table is left as it is, or resized to as many buckets as are needed.
  pub optimize_lem :
      (table : HashTable K V)
      → IsTable compare_equal hash table
      → IsTable compare_equal hash (optimize table)
        × (desired_size table ≤ (optimize table).number_of_buckets)
        × ((k : K) → find compare_equal hash (optimize table) k ≡ find compare_equal hash table k)
  unfolding optimize resize
  optimize_lem table h = elim (Bool-cases (leb (desired_size table) table.number_of_buckets)) [
    | inl roomy ↦ rw roomy (h, ground (arith, roomy), λ k. refl)
    | inr full ↦
        let pos : 0 < new_size table = ground (arith, full, new_size-enough table) in
        rw full (
          resize-IsTable compare_equal hash (new_size table) table pos h,
          new_size-enough table,
          λ k. find-resize compare_equal hash same_key k (new_size table) table pos h,
        )
  ]

  count-absent :
      (k : K) (xs : List (Bucket K V))
      → find_in compare_equal hash k xs ≡ none
      → weigh (counts_for compare_equal hash k) xs ≡ 0
  count-absent k [] h = refl
  count-absent k (b ∷ xs) h =
      let r = value_absent (compare_equal b.key k) b.value (find_in compare_equal hash k xs) h in
      omega (arith, ap one_if r.0, count-absent k xs r.1)

  -- What a table comes to when the key is given the value.
  abbrev pub Sets : K → V → HashTable K V → HashTable K V → Type 0
  Sets k v table after =
      (k' : K)
      → find compare_equal hash after k'
        ≡ (if compare_equal k k' then some v else find compare_equal hash table k')

  add-IsTable :
      (k : K) (v : V) (table : HashTable K V)
      → IsTable compare_equal hash table
      → find compare_equal hash table k ≡ none
      → IsTable compare_equal hash (add compare_equal hash k v table)
  unfolding add find
  add-IsTable k v table h absent =
      let n = table.number_of_buckets in
      let b : Bucket K V = record { key = k; hash_value = hash k; value = v } in
      let missing : weigh (counts_for compare_equal hash k) (entries table.buckets) ≡ 0 =
        count-absent k (entries table.buckets) (
          find_in-entries compare_equal hash same_key k n 0 (hash k % n) table.buckets h.2
            (omega arith)
          ∙ absent) in
      (
        h.0,
        length-link n b table.buckets ∙ h.1,
        AreSorted-link compare_equal hash n b table.buckets refl h.2,
        λ k'. elim (Bool-cases (compare_equal k k')) [
          | inl same ↦ omega (
            arith,
            weigh-link (counts_for compare_equal hash k') n b table.buckets h.0 h.1,
            ap one_if same,
            ap (λ x. weigh (counts_for compare_equal hash x) (entries table.buckets))
                (same_key k k' same),
            missing,
          )
          | inr other ↦ omega (
            arith,
            weigh-link (counts_for compare_equal hash k') n b table.buckets h.0 h.1,
            ap one_if other,
            h.3 k',
          )
        ],
        omega (
          arith,
          weigh-link (λ b'. 1) n b table.buckets h.0 h.1,
          weigh-one (entries (link n b table.buckets)),
          weigh-one (entries table.buckets),
          h.4,
        ),
      )

  add-Sets :
      (k : K) (v : V) (table : HashTable K V)
      → IsTable compare_equal hash table
      → Sets k v table (add compare_equal hash k v table)
  unfolding add find
  add-Sets k v table h k' =
      let b : Bucket K V = record { key = k; hash_value = hash k; value = v } in
      find_in-link compare_equal hash same_key k' table.number_of_buckets b table.buckets h.0 h.1
        refl
      ∙ elim (Bool-cases (compare_equal k k')) [
        | inl same ↦ rw same refl
        | inr other ↦ rw other refl
      ]

  abbrev pub value_or : V → Option V → V
  value_or v none = v
  value_or v (some old) = old

  -- What is promised of a search that may add.
  abbrev pub Finds : K → V → HashTable K V → V × HashTable K V → Type 0
  Finds k v table result =
      (result.0 ≡ value_or v (find compare_equal hash table k))
      × IsTable compare_equal hash result.1
      × Sets k result.0 table result.1

  found_or_added-Finds :
      (k : K) (v : V) (table : HashTable K V) (found : Option V)
      → IsTable compare_equal hash table
      → find compare_equal hash table k ≡ found
      → Finds k v table (found_or_added compare_equal hash found k v table)
  found_or_added-Finds k v table none h e =
      let o = optimize_lem table h in
      let bigger : HashTable K V = optimize table in
      (
        sym (ap (value_or v) e),
        add-IsTable k v bigger o.0 (o.2 k ∙ e),
        λ k'.
            add-Sets k v bigger o.0 k'
            ∙ ap (λ t. if compare_equal k k' then some v else t) (o.2 k'),
      )
  found_or_added-Finds k v table (some old) h e = (
    sym (ap (value_or v) e),
    h,
    λ k'. elim (Bool-cases (compare_equal k k')) [
      | inl same ↦ rw same (ap (find compare_equal hash table) (sym (same_key k k' same)) ∙ e)
      | inr other ↦ rw other refl
    ],
  )

  -- A key that is looked for with a value to add keeps the value that it has or gets this one; no
  -- other key is touched, however the table is resized on the way, and it stays a table.
  pub find_or_add-Finds :
      (k : K) (v : V) (table : HashTable K V)
      → IsTable compare_equal hash table
      → Finds k v table (find_or_add compare_equal hash table k v)
  unfolding find_or_add
  find_or_add-Finds k v table h =
      found_or_added-Finds k v table (find compare_equal hash table k) h refl
