-- ===== src/Utils/HashTable/Keys.antt =====
-- src/utils/hash/HashTable.h: which bucket of a key is found, in a chain and in all of them.
use search_engines.Base.{
  ◌≡◌, refl, sym, ap, ◌∙◌, ◌≢◌, ◌+◌, ◌%◌, arith, Bool, Option, none, some, ℕ, List, true, All, ◌<◌,
  ◌∷◌, Bool-cases, [], suc, ◌++◌, ◌≤◌, inl, inr, zero,
}
use search_engines.Utils.HashTable.{Bucket, find_in, chain_at}
use mathlib.Core.Bool.{false}
use search_engines.Utils.HashTable.Chains.{weigh, entries}

abbrev pub one_if : Bool → ℕ
one_if true = 1
one_if false = 0

module _ {V : Type 0} where
  abbrev pub or_else : Option V → Option V → Option V
  or_else none y = y
  or_else (some x) y = some x

  pub or_else-none : (x : Option V) → or_else x none ≡ x
  or_else-none none = refl
  or_else-none (some x) = refl

  pub or_else_assoc : (x y z : Option V) → or_else (or_else x y) z ≡ or_else x (or_else y z)
  or_else_assoc none y z = refl
  or_else_assoc (some x) y z = refl

module _ {K V : Type 0} (compare_equal : K → K → Bool) (hash : K → ℕ) where
  -- A bucket of the chain `i`, with the hash of its key.
  abbrev pub Belongs : ℕ → ℕ → Bucket K V → Type 0
  Belongs size i b = (b.hash_value ≡ hash b.key) × (b.hash_value % size ≡ i)

  -- The chains from the place `i` on hold the buckets that belong there.
  abbrev pub AreSorted : ℕ → ℕ → List (List (Bucket K V)) → Type 0
  AreSorted size i [] = Unit
  AreSorted size i (chain ∷ chains) = All (Belongs size i) chain × AreSorted size (suc i) chains

  -- Whether a bucket has the key, as a number to add up.
  abbrev pub counts_for : K → Bucket K V → ℕ
  counts_for k b = one_if (compare_equal b.key k)

  abbrev pub value_if : Bool → V → Option V
  value_if true v = some v
  value_if false v = none

  -- The value of the last bucket with the key.
  abbrev pub latest : K → List (Bucket K V) → Option V
  latest k [] = none
  latest k (b ∷ chain) = or_else (latest k chain) (value_if (compare_equal b.key k) b.value)

  pub find_in-append :
      (k : K) (xs ys : List (Bucket K V))
      → find_in compare_equal hash k (xs ++ ys)
        ≡ or_else (find_in compare_equal hash k xs) (find_in compare_equal hash k ys)
  find_in-append k [] ys = refl
  find_in-append k (b ∷ xs) ys = elim (Bool-cases (compare_equal b.key k)) [
    | inl same ↦ rw same refl
    | inr other ↦ rw other (find_in-append k xs ys)
  ]

  latest-absent :
      (k : K) (xs : List (Bucket K V)) → weigh (counts_for k) xs ≡ 0 → latest k xs ≡ none
  latest-absent k [] h = refl
  latest-absent k (b ∷ xs) h = elim (Bool-cases (compare_equal b.key k)) [
    | inl same ↦ absurd (omega (arith, ap one_if same))
    | inr other ↦ rw (latest-absent k xs (omega (arith, ap one_if other)), other) refl
  ]

  -- Where the key stands once at most, the last bucket with it is the first.
  pub latest-find_in :
      (k : K) (xs : List (Bucket K V))
      → weigh (counts_for k) xs ≤ 1
      → latest k xs ≡ find_in compare_equal hash k xs
  latest-find_in k [] h = refl
  latest-find_in k (b ∷ xs) h = elim (Bool-cases (compare_equal b.key k)) [
    | inl same ↦ rw (latest-absent k xs (omega (arith, ap one_if same)), same) refl
    | inr other ↦
        rw (other, latest-find_in k xs (omega (arith, ap one_if other)))
          (or_else-none (find_in compare_equal hash k xs))
  ]

  module _ (same_key : (a b : K) → compare_equal a b ≡ true → a ≡ b) where
    find_in-elsewhere :
        (k : K) (size i : ℕ) (chain : List (Bucket K V))
        → All (Belongs size i) chain
        → hash k % size ≢ i
        → find_in compare_equal hash k chain ≡ none
    find_in-elsewhere k size i [] h ne = refl
    find_in-elsewhere k size i (b ∷ chain) (at, h) ne = elim (Bool-cases (compare_equal b.key k)) [
      | inl same ↦ absurd (
          ne (
            ap (λ x. hash x % size) (sym (same_key b.key k same))
            ∙ ap (λ x. x % size) (sym at.0)
            ∙ at.1))
      | inr other ↦ rw other (find_in-elsewhere k size i chain h ne)
    ]

    find_in-before :
        (k : K) (size i : ℕ) (chains : List (List (Bucket K V)))
        → AreSorted size i chains
        → hash k % size < i
        → find_in compare_equal hash k (entries chains) ≡ none
    find_in-before k size i [] h lt = refl
    find_in-before k size i (chain ∷ chains) (at, h) lt =
        find_in-append k chain (entries chains)
        ∙ rw
            (
              find_in-elsewhere k size i chain at (λ e. omega arith),
              find_in-before k size (suc i) chains h (omega arith),
            )
            refl

    -- A key is found in its own chain, just as it would be in all of them.
    pub find_in-entries :
        (k : K) (size i j : ℕ) (chains : List (List (Bucket K V)))
        → AreSorted size i chains
        → hash k % size ≡ i + j
        → find_in compare_equal hash k (entries chains)
          ≡ find_in compare_equal hash k (chain_at chains j)
    find_in-entries k size i j [] h e = refl
    find_in-entries k size i zero (chain ∷ chains) (at, h) e =
        find_in-append k chain (entries chains)
        ∙ rw (find_in-before k size (suc i) chains h (omega arith))
            (or_else-none (find_in compare_equal hash k chain))
    find_in-entries k size i (suc j) (chain ∷ chains) (at, h) e =
        find_in-append k chain (entries chains)
        ∙ rw (find_in-elsewhere k size i chain at (λ e'. omega arith))
            (find_in-entries k size (suc i) j chains h (omega arith))
