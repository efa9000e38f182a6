-- ===== src/Utils/Runs.antt =====
-- A queue and a table of numbers.
use search_engines.Utils.HashTable.{
  find, find_or_add, HashTable, optimize, grown, link, add, resize,
}
use search_engines.Utils.HashTable.Keys.{one_if}
use search_engines.Utils.HashTable.Visits.{visited, visited_lem}
use search_engines.Utils.HashTable.Chains.{entries}
use search_engines.Utils.HashTable.Finds.{IsTable}
use search_engines.Utils.HashTable.Adds.{Finds, find_or_add-Finds}
use mathlib.Core.List.{Perm}
use search_engines.Base.{
  ℕ, zero, suc, some, [], ◌∷◌, refl, Bool, List, ◌≡◌, arith, length, ltb, ◌+◌, ◌==◌, Bool-cases,
  true, inl, inr, ap,
}
use search_engines.Utils.PriorityQueue.{push, top, extract_top, higher_at, higher_found}
use search_engines.Utils.PriorityQueue.Order.{IsHeap, IsPriority}
use search_engines.Utils.PriorityQueue.Push.{push-IsHeap}
use search_engines.Utils.PriorityQueue.Pop.{extract_top-IsHeap}

abbrev greater : ℕ → ℕ → Bool
greater a b = ltb b a

greater-IsPriority : IsPriority greater
greater-IsPriority = record {
  asymmetric = λ a b h. ground arith;
  transitive = λ a b c h k. ground arith;
}

abbrev queue : List ℕ
queue = 9 ∷ 5 ∷ 7 ∷ []

queue-IsHeap : IsHeap greater queue
unfolding higher_at higher_found
queue-IsHeap zero h = absurd (omega arith)
queue-IsHeap (suc zero) h = refl
queue-IsHeap (suc (suc zero)) h = refl
queue-IsHeap (suc (suc (suc i))) h = refl

push-IsHeap_example :
    IsHeap greater (push greater 8 queue) × Perm (push greater 8 queue) (8 ∷ queue)
push-IsHeap_example = push-IsHeap greater greater-IsPriority 8 queue queue-IsHeap

extract_top-IsHeap_example :
    (a : ℕ) × (ys : List ℕ) × (extract_top greater queue ≡ some (a, ys))
    × (top greater queue ≡ some a)
    × IsHeap greater ys
    × (length ys + 1 ≡ length queue)
    × Perm (a ∷ ys) queue
extract_top-IsHeap_example =
    extract_top-IsHeap greater greater-IsPriority queue queue-IsHeap (omega arith)

-- A table that has room for two numbers, and the numbers 3 and 4 in it, with their squares.
abbrev identity : ℕ → ℕ
identity k = k

same_number : (a b : ℕ) → (a == b) ≡ true → a ≡ b
same_number a b h = ground (arith, h)

abbrev small_table : HashTable ℕ ℕ
small_table = record {
  buckets =
      (record { key = 4; hash_value = 4; value = 16 } ∷ [])
      ∷ (record { key = 3; hash_value = 3; value = 9 } ∷ [])
      ∷ [];
  number_of_buckets = 2;
  unique_keys = 2;
}

small_table-IsTable : IsTable ◌==◌ identity small_table
small_table-IsTable = (
  omega arith,
  refl,
  (((refl, refl), tt), (((refl, refl), tt), tt)),
  λ k. elim (Bool-cases (4 == k)) [
    | inl four ↦ elim (Bool-cases (3 == k)) [
      | inl three ↦ absurd (ground (arith, four, three))
      | inr other ↦ omega (arith, ap one_if other, ap one_if four)
    ]
    | inr other ↦ elim (Bool-cases (3 == k)) [
      | inl three ↦ omega (arith, ap one_if other, ap one_if three)
      | inr neither ↦ omega (arith, ap one_if other, ap one_if neither)
    ]
  ],
  refl,
)

find_or_add-Finds_example :
    Finds ◌==◌ identity same_number 5 25 small_table (find_or_add ◌==◌ identity small_table 5 25)
find_or_add-Finds_example =
    find_or_add-Finds ◌==◌ identity same_number 5 25 small_table small_table-IsTable

-- The fourth number makes the table grow to the double of its buckets.
grows :
    (find_or_add ◌==◌ identity
      (find_or_add ◌==◌ identity small_table 5 25).1
      6
      36).1.number_of_buckets
    ≡ 4
unfolding find_or_add find add optimize resize grown link
grows = refl

visited_lem_example : visited 2 small_table ≡ entries small_table.buckets
visited_lem_example = visited_lem 2 small_table (omega arith)
