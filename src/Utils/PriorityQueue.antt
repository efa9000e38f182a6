-- ===== src/Utils/PriorityQueue.antt =====
-- src/utils/PriorityQueue.hpp: a binary heap in a vector. `higher` is `higherPriority`, and a pop
-- of an empty queue, which throws, is `none`.
pub mod Order
pub mod Push
pub mod SiftDown
pub mod Pop
pub mod Contents
pub mod Reorder
use search_engines.Base.{
  ℕ, zero, suc, none, some, [], ◌∷◌, Bool, ◌*◌, ◌-◌, List, ◌+◌, ◌/◌, Option, get_elem?,
  if◌then◌else◌, length, take, false, ltb, set, ◌++◌, ◌==◌, get_or, ◌&&◌,
}

abbrev pub parent : ℕ → ℕ
parent i = (i - 1) / 2

abbrev pub left_child : ℕ → ℕ
left_child i = 2 * i + 1

abbrev pub right_child : ℕ → ℕ
right_child i = 2 * i + 2

module _ {A : Type 0} (higher : A → A → Bool) where
  unfoldable pub put_back : ℕ → ℕ → List A → Option A → Option A → List A
  put_back i j xs (some a) (some b) = set (set xs i b) j a
  put_back i j xs (some a) none = xs
  put_back i j xs none found = xs

  -- `swap(data_[i], data_[j])`; a place outside the vector is never named.
  unfoldable pub swap_at : ℕ → ℕ → List A → List A
  swap_at i j xs = put_back i j xs (get_elem? xs i) (get_elem? xs j)

  unfoldable pub higher_found : Option A → Option A → Bool
  higher_found (some a) (some b) = higher a b
  higher_found (some a) none = false
  higher_found none found = false

  -- `higherPriority(data_[i], data_[j])`, and false outside the vector.
  unfoldable pub higher_at : List A → ℕ → ℕ → Bool
  higher_at xs i j = higher_found (get_elem? xs i) (get_elem? xs j)

  -- The loop halves the index, so the index is fuel enough.
  unfoldable pub sift_up : ℕ → ℕ → List A → List A
  sift_up zero idx xs = xs
  sift_up (suc fuel) idx xs =
      let up = sift_up fuel (parent idx) (swap_at idx (parent idx) xs) in
      if ltb 0 idx && higher_at xs idx (parent idx) then up else xs

  -- The best of a place and its children; `l < n` and `r < n` are in `higher_at`.
  unfoldable pub best_child : ℕ → List A → ℕ
  best_child idx xs =
      let best = if higher_at xs (left_child idx) idx then left_child idx else idx in
      if higher_at xs (right_child idx) best then right_child idx else best

  -- The loop goes down to a child each time, so the size is fuel enough.
  unfoldable pub sift_down : ℕ → ℕ → List A → List A
  sift_down zero idx xs = xs
  sift_down (suc fuel) idx xs =
      let best = best_child idx xs in
      let down = sift_down fuel best (swap_at idx best xs) in if best == idx then xs else down

  unfoldable pub top : List A → Option A
  top xs = get_elem? xs 0

  unfoldable pub push : A → List A → List A
  push value xs = sift_up (length xs) (length xs) (xs ++ value ∷ [])

  -- `popBack`
  abbrev pub pop_back : List A → List A
  pop_back xs = take (length xs - 1) xs

  unfoldable pub pop : List A → Option (List A)
  pop [] = none
  pop (x ∷ []) = some []
  pop (x ∷ y ∷ xs) =
      let data' = pop_back (swap_at 0 (length (y ∷ xs)) (x ∷ y ∷ xs)) in
      some (sift_down (length data') 0 data')

  -- The last element is moved to the front.
  unfoldable pub extract_top : List A → Option (A × List A)
  extract_top [] = none
  extract_top (x ∷ []) = some (x, [])
  extract_top (x ∷ y ∷ xs) =
      let data' = pop_back (set (x ∷ y ∷ xs) 0 (get_or (y ∷ xs) (length xs) x)) in
      some (x, sift_down (length data') 0 data')

  -- `popBack` until the vector is empty
  unfoldable pub clear : List A → List A
  clear xs = []
