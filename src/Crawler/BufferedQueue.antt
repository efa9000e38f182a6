-- ===== src/Crawler/BufferedQueue.antt =====
-- src/crawler/frontier.h: the struct BufferedQueue, a queue in a vector that is compacted now and then.
pub mod Moves
pub mod Refines
use search_engines.Base.{
  ℕ, ◌+◌, ◌*◌, ◌-◌, suc, zero, Bool, ◌||◌, ◌&&◌, if◌then◌else◌, ◌==◌, leb, ltb, List, [], ◌∷◌, ◌++◌,
  Option, none, some, length, take, drop, set, get_elem?,
}

pub record BufferedQueue (A : Type 0) : Type 0 where
  pub storage : List A
  pub front_index : ℕ

module _ {A : Type 0} where
  -- `storage[i] = storage[j]`
  unfoldable pub put : List A → ℕ → Option A → List A
  put s i none = s
  put s i (some v) = set s i v

  -- A loop of `n` moves, from place `i` on, each from `by` places further on.
  unfoldable pub move_down : ℕ → ℕ → ℕ → List A → List A
  move_down zero i by s = s
  move_down (suc n) i by s = move_down n (suc i) by (put s i (get_elem? s (by + i)))

  unfoldable pub size : BufferedQueue A → ℕ
  size q = length q.storage - q.front_index

  unfoldable pub is_empty : BufferedQueue A → Bool
  is_empty q = leb (length q.storage) q.front_index

  -- The moves, and the removal of what is then left at the end.
  unfoldable pub compact : BufferedQueue A → BufferedQueue A
  compact q = record {
    storage = take (size q) (move_down (size q) 0 q.front_index q.storage);
    front_index = 0;
  }

  unfoldable pub maybe_compact : BufferedQueue A → BufferedQueue A
  maybe_compact q =
      if q.front_index == 0
      then q
      else if leb (length q.storage) q.front_index
      then record { storage = []; front_index = 0 }
      else if ltb q.front_index 32 || ltb (q.front_index * 2) (length q.storage)
      then q
      else compact q

  unfoldable pub compact_before_front_insert : BufferedQueue A → BufferedQueue A
  compact_before_front_insert q =
      if ltb 0 q.front_index
        && ((q.front_index == length q.storage) || leb (length q.storage) (q.front_index * 2))
      then compact q
      else q

  unfoldable pub push_back : BufferedQueue A → A → BufferedQueue A
  push_back q value = record q { storage = q.storage ++ value ∷ [] }

  abbrev pub insert_front : BufferedQueue A → A → BufferedQueue A
  insert_front q value = record q {
    storage = take q.front_index q.storage ++ (value ∷ drop q.front_index q.storage);
  }

  unfoldable pub push_front : BufferedQueue A → A → BufferedQueue A
  push_front q value = insert_front (compact_before_front_insert q) value

  -- The value read, and the queue behind it; `none` reads past the end.
  abbrev pub popped : Option A → BufferedQueue A → Option (A × BufferedQueue A)
  popped none q = none
  popped (some value) q = some (value, maybe_compact (record q { front_index = suc q.front_index }))

  unfoldable pub pop_front : BufferedQueue A → Option (A × BufferedQueue A)
  pop_front q = popped (get_elem? q.storage q.front_index) q

  -- The elements behind the place move down, and the last place is dropped.
  unfoldable pub erase_at : BufferedQueue A → ℕ → BufferedQueue A
  erase_at q index =
      let at = q.front_index + index in
      let moved = move_down (length q.storage - suc at) at 1 q.storage in
      maybe_compact (record q { storage = take (length q.storage - 1) moved })

  -- What `forEach` visits.
  abbrev pub contents : BufferedQueue A → List A
  contents q = drop q.front_index q.storage
