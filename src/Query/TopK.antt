-- ===== src/Query/TopK.antt =====
-- src/index/src/lib/query_engine.cpp: TopKHeap, the best documents of a search. The scores are
-- doubles, of which only the comparison is used; the loops `heapifyUp` and `heapifyDown` are those
-- of the priority queue, with the document of the lowest score at the root.
pub mod Keep
pub mod Extract
use search_engines.Base.{
  ℕ, zero, suc, none, some, [], ◌∷◌, Bool, List, Option, if◌then◌else◌, length, ◌++◌, ltb, ◌>>=◌,
}
use search_engines.Utils.PriorityQueue.{sift_up, sift_down, extract_top}

module _ {Score : Type 0} (less : Score → Score → Bool) where
  pub record ScoredDocument : Type 0 where
    pub doc_id : ℕ
    pub score : Score

  unfoldable pub scores_lower : ScoredDocument → ScoredDocument → Bool
  scores_lower a b = less a.score b.score

  pub record TopKHeap : Type 0 where
    pub heap : List ScoredDocument
    pub k : ℕ

  unfoldable pub new : ℕ → TopKHeap
  new k = record { heap = []; k = k }

  unfoldable pub heapify_up : ℕ → List ScoredDocument → List ScoredDocument
  heapify_up index heap = sift_up scores_lower index index heap

  unfoldable pub heapify_down : ℕ → List ScoredDocument → List ScoredDocument
  heapify_down index heap = sift_down scores_lower (length heap) index heap

  -- A full heap gives its root up for a better document. `none` is the read of `heap_[0]` in an
  -- empty vector.
  unfoldable pub replace_root : ScoredDocument → List ScoredDocument → Option (List ScoredDocument)
  replace_root item [] = none
  replace_root item (root ∷ heap) =
      if scores_lower root item then some (heapify_down 0 (item ∷ heap)) else some (root ∷ heap)

  unfoldable pub push_heap : ScoredDocument → ℕ → List ScoredDocument → Option (List ScoredDocument)
  push_heap item k heap =
      if ltb (length heap) k
      then some (heapify_up (length heap) (heap ++ item ∷ []))
      else replace_root item heap

  unfoldable pub push : ScoredDocument → TopKHeap → Option TopKHeap
  push item top_k =
      push_heap item top_k.k top_k.heap >>= λ heap. some (record top_k { heap = heap })

  -- `heap_[0] = heap_.back(); heap_.popBack(); heapifyDown(0);` until the heap is empty; its size
  -- is fuel enough.
  unfoldable pub drain : ℕ → List ScoredDocument → List ScoredDocument
  drain zero heap = []
  drain (suc fuel) heap = elim (extract_top scores_lower heap) [
    | none ↦ []
    | some r ↦ r.0 ∷ drain fuel r.1
  ]

  -- The loop of swaps at the end turns the vector round.
  unfoldable pub turn : List ScoredDocument → List ScoredDocument
  turn [] = []
  turn (x ∷ xs) = turn xs ++ x ∷ []

  unfoldable pub extract_sorted : TopKHeap → List ScoredDocument
  extract_sorted top_k = turn (drain (length top_k.heap) top_k.heap)
