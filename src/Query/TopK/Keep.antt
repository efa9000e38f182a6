-- ===== src/Query/TopK/Keep.antt =====
-- What `push` keeps.
use mathlib.Core.List.{Perm}
use mathlib.Core.List.Perm
use search_engines.Utils.PriorityQueue.Reorder.{concat-perm, sift_down-perm, sift_up-perm}
use search_engines.Utils.PriorityQueue.{sift_down, top, higher_at, parent}
use search_engines.Utils.PriorityQueue.Contents.{sift_down-All}
use search_engines.Query.TopK.Extract.{root-All}
use search_engines.Base.{
  ℕ, zero, suc, some, [], ◌∷◌, inl, inr, refl, Bool, List, length, ◌<◌, ◌≡◌, ◌≤◌, Bool-cases, arith,
  ltb, ◌∙◌, All, false, ◌++◌, ◌⊎◌,
}
use search_engines.Query.TopK.{
  push, TopKHeap, ScoredDocument, heapify_up, replace_root, heapify_down, scores_lower, push_heap,
}
use search_engines.Utils.PriorityQueue.Order.{IsPriority, IsHeap}
use search_engines.Utils.PriorityQueue.Pop.{sift_root}
use search_engines.Utils.PriorityQueue.Push.{sift_up-append}

module _ {Score : Type 0} (less : Score → Score → Bool)
    (order : IsPriority (scores_lower less)) where
  -- A heap in order, with at most `k` documents.
  abbrev pub IsTopK : TopKHeap less → Type 0
  IsTopK top_k = IsHeap (scores_lower less) top_k.heap × (length top_k.heap ≤ top_k.k)

  same_tail :
      (item root : ScoredDocument less) (heap : List (ScoredDocument less)) (i j : ℕ)
      → 0 < i
      → 0 < j
      → higher_at (scores_lower less) (item ∷ heap) i j
        ≡ higher_at (scores_lower less) (root ∷ heap) i j
  unfolding higher_at
  same_tail item root heap zero j h k = absurd (omega arith)
  same_tail item root heap (suc i) zero h k = absurd (omega arith)
  same_tail item root heap (suc i) (suc j) h k = refl

  -- The documents of the heap and the new one, and where there is no room for all of them, one is
  -- left out than which none that is kept has a lower score.
  abbrev pub KeepsBest :
      ℕ → ScoredDocument less → List (ScoredDocument less) → List (ScoredDocument less) → Type 0
  KeepsBest k item heap heap' =
      ((length heap < k) × Perm heap' (item ∷ heap))
      ⊎ ((k ≤ length heap)
          × ((out : ScoredDocument less) × Perm (out ∷ heap') (item ∷ heap)
              × All (λ e. scores_lower less e out ≡ false) heap'))

  above_root :
      (item root : ScoredDocument less) (heap : List (ScoredDocument less))
      → scores_lower less root item ≡ false
      → All (λ e. scores_lower less e root ≡ false) heap
      → All (λ e. scores_lower less e item ≡ false) heap
  above_root item root [] h hs = tt
  above_root item root (e ∷ heap) h (above, hs) =
      (order.transitive e root item above h, above_root item root heap h hs)

  replace_root-IsHeap :
      (item root : ScoredDocument less) (heap : List (ScoredDocument less))
      → IsHeap (scores_lower less) (root ∷ heap)
      → (heap' : List (ScoredDocument less)) × (replace_root less item (root ∷ heap) ≡ some heap')
        × IsHeap (scores_lower less) heap'
        × (length heap' ≡ length (root ∷ heap))
        × ((out : ScoredDocument less) × Perm (out ∷ heap') (item ∷ root ∷ heap)
            × All (λ e. scores_lower less e out ≡ false) heap')
  unfolding replace_root heapify_down
  replace_root-IsHeap item root heap ordered =
      let above = root-All less order (root ∷ heap) root ordered (unfold top in refl) in
      elim (Bool-cases (scores_lower less root item)) [
        | inr kept ↦ rw kept (
          root ∷ heap,
          refl,
          ordered,
          refl,
          (item, Perm.refl (item ∷ root ∷ heap), above_root item root (root ∷ heap) kept above),
        )
        | inl better ↦
            let (ordered', size) = sift_root (scores_lower less) order (item ∷ heap) (
              (λ i some_i far.
                  same_tail item root heap i (parent i) some_i (omega arith) ∙ ordered i some_i),
              (λ c some_c some_0 child. absurd (omega arith)),
            ) in
            rw better (
              sift_down (scores_lower less) (length (item ∷ heap)) 0 (item ∷ heap),
              refl,
              ordered',
              size,
              (
                root,
                Perm.trans
                    (Perm.cons root
                      (sift_down-perm (scores_lower less) (length (item ∷ heap)) 0 (item ∷ heap)))
                    (Perm.swap item root heap),
                sift_down-All (scores_lower less) (λ e. scores_lower less e root ≡ false)
                    (length (item ∷ heap)) 0 (item ∷ heap)
                    (order.asymmetric root item better, above.1),
              ),
            )
      ]

  push_heap-IsHeap :
      (item : ScoredDocument less) (k : ℕ) (heap : List (ScoredDocument less))
      → IsHeap (scores_lower less) heap
      → length heap ≤ k
      → 0 < k
      → (heap' : List (ScoredDocument less)) × (push_heap less item k heap ≡ some heap')
        × IsHeap (scores_lower less) heap'
        × (length heap' ≤ k)
        × KeepsBest k item heap heap'
  unfolding push_heap heapify_up
  push_heap-IsHeap item k heap ordered fits room = elim (Bool-cases (ltb (length heap) k)) [
    | inl free ↦
        let (ordered', size) = sift_up-append (scores_lower less) order item heap ordered in
        rw free (
          _,
          refl,
          ordered',
          ground (arith, size),
          inl (
            ground (arith, free),
            Perm.trans
                (sift_up-perm (scores_lower less) (length heap) (length heap) (heap ++ item ∷ []))
                (concat-perm heap item),
          ),
        )
    | inr full ↦ rw full (full_heap heap ordered fits (ground arith))
  ]
    where
      full_heap :
          (heap : List (ScoredDocument less))
          → IsHeap (scores_lower less) heap
          → length heap ≤ k
          → k ≤ length heap
          → (heap' : List (ScoredDocument less)) × (replace_root less item heap ≡ some heap')
            × IsHeap (scores_lower less) heap'
            × (length heap' ≤ k)
            × KeepsBest k item heap heap'
      full_heap [] ordered fits full = absurd (omega arith)
      full_heap (root ∷ heap) ordered fits full =
          let (heap', run, ordered', size, best) = replace_root-IsHeap item root heap ordered in
          (heap', run, ordered', omega (arith, size), inr (full, best))

  -- With room for one document at least, and over a strict weak order of the scores, a push to a
  -- heap in order never reads outside it, keeps it in order, and never lets it grow beyond `k`
  -- documents. While there are fewer than `k`, the new document joins the others; else one of them
  -- all is left out, and no document that is kept has a lower score than that one.
  pub push-IsTopK :
      (item : ScoredDocument less) (top_k : TopKHeap less)
      → IsTopK top_k
      → 0 < top_k.k
      → (top_k' : TopKHeap less) × (push less item top_k ≡ some top_k')
        × IsTopK top_k'
        × (top_k'.k ≡ top_k.k)
        × KeepsBest top_k.k item top_k.heap top_k'.heap
  unfolding push
  push-IsTopK item top_k (ordered, fits) room =
      let (heap', run, ordered', fits', best) =
        push_heap-IsHeap item top_k.k top_k.heap ordered fits room in
      rw run (record top_k { heap = heap' }, refl, (ordered', fits'), refl, best)
