-- ===== src/Query/TopK/Extract.antt =====
-- The order in which the documents come out.
use mathlib.Core.List.{Perm}
use mathlib.Core.List.Perm
use search_engines.Utils.PriorityQueue.Reorder.{concat-perm}
use search_engines.Base.{
  ℕ, zero, suc, none, some, [], ◌∷◌, inl, inr, refl, false, Bool, List, All, Option-cases, length,
  ◌≡◌, ◌≤◌, arith, ◌++◌, All-append,
}
use search_engines.Query.TopK.{extract_sorted, TopKHeap, scores_lower, drain, ScoredDocument, turn}
use search_engines.Utils.PriorityQueue.Order.{IsPriority, IsHeap}
use search_engines.Utils.PriorityQueue.{top, extract_top}
use search_engines.Utils.PriorityQueue.Contents.{All-pointwise, extract_top-All}
use search_engines.Utils.PriorityQueue.Push.{top-IsHeap}
use search_engines.Utils.PriorityQueue.Pop.{extract_top-IsHeap}

module _ {Score : Type 0} (less : Score → Score → Bool)
    (order : IsPriority (scores_lower less)) where
  -- No document has a lower score than one before it.
  abbrev Rising : List (ScoredDocument less) → Type 0
  Rising [] = Unit {0}
  Rising (d ∷ ds) = All (λ e. scores_lower less e d ≡ false) ds × Rising ds

  -- No document has a lower score than one behind it.
  abbrev pub Falling : List (ScoredDocument less) → Type 0
  Falling [] = Unit {0}
  Falling (d ∷ ds) = All (λ e. scores_lower less d e ≡ false) ds × Falling ds

  drain-All :
      (P : ScoredDocument less → Type 0) (fuel : ℕ) (heap : List (ScoredDocument less))
      → All P heap
      → All P (drain less fuel heap)
  unfolding drain
  drain-All P zero heap h = tt
  drain-All P (suc fuel) heap h = elim (Option-cases (extract_top (scores_lower less) heap)) [
    | inl over ↦ rw (over, All) tt
    | inr ((d, rest), run) ↦
        let (here, there) = extract_top-All (scores_lower less) P heap run h in
        rw (run, All) (here, drain-All P fuel rest there)
  ]

  -- The root of a heap is its lowest document.
  pub root-All :
      (heap : List (ScoredDocument less)) (root : ScoredDocument less)
      → IsHeap (scores_lower less) heap
      → top (scores_lower less) heap ≡ some root
      → All (λ e. scores_lower less e root ≡ false) heap
  root-All heap root ordered first =
      All-pointwise (λ e. scores_lower less e root ≡ false) heap
        (λ i e here. top-IsHeap (scores_lower less) order heap root i e ordered first here)

  extract_top-empty : extract_top (scores_lower less) [] ≡ none
  unfolding extract_top
  extract_top-empty = refl

  drain-Rising :
      (fuel : ℕ) (heap : List (ScoredDocument less))
      → IsHeap (scores_lower less) heap
      → length heap ≤ fuel
      → Rising (drain less fuel heap) × Perm (drain less fuel heap) heap
  unfolding drain
  drain-Rising zero [] ordered enough = (tt, Perm.refl [])
  drain-Rising (suc fuel) [] ordered enough =
      rw (extract_top-empty, Rising, drain) (tt, Perm.refl [])
  drain-Rising zero (d ∷ ds) ordered enough = absurd (omega arith)
  drain-Rising (suc fuel) (d ∷ ds) ordered enough =
      let (root, rest, run, first, ordered', size, same) =
        extract_top-IsHeap (scores_lower less) order (d ∷ ds) ordered (omega arith) in
      let (rising, same') = drain-Rising fuel rest ordered' (omega (arith, size)) in
      let above = root-All (d ∷ ds) root ordered first in
      let kept =
        extract_top-All (scores_lower less) (λ e. scores_lower less e root ≡ false) (d ∷ ds) run
          above in
      rw (run, Rising, drain)
        (
          (drain-All (λ e. scores_lower less e root ≡ false) fuel rest kept.1, rising),
          Perm.trans (Perm.cons root same') same,
        )

  turn-All :
      (P : ScoredDocument less → Type 0) (ds : List (ScoredDocument less))
      → All P ds
      → All P (turn less ds)
  unfolding turn
  turn-All P [] h = tt
  turn-All P (d ∷ ds) h = All-append P (turn less ds) (d ∷ []) (turn-All P ds h.1) (h.0, tt)

  append-Falling :
      (ds : List (ScoredDocument less)) (last : ScoredDocument less)
      → Falling ds
      → All (λ e. scores_lower less e last ≡ false) ds
      → Falling (ds ++ last ∷ [])
  append-Falling [] last h below = (tt, tt)
  append-Falling (d ∷ ds) last h below = (
    All-append (λ e. scores_lower less d e ≡ false) ds (last ∷ []) h.0 (below.0, tt),
    append-Falling ds last h.1 below.1,
  )

  turn-Falling : (ds : List (ScoredDocument less)) → Rising ds → Falling (turn less ds)
  unfolding turn
  turn-Falling [] h = tt
  turn-Falling (d ∷ ds) h =
      append-Falling (turn less ds) d (turn-Falling ds h.1)
        (turn-All (λ e. scores_lower less e d ≡ false) ds h.0)

  turn-perm : (ds : List (ScoredDocument less)) → Perm (turn less ds) ds
  unfolding turn
  turn-perm [] = Perm.refl []
  turn-perm (d ∷ ds) = Perm.trans (concat-perm (turn less ds) d) (Perm.cons d (turn-perm ds))

  -- From a heap in order, over a strict weak order of the scores, the documents come out from the
  -- highest score to the lowest, and they are those that the heap holds.
  pub extract_sorted-Falling :
      (top_k : TopKHeap less)
      → IsHeap (scores_lower less) top_k.heap
      → Falling (extract_sorted less top_k) × Perm (extract_sorted less top_k) top_k.heap
  unfolding extract_sorted
  extract_sorted-Falling top_k ordered =
      let (rising, same) = drain-Rising (length top_k.heap) top_k.heap ordered (omega arith) in
      let drained = drain less (length top_k.heap) top_k.heap in
      (turn-Falling drained rising, Perm.trans (turn-perm drained) same)
