-- ===== src/Utils/PriorityQueue/Pop.antt =====
-- `pop` and `extractTop` keep the heap.
use mathlib.Core.List.{Perm}
use mathlib.Core.List.Perm
use search_engines.Utils.PriorityQueue.Reorder.{extract_top-perm}
use search_engines.Base.{
  ℕ, zero, suc, some, [], ◌∷◌, refl, false, Bool, List, ◌<◌, get_elem?, ◌≢◌, length, take, ◌-◌, ◌≡◌,
  arith, ◌+◌, dec_lt, ap₂, get_or, ◌∙◌, length-take,
}
use search_engines.Utils.PriorityQueue.{
  parent, sift_down, pop, higher_at, extract_top, top, pop_back, higher_found, swap_at,
}
use search_engines.Utils.PriorityQueue.Order.{
  swapped_off, IsPriority, IsHeap, length-swap_at, higher_at-swap_at,
}
use search_engines.Utils.PriorityQueue.SiftDown.{IsHeapUnder, sift_down-IsHeap, length-sift_down}
use search_engines.Utils.PriorityQueue.Push.{higher_at-past}

module _ {A : Type 0} where
  pub get_elem?-take : (n k : ℕ) (xs : List A) → k < n → get_elem? (take n xs) k ≡ get_elem? xs k
  get_elem?-take zero k xs h = absurd (omega arith)
  get_elem?-take (suc n) k [] h = refl
  get_elem?-take (suc n) zero (x ∷ xs) h = refl
  get_elem?-take (suc n) (suc k) (x ∷ xs) h = get_elem?-take n k xs (omega arith)

module _ {A : Type 0} (higher : A → A → Bool) (order : IsPriority higher) where
  -- What is left when the last place goes, and the order holds but for the children of the root.
  pop_back-IsHeapUnder :
      (ys : List A)
      → ((i : ℕ)
          → 0 < i
          → parent i ≢ 0
          → i < length ys - 1
          → higher_at higher ys i (parent i) ≡ false)
      → IsHeapUnder higher 0 (pop_back higher ys)
  unfolding higher_at
  pop_back-IsHeapUnder ys h =
      let n = length ys - 1 in
      (
        λ i some_i far. elim (dec_lt i n) [
          | yes inside ↦
              ap₂ (higher_found higher) (get_elem?-take n i ys inside)
                (get_elem?-take n (parent i) ys (omega arith))
              ∙ h i some_i far inside
          | no past ↦
              higher_at-past higher order (take n ys) i (parent i) (omega (arith, length-take n ys))
        ],
        λ c some_c some_0 child. absurd (omega arith),
      )

  pub sift_root :
      (ys : List A)
      → IsHeapUnder higher 0 ys
      → IsHeap higher (sift_down higher (length ys) 0 ys)
        × (length (sift_down higher (length ys) 0 ys) ≡ length ys)
  sift_root ys under = (
    sift_down-IsHeap higher order (length ys) 0 ys (omega arith) under,
    length-sift_down higher order (length ys) 0 ys,
  )

  -- A pop of a heap that is not empty leaves a heap and removes one element, where the comparison
  -- is a strict weak order.
  pub pop-IsHeap :
      (xs : List A)
      → IsHeap higher xs
      → 0 < length xs
      → (ys : List A) × (pop higher xs ≡ some ys) × IsHeap higher ys × (length ys + 1 ≡ length xs)
  unfolding pop
  pop-IsHeap [] heap some_x = absurd (omega arith)
  pop-IsHeap (x ∷ []) heap some_x =
      ([], refl, (λ i some_i. unfold higher_at higher_found in refl), refl)
  pop-IsHeap (x ∷ y ∷ xs) heap some_x =
      let all = x ∷ y ∷ xs in
      let n = length (y ∷ xs) in
      let swapped_all = swap_at higher 0 n all in
      let size = length-swap_at higher 0 n all in
      let kept = pop_back higher swapped_all in
      let (heap', size') = sift_root kept (
        pop_back-IsHeapUnder swapped_all (λ i some_i far inside.
          higher_at-swap_at higher 0 n i (parent i) all (omega arith) (omega arith) (omega arith)
          ∙ ap₂ (higher_at higher all) (swapped_off 0 n i (omega arith) (omega (arith, size)))
              (swapped_off 0 n (parent i) far (omega (arith, size)))
          ∙ heap i some_i)) in
      (_, refl, heap', omega (arith, size', length-take (length swapped_all - 1) swapped_all, size))

  -- `extractTop` of a heap that is not empty returns the top and leaves a heap of the other
  -- elements, where the comparison is a strict weak order.
  pub extract_top-IsHeap :
      (xs : List A)
      → IsHeap higher xs
      → 0 < length xs
      → (a : A) × (ys : List A) × (extract_top higher xs ≡ some (a, ys))
        × (top higher xs ≡ some a)
        × IsHeap higher ys
        × (length ys + 1 ≡ length xs)
        × Perm (a ∷ ys) xs
  unfolding extract_top top
  extract_top-IsHeap [] heap some_x = absurd (omega arith)
  extract_top-IsHeap (x ∷ []) heap some_x = (
    x,
    [],
    refl,
    refl,
    (λ i some_i. unfold higher_at higher_found in refl),
    refl,
    Perm.refl (x ∷ []),
  )
  extract_top-IsHeap (x ∷ y ∷ xs) heap some_x =
      let last = get_or (y ∷ xs) (length xs) x in
      let moved = last ∷ y ∷ xs in
      let kept = pop_back higher moved in
      let (heap', size') = sift_root kept (
        pop_back-IsHeapUnder moved (λ i some_i far inside.
          same_tail last i (parent i) some_i (omega arith) ∙ heap i some_i)) in
      (
        x,
        _,
        refl,
        refl,
        heap',
        omega (arith, size', length-take (length moved - 1) moved),
        extract_top-perm higher (x ∷ y ∷ xs) refl,
      )
    where
      same_tail :
          (last : A) (i j : ℕ)
          → 0 < i
          → 0 < j
          → higher_at higher (last ∷ y ∷ xs) i j ≡ higher_at higher (x ∷ y ∷ xs) i j
      same_tail last zero j h k = absurd (omega arith)
      same_tail last (suc i) zero h k = absurd (omega arith)
      same_tail last (suc i) (suc j) h k = unfold higher_at in refl
