-- ===== src/Utils/PriorityQueue/Push.antt =====
-- `push` keeps the heap, and `top` is an element with the highest priority.
use mathlib.Core.List.{Perm}
use search_engines.Utils.PriorityQueue.Reorder.{push-perm}
use search_engines.Base.{
  ℕ, zero, suc, none, some, [], ◌∷◌, inl, inr, refl, true, false, Bool, List, length, ◌≤◌, ◌<◌, ◌≡◌,
  ltb, ◌&&◌, Bool-cases, arith, ℕ_discrete, ap, ◌∙◌, dec_lt, get_elem?, ◌++◌, ◌+◌, ap₂,
  length-append, sym,
}
use search_engines.Utils.PriorityQueue.{
  parent, sift_up, push, top, higher_at, swap_at, higher_found,
}
use search_engines.Utils.PriorityQueue.Order.{
  IsPriority, IsHeapBut, IsHeap, length-swap_at, swap-IsHeapBut, asymmetric_at, transitive_at,
}

module _ {A : Type 0} where
  pub get_elem?-past : (xs : List A) (i : ℕ) → length xs ≤ i → get_elem? xs i ≡ none
  get_elem?-past [] i h = refl
  get_elem?-past (x ∷ xs) zero h = absurd (omega arith)
  get_elem?-past (x ∷ xs) (suc i) h = get_elem?-past xs i (omega arith)

  get_elem?-append :
      (xs ys : List A) (i : ℕ) → i < length xs → get_elem? (xs ++ ys) i ≡ get_elem? xs i
  get_elem?-append [] ys i h = absurd (omega arith)
  get_elem?-append (x ∷ xs) ys zero h = refl
  get_elem?-append (x ∷ xs) ys (suc i) h = get_elem?-append xs ys i (omega arith)

module _ {A : Type 0} (higher : A → A → Bool) (order : IsPriority higher) where
  sift_up-IsHeap :
      (fuel idx : ℕ) (xs : List A)
      → idx ≤ fuel
      → idx < length xs
      → IsHeapBut higher idx xs
      → IsHeap higher (sift_up higher fuel idx xs)
  unfolding sift_up
  sift_up-IsHeap zero idx xs enough inside gap = λ i some_i. gap.0 i some_i (omega arith)
  sift_up-IsHeap (suc fuel) idx xs enough inside gap =
      elim (Bool-cases (ltb 0 idx && higher_at higher xs idx (parent idx))) [
        | inr rests ↦ rw rests (λ i some_i. elim (ℕ_discrete i idx) [
          | yes same ↦ rw same (ground (arith, rests, ap (ltb 0) same))
          | no apart ↦ gap.0 i some_i apart
        ])
        | inl goes ↦
            let some_parent : 0 < idx = ground arith in
            let above : higher_at higher xs idx (parent idx) ≡ true = ground arith in
            rw goes (
              sift_up-IsHeap fuel (parent idx) (swap_at higher idx (parent idx) xs) (omega arith)
                (omega (arith, length-swap_at higher idx (parent idx) xs))
                (swap-IsHeapBut higher order idx xs some_parent inside above gap))
      ]

  length-sift_up : (fuel idx : ℕ) (xs : List A) → length (sift_up higher fuel idx xs) ≡ length xs
  unfolding sift_up
  length-sift_up zero idx xs = refl
  length-sift_up (suc fuel) idx xs =
      let goes = ltb 0 idx && higher_at higher xs idx (parent idx) in
      elim (Bool-cases goes) [
        | inr rests ↦ rw rests
        | inl more ↦ rw more (
            length-sift_up fuel (parent idx) (swap_at higher idx (parent idx) xs)
            ∙ length-swap_at higher idx (parent idx) xs)
      ]

  -- No place past the end has a priority.
  pub higher_at-past : (xs : List A) (i j : ℕ) → length xs ≤ i → higher_at higher xs i j ≡ false
  unfolding higher_at higher_found
  higher_at-past xs i j h = ap (λ o. higher_found higher o (get_elem? xs j)) (get_elem?-past xs i h)

  append-IsHeapBut :
      (value : A) (xs : List A) → IsHeap higher xs → IsHeapBut higher (length xs) (xs ++ value ∷ [])
  unfolding higher_at
  append-IsHeapBut value xs heap = (
    λ i some_i apart. elim (dec_lt i (length xs)) [
      | yes inside ↦
          ap₂ (higher_found higher) (get_elem?-append xs (value ∷ []) i inside)
            (get_elem?-append xs (value ∷ []) (parent i) (omega arith))
          ∙ heap i some_i
      | no outside ↦
          higher_at-past (xs ++ value ∷ []) i (parent i)
            (omega (arith, length-append xs (value ∷ [])))
    ],
    λ c some_c some_p child.
        higher_at-past (xs ++ value ∷ []) c (parent (length xs))
          (omega (arith, length-append xs (value ∷ []))),
  )

  pub sift_up-append :
      (value : A) (xs : List A)
      → IsHeap higher xs
      → let ys = sift_up higher (length xs) (length xs) (xs ++ value ∷ []) in
        IsHeap higher ys × (length ys ≡ length xs + 1)
  sift_up-append value xs heap = (
    sift_up-IsHeap (length xs) (length xs) (xs ++ value ∷ []) (omega arith)
        (omega (arith, length-append xs (value ∷ []))) (append-IsHeapBut value xs heap),
    length-sift_up (length xs) (length xs) (xs ++ value ∷ []) ∙ length-append xs (value ∷ []),
  )

  -- A push to a heap gives a heap of its elements and the value pushed, where the comparison is a
  -- strict weak order.
  pub push-IsHeap :
      (value : A) (xs : List A)
      → IsHeap higher xs
      → IsHeap higher (push higher value xs) × Perm (push higher value xs) (value ∷ xs)
  push-IsHeap value xs heap =
      (unfold push in (sift_up-append value xs heap).0, push-perm higher value xs)

  higher_at_self : (xs : List A) (i : ℕ) → higher_at higher xs i i ≡ false
  higher_at_self xs i = elim (Bool-cases (higher_at higher xs i i)) [
    | inl above ↦ asymmetric_at higher order xs i i above
    | inr below ↦ below
  ]

  root_bound :
      (bound i : ℕ) (xs : List A) → i ≤ bound → IsHeap higher xs → higher_at higher xs i 0 ≡ false
  root_bound bound zero xs h heap = higher_at_self xs 0
  root_bound zero (suc i) xs h heap = absurd (omega arith)
  root_bound (suc bound) (suc i) xs h heap = elim (dec_lt (suc i) (length xs)) [
    | no outside ↦ higher_at-past xs (suc i) 0 (omega arith)
    | yes inside ↦
        transitive_at higher order xs (suc i) (parent (suc i)) 0 (omega arith)
          (heap (suc i) (omega arith)) (root_bound bound (parent (suc i)) xs (omega arith) heap)
  ]

  -- No element of a heap has a higher priority than its top, where the comparison is a strict weak
  -- order.
  pub top-IsHeap :
      (xs : List A) (best : A) (i : ℕ) (a : A)
      → IsHeap higher xs
      → top higher xs ≡ some best
      → get_elem? xs i ≡ some a
      → higher a best ≡ false
  unfolding top higher_found
  top-IsHeap xs best i a heap first here =
      ap₂ (higher_found higher) (sym here) (sym first) ∙ bound_at
    where
      bound_at : higher_found higher (get_elem? xs i) (get_elem? xs 0) ≡ false
      bound_at = unfold higher_at in root_bound i i xs (omega arith) heap
