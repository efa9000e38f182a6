-- ===== src/Utils/PriorityQueue/SiftDown.antt =====
-- `siftDown` restores the order below a place.
use search_engines.Base.{
  ℕ, zero, suc, inl, inr, refl, true, false, Bool, List, ◌<◌, ◌≡◌, length, ◌≢◌, ◌⊎◌, dec_lt, ap,
  Bool-cases, get_elem?, ℕ_discrete, arith, ap₂, ◌==◌, ◌≤◌, ◌+◌, ◌∙◌, ==_iff, sym,
}
use search_engines.Utils.PriorityQueue.{
  parent, sift_down, higher_at, best_child, higher_found, left_child, right_child, swap_at,
}
use search_engines.Utils.PriorityQueue.Order.{
  swapped_left, swapped_right, swapped_off, IsPriority, get_elem?-below, transitive_at,
  asymmetric_at, swapped, IsHeap, length-swap_at, higher_at-swap_at,
}
use search_engines.Utils.PriorityQueue.Push.{get_elem?-past, higher_at-past}

module _ {A : Type 0} (higher : A → A → Bool) where
  -- A heap but for the place `idx` against its children, which are below its parent too.
  abbrev pub IsHeapUnder : ℕ → List A → Type 0
  IsHeapUnder idx xs =
      ((i : ℕ) → 0 < i → parent i ≢ idx → higher_at higher xs i (parent i) ≡ false)
      × ((c : ℕ) → 0 < c → 0 < idx → parent c ≡ idx → higher_at higher xs c (parent idx) ≡ false)

  -- `best` is a child of `idx`, above it, and not below the other child.
  record IsBest (idx : ℕ) (xs : List A) (best : ℕ) : Type 0 where
    child : parent best ≡ idx
    apart : idx < best
    above : higher_at higher xs best idx ≡ true
    others : (c : ℕ) → 0 < c → parent c ≡ idx → c ≢ best → higher_at higher xs c best ≡ false

  IsLeast : ℕ → List A → Type 0
  IsLeast idx xs = (c : ℕ) → 0 < c → parent c ≡ idx → higher_at higher xs c idx ≡ false

  higher_at-inside :
      (xs : List A) (i j : ℕ) → higher_at higher xs i j ≡ true → (i < length xs) × (j < length xs)
  unfolding higher_at higher_found
  higher_at-inside xs i j h = elim (dec_lt i (length xs)) [
    | no past ↦
        cc (ap (λ o. higher_found higher o (get_elem? xs j)) (get_elem?-past xs i (omega arith)))
    | yes inside ↦ elim (dec_lt j (length xs)) [
      | yes inside' ↦ (inside, inside')
      | no past ↦
          let (a, ea) = get_elem?-below xs i inside in
          cc (ap₂ (higher_found higher) ea (get_elem?-past xs j (omega arith)))
    ]
  ]

module _ {A : Type 0} (higher : A → A → Bool) (order : IsPriority higher) where
  best_child_cases :
      (idx : ℕ) (xs : List A)
      → ((best_child higher idx xs ≡ idx) × IsLeast higher idx xs)
        ⊎ IsBest higher idx xs (best_child higher idx xs)
  unfolding best_child IsLeast
  best_child_cases idx xs =
      let l = left_child idx in
      let r = right_child idx in
      elim (Bool-cases (higher_at higher xs l idx)) [
        | inr left_below ↦ elim (Bool-cases (higher_at higher xs r idx)) [
          | inr right_below ↦
              rw (left_below, right_below)
                (inl (
                  refl,
                  λ c some_c child. elim (ℕ_discrete c l) [
                    | yes e ↦ rw e left_below
                    | no off ↦ let e : c ≡ r = omega arith in rw e right_below
                  ],
                ))
          | inl right_above ↦
              rw (left_below, right_above)
                (inr (record {
                  child = omega arith;
                  apart = omega arith;
                  above = right_above;
                  others = λ c some_c child off.
                      let e : c ≡ l = omega arith in
                      rw e (
                        transitive_at higher order xs l idx r
                          (higher_at-inside higher xs r idx right_above).1 left_below
                          (asymmetric_at higher order xs r idx right_above));
                }))
        ]
        | inl left_above ↦ elim (Bool-cases (higher_at higher xs r l)) [
          | inr right_below ↦
              rw (left_above, right_below)
                (inr (record {
                  child = omega arith;
                  apart = omega arith;
                  above = left_above;
                  others = λ c some_c child off. let e : c ≡ r = omega arith in rw e right_below;
                }))
          | inl right_above ↦
              rw (left_above, right_above)
                (inr (record {
                  child = omega arith;
                  apart = omega arith;
                  above = elim (Bool-cases (higher_at higher xs r idx)) [
                    | inl e ↦ e
                    | inr e ↦ cc (
                        transitive_at higher order xs r idx l
                          (higher_at-inside higher xs l idx left_above).1 e
                          (asymmetric_at higher order xs l idx left_above))
                  ];
                  others = λ c some_c child off.
                      let e : c ≡ l = omega arith in
                      rw e (asymmetric_at higher order xs r l right_above);
                }))
        ]
      ]

  -- One round moves the gap to the best child.
  swap-IsHeapUnder :
      (idx best : ℕ) (xs : List A)
      → IsHeapUnder higher idx xs
      → IsBest higher idx xs best
      → IsHeapUnder higher best (swap_at higher idx best xs)
  swap-IsHeapUnder idx best xs (others, children) b =
      let (best_inside, idx_inside) = higher_at-inside higher xs best idx b.above in
      let apart : idx ≢ best = omega (arith, b.apart) in
      let up : parent best ≡ idx = b.child in
      let at : (k m : ℕ)
          → higher_at higher (swap_at higher idx best xs) k m
            ≡ higher_at higher xs (swapped idx best k) (swapped idx best m) =
        λ k m. higher_at-swap_at higher idx best k m xs idx_inside best_inside apart in
      (
        λ i some_i off_best. at i (parent i) ∙ elim (ℕ_discrete i best) [
          | yes same ↦
              ap₂ (higher_at higher xs) (ap (swapped idx best) same ∙ swapped_right idx best) (
                ap (λ k. swapped idx best (parent k)) same
                ∙ ap (swapped idx best) up
                ∙ swapped_left idx best)
              ∙ asymmetric_at higher order xs best idx b.above
          | no not_best ↦ elim (ℕ_discrete i idx) [
            | yes same ↦
                ap₂ (higher_at higher xs) (ap (swapped idx best) same ∙ swapped_left idx best) (
                  ap (λ k. swapped idx best (parent k)) same
                  ∙ swapped_off idx best (parent idx) (omega arith) (omega (arith, b.apart)))
                ∙ children best (omega (arith, b.apart)) (omega arith) up
            | no not_idx ↦
                ap (λ k. higher_at higher xs k (swapped idx best (parent i)))
                  (swapped_off idx best i not_idx not_best)
                ∙ elim (ℕ_discrete (parent i) idx) [
                  | yes sibling ↦
                      ap (higher_at higher xs i)
                        (ap (swapped idx best) sibling ∙ swapped_left idx best)
                      ∙ b.others i some_i sibling not_best
                  | no far ↦
                      ap (higher_at higher xs i) (swapped_off idx best (parent i) far off_best)
                      ∙ others i some_i far
                ]
          ]
        ],
        λ c some_c some_best child.
            at c (parent best)
            ∙ ap₂ (higher_at higher xs)
                (swapped_off idx best c (omega (arith, b.apart)) (omega arith))
                (ap (swapped idx best) up ∙ swapped_left idx best)
            ∙ ap (higher_at higher xs c) (sym child)
            ∙ others c some_c (omega (arith, b.apart)),
      )

  pub sift_down-IsHeap :
      (fuel idx : ℕ) (xs : List A)
      → length xs ≤ fuel + idx
      → IsHeapUnder higher idx xs
      → IsHeap higher (sift_down higher fuel idx xs)
  unfolding sift_down IsLeast
  sift_down-IsHeap zero idx xs enough gap = λ i some_i. elim (ℕ_discrete (parent i) idx) [
    | yes child ↦ higher_at-past higher order xs i (parent i) (omega arith)
    | no far ↦ gap.0 i some_i far
  ]
  sift_down-IsHeap (suc fuel) idx xs enough gap =
      let best = best_child higher idx xs in
      elim (best_child_cases idx xs) [
        | inl (stays, least) ↦
            let e : (best == idx) ≡ true = (==_iff best idx).1 stays in
            rw e (λ i some_i. elim (ℕ_discrete (parent i) idx) [
              | yes child ↦ ap (higher_at higher xs i) child ∙ least i some_i child
              | no far ↦ gap.0 i some_i far
            ])
        | inr b ↦
            let e : (best == idx) ≡ false = ground (arith, b.apart) in
            rw e (
              sift_down-IsHeap fuel best (swap_at higher idx best xs)
                (omega (arith, length-swap_at higher idx best xs, b.apart))
                (swap-IsHeapUnder idx best xs gap b))
      ]

  pub length-sift_down :
      (fuel idx : ℕ) (xs : List A) → length (sift_down higher fuel idx xs) ≡ length xs
  unfolding sift_down
  length-sift_down zero idx xs = refl
  length-sift_down (suc fuel) idx xs =
      let best = best_child higher idx xs in
      elim (Bool-cases (best == idx)) [
        | inl stays ↦ rw stays
        | inr moves ↦ rw moves (
            length-sift_down fuel best (swap_at higher idx best xs)
            ∙ length-swap_at higher idx best xs)
      ]
