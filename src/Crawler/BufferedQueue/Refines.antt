-- ===== src/Crawler/BufferedQueue/Refines.antt =====
-- src/crawler/frontier.h: the buffer is a queue.
use search_engines.Base.{
  ℕ, ◌≤◌, ◌<◌, suc, zero, ◌||◌, ◌&&◌, ◌≡◌, refl, arith, ◌==◌, leb, ltb, List, [], ◌∷◌, ◌++◌, Option,
  none, some, length, take, drop, get_elem?, ap, ◌∙◌, sym, inl, inr, Bool-cases, length-take,
  length-append, ◌*◌,
}
use search_engines.Crawler.BufferedQueue.{
  BufferedQueue, compact, compact_before_front_insert, maybe_compact, push_back, contents,
  insert_front, push_front, size, pop_front,
}
use search_engines.Crawler.BufferedQueue.Moves.{take-move_down}

module _ {A : Type 0} where
  -- The front is inside the storage or at its end.
  abbrev pub IsQueue : BufferedQueue A → Type 0
  IsQueue q = q.front_index ≤ length q.storage

  -- A queue that holds these elements.
  abbrev pub Holds : BufferedQueue A → List A → Type 0
  Holds q xs = IsQueue q × (contents q ≡ xs)

  compact-Holds :
      (q : BufferedQueue A) → IsQueue q → 0 < q.front_index → Holds (compact q) (contents q)
  unfolding compact size
  compact-Holds q h pos = (omega arith, take-move_down q.front_index q.storage pos h)

  drop-length : (s : List A) (n : ℕ) → length s ≤ n → drop n s ≡ []
  drop-length [] zero h = refl
  drop-length [] (suc n) h = refl
  drop-length (x ∷ s) zero h = absurd (omega arith)
  drop-length (x ∷ s) (suc n) h = drop-length s n (omega arith)

  maybe_compact-Holds : (q : BufferedQueue A) → IsQueue q → Holds (maybe_compact q) (contents q)
  unfolding maybe_compact
  maybe_compact-Holds q h = elim (Bool-cases (q.front_index == 0)) [
    | inl fresh ↦ rw fresh (h, refl)
    | inr used ↦ elim (Bool-cases (leb (length q.storage) q.front_index)) [
      | inl over ↦
          rw (used, over)
            (omega arith, sym (drop-length q.storage q.front_index (ground (arith, over))))
      | inr more ↦
          elim (Bool-cases (ltb q.front_index 32 || ltb (q.front_index * 2) (length q.storage))) [
            | inl small ↦ rw (used, more, small) (h, refl)
            | inr large ↦ rw (used, more, large) (compact-Holds q h (ground (arith, used)))
          ]
    ]
  ]

  compact_before-Holds :
      (q : BufferedQueue A) → IsQueue q → Holds (compact_before_front_insert q) (contents q)
  unfolding compact_before_front_insert
  compact_before-Holds q h =
      elim (Bool-cases (
        ltb 0 q.front_index
        && ((q.front_index == length q.storage) || leb (length q.storage) (q.front_index * 2)))) [
          | inl half ↦ rw half (compact-Holds q h (ground (arith, half)))
          | inr less ↦ rw less (h, refl)
        ]

  drop-take : (n : ℕ) (s t : List A) → n ≤ length s → drop n (take n s ++ t) ≡ t
  drop-take zero s t h = refl
  drop-take (suc n) [] t h = absurd (omega arith)
  drop-take (suc n) (x ∷ s) t h = drop-take n s t (omega arith)

  drop-append : (n : ℕ) (s t : List A) → n ≤ length s → drop n (s ++ t) ≡ drop n s ++ t
  drop-append zero s t h = refl
  drop-append (suc n) [] t h = absurd (omega arith)
  drop-append (suc n) (x ∷ s) t h = drop-append n s t (omega arith)

  insert_front-Holds :
      (q : BufferedQueue A) (xs : List A) (v : A) → Holds q xs → Holds (insert_front q v) (v ∷ xs)
  insert_front-Holds q xs v (h, e) = (
    omega (
      arith,
      length-append (take q.front_index q.storage) (v ∷ drop q.front_index q.storage),
      length-take q.front_index q.storage,
    ),
    drop-take q.front_index q.storage (v ∷ drop q.front_index q.storage) h ∙ ap (λ t. v ∷ t) e,
  )

  drop-cons :
      (n : ℕ) (s : List A) {x : A} {xs : List A}
      → drop n s ≡ x ∷ xs
      → (get_elem? s n ≡ some x) × (drop (suc n) s ≡ xs) × (n < length s)
  drop-cons zero [] h = cc
  drop-cons (suc n) [] h = cc
  drop-cons zero (y ∷ s) {x} {xs} h =
      let e : y ≡ x = cc in let f : s ≡ xs = cc in (ap some e, f, omega arith)
  drop-cons (suc n) (y ∷ s) h = let r = drop-cons n s h in (r.0, r.1, omega (arith, r.2))

  past-drop : (n : ℕ) (s : List A) → drop n s ≡ [] → get_elem? s n ≡ none
  past-drop zero [] h = refl
  past-drop (suc n) [] h = refl
  past-drop zero (x ∷ s) h = cc
  past-drop (suc n) (x ∷ s) h = past-drop n s h

  -- What a pop of a queue that holds `xs` comes to.
  abbrev pub Pops : List A → Option (A × BufferedQueue A) → Type 0
  Pops [] r = r ≡ none
  Pops (x ∷ xs) r = (q : BufferedQueue A) × (r ≡ some (x, q)) × Holds q xs

  pop_front-Pops : (q : BufferedQueue A) (xs : List A) → Holds q xs → Pops xs (pop_front q)
  unfolding pop_front
  pop_front-Pops q [] (h, e) = rw (past-drop q.front_index q.storage e) refl
  pop_front-Pops q (x ∷ xs) (h, e) =
      let d = drop-cons q.front_index q.storage e in
      let moved : BufferedQueue A = record q { front_index = suc q.front_index } in
      let kept = maybe_compact-Holds moved (omega (arith, d.2)) in
      (maybe_compact moved, rw d.0 refl, (kept.0, kept.1 ∙ d.1))

  -- The operations of the buffer are those of a queue, however its storage is compacted in between:
  -- where it holds `xs`, a push at the back puts the value behind them, a push at the front before
  -- them, and a pop takes the first and leaves the others, or finds nothing where `xs` is empty.
  pub BufferedQueue-Holds :
      (q : BufferedQueue A) (xs : List A) (v : A)
      → Holds q xs
      → Holds (push_back q v) (xs ++ v ∷ [])
        × Holds (push_front q v) (v ∷ xs)
        × Pops xs (pop_front q)
  unfolding push_back push_front
  BufferedQueue-Holds q xs v (h, e) =
      let before = compact_before-Holds q h in
      (
        (
          omega (arith, length-append q.storage (v ∷ [])),
          drop-append q.front_index q.storage (v ∷ []) h ∙ ap (λ t. t ++ v ∷ []) e,
        ),
        insert_front-Holds (compact_before_front_insert q) xs v (before.0, before.1 ∙ e),
        pop_front-Pops q xs (h, e),
      )
