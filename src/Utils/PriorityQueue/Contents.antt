-- ===== src/Utils/PriorityQueue/Contents.antt =====
-- What holds of every element of a queue goes on holding when the top is taken.
use search_engines.Base.{
  ℕ, zero, suc, none, some, [], ◌∷◌, inl, inr, refl, Bool, List, All, Option, get_elem?, ◌≡◌,
  Bool-cases, get_or, set, subst, take, length, ◌==◌, ◌-◌,
}
use search_engines.Utils.PriorityQueue.{sift_down, swap_at, put_back, extract_top, best_child}

module _ {A : Type 0} (P : A → Type 0) where
  set-All : (xs : List A) (i : ℕ) (v : A) → P v → All P xs → All P (set xs i v)
  set-All [] i v h k = tt
  set-All (x ∷ xs) zero v h k = (h, k.1)
  set-All (x ∷ xs) (suc i) v h k = (k.0, set-All xs i v h k.1)

  take-All : (n : ℕ) (xs : List A) → All P xs → All P (take n xs)
  take-All zero xs h = tt
  take-All (suc n) [] h = tt
  take-All (suc n) (x ∷ xs) h = (h.0, take-All n xs h.1)

  get_elem?-All : (xs : List A) (i : ℕ) {a : A} → All P xs → get_elem? xs i ≡ some a → P a
  get_elem?-All [] i h e = cc
  get_elem?-All (x ∷ xs) zero {a} h e = let same : x ≡ a = cc in subst P same h.0
  get_elem?-All (x ∷ xs) (suc i) h e = get_elem?-All xs i h.1 e

  get_or-All : (xs : List A) (i : ℕ) (d : A) → P d → All P xs → P (get_or xs i d)
  get_or-All [] i d h k = h
  get_or-All (x ∷ xs) zero d h k = k.0
  get_or-All (x ∷ xs) (suc i) d h k = get_or-All xs i d h k.1

  pub All-pointwise : (xs : List A) → ((i : ℕ) (a : A) → get_elem? xs i ≡ some a → P a) → All P xs
  All-pointwise [] h = tt
  All-pointwise (x ∷ xs) h = (h 0 x refl, All-pointwise xs (λ i a e. h (suc i) a e))

module _ {A : Type 0} (higher : A → A → Bool) (P : A → Type 0) where
  put_back-All :
      (i j : ℕ) (xs : List A) (found_i found_j : Option A)
      → get_elem? xs i ≡ found_i
      → get_elem? xs j ≡ found_j
      → All P xs
      → All P (put_back higher i j xs found_i found_j)
  unfolding put_back
  put_back-All i j xs (some a) (some b) ei ej h =
      set-All P (set xs i b) j a (get_elem?-All P xs i h ei)
        (set-All P xs i b (get_elem?-All P xs j h ej) h)
  put_back-All i j xs (some a) none ei ej h = h
  put_back-All i j xs none found ei ej h = h

  swap_at-All : (i j : ℕ) (xs : List A) → All P xs → All P (swap_at higher i j xs)
  unfolding swap_at
  swap_at-All i j xs h = put_back-All i j xs (get_elem? xs i) (get_elem? xs j) refl refl h

  pub sift_down-All : (fuel idx : ℕ) (xs : List A) → All P xs → All P (sift_down higher fuel idx xs)
  unfolding sift_down
  sift_down-All zero idx xs h = h
  sift_down-All (suc fuel) idx xs h =
      let best = best_child higher idx xs in
      elim (Bool-cases (best == idx)) [
        | inl stays ↦ rw stays h
        | inr moves ↦
            rw moves
              (sift_down-All fuel best (swap_at higher idx best xs) (swap_at-All idx best xs h))
      ]

  pub extract_top-All :
      (xs : List A) {a : A} {ys : List A}
      → extract_top higher xs ≡ some (a, ys)
      → All P xs
      → P a × All P ys
  unfolding extract_top
  extract_top-All [] e h = cc
  extract_top-All (x ∷ []) {a} {ys} e h =
      let same : x ≡ a = cc in let left : [] ≡ ys = cc in (subst P same h.0, subst (All P) left tt)
  extract_top-All (x ∷ y ∷ xs) {a} {ys} e h =
      let moved = get_or (y ∷ xs) (length xs) x ∷ y ∷ xs in
      let kept = take (length moved - 1) moved in
      let same : x ≡ a = cc in
      let left : sift_down higher (length kept) 0 kept ≡ ys = cc in
      (
        subst P same h.0,
        subst (All P) left (
            sift_down-All (length kept) 0 kept (
              take-All P (length moved - 1) moved
                (get_or-All P (y ∷ xs) (length xs) x h.0 h.1, h.1))),
      )
