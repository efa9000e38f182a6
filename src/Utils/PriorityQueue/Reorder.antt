-- ===== src/Utils/PriorityQueue/Reorder.antt =====
-- The loops and the operations of a queue only move its elements.
use mathlib.Core.List.{Perm, perm_middle}
use mathlib.Core.List.Perm
use search_engines.Base.{
  ◌≡◌, refl, ap, sym, arith, Bool-cases, ◌&&◌, ltb, ◌==◌, Bool, List, some, take, ℕ, ◌++◌, ◌∷◌,
  Option, [], get_elem?, get_or, length, suc, append-nil, inl, inr, set, zero, ◌-◌, subst,
}
use search_engines.Utils.PriorityQueue.{
  extract_top, put_back, sift_down, sift_up, swap_at, push, parent, higher_at, best_child,
}
use mathlib.Core.Option.{none}

module _ {A : Type 0} where
  -- A write trades the old element for the new one.
  pub set-perm :
      (xs : List A) (i : ℕ) (v : A) {a : A}
      → get_elem? xs i ≡ some a
      → Perm (a ∷ set xs i v) (v ∷ xs)
  set-perm [] i v h = cc
  set-perm (x ∷ xs) zero v {a} h = let same : x ≡ a = cc in rw (sym same) (Perm.swap v x xs)
  set-perm (x ∷ xs) (suc i) v {a} h =
      Perm.trans (Perm.swap x a (set xs i v))
        (Perm.trans (Perm.cons x (set-perm xs i v h)) (Perm.swap v x xs))

  pub concat-perm : (xs : List A) (v : A) → Perm (xs ++ v ∷ []) (v ∷ xs)
  concat-perm xs v = rw (append-nil xs) at (perm_middle {a = v} xs [])

  get_elem?-set_any :
      (xs : List A) (i j : ℕ) {b : A} → get_elem? xs j ≡ some b → get_elem? (set xs i b) j ≡ some b
  get_elem?-set_any [] i j h = h
  get_elem?-set_any (x ∷ xs) zero zero h = refl
  get_elem?-set_any (x ∷ xs) zero (suc j) h = h
  get_elem?-set_any (x ∷ xs) (suc i) zero h = h
  get_elem?-set_any (x ∷ xs) (suc i) (suc j) h = get_elem?-set_any xs i j h

  -- All but the last element, and the last.
  take-last :
      (x : A) (xs : List A) (d : A)
      → take (length xs) (x ∷ xs) ++ get_or (x ∷ xs) (length xs) d ∷ [] ≡ x ∷ xs
  take-last x [] d = refl
  take-last x (y ∷ xs) d = ap (λ t. x ∷ t) (take-last y xs d)

module _ {A : Type 0} (higher : A → A → Bool) where
  put_back-perm :
      (i j : ℕ) (xs : List A) (found_i found_j : Option A)
      → get_elem? xs i ≡ found_i
      → get_elem? xs j ≡ found_j
      → Perm (put_back higher i j xs found_i found_j) xs
  unfolding put_back
  put_back-perm i j xs (some a) (some b) ei ej =
      Perm.cons_inv
        (Perm.trans (set-perm (set xs i b) j a (get_elem?-set_any xs i j ej)) (set-perm xs i b ei))
  put_back-perm i j xs (some a) none ei ej = Perm.refl xs
  put_back-perm i j xs none found ei ej = Perm.refl xs

  swap_at-perm : (i j : ℕ) (xs : List A) → Perm (swap_at higher i j xs) xs
  unfolding swap_at
  swap_at-perm i j xs = put_back-perm i j xs (get_elem? xs i) (get_elem? xs j) refl refl

  pub sift_down-perm : (fuel idx : ℕ) (xs : List A) → Perm (sift_down higher fuel idx xs) xs
  unfolding sift_down
  sift_down-perm zero idx xs = Perm.refl xs
  sift_down-perm (suc fuel) idx xs =
      let best = best_child higher idx xs in
      elim (Bool-cases (best == idx)) [
        | inl stays ↦ rw stays (Perm.refl xs)
        | inr moves ↦ rw moves (
            Perm.trans (sift_down-perm fuel best (swap_at higher idx best xs))
              (swap_at-perm idx best xs))
      ]

  pub sift_up-perm : (fuel idx : ℕ) (xs : List A) → Perm (sift_up higher fuel idx xs) xs
  unfolding sift_up
  sift_up-perm zero idx xs = Perm.refl xs
  sift_up-perm (suc fuel) idx xs =
      elim (Bool-cases (ltb 0 idx && higher_at higher xs idx (parent idx))) [
        | inr rests ↦ rw rests (Perm.refl xs)
        | inl goes ↦ rw goes (
            Perm.trans (sift_up-perm fuel (parent idx) (swap_at higher idx (parent idx) xs))
              (swap_at-perm idx (parent idx) xs))
      ]

  pub push-perm : (value : A) (xs : List A) → Perm (push higher value xs) (value ∷ xs)
  unfolding push
  push-perm value xs =
      Perm.trans (sift_up-perm (length xs) (length xs) (xs ++ value ∷ [])) (concat-perm xs value)

  pub extract_top-perm :
      (xs : List A) {a : A} {ys : List A} → extract_top higher xs ≡ some (a, ys) → Perm (a ∷ ys) xs
  unfolding extract_top
  extract_top-perm [] e = cc
  extract_top-perm (x ∷ []) {a} {ys} e =
      let same : x ≡ a = cc in
      let left : [] ≡ ys = cc in rw (sym same, sym left) (Perm.refl (x ∷ []))
  extract_top-perm (x ∷ y ∷ xs) {a} {ys} e =
      let last = get_or (y ∷ xs) (length xs) x in
      let moved = last ∷ y ∷ xs in
      let kept = take (length moved - 1) moved in
      let same : x ≡ a = cc in
      let left : sift_down higher (length kept) 0 kept ≡ ys = cc in
      let size : length moved - 1 ≡ suc (length xs) = omega arith in
      let back : Perm kept (y ∷ xs) =
        subst (λ n. Perm (take n moved) (y ∷ xs)) (sym size)
          (rw (take-last y xs x) at (Perm.symm (concat-perm (take (length xs) (y ∷ xs)) last))) in
      rw (sym same, sym left) (Perm.cons x (Perm.trans (sift_down-perm (length kept) 0 kept) back))
