-- ===== src/Crawler/BufferedQueue/Moves.antt =====
-- src/crawler/frontier.h: what the moves of a compaction leave behind.
use search_engines.Base.{
  ℕ, ◌+◌, ◌-◌, ◌≤◌, ◌<◌, suc, zero, true, false, ◌&&◌, ◌≡◌, refl, arith, if◌then◌else◌, ◌==◌, leb,
  ltb, List, [], ◌∷◌, Option, none, some, length, take, drop, get_elem?, length-set, ap, ap₂, ◌∙◌,
  sym, get_elem?-set_self, get_elem?-set_ne, inl, inr, Bool-cases, ==_iff, ◌≢◌,
}
use search_engines.Crawler.BufferedQueue.{move_down, put}

module _ {A : Type 0} where
  get_elem?-some : (s : List A) (i : ℕ) → i < length s → (v : A) × (get_elem? s i ≡ some v)
  get_elem?-some [] i h = absurd (omega arith)
  get_elem?-some (x ∷ s) zero h = (x, refl)
  get_elem?-some (x ∷ s) (suc i) h = get_elem?-some s i (omega arith)

  length-put : (s : List A) (i : ℕ) (v : Option A) → length (put s i v) ≡ length s
  unfolding put
  length-put s i none = refl
  length-put s i (some v) = length-set s i v

  pub length-move_down : (n i by : ℕ) (s : List A) → length (move_down n i by s) ≡ length s
  unfolding move_down
  length-move_down zero i by s = refl
  length-move_down (suc n) i by s =
      length-move_down n (suc i) by (put s i (get_elem? s (by + i)))
      ∙ length-put s i (get_elem? s (by + i))

  get_elem?-put_self :
      (s : List A) (i j : ℕ)
      → i < length s
      → j < length s
      → get_elem? (put s i (get_elem? s j)) i ≡ get_elem? s j
  unfolding put
  get_elem?-put_self s i j h k =
      let v = get_elem?-some s j k in rw v.1 (get_elem?-set_self s i v.0 h)

  get_elem?-put_ne :
      (s : List A) (i j : ℕ) (v : Option A) → i ≢ j → get_elem? (put s i v) j ≡ get_elem? s j
  unfolding put
  get_elem?-put_ne s i j none h = refl
  get_elem?-put_ne s i j (some v) h = get_elem?-set_ne s v h

  -- The places from `i` on hold what stood `by` places further on; the others are as they were.
  pub get_elem?-move_down :
      (n i by : ℕ) (s : List A) (j : ℕ)
      → 0 < by
      → i + n + by ≤ length s
      → get_elem? (move_down n i by s) j
        ≡ (if leb i j && ltb j (i + n) then get_elem? s (by + j) else get_elem? s j)
  unfolding move_down
  get_elem?-move_down zero i by s j pos h =
      let f : (leb i j && ltb j (i + 0)) ≡ false = ground arith in rw f refl
  get_elem?-move_down (suc n) i by s j pos h =
      let s' = put s i (get_elem? s (by + i)) in
      let rest =
        get_elem?-move_down n (suc i) by s' j pos
          (omega (arith, length-put s i (get_elem? s (by + i)))) in
      rest ∙ elim (Bool-cases (i == j)) [
        | inl same ↦
            let place : i ≡ j = (==_iff i j).0 same in
            let f : (leb (suc i) j && ltb j (suc i + n)) ≡ false = ground arith in
            let g : (leb i j && ltb j (i + suc n)) ≡ true = ground arith in
            rw (f, g)
              (ap (get_elem? s') (sym place)
                ∙ get_elem?-put_self s i (by + i) (omega arith) (omega arith)
                ∙ ap (λ (k : ℕ). get_elem? s (by + k)) place)
        | inr other ↦
            let apart : i ≢ j = λ e. cc (sym other ∙ (==_iff i j).1 e) in
            let f : (leb i j && ltb j (i + suc n)) ≡ (leb (suc i) j && ltb j (suc i + n)) =
              ground (arith, other) in
            elim (Bool-cases (leb (suc i) j && ltb j (suc i + n))) [
              | inl inside ↦
                  let ahead : i ≢ by + j = λ e. absurd (ground (arith, inside)) in
                  rw (f, inside) (get_elem?-put_ne s i (by + j) (get_elem? s (by + i)) ahead)
              | inr outside ↦ rw (f, outside) (get_elem?-put_ne s i j (get_elem? s (by + i)) apart)
            ]
      ]

  get_elem?-take :
      (n : ℕ) (s : List A) (j : ℕ)
      → get_elem? (take n s) j ≡ (if ltb j n then get_elem? s j else none)
  get_elem?-take zero s j = let f : ltb j 0 ≡ false = ground arith in rw f refl
  get_elem?-take (suc n) [] j = elim (Bool-cases (ltb j (suc n))) [
    | inl f ↦ rw f refl
    | inr f ↦ rw f refl
  ]
  get_elem?-take (suc n) (x ∷ s) zero = let f : ltb 0 (suc n) ≡ true = ground arith in rw f refl
  get_elem?-take (suc n) (x ∷ s) (suc j) =
      let f : ltb (suc j) (suc n) ≡ ltb j n = ground arith in rw f (get_elem?-take n s j)

  pub get_elem?-drop : (n : ℕ) (s : List A) (j : ℕ) → get_elem? (drop n s) j ≡ get_elem? s (n + j)
  get_elem?-drop zero s j = let e : 0 + j ≡ j = omega arith in rw e refl
  get_elem?-drop (suc n) [] j = refl
  get_elem?-drop (suc n) (x ∷ s) j =
      let e : suc n + j ≡ suc (n + j) = omega arith in rw e (get_elem?-drop n s j)

  get_elem?-ext : (s t : List A) → ((j : ℕ) → get_elem? s j ≡ get_elem? t j) → s ≡ t
  get_elem?-ext [] [] h = refl
  get_elem?-ext [] (y ∷ t) h = cc (h 0)
  get_elem?-ext (x ∷ s) [] h = cc (h 0)
  get_elem?-ext (x ∷ s) (y ∷ t) h =
      let first : some x ≡ some y = h 0 in
      let same : x ≡ y = cc in ap₂ (λ a b. a ∷ b) same (get_elem?-ext s t (λ j. h (suc j)))

  get_elem?-past : (s : List A) (j : ℕ) → length s ≤ j → get_elem? s j ≡ none
  get_elem?-past [] j h = refl
  get_elem?-past (x ∷ s) zero h = absurd (omega arith)
  get_elem?-past (x ∷ s) (suc j) h = get_elem?-past s j (omega arith)

  -- The moves of a compaction bring what is behind the front to the beginning.
  pub take-move_down :
      (by : ℕ) (s : List A)
      → 0 < by
      → by ≤ length s
      → take (length s - by) (move_down (length s - by) 0 by s) ≡ drop by s
  take-move_down by s pos h =
      let n = length s - by in
      get_elem?-ext (take n (move_down n 0 by s)) (drop by s) (λ j.
        get_elem?-take n (move_down n 0 by s) j ∙ elim (Bool-cases (ltb j n)) [
          | inl inside ↦
              let f : (leb 0 j && ltb j (0 + n)) ≡ true = ground (arith, inside) in
              rw inside (
                get_elem?-move_down n 0 by s j pos (omega arith)
                ∙ rw f (sym (get_elem?-drop by s j)))
          | inr outside ↦
              rw outside
                (sym (get_elem?-drop by s j ∙ get_elem?-past s (by + j) (ground (arith, outside))))
        ])
