-- ===== src/Utils/PriorityQueue/Order.antt =====
-- The order of the heap, which `siftUp` restores.
use search_engines.Base.{
  ℕ, zero, suc, none, some, [], ◌∷◌, refl, true, false, Bool, List, if◌then◌else◌, ◌<◌, ◌==◌,
  length, get_elem?, ◌≡◌, arith, ℕ_discrete, set, ◌≢◌, ap, length-set, ◌∙◌, get_elem?-set_self, sym,
  get_elem?-set_ne, ap₂, Option,
}
use search_engines.Utils.PriorityQueue.{parent, swap_at, higher_at, put_back, higher_found}

-- What two places hold after a swap.
abbrev pub swapped : ℕ → ℕ → ℕ → ℕ
swapped i j k = if k == i then j else if k == j then i else k

module _ {A : Type 0} where
  pub get_elem?-below : (xs : List A) (i : ℕ) → i < length xs → (a : A) × (get_elem? xs i ≡ some a)
  get_elem?-below [] i h = absurd (omega arith)
  get_elem?-below (x ∷ xs) zero h = (x, refl)
  get_elem?-below (x ∷ xs) (suc i) h = get_elem?-below xs i (omega arith)

module _ {A : Type 0} (higher : A → A → Bool) where
  swap_at-set :
      (i j : ℕ) (xs : List A) {a b : A}
      → get_elem? xs i ≡ some a
      → get_elem? xs j ≡ some b
      → swap_at higher i j xs ≡ set (set xs i b) j a
  unfolding swap_at put_back
  swap_at-set i j xs {a} {b} ea eb = ap₂ (put_back higher i j xs) ea eb

  pub get_elem?-swap_at :
      (i j k : ℕ) (xs : List A)
      → i < length xs
      → j < length xs
      → i ≢ j
      → get_elem? (swap_at higher i j xs) k ≡ get_elem? xs (swapped i j k)
  get_elem?-swap_at i j k xs hi hj apart =
      let (a, ea) = get_elem?-below xs i hi in
      let (b, eb) = get_elem?-below xs j hj in
      ap (λ ys. get_elem? ys k) (swap_at-set i j xs ea eb) ∙ elim (ℕ_discrete k j) [
        | yes at_j ↦ rw at_j (
            get_elem?-set_self (set xs i b) j a (omega (arith, length-set xs i b))
            ∙ sym ea
            ∙ ap (get_elem? xs) (ground arith))
        | no off_j ↦ get_elem?-set_ne (set xs i b) a (λ e. off_j (sym e)) ∙ elim (ℕ_discrete k i) [
          | yes at_i ↦
              rw at_i (get_elem?-set_self xs i b hi ∙ sym eb ∙ ap (get_elem? xs) (ground arith))
          | no off_i ↦ get_elem?-set_ne xs b (λ e. off_i (sym e)) ∙ ap (get_elem? xs) (ground arith)
        ]
      ]

  length-put_back :
      (i j : ℕ) (xs : List A) (found_i found_j : Option A)
      → length (put_back higher i j xs found_i found_j) ≡ length xs
  unfolding put_back
  length-put_back i j xs (some a) (some b) = length-set (set xs i b) j a ∙ length-set xs i b
  length-put_back i j xs (some a) none = refl
  length-put_back i j xs none found = refl

  pub length-swap_at : (i j : ℕ) (xs : List A) → length (swap_at higher i j xs) ≡ length xs
  unfolding swap_at
  length-swap_at i j xs = length-put_back i j xs (get_elem? xs i) (get_elem? xs j)

  pub higher_at-swap_at :
      (i j k l : ℕ) (xs : List A)
      → i < length xs
      → j < length xs
      → i ≢ j
      → higher_at higher (swap_at higher i j xs) k l
        ≡ higher_at higher xs (swapped i j k) (swapped i j l)
  unfolding higher_at
  higher_at-swap_at i j k l xs hi hj apart =
      ap₂ (higher_found higher) (get_elem?-swap_at i j k xs hi hj apart)
        (get_elem?-swap_at i j l xs hi hj apart)

pub swapped_left : (i j : ℕ) → swapped i j i ≡ j
swapped_left i j = ground arith

pub swapped_right : (i j : ℕ) → swapped i j j ≡ i
swapped_right i j = ground arith

pub swapped_off : (i j k : ℕ) → k ≢ i → k ≢ j → swapped i j k ≡ k
swapped_off i j k h l = ground arith

-- What the comparison has to be: a strict weak order.
pub record IsPriority {A : Type 0} (higher : A → A → Bool) : Type 0 where
  pub asymmetric : (a b : A) → higher a b ≡ true → higher b a ≡ false
  pub transitive : (a b c : A) → higher a b ≡ false → higher b c ≡ false → higher a c ≡ false

module _ {A : Type 0} (higher : A → A → Bool) where
  -- No place has a higher priority than its parent.
  abbrev pub IsHeap : List A → Type 0
  IsHeap xs = (i : ℕ) → 0 < i → higher_at higher xs i (parent i) ≡ false

  -- The same but for the place `idx`, whose children are below its parent too.
  abbrev pub IsHeapBut : ℕ → List A → Type 0
  IsHeapBut idx xs =
      ((i : ℕ) → 0 < i → i ≢ idx → higher_at higher xs i (parent i) ≡ false)
      × ((c : ℕ) → 0 < c → 0 < idx → parent c ≡ idx → higher_at higher xs c (parent idx) ≡ false)

module _ {A : Type 0} (higher : A → A → Bool) (order : IsPriority higher) where
  pub asymmetric_at :
      (xs : List A) (i j : ℕ) → higher_at higher xs i j ≡ true → higher_at higher xs j i ≡ false
  unfolding higher_at
  asymmetric_at xs i j h = go (get_elem? xs i) (get_elem? xs j) h
    where
      go : (a b : Option A) → higher_found higher a b ≡ true → higher_found higher b a ≡ false
      go (some a) (some b) h = unfold higher_found in order.asymmetric a b h
      go (some a) none h = unfold higher_found in refl
      go none (some b) h = unfold higher_found in refl
      go none none h = unfold higher_found in refl

  pub transitive_at :
      (xs : List A) (i j k : ℕ)
      → j < length xs
      → higher_at higher xs i j ≡ false
      → higher_at higher xs j k ≡ false
      → higher_at higher xs i k ≡ false
  unfolding higher_at
  transitive_at xs i j k inside h l =
      let (b, eb) = get_elem?-below xs j inside in
      go (get_elem? xs i) (get_elem? xs k) b
        (ap (higher_found higher (get_elem? xs i)) (sym eb) ∙ h)
        (ap (λ o. higher_found higher o (get_elem? xs k)) (sym eb) ∙ l)
    where
      go :
          (a c : Option A) (b : A)
          → higher_found higher a (some b) ≡ false
          → higher_found higher (some b) c ≡ false
          → higher_found higher a c ≡ false
      go (some a) (some c) b h l = unfold higher_found in order.transitive a b c h l
      go (some a) none b h l = unfold higher_found in refl
      go none c b h l = unfold higher_found in refl

  -- One round moves the gap to the parent.
  pub swap-IsHeapBut :
      (idx : ℕ) (xs : List A)
      → 0 < idx
      → idx < length xs
      → higher_at higher xs idx (parent idx) ≡ true
      → IsHeapBut higher idx xs
      → IsHeapBut higher (parent idx) (swap_at higher idx (parent idx) xs)
  swap-IsHeapBut idx xs some_parent inside above (others, children) =
      let p = parent idx in
      let below = asymmetric_at xs idx p above in
      let at : (k l : ℕ)
          → higher_at higher (swap_at higher idx p xs) k l
            ≡ higher_at higher xs (swapped idx p k) (swapped idx p l) =
        λ k l. higher_at-swap_at higher idx p k l xs inside (omega arith) (omega arith) in
      (
        λ i some_i off_p. at i (parent i) ∙ elim (ℕ_discrete i idx) [
          | yes same ↦
              ap₂ (higher_at higher xs) (ap (swapped idx p) same ∙ swapped_left idx p)
                (ap (λ k. swapped idx p (parent k)) same ∙ swapped_right idx p)
              ∙ below
          | no off_idx ↦
              ap (λ k. higher_at higher xs k (swapped idx p (parent i)))
                (swapped_off idx p i off_idx off_p)
              ∙ elim (ℕ_discrete (parent i) idx) [
                | yes child ↦
                    ap (higher_at higher xs i) (ap (swapped idx p) child ∙ swapped_left idx p)
                    ∙ children i some_i some_parent child
                | no far ↦ elim (ℕ_discrete (parent i) p) [
                  | yes sibling ↦
                      ap (higher_at higher xs i) (ap (swapped idx p) sibling ∙ swapped_right idx p)
                      ∙ transitive_at xs i p idx (omega arith)
                          (ap (higher_at higher xs i) (sym sibling) ∙ others i some_i off_idx) below
                  | no farther ↦
                      ap (higher_at higher xs i) (swapped_off idx p (parent i) far farther)
                      ∙ others i some_i off_idx
                ]
              ]
        ],
        λ c some_c some_p child.
            at c (parent p)
            ∙ ap (higher_at higher xs (swapped idx p c))
                (swapped_off idx p (parent p) (omega arith) (omega arith))
            ∙ elim (ℕ_discrete c idx) [
              | yes same ↦
                  ap (λ k. higher_at higher xs k (parent p))
                    (ap (swapped idx p) same ∙ swapped_left idx p)
                  ∙ others p some_p (omega arith)
              | no off_idx ↦
                  ap (λ k. higher_at higher xs k (parent p))
                    (swapped_off idx p c off_idx (omega arith))
                  ∙ transitive_at xs c p (parent p) (omega arith)
                      (ap (higher_at higher xs c) (sym child) ∙ others c some_c off_idx)
                      (others p some_p (omega arith))
            ],
      )
