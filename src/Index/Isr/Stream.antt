-- ===== src/Index/Isr/Stream.antt =====
-- src/index/src/lib/isr.h: the abstract class ISR, with what its clients rely on.
use search_engines.Base.{
  refl, ℕ, ◌≤◌, ◌<◌, ◌≡◌, Bool, true, false, List, [], ◌∷◌, All, leb, if◌then◌else◌, arith, length,
  ◌==◌, le→leb, Bool-cases, inl, inr,
}
use search_engines.Index.Isr.{isr_sentinel}

-- The locations from the first that is not below `target` on.
unfoldable pub drop_below : ℕ → List ℕ → List ℕ
drop_below target [] = []
drop_below target (l ∷ ls) =
    let rest = drop_below target ls in if leb target l then l ∷ ls else rest

abbrev pub is_nil : List ℕ → Bool
is_nil [] = true
is_nil (l ∷ ls) = false

-- What a call answers when `view` is what is left.
abbrev pub head_location : List ℕ → ℕ
head_location [] = isr_sentinel
head_location (l ∷ ls) = l

abbrev pub later : List ℕ → List ℕ
later [] = []
later (l ∷ ls) = ls

-- The virtual methods, over a type of objects; `view` is the abstract value of an object, the
-- locations from its current one on, and is empty once the stream is done.
pub record Stream : Type 1 where
  pub Object : Type 0
  pub next : Object → ℕ × Object
  pub seek : ℕ → Object → ℕ × Object
  pub current_location : Object → ℕ
  pub done : Object → Bool
  pub view : Object → List ℕ
  pub done-view : (s : Object) → done s ≡ is_nil (view s)
  pub current-view : (s : Object) → done s ≡ false → current_location s ≡ head_location (view s)
  pub next-view : (s : Object) → view (next s).1 ≡ later (view s)
  pub next-answer : (s : Object) → (next s).0 ≡ head_location (later (view s))
  pub seek-view :
      (t : ℕ) (s : Object) → t ≤ isr_sentinel → view (seek t s).1 ≡ drop_below t (view s)
  pub seek-answer :
      (t : ℕ) (s : Object) → t ≤ isr_sentinel → (seek t s).0 ≡ head_location (drop_below t (view s))
  pub view-below : (s : Object) → All (λ l. l < isr_sentinel) (view s)

-- The head of what is left is not below the target.
pub head-drop_below :
    (t : ℕ) (v : List ℕ) → is_nil (drop_below t v) ≡ false → t ≤ head_location (drop_below t v)
unfolding drop_below
head-drop_below t [] h = cc
head-drop_below t (l ∷ ls) h = ground (arith, head-drop_below t ls)

pub length-drop_below : (t : ℕ) (v : List ℕ) → length (drop_below t v) ≤ length v
unfolding drop_below
length-drop_below t [] = omega arith
length-drop_below t (l ∷ ls) = ground (arith, length-drop_below t ls)

pub drop_below_twice :
    (a b : ℕ) (v : List ℕ) → length (drop_below a (drop_below b v)) ≤ length (drop_below a v)
unfolding drop_below
drop_below_twice a b [] = omega arith
drop_below_twice a b (l ∷ ls) = ground (arith, drop_below_twice a b ls, length-drop_below a ls)

-- A target above the head drops something.
pub drop_below_shorter :
    (t : ℕ) (v : List ℕ)
    → is_nil v ≡ false
    → head_location v < t
    → length (drop_below t v) < length v
unfolding drop_below
drop_below_shorter t [] n h = cc
drop_below_shorter t (l ∷ ls) n h = ground (arith, length-drop_below t ls)

pub All-drop_below : (P : ℕ → Type 0) (t : ℕ) (v : List ℕ) → All P v → All P (drop_below t v)
unfolding drop_below
All-drop_below P t [] h = tt
All-drop_below P t (l ∷ ls) h = elim (Bool-cases (leb t l)) [
  | inl e ↦ rw e h
  | inr e ↦ rw e (All-drop_below P t ls h.1)
]

-- A target up to the head drops nothing.
pub drop_below_above : (t : ℕ) (v : List ℕ) → t ≤ head_location v → drop_below t v ≡ v
unfolding drop_below
drop_below_above t [] h = refl
drop_below_above t (l ∷ ls) h = rw (le→leb t l h)

-- A call of `seek` that does not answer the sentinel stands at its answer.
pub seek_found :
    (st : Stream) (t : ℕ) (s : st.Object)
    → t ≤ isr_sentinel
    → ((st.seek t s).0 == isr_sentinel) ≡ false
    → (t ≤ (st.seek t s).0)
      × ((st.seek t s).0 < isr_sentinel)
      × (st.current_location (st.seek t s).1 ≡ (st.seek t s).0)
      × (st.done (st.seek t s).1 ≡ false)
seek_found st t s h e =
    let s' = (st.seek t s).1 in
    ground (
      arith,
      st.seek-answer t s h,
      st.seek-view t s h,
      st.view-below s',
      st.done-view s',
      st.current-view s',
      head-drop_below t (st.view s),
    )
