-- ===== src/Index/Isr/Or/Union.antt =====
-- The union in terms of the views of its terms: which location it answers, and what is left.
use search_engines.Base.{
  ℕ, ◌≤◌, ◌≡◌, refl, true, false, List, [], ◌∷◌, ◌==◌, map, min, arith, Bool-cases, inl, inr,
  if◌then◌else◌, not, ap₂, sym, ◌&&◌, ◌∙◌, ap, leb,
}
use search_engines.Index.Isr.Or.{
  IsrOr, min_location, advance, new, next, seek, next_term, seek_term,
}
use search_engines.Index.Isr.{isr_sentinel}
use search_engines.Index.Isr.Stream.{
  Stream, head_location, drop_below, is_nil, later, drop_below_above,
}

-- The least of the first locations, or the sentinel where every list is empty.
abbrev pub least : List (List ℕ) → ℕ
least [] = isr_sentinel
least (v ∷ vs) = min (head_location v) (least vs)

-- What is left of a list after a step past the location `c`.
abbrev pub step_past : ℕ → List ℕ → List ℕ
step_past c [] = []
step_past c (l ∷ ls) = if l == c then ls else l ∷ ls

least-le-sentinel : (vs : List (List ℕ)) → least vs ≤ isr_sentinel
least-le-sentinel [] = omega arith
least-le-sentinel (v ∷ vs) = omega (arith, least-le-sentinel vs)

map-drop_below_above : (t : ℕ) (vs : List (List ℕ)) → t ≤ least vs → map (drop_below t) vs ≡ vs
map-drop_below_above t [] h = refl
map-drop_below_above t (v ∷ vs) h =
    ap₂ (λ x xs. x ∷ xs) (drop_below_above t v (omega arith))
      (map-drop_below_above t vs (omega arith))

-- `step_past` as the code decides it.
step_past_decided :
    (c : ℕ) (v : List ℕ)
    → step_past c v ≡ (if not (is_nil v) && (head_location v == c) then later v else v)
step_past_decided c [] = refl
step_past_decided c (l ∷ ls) = refl

module _ (stream : Stream) where
  abbrev pub views : List stream.Object → List (List ℕ)
  views terms = map stream.view terms

  pub record IsPlaced (isr : IsrOr stream) : Type 0 where
    pub here : isr.current_loc ≡ least (views isr.terms)
    pub ended : isr.is_exhausted ≡ (isr.current_loc == isr_sentinel)

  -- A term that is done counts as the sentinel, and any other as the head of its view.
  counted :
      (term : stream.Object) (acc : ℕ)
      → acc ≤ isr_sentinel
      → (if stream.done term then acc else min acc (stream.current_location term))
        ≡ min acc (head_location (stream.view term))
  counted term acc h =
      ground (arith, stream.done-view term, stream.current-view term, stream.view-below term)

  min_location-eq-least :
      (terms : List stream.Object) (acc : ℕ)
      → acc ≤ isr_sentinel
      → min_location stream acc terms ≡ min acc (least (views terms))
  unfolding min_location
  min_location-eq-least [] acc h = omega arith
  min_location-eq-least (term ∷ terms) acc h = rw (counted term acc h) (
      omega (
        arith,
        min_location-eq-least terms (min acc (head_location (stream.view term))) (omega arith),
      ))

  advance-IsPlaced :
      (isr : IsrOr stream)
      → isr.is_exhausted ≡ false
      → IsPlaced (advance stream isr).1
        × ((advance stream isr).0 ≡ least (views isr.terms))
        × ((advance stream isr).1.terms ≡ isr.terms)
  unfolding advance
  advance-IsPlaced isr h =
      ground
        (arith, min_location-eq-least isr.terms isr_sentinel, least-le-sentinel (views isr.terms))

  -- The constructor stands at the least location of its terms.
  pub new-IsPlaced : (terms : List stream.Object) → IsPlaced (new stream terms)
  unfolding new
  new-IsPlaced [] = ground arith
  new-IsPlaced (term ∷ terms) =
      (advance-IsPlaced (record { terms = term ∷ terms; current_loc = 0; is_exhausted = false })
        refl).0

  next_term-view :
      (c : ℕ) (term : stream.Object)
      → stream.view (next_term stream c term) ≡ step_past c (stream.view term)
  unfolding next_term
  next_term-view c term = ground (
    arith,
    step_past_decided c (stream.view term),
    stream.done-view term,
    stream.current-view term,
    stream.next-view term,
  )

  seek_term-view :
      (t : ℕ) (term : stream.Object)
      → t ≤ isr_sentinel
      → stream.view (seek_term stream t term) ≡ drop_below t (stream.view term)
  unfolding seek_term drop_below
  seek_term-view t term h = ground (
    arith,
    drop_below_above t (stream.view term),
    stream.done-view term,
    stream.current-view term,
    stream.seek-view t term,
  )

  views-map :
      (f : stream.Object → stream.Object) (g : List ℕ → List ℕ)
      → ((term : stream.Object) → stream.view (f term) ≡ g (stream.view term))
      → (terms : List stream.Object) → views (map f terms) ≡ map g (views terms)
  views-map f g h [] = refl
  views-map f g h (term ∷ terms) = ap₂ (λ x xs. x ∷ xs) (h term) (views-map f g h terms)

  -- No list holds the sentinel, so a step past it moves nothing.
  step_past_sentinel :
      (terms : List stream.Object) → map (step_past isr_sentinel) (views terms) ≡ views terms
  step_past_sentinel [] = refl
  step_past_sentinel (term ∷ terms) =
      ap₂ (λ x xs. x ∷ xs)
        (ground (arith, step_past_decided isr_sentinel (stream.view term), stream.view-below term))
        (step_past_sentinel terms)

  next-stopped :
      (isr : IsrOr stream) → isr.is_exhausted ≡ true → next stream isr ≡ (isr_sentinel, isr)
  unfolding next
  next-stopped isr e = ground arith

  abbrev stepped : IsrOr stream → IsrOr stream
  stepped isr = record isr { terms = map (next_term stream isr.current_loc) isr.terms }

  next-running :
      (isr : IsrOr stream)
      → isr.is_exhausted ≡ false
      → next stream isr ≡ advance stream (stepped isr)
  unfolding next
  next-running isr e = simp e

  -- From a union that stands at the least location of its terms: `next` steps every term that
  -- stands at the current location past it, answers the least location that is left, or the
  -- sentinel, and stands there.
  pub union_next :
      (isr : IsrOr stream)
      → IsPlaced isr
      → let r = next stream isr in
        IsPlaced r.1
        × (views r.1.terms ≡ map (step_past isr.current_loc) (views isr.terms))
        × (r.0 ≡ least (map (step_past isr.current_loc) (views isr.terms)))
  union_next isr p = elim (Bool-cases isr.is_exhausted) [
    | inl e ↦
        let least_ends : least (views isr.terms) ≡ isr_sentinel = ground (arith, p.here, p.ended) in
        let kept =
          ap (λ c. map (step_past c) (views isr.terms)) (p.here ∙ least_ends)
          ∙ step_past_sentinel isr.terms in
        rw (next-stopped isr e, kept) (p, refl, sym least_ends)
    | inr e ↦
        let (placed, answer, kept) = advance-IsPlaced (stepped isr) e in
        let moved =
          views-map (next_term stream isr.current_loc) (step_past isr.current_loc)
            (next_term-view isr.current_loc) isr.terms in
        rw (next-running isr e) (placed, ap views kept ∙ moved, answer ∙ ap least moved)
  ]

  seek-stopped :
      (t : ℕ) (isr : IsrOr stream)
      → isr.is_exhausted ≡ true
      → seek stream t isr ≡ (isr_sentinel, isr)
  unfolding seek
  seek-stopped t isr e = ground arith

  seek-near :
      (t : ℕ) (isr : IsrOr stream)
      → isr.is_exhausted ≡ false
      → leb t isr.current_loc ≡ true
      → seek stream t isr ≡ (isr.current_loc, isr)
  unfolding seek
  seek-near t isr e near = simp (e, near)

  abbrev sought : ℕ → IsrOr stream → IsrOr stream
  sought t isr = record isr { terms = map (seek_term stream t) isr.terms }

  seek-far :
      (t : ℕ) (isr : IsrOr stream)
      → isr.is_exhausted ≡ false
      → leb t isr.current_loc ≡ false
      → seek stream t isr ≡ advance stream (sought t isr)
  unfolding seek
  seek-far t isr e far = simp (e, far)

  -- From a union that stands at the least location of its terms, and for a target of at most 2^32 -
  -- 1: `seek` drops from every term the locations below the target, answers the least location that
  -- is left, or the sentinel, and stands there.
  pub union_seek :
      (t : ℕ) (isr : IsrOr stream)
      → t ≤ isr_sentinel
      → IsPlaced isr
      → let r = seek stream t isr in
        IsPlaced r.1
        × (views r.1.terms ≡ map (drop_below t) (views isr.terms))
        × (r.0 ≡ least (map (drop_below t) (views isr.terms)))
  union_seek t isr h p = elim (Bool-cases isr.is_exhausted) [
    | inl e ↦
        let least_ends : least (views isr.terms) ≡ isr_sentinel = ground (arith, p.here, p.ended) in
        rw (seek-stopped t isr e, map-drop_below_above t (views isr.terms) (omega arith))
          (p, refl, sym least_ends)
    | inr e ↦ elim (Bool-cases (leb t isr.current_loc)) [
      | inl near ↦
          rw
            (
              seek-near t isr e near,
              map-drop_below_above t (views isr.terms) (ground (arith, p.here)),
            )
            (p, refl, p.here)
      | inr far ↦
          let (placed, answer, kept) = advance-IsPlaced (sought t isr) e in
          let moved =
            views-map (seek_term stream t) (drop_below t) (λ term. seek_term-view t term h)
              isr.terms in
          rw (seek-far t isr e far) (placed, ap views kept ∙ moved, answer ∙ ap least moved)
    ]
  ]
