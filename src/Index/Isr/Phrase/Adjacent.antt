-- ===== src/Index/Isr/Phrase/Adjacent.antt =====
-- What ISRPhrase answers: a place where its terms stand side by side, and when its loop ends.
use search_engines.Base.{
  ℕ, zero, suc, ◌+◌, ◌-◌, ◌≤◌, ◌<◌, ◌≡◌, refl, List, [], ◌∷◌, some, true, false, arith, inl, inr,
  length, All, Bool-cases, lt→leb, ◌^◌, max, ◌⊎◌, Option-cases, dec_le, Option,
}
use search_engines.Index.Isr.Stream.{
  Stream, drop_below, length-drop_below, drop_below_above, drop_below_shorter, is_nil,
  All-drop_below,
}
use search_engines.Index.Isr.Phrase.{
  IsrPhrase, implied_start, align, advance, Round, round, try_start, again, answer,
}
use search_engines.Index.VByte.{sub32, add32}
use search_engines.Index.Isr.{isr_sentinel}
use search_engines.Index.VByte.Delta.{add32-exact}

drop_below_none :
    (n t : ℕ) (v : List ℕ)
    → isr_sentinel < t + n
    → All (λ l. l + n ≤ isr_sentinel) v
    → drop_below t v ≡ []
unfolding drop_below
drop_below_none n t [] h fits = refl
drop_below_none n t (l ∷ ls) h fits =
    rw (lt→leb t l (omega arith)) (drop_below_none n t ls h fits.1)

module _ (stream : Stream) where
  -- The `i`-th term and those behind it stand at `start + i`, `start + i + 1` and so on.
  abbrev pub IsAligned : ℕ → ℕ → List stream.Object → Type 0
  IsAligned i start [] = Unit {0}
  IsAligned i start (term ∷ terms) =
      (stream.done term ≡ false)
      × (stream.current_location term ≡ start + i)
      × IsAligned (i + 1) start terms

  abbrev Near : ℕ → ℕ → List stream.Object → Type 0
  Near i start [] = Unit {0}
  Near i start (term ∷ terms) =
      (stream.done term ≡ false)
      × (stream.current_location term ≤ start + i)
      × Near (i + 1) start terms

  abbrev pub work : List stream.Object → ℕ
  work [] = 0
  work (term ∷ terms) = length (stream.view term) + work terms

  implied_start-Near :
      (i m : ℕ) (terms : List stream.Object) {start : ℕ}
      → i + length terms ≤ 2 ^ 32
      → m ≤ isr_sentinel
      → implied_start stream i m terms ≡ some start
      → (m ≤ start) × (start ≤ isr_sentinel) × Near i start terms
  unfolding implied_start sub32
  implied_start-Near i m [] {start} hi hm h = ground arith
  implied_start-Near i m (term ∷ terms) {start} hi hm h = ground (
    arith,
    implied_start-Near (i + 1) (max m (sub32 (stream.current_location term) i)) terms
        {start = start},
    stream.view-below term,
    stream.done-view term,
    stream.current-view term,
  )

  align-IsAligned :
      (i start : ℕ) (terms : List stream.Object)
      → start + i + length terms ≤ isr_sentinel
      → (align stream i start terms).match ≡ true
      → IsAligned i start (align stream i start terms).terms
  unfolding align add32
  align-IsAligned i start [] hi h = tt
  align-IsAligned i start (term ∷ terms) hi h =
      let target = add32 start i in
      ground (
        arith,
        align-IsAligned (i + 1) start terms (omega arith),
        stream.seek-answer target term (omega arith),
        stream.seek-view target term (omega arith),
        stream.done-view (stream.seek target term).1,
        stream.current-view (stream.seek target term).1,
      )

  align-le :
      (i start : ℕ) (terms : List stream.Object)
      → work (align stream i start terms).terms ≤ work terms
  unfolding align add32
  align-le i start [] = omega arith
  align-le i start (term ∷ terms) =
      let target = add32 start i in
      ground (
        arith,
        align-le (i + 1) start terms,
        stream.seek-view target term (omega arith),
        length-drop_below target (stream.view term),
      )

  -- A term that does not match has moved.
  align-lt :
      (i start : ℕ) (terms : List stream.Object)
      → start + i + length terms ≤ isr_sentinel
      → Near i start terms
      → (align stream i start terms).match ≡ false
      → (align stream i start terms).ended ≡ false
      → work (align stream i start terms).terms < work terms
  unfolding align add32
  align-lt i start [] hi near h e = cc
  align-lt i start (term ∷ terms) hi near h e =
      let target = add32 start i in
      ground (
        arith,
        align-lt (i + 1) start terms (omega arith),
        stream.seek-answer target term (omega arith),
        stream.seek-view target term (omega arith),
        stream.done-view term,
        stream.current-view term,
        length-drop_below target (stream.view term),
        drop_below_above target (stream.view term),
        drop_below_shorter target (stream.view term),
      )

  -- Every location leaves room for `n` terms below the sentinel.
  abbrev pub Fits : ℕ → List stream.Object → Type 0
  Fits n terms = All (λ term. All (λ l. l + n ≤ isr_sentinel) (stream.view term)) terms

  align-Fits :
      (n i start : ℕ) (terms : List stream.Object)
      → Fits n terms
      → Fits n (align stream i start terms).terms
  unfolding align add32
  align-Fits n i start [] h = tt
  align-Fits n i start (term ∷ terms) h =
      let target = add32 start i in
      let moved : All (λ l. l + n ≤ isr_sentinel) (stream.view (stream.seek target term).1) =
        rw (stream.seek-view target term (omega arith))
          (All-drop_below (λ l. l + n ≤ isr_sentinel) target (stream.view term) h.0) in
      ground (arith, moved, align-Fits n (i + 1) start terms)

  length-align :
      (i start : ℕ) (terms : List stream.Object)
      → length (align stream i start terms).terms ≡ length terms
  unfolding align
  length-align i start [] = refl
  length-align i start (term ∷ terms) = ground (arith, length-align (i + 1) start terms)

  -- A start too high for the terms to fit below the sentinel ends the search.
  align-high :
      (n start : ℕ) (term : stream.Object) (terms : List stream.Object)
      → start ≤ isr_sentinel
      → isr_sentinel < start + n
      → Fits n (term ∷ terms)
      → (align stream 0 start (term ∷ terms)).ended ≡ true
  unfolding align add32
  align-high n start term terms hs high fits = ground (
    arith,
    stream.seek-answer start term hs,
    drop_below_none n start (stream.view term) high fits.0,
  )

  first-active :
      (terms : List stream.Object) {start : ℕ}
      → implied_start stream 0 0 terms ≡ some start
      → 0 < length terms
      → Fits (length terms) terms
      → length terms ≤ isr_sentinel
  unfolding implied_start
  first-active [] h few fits = absurd (omega arith)
  first-active (term ∷ terms) {start} h few fits =
      has_room (stream.view term) fits.0 (ground (arith, stream.done-view term))
    where
      has_room :
          (v : List ℕ)
          → All (λ l. l + length (term ∷ terms) ≤ isr_sentinel) v
          → is_nil v ≡ false
          → length (term ∷ terms) ≤ isr_sentinel
      has_room [] f e = cc
      has_room (l ∷ ls) f e = omega arith

  ended-high :
      (terms : List stream.Object) (start : ℕ)
      → 0 < length terms
      → start ≤ isr_sentinel
      → isr_sentinel < start + length terms
      → Fits (length terms) terms
      → (align stream 0 start terms).ended ≡ true
  ended-high [] start few hs high fits = absurd (omega arith)
  ended-high (term ∷ terms) start few hs high fits =
      align-high (length (term ∷ terms)) start term terms hs high fits

  -- The answer: the last of the places `start`, `start + 1`, ... at which the terms stand in order;
  -- or the sentinel, and the stream is exhausted.
  abbrev pub Answers : ℕ × IsrPhrase stream → Type 0
  Answers (loc, isr) =
      ((loc ≡ isr_sentinel) × (isr.is_exhausted ≡ true))
      ⊎ ((start : ℕ) × (loc + 1 ≡ start + length isr.terms)
          × (isr.current_loc ≡ loc)
          × IsAligned 0 start isr.terms)

  abbrev Goes : IsrPhrase stream → Round stream → Type 0
  Goes isr (answer r) = Answers r
  Goes isr (again isr') =
      (length isr'.terms ≡ length isr.terms)
      × Fits (length isr.terms) isr'.terms
      × (work isr'.terms < work isr.terms)

  try_start-Goes :
      (start : ℕ) (isr : IsrPhrase stream)
      → 0 < length isr.terms
      → start ≤ isr_sentinel
      → Near 0 start isr.terms
      → Fits (length isr.terms) isr.terms
      → Goes isr (try_start stream start isr)
  unfolding try_start
  try_start-Goes start isr few hs near fits =
      let a = align stream 0 start isr.terms in
      let size = length-align 0 start isr.terms in
      elim (Bool-cases a.ended) [
        | inl ended ↦ rw (ended, Goes) (inl (refl, refl))
        | inr running ↦ elim (dec_le (start + length isr.terms) isr_sentinel) [
          | no high ↦ cc (ended-high isr.terms start few hs (omega arith) fits)
          | yes low ↦ elim (Bool-cases a.match) [
            | inl matched ↦
                rw (running, matched, Goes, add32-exact start (length isr.terms - 1) (omega arith))
                  (inr (
                    start,
                    omega (arith, size),
                    refl,
                    align-IsAligned 0 start isr.terms (omega arith) matched,
                  ))
            | inr moved ↦
                rw (running, moved, Goes)
                  (
                    size,
                    align-Fits (length isr.terms) 0 start isr.terms fits,
                    align-lt 0 start isr.terms (omega arith) near moved running,
                  )
          ]
        ]
      ]

  round-Goes :
      (isr : IsrPhrase stream)
      → 0 < length isr.terms
      → Fits (length isr.terms) isr.terms
      → Goes isr (round stream isr)
  unfolding round
  round-Goes isr few fits = elim (Option-cases (implied_start stream 0 0 isr.terms)) [
    | inl over ↦ rw (over, Goes) (inl (refl, refl))
    | inr (start, found) ↦
        let room = first-active isr.terms found few fits in
        let (_, hs, near) = implied_start-Near 0 0 isr.terms (omega arith) (omega arith) found in
        rw (found, Goes) (try_start-Goes start isr few hs near fits)
  ]

  abbrev Ends : Option (ℕ × IsrPhrase stream) → Type 0
  Ends o = (r : ℕ × IsrPhrase stream) × (o ≡ some r) × Answers r

  -- `advanceToNextMatch` ends: with one term at least, and more fuel than there are locations left
  -- in the terms, it answers either the sentinel, and the stream is exhausted, or the last of the
  -- adjacent places at which the terms stand in order; provided that no location is within the
  -- number of terms of the sentinel.
  pub alignment_total :
      (fuel : ℕ) (isr : IsrPhrase stream)
      → 0 < length isr.terms
      → Fits (length isr.terms) isr.terms
      → work isr.terms < fuel
      → (r : ℕ × IsrPhrase stream) × (advance stream fuel isr ≡ some r) × Answers r
  unfolding advance
  alignment_total zero isr few fits h = absurd (omega arith)
  alignment_total (suc fuel) isr few fits h =
      go (round stream isr) (round-Goes isr few fits) (λ isr' (size, room, less).
        alignment_total fuel isr' (omega (arith, size)) (rw size room) (omega (arith, less)))
    where
      go :
          (o : Round stream)
          → Goes isr o
          → ((isr' : IsrPhrase stream) → Goes isr (again isr') → Ends (advance stream fuel isr'))
          → Ends (elim o [ answer r ↦ some r | again isr' ↦ advance stream fuel isr' ])
      go (answer r) g rest = (r, refl, g)
      go (again isr') g rest = rest isr' g
