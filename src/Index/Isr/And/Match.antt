-- ===== src/Index/Isr/And/Match.antt =====
-- What ISRAnd answers: a document in which every term occurs, and the loop ends.
use search_engines.Base.{
  ℕ, zero, suc, ◌+◌, ◌≤◌, ◌<◌, ◌≡◌, refl, List, [], ◌∷◌, some, true, false, arith, inl, inr, length,
  All, max, ◌⊎◌, Bool-cases, Option-cases, ◌==◌, Option,
}
use search_engines.Index.Isr.Stream.{
  Stream, drop_below, length-drop_below, drop_below_twice, head-drop_below, drop_below_shorter,
  seek_found,
}
use search_engines.Index.Isr.Docs.{Docs}
use search_engines.Index.Isr.And.{
  IsrAnd, place, Round, round, try_document, advance, answer, again, max_location, seek_all,
  give_up,
}
use search_engines.Index.Isr.{isr_sentinel}
use search_engines.Index.Types.{DocumentRecord}
use search_engines.Index.VByte.{sub32}
use search_engines.Index.VByte.Delta.{add32-one}

module _ (stream : Stream) where
  -- The term stands at a location of the document.
  abbrev pub StandsIn : ℕ → ℕ → stream.Object → Type 0
  StandsIn doc_start doc_end term =
      (stream.done term ≡ false)
      × (doc_start ≤ stream.current_location term)
      × (stream.current_location term ≤ doc_end)

  -- The locations that are left in all the terms together.
  abbrev pub work : List stream.Object → ℕ
  work [] = 0
  work (term ∷ terms) = length (stream.view term) + work terms

  left_from : ℕ → List stream.Object → ℕ
  left_from t [] = 0
  left_from t (term ∷ terms) = length (drop_below t (stream.view term)) + left_from t terms

module _ (stream : Stream) (docs : Docs) where
  place-StandsIn :
      (s e : ℕ) (terms : List stream.Object)
      → s ≤ isr_sentinel
      → e < isr_sentinel
      → (place stream docs s e terms).all_in_doc ≡ true
      → All (StandsIn stream s e) (place stream docs s e terms).terms
  unfolding place
  place-StandsIn s e [] hs he h = tt
  place-StandsIn s e (term ∷ terms) hs he h =
      let term' = (stream.seek s term).1 in
      ground (
        arith,
        place-StandsIn s e terms hs he,
        stream.seek-answer s term hs,
        stream.seek-view s term hs,
        stream.done-view term',
        stream.current-view term',
        head-drop_below s (stream.view term),
      )

  abbrev Under : ℕ → List stream.Object → Type 0
  Under top terms =
      All (λ term. (stream.done term ≡ false) × (stream.current_location term ≤ top)) terms

  max_location_bounds :
      (m : ℕ) (terms : List stream.Object) {top : ℕ}
      → m ≤ isr_sentinel
      → max_location stream docs m terms ≡ some top
      → (m ≤ top) × (top ≤ isr_sentinel) × Under top terms
  unfolding max_location
  max_location_bounds m [] {top} hm h = ground arith
  max_location_bounds m (term ∷ terms) {top} hm h = ground (
    arith,
    max_location_bounds (max m (stream.current_location term)) terms {top = top},
    stream.view-below term,
    stream.done-view term,
    stream.current-view term,
  )

  Under-weaken : (a b : ℕ) (terms : List stream.Object) → a ≤ b → Under a terms → Under b terms
  Under-weaken a b [] h u = tt
  Under-weaken a b (term ∷ terms) h u = ((u.0.0, omega arith), Under-weaken a b terms h u.1)

  seek_all-work :
      (t : ℕ) (terms : List stream.Object)
      → t ≤ isr_sentinel
      → work stream (seek_all stream docs t terms) ≡ left_from stream t terms
  unfolding seek_all left_from
  seek_all-work t [] h = refl
  seek_all-work t (term ∷ terms) h =
      rw (stream.seek-view t term h) (omega (arith, seek_all-work t terms h))

  place-work :
      (s e t : ℕ) (terms : List stream.Object)
      → s ≤ isr_sentinel
      → t ≤ isr_sentinel
      → left_from stream t (place stream docs s e terms).terms ≤ left_from stream t terms
  unfolding place left_from
  place-work s e t [] hs ht = omega arith
  place-work s e t (term ∷ terms) hs ht = ground (
    arith,
    place-work s e t terms hs ht,
    stream.seek-view s term hs,
    drop_below_twice t s (stream.view term),
  )

  left_from-le : (t : ℕ) (terms : List stream.Object) → left_from stream t terms ≤ work stream terms
  unfolding left_from
  left_from-le t [] = omega arith
  left_from-le t (term ∷ terms) =
      omega (arith, left_from-le t terms, length-drop_below t (stream.view term))

  -- The answer: a #DocEnd mark whose document holds every term, with the document; or the
  -- sentinel, and the stream is exhausted.
  abbrev pub Answers : ℕ × IsrAnd stream docs → Type 0
  Answers (loc, isr) =
      ((loc ≡ isr_sentinel) × (isr.is_exhausted ≡ true))
      ⊎ ((doc : DocumentRecord) × (isr.current_loc ≡ loc)
          × (isr.current_doc ≡ some doc)
          × (docs.get_document (sub32 (docs.current_index isr.doc_end_isr) 1) ≡ some doc)
          × (docs.ends.current_location isr.doc_end_isr ≡ loc)
          × All (StandsIn stream doc.start_location loc) isr.terms)

  -- The next round has less to go through.
  abbrev Goes : IsrAnd stream docs → Round stream docs → Type 0
  Goes isr (answer r) = Answers r
  Goes isr (again isr') = work stream isr'.terms < work stream isr.terms

  -- Every document starts at a 32-bit location.
  abbrev pub StartsFit : Type 0
  StartsFit =
      (i : ℕ) (doc : DocumentRecord)
      → docs.get_document i ≡ some doc
      → doc.start_location ≤ isr_sentinel

  left_from-shrinks :
      (e : ℕ) (terms : List stream.Object)
      → All (λ term. (stream.done term ≡ false) × (stream.current_location term ≤ e)) terms
      → 0 < length terms
      → left_from stream (e + 1) terms < work stream terms
  unfolding left_from
  left_from-shrinks e [] low h = absurd (omega arith)
  left_from-shrinks e (term ∷ terms) low h = ground (
    arith,
    left_from-le (e + 1) terms,
    drop_below_shorter (e + 1) (stream.view term),
    stream.done-view term,
    stream.current-view term,
  )

  place-nonempty :
      (s e : ℕ) (terms : List stream.Object)
      → (place stream docs s e terms).all_in_doc ≡ false
      → 0 < length terms
  unfolding place
  place-nonempty s e [] h = cc
  place-nonempty s e (term ∷ terms) h = omega arith

  try_document-Goes :
      (e : ℕ) (doc : DocumentRecord) (isr : IsrAnd stream docs)
      → e < isr_sentinel
      → doc.start_location ≤ isr_sentinel
      → docs.get_document (sub32 (docs.current_index isr.doc_end_isr) 1) ≡ some doc
      → docs.ends.current_location isr.doc_end_isr ≡ e
      → All (λ term. (stream.done term ≡ false) × (stream.current_location term ≤ e)) isr.terms
      → Goes isr (try_document stream docs e doc isr)
  unfolding try_document give_up
  try_document-Goes e doc isr he hs found ends low =
      let p = place stream docs doc.start_location e isr.terms in
      elim (Bool-cases p.ended) [
        | inl ended ↦ rw ended (inl (refl, refl))
        | inr running ↦ elim (Bool-cases p.all_in_doc) [
          | inl inside ↦
              rw (running, inside)
                (inr (
                  doc,
                  refl,
                  refl,
                  found,
                  ends,
                  place-StandsIn doc.start_location e isr.terms hs he inside,
                ))
          | inr outside ↦
              let shorter =
                left_from-shrinks e isr.terms low
                  (place-nonempty doc.start_location e isr.terms outside) in
              rw (running, outside, add32-one e he, seek_all-work (e + 1) p.terms (omega arith))
                (omega (
                  arith,
                  shorter,
                  place-work doc.start_location e (e + 1) isr.terms hs (omega arith),
                ))
        ]
      ]

  round-Goes : StartsFit → (isr : IsrAnd stream docs) → Goes isr (round stream docs isr)
  unfolding round give_up
  round-Goes fit isr = elim (Option-cases (max_location stream docs 0 isr.terms)) [
    | inl none_left ↦ rw (none_left, Goes) (inl (refl, refl))
    | inr (top, e) ↦
        let (doc_end, ends) = docs.ends.seek top isr.doc_end_isr in
        let (low, fits, under) = max_location_bounds 0 isr.terms (omega arith) e in
        rw (e, Goes)
          (elim (Bool-cases (doc_end == isr_sentinel)) [
            | inl past ↦ rw (past, Goes) (inl (refl, refl))
            | inr here ↦
                rw (here, Goes)
                  (elim (Option-cases (docs.get_document (sub32 (docs.current_index ends) 1))) [
                    | inl missing ↦ rw (missing, Goes) (inl (refl, refl))
                    | inr (doc, found) ↦
                        let (above, below, at, active) =
                          seek_found docs.ends top isr.doc_end_isr fits here in
                        rw (found, Goes)
                          (try_document-Goes doc_end doc _ below (fit _ doc found) found at
                            (Under-weaken top doc_end isr.terms above under))
                  ])
          ])
  ]

  abbrev Ends : Option (ℕ × IsrAnd stream docs) → Type 0
  Ends o = (r : ℕ × IsrAnd stream docs) × (o ≡ some r) × Answers r

  -- `advanceToNextMatch` ends: when no document of the table starts above 2^32 - 1, with more fuel
  -- than there are locations left in the terms it answers either the sentinel, and the stream is
  -- exhausted, or the #DocEnd mark of a document of the table in which every term stands at a
  -- location.
  pub advance_total :
      (fuel : ℕ) (isr : IsrAnd stream docs)
      → StartsFit
      → work stream isr.terms < fuel
      → (r : ℕ × IsrAnd stream docs) × (advance stream docs fuel isr ≡ some r) × Answers r
  unfolding advance
  advance_total zero isr fit h = absurd (omega arith)
  advance_total (suc fuel) isr fit h =
      go (round stream docs isr) (round-Goes fit isr)
        (λ isr' less. advance_total fuel isr' fit (omega arith))
    where
      go :
          (o : Round stream docs)
          → Goes isr o
          → ((isr' : IsrAnd stream docs)
              → work stream isr'.terms < work stream isr.terms
              → Ends (advance stream docs fuel isr'))
          → Ends (elim o [ answer r ↦ some r | again isr' ↦ advance stream docs fuel isr' ])
      go (answer r) g rest = (r, refl, g)
      go (again isr') g rest = rest isr' g
