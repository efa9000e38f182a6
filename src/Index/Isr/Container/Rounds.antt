-- ===== src/Index/Isr/Container/Rounds.antt =====
-- One round of the loop of ISRContainer: the answer, or a document that is passed over.
use search_engines.Base.{
  ℕ, ◌+◌, ◌≤◌, ◌<◌, ◌≡◌, refl, List, some, true, false, arith, inl, inr, length, ◌⊎◌, Bool-cases,
  ◌==◌, Option-cases, sym, subst, ◌∙◌, ap,
}
use search_engines.Index.Isr.Stream.{
  Stream, seek_found, drop_below_shorter, head_location, is_nil, head-drop_below,
}
use search_engines.Index.Isr.Docs.{Docs}
use search_engines.Index.Isr.Container.{
  IsrContainer, exclude, Round, round, try_document, answer, again, give_up,
}
use search_engines.Index.Isr.{isr_sentinel}
use search_engines.Index.Types.{DocumentRecord}
use search_engines.Index.VByte.{sub32}
use search_engines.Index.VByte.Delta.{add32-one}
use search_engines.Index.Isr.Container.Avoids.{
  AllAscend, AllAvoid, exclude-AllAscend, AllAvoid-exclude, exclude-AllAvoid,
}

module _ (stream : Stream) (docs : Docs) where
  -- A stream that is sought to a target stands there or behind it.
  sought_from :
      (t : ℕ) (o : stream.Object)
      → t ≤ isr_sentinel
      → stream.done (stream.seek t o).1 ≡ false
      → t ≤ stream.current_location (stream.seek t o).1
  sought_from t o ht active =
      let o' = (stream.seek t o).1 in
      let sought = stream.seek-view t o ht in
      subst (λ l. t ≤ l) (sym (stream.current-view o' active ∙ ap head_location sought))
        (head-drop_below t (stream.view o)
          (ap is_nil (sym sought) ∙ sym (stream.done-view o') ∙ active))

  abbrev pub StartsFit : Type 0
  StartsFit =
      (i : ℕ) (doc : DocumentRecord)
      → docs.get_document i ≡ some doc
      → doc.start_location ≤ isr_sentinel

  -- The document that the table has for an end mark.
  abbrev pub HasDocument : docs.ends.Object → DocumentRecord → Type 0
  HasDocument ends doc = docs.get_document (sub32 (docs.current_index ends) 1) ≡ some doc

  -- The documents lie one behind the other: the streams of end marks that are reached by seeks name
  -- documents that start before their end mark, and behind the end mark of an earlier one.
  pub record IsLaidOut : Type 1 where
    pub Reached : docs.ends.Object → Type 0
    pub seek-Reached :
        (t : ℕ) (ends : docs.ends.Object) → Reached ends → Reached (docs.ends.seek t ends).1
    pub apart :
        (a b : docs.ends.Object) (doc_a doc_b : DocumentRecord)
        → Reached a
        → Reached b
        → HasDocument a doc_a
        → HasDocument b doc_b
        → docs.ends.current_location a < docs.ends.current_location b
        → (doc_a.start_location ≤ docs.ends.current_location a)
          × (docs.ends.current_location a < doc_b.start_location)

  -- The answer: a location of the positive stream, from `low` on, in a document in which none of
  -- the negative streams has a location; or the sentinel, and the stream is exhausted.
  abbrev pub Answers : List stream.Object → ℕ → ℕ × IsrContainer stream docs → Type 0
  Answers negs low (loc, isr) =
      ((loc ≡ isr_sentinel) × (isr.is_exhausted ≡ true))
      ⊎ ((doc : DocumentRecord) × (isr.current_loc ≡ loc)
          × (stream.done isr.positive ≡ false)
          × (stream.current_location isr.positive ≡ loc)
          × HasDocument isr.doc_end_isr doc
          × (low ≤ loc)
          × (loc ≤ docs.ends.current_location isr.doc_end_isr)
          × AllAvoid stream docs doc.start_location (docs.ends.current_location isr.doc_end_isr)
              negs)

  abbrev pub work : IsrContainer stream docs → ℕ
  work isr = length (stream.view isr.positive)

  -- A lower bound of the location of the positive stream.
  abbrev pub IsFrom : ℕ → IsrContainer stream docs → Type 0
  IsFrom low isr = stream.done isr.positive ≡ false → low ≤ stream.current_location isr.positive

  module _ (layout : IsLaidOut) where
    abbrev pub Found : List stream.Object → ℕ → ℕ × IsrContainer stream docs → Type 0
    Found negs low r = Answers negs low r × layout.Reached r.1.doc_end_isr

    -- A document that is passed over: the positive stream is behind it, and what was dropped from
    -- the negative streams lies before its start.
    abbrev pub Passes :
        ℕ → IsrContainer stream docs → IsrContainer stream docs → DocumentRecord → Type 0
    Passes low isr isr' doc =
        HasDocument isr'.doc_end_isr doc
        × (low ≤ docs.ends.current_location isr'.doc_end_isr)
        × IsFrom (docs.ends.current_location isr'.doc_end_isr + 1) isr'
        × ((s e : ℕ)
            → doc.start_location ≤ s
            → AllAvoid stream docs s e isr'.negatives
            → AllAvoid stream docs s e isr.negatives)

    abbrev pub Goes : ℕ → IsrContainer stream docs → Round stream docs → Type 0
    Goes low isr (answer r) = Found isr.negatives low r
    Goes low isr (again isr') =
        (work isr' < work isr)
        × layout.Reached isr'.doc_end_isr
        × AllAscend stream docs isr'.negatives
        × ((doc : DocumentRecord) × Passes low isr isr' doc)

    try_document-Goes :
        (low e : ℕ) (doc : DocumentRecord) (isr : IsrContainer stream docs)
        → e < isr_sentinel
        → doc.start_location ≤ isr_sentinel
        → HasDocument isr.doc_end_isr doc
        → docs.ends.current_location isr.doc_end_isr ≡ e
        → stream.done isr.positive ≡ false
        → stream.current_location isr.positive ≤ e
        → low ≤ stream.current_location isr.positive
        → layout.Reached isr.doc_end_isr
        → AllAscend stream docs isr.negatives
        → Goes low isr (try_document stream docs e doc isr)
    unfolding try_document
    try_document-Goes low e doc isr he hs found ends active inside from reached ups =
        let s = doc.start_location in
        let x = exclude stream docs s e isr.negatives in
        elim (Bool-cases x.0) [
          | inl hit ↦
              let sought = stream.seek-view (e + 1) isr.positive (omega arith) in
              rw (hit, Goes, add32-one e he)
                (
                  subst (λ v. length v < work isr) (sym sought)
                      (drop_below_shorter (e + 1) (stream.view isr.positive)
                        (ground (arith, stream.done-view isr.positive))
                        (ground (arith, stream.current-view isr.positive))),
                  reached,
                  exclude-AllAscend stream docs s e isr.negatives hs ups,
                  (
                    doc,
                    (
                      found,
                      omega arith,
                      rw ends (sought_from (e + 1) isr.positive (omega arith)),
                      λ s' e' le. AllAvoid-exclude stream docs s e s' e' isr.negatives hs le,
                    ),
                  ),
                )
          | inr clear ↦
              rw (clear, Goes)
                (
                  inr (
                    doc,
                    refl,
                    active,
                    refl,
                    found,
                    from,
                    rw ends inside,
                    rw ends (exclude-AllAvoid stream docs s e isr.negatives hs he ups clear),
                  ),
                  reached,
                )
        ]

    pub round-Goes :
        (low : ℕ) (isr : IsrContainer stream docs)
        → StartsFit
        → layout.Reached isr.doc_end_isr
        → AllAscend stream docs isr.negatives
        → IsFrom low isr
        → Goes low isr (round stream docs isr)
    unfolding round give_up
    round-Goes low isr fit reached ups from = elim (Bool-cases (stream.done isr.positive)) [
      | inl over ↦ rw (over, Goes) (inl (refl, refl), reached)
      | inr active ↦
          let loc = stream.current_location isr.positive in
          let (doc_end, ends) = docs.ends.seek loc isr.doc_end_isr in
          let reached' = layout.seek-Reached loc isr.doc_end_isr reached in
          rw (active, Goes)
            (elim (Bool-cases (doc_end == isr_sentinel)) [
              | inl past ↦ rw (past, Goes) (inl (refl, refl), reached')
              | inr here ↦
                  rw (here, Goes)
                    (elim (Option-cases (docs.get_document (sub32 (docs.current_index ends) 1))) [
                      | inl missing ↦ rw (missing, Goes) (inl (refl, refl), reached')
                      | inr (doc, found) ↦
                          let fits : loc ≤ isr_sentinel = ground (
                            arith,
                            stream.done-view isr.positive,
                            stream.current-view isr.positive,
                            stream.view-below isr.positive,
                          ) in
                          let (above, below, at, _) =
                            seek_found docs.ends loc isr.doc_end_isr fits here in
                          rw (found, Goes)
                            (try_document-Goes low doc_end doc (record isr { doc_end_isr = ends })
                              below (fit _ doc found) found at active above (from active) reached'
                              ups)
                    ])
            ])
    ]
