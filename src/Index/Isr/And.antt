-- ===== src/Index/Isr/And.antt =====
-- src/index/src/lib/isr_and.cpp: ISRAnd, the documents that hold every term.
pub mod Match
use search_engines.Base.{
  ℕ, zero, suc, ◌+◌, Bool, true, false, List, [], ◌∷◌, map, Option, none, some, ltb, leb, ◌==◌, max,
  if◌then◌else◌,
}
use search_engines.Index.VByte.{add32, sub32}
use search_engines.Index.Types.{DocumentRecord}
use search_engines.Index.Isr.{isr_sentinel}
use search_engines.Index.Isr.Stream.{Stream}
use search_engines.Index.Isr.Docs.{Docs}

module _ (stream : Stream) (docs : Docs) where
  open stream use {Object}

  pub record IsrAnd : Type 0 where
    pub terms : List Object
    pub doc_end_isr : docs.ends.Object
    pub current_loc : ℕ
    pub is_exhausted : Bool
    pub current_doc : Option DocumentRecord

  -- The first loop: the greatest current location, or `none` when a term is done.
  unfoldable pub max_location : ℕ → List Object → Option ℕ
  max_location max_loc [] = some max_loc
  max_location max_loc (term ∷ terms) =
      let more = max_location (max max_loc (stream.current_location term)) terms in
      if stream.done term then none else more

  pub record Placement : Type 0 where
    pub all_in_doc : Bool
    pub ended : Bool
    pub terms : List Object

  -- The second loop: every term is moved into the document, until one has no location there.
  unfoldable pub place : ℕ → ℕ → List Object → Placement
  place doc_start doc_end [] = record { all_in_doc = true; ended = false; terms = [] }
  place doc_start doc_end (term ∷ terms) =
      let (loc, term') = stream.seek doc_start term in
      let more = place doc_start doc_end terms in
      if loc == isr_sentinel
      then record { all_in_doc = false; ended = true; terms = term' ∷ terms }
      else if ltb doc_end loc
      then record { all_in_doc = false; ended = false; terms = term' ∷ terms }
      else record more { terms = term' ∷ more.terms }

  unfoldable pub seek_all : ℕ → List Object → List Object
  seek_all target terms = map (λ term. (stream.seek target term).1) terms

  unfoldable pub give_up : IsrAnd → ℕ × IsrAnd
  give_up isr = (isr_sentinel, record isr { is_exhausted = true })

  -- One round of `while (true)`: the answer, or the state that the next round starts from.
  pub data Round : Type 0 where
    answer : ℕ × IsrAnd → Round
    again : IsrAnd → Round

  unfoldable pub try_document : ℕ → DocumentRecord → IsrAnd → Round
  try_document doc_end doc isr =
      let p = place doc.start_location doc_end isr.terms in
      if p.ended
      then answer (give_up (record isr { terms = p.terms }))
      else if p.all_in_doc
      then answer
          (doc_end, record isr { terms = p.terms; current_loc = doc_end; current_doc = some doc })
      else again (record isr { terms = seek_all (add32 doc_end 1) p.terms })

  unfoldable pub round : IsrAnd → Round
  round isr = elim (max_location 0 isr.terms) [
    | none ↦ answer (give_up isr)
    | some max_loc ↦
        let (doc_end, ends) = docs.ends.seek max_loc isr.doc_end_isr in
        let isr' = record isr { doc_end_isr = ends } in
        if doc_end == isr_sentinel
        then answer (give_up isr')
        else elim (docs.get_document (sub32 (docs.current_index ends) 1)) [
          | none ↦ answer (give_up isr')
          | some doc ↦ try_document doc_end doc isr'
        ]
  ]

  -- The loop with fuel; `none` tells that the fuel ran out.
  unfoldable pub advance : ℕ → IsrAnd → Option (ℕ × IsrAnd)
  advance zero isr = none
  advance (suc fuel) isr = elim (round isr) [ answer r ↦ some r | again isr' ↦ advance fuel isr' ]

  -- `current_loc_` is not set before the first match; the marks may be missing.
  unfoldable pub new : ℕ → List Object → docs.ends.Object → Option IsrAnd
  new fuel [] ends = some (record {
    terms = [];
    doc_end_isr = ends;
    current_loc = isr_sentinel;
    is_exhausted = true;
    current_doc = none;
  })
  new fuel (term ∷ terms) ends =
      let isr : IsrAnd = record {
        terms = term ∷ terms;
        doc_end_isr = ends;
        current_loc = 0;
        is_exhausted = false;
        current_doc = none;
      } in
      elim (advance fuel isr) [ none ↦ none | some r ↦ some r.1 ]

  unfoldable pub next : ℕ → IsrAnd → Option (ℕ × IsrAnd)
  next fuel isr =
      if isr.is_exhausted
      then some (isr_sentinel, isr)
      else advance fuel (record isr { terms = seek_all (add32 isr.current_loc 1) isr.terms })

  unfoldable pub seek : ℕ → ℕ → IsrAnd → Option (ℕ × IsrAnd)
  seek fuel target isr =
      if isr.is_exhausted
      then some (isr_sentinel, isr)
      else if leb target isr.current_loc
      then some (isr.current_loc, isr)
      else advance fuel (record isr { terms = seek_all target isr.terms })
