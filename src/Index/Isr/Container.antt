-- ===== src/Index/Isr/Container.antt =====
-- src/index/src/lib/isr_container.cpp: ISRContainer, a stream without the documents that a second
-- group of streams hits.
pub mod Avoids
pub mod Rounds
pub mod Exclude
use search_engines.Base.{
  ℕ, zero, suc, ◌+◌, Bool, true, false, not, ◌&&◌, List, [], ◌∷◌, Option, none, some, leb, ◌==◌,
  if◌then◌else◌,
}
use search_engines.Index.VByte.{add32, sub32}
use search_engines.Index.Types.{DocumentRecord}
use search_engines.Index.Isr.{isr_sentinel}
use search_engines.Index.Isr.Stream.{Stream}
use search_engines.Index.Isr.Docs.{Docs}

module _ (stream : Stream) (docs : Docs) where
  open stream use {Object}

  pub record IsrContainer : Type 0 where
    pub positive : Object
    pub negatives : List Object
    pub doc_end_isr : docs.ends.Object
    pub current_loc : ℕ
    pub is_exhausted : Bool

  -- The loop over the negative streams, which stops at the first hit.
  unfoldable pub exclude : ℕ → ℕ → List Object → Bool × List Object
  exclude doc_start doc_end [] = (false, [])
  exclude doc_start doc_end (neg ∷ negs) =
      let (excluded, negs') = exclude doc_start doc_end negs in
      if stream.done neg
      then (excluded, neg ∷ negs')
      else let (loc, neg') = stream.seek doc_start neg in
        if not (loc == isr_sentinel) && leb loc doc_end
        then (true, neg' ∷ negs)
        else (excluded, neg' ∷ negs')

  unfoldable pub give_up : IsrContainer → ℕ × IsrContainer
  give_up isr = (isr_sentinel, record isr { is_exhausted = true })

  pub data Round : Type 0 where
    answer : ℕ × IsrContainer → Round
    again : IsrContainer → Round

  unfoldable pub try_document : ℕ → DocumentRecord → IsrContainer → Round
  try_document doc_end doc isr =
      let (excluded, negs) = exclude doc.start_location doc_end isr.negatives in
      let loc = stream.current_location isr.positive in
      if excluded
      then again (record isr {
        positive = (stream.seek (add32 doc_end 1) isr.positive).1;
        negatives = negs;
      })
      else answer (loc, record isr { negatives = negs; current_loc = loc })

  -- One round of `while (!positive_isr_->done())`.
  unfoldable pub round : IsrContainer → Round
  round isr =
      if stream.done isr.positive
      then answer (give_up isr)
      else let (doc_end, ends) =
          docs.ends.seek (stream.current_location isr.positive) isr.doc_end_isr in
        let isr' = record isr { doc_end_isr = ends } in
        if doc_end == isr_sentinel
        then answer (give_up isr')
        else elim (docs.get_document (sub32 (docs.current_index ends) 1)) [
          | none ↦ answer (give_up isr')
          | some doc ↦ try_document doc_end doc isr'
        ]

  unfoldable pub advance : ℕ → IsrContainer → Option (ℕ × IsrContainer)
  advance zero isr = none
  advance (suc fuel) isr = elim (round isr) [ answer r ↦ some r | again isr' ↦ advance fuel isr' ]

  unfoldable pub new : ℕ → Object → List Object → docs.ends.Object → Option IsrContainer
  new fuel positive negatives ends =
      let isr : IsrContainer = record {
        positive = positive;
        negatives = negatives;
        doc_end_isr = ends;
        current_loc = 0;
        is_exhausted = false;
      } in
      if stream.done positive
      then some (record isr { current_loc = isr_sentinel; is_exhausted = true })
      else elim (advance fuel isr) [ none ↦ none | some r ↦ some r.1 ]

  unfoldable pub next : ℕ → IsrContainer → Option (ℕ × IsrContainer)
  next fuel isr =
      if isr.is_exhausted
      then some (isr_sentinel, isr)
      else advance fuel (record isr { positive = (stream.next isr.positive).1 })

  unfoldable pub seek : ℕ → ℕ → IsrContainer → Option (ℕ × IsrContainer)
  seek fuel target isr =
      if isr.is_exhausted
      then some (isr_sentinel, isr)
      else if leb target isr.current_loc
      then some (isr.current_loc, isr)
      else advance fuel (record isr { positive = (stream.seek target isr.positive).1 })
