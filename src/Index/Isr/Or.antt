-- ===== src/Index/Isr/Or.antt =====
-- src/index/src/lib/isr_or.cpp: ISROr, the union of streams.
pub mod Union
use search_engines.Base.{
  ℕ, zero, suc, ◌<◌, Bool, true, false, not, ◌&&◌, List, [], ◌∷◌, map, ltb, leb, ◌==◌,
  if◌then◌else◌, min,
}
use search_engines.Index.Isr.{isr_sentinel}
use search_engines.Index.Isr.Stream.{Stream}

module _ (stream : Stream) where
  open stream use {Object}

  pub record IsrOr : Type 0 where
    pub terms : List Object
    pub current_loc : ℕ
    pub is_exhausted : Bool

  -- The loop over the terms: `min_loc` is the least current location of those not done.
  unfoldable pub min_location : ℕ → List Object → ℕ
  min_location min_loc [] = min_loc
  min_location min_loc (term ∷ terms) =
      min_location
        (if stream.done term then min_loc else min min_loc (stream.current_location term)) terms

  unfoldable pub advance : IsrOr → ℕ × IsrOr
  advance isr =
      let min_loc = min_location isr_sentinel isr.terms in
      let exhausted = if min_loc == isr_sentinel then true else isr.is_exhausted in
      (min_loc, record isr { current_loc = min_loc; is_exhausted = exhausted })

  unfoldable pub new : List Object → IsrOr
  new [] = record { terms = []; current_loc = isr_sentinel; is_exhausted = true }
  new (term ∷ terms) =
      (advance (record { terms = term ∷ terms; current_loc = 0; is_exhausted = false })).1

  unfoldable pub next_term : ℕ → Object → Object
  next_term current term =
      if not (stream.done term) && (stream.current_location term == current)
      then (stream.next term).1
      else term

  unfoldable pub next : IsrOr → ℕ × IsrOr
  next isr =
      if isr.is_exhausted
      then (isr_sentinel, isr)
      else advance (record isr { terms = map (next_term isr.current_loc) isr.terms })

  unfoldable pub seek_term : ℕ → Object → Object
  seek_term target term =
      if not (stream.done term) && ltb (stream.current_location term) target
      then (stream.seek target term).1
      else term

  unfoldable pub seek : ℕ → IsrOr → ℕ × IsrOr
  seek target isr =
      if isr.is_exhausted
      then (isr_sentinel, isr)
      else if leb target isr.current_loc
      then (isr.current_loc, isr)
      else advance (record isr { terms = map (seek_term target) isr.terms })
