-- ===== src/Index/Isr/Phrase.antt =====
-- src/index/src/lib/isr_phrase.cpp: ISRPhrase, the places where the terms stand side by side.
pub mod Adjacent
pub mod Lost
use search_engines.Base.{
  ℕ, zero, suc, ◌+◌, ◌-◌, ◌^◌, Bool, true, false, List, [], ◌∷◌, Option, none, some, leb, ◌==◌, max,
  if◌then◌else◌, length,
}
use search_engines.Index.VByte.{add32, sub32}
use search_engines.Index.Isr.{isr_sentinel}
use search_engines.Index.Isr.Stream.{Stream}

module _ (stream : Stream) where
  open stream use {Object}

  pub record IsrPhrase : Type 0 where
    pub terms : List Object
    pub current_loc : ℕ
    pub is_exhausted : Bool

  -- The first loop: the greatest implied start from the `i`-th term on, or `none` when a term is
  -- done. `currentLocation() - i` is a `uint32_t`.
  unfoldable pub implied_start : ℕ → ℕ → List Object → Option ℕ
  implied_start i max_start [] = some max_start
  implied_start i max_start (term ∷ terms) =
      let more =
        implied_start (i + 1) (max max_start (sub32 (stream.current_location term) i)) terms in
      if stream.done term then none else more

  -- The second loop: whether all terms match, the terms as it leaves them, and whether one of
  -- them came to its end.
  pub record Alignment : Type 0 where
    pub match : Bool
    pub ended : Bool
    pub terms : List Object

  unfoldable pub align : ℕ → ℕ → List Object → Alignment
  align i start [] = record { match = true; ended = false; terms = [] }
  align i start (term ∷ terms) =
      let target = add32 start i in
      let (actual, term') = stream.seek target term in
      let more = align (i + 1) start terms in
      if actual == isr_sentinel
      then record { match = false; ended = true; terms = term' ∷ terms }
      else if actual == target
      then record more { terms = term' ∷ more.terms }
      else record { match = false; ended = false; terms = term' ∷ terms }

  -- One round of `while (true)`: the answer, or the state that the next round starts from.
  pub data Round : Type 0 where
    answer : ℕ × IsrPhrase → Round
    again : IsrPhrase → Round

  unfoldable pub try_start : ℕ → IsrPhrase → Round
  try_start start isr =
      let a = align 0 start isr.terms in
      let loc = add32 start (length isr.terms - 1) in
      if a.ended
      then answer (isr_sentinel, record isr { terms = a.terms; is_exhausted = true })
      else if a.match
      then answer (loc, record isr { terms = a.terms; current_loc = loc })
      else again (record isr { terms = a.terms })

  unfoldable pub round : IsrPhrase → Round
  round isr = elim (implied_start 0 0 isr.terms) [
    | none ↦ answer (isr_sentinel, record isr { is_exhausted = true })
    | some start ↦ try_start start isr
  ]

  -- The loop with fuel; `none` tells that the fuel ran out.
  unfoldable pub advance : ℕ → IsrPhrase → Option (ℕ × IsrPhrase)
  advance zero isr = none
  advance (suc fuel) isr = elim (round isr) [ answer r ↦ some r | again isr' ↦ advance fuel isr' ]

  unfoldable pub new : ℕ → List Object → Option IsrPhrase
  new fuel [] = some (record { terms = []; current_loc = isr_sentinel; is_exhausted = true })
  new fuel (term ∷ terms) =
      elim (advance fuel (record { terms = term ∷ terms; current_loc = 0; is_exhausted = false })) [
        | none ↦ none
        | some r ↦ some r.1
      ]

  -- `terms_[0]->next()` and `terms_[0]->seek(target)`; a phrase that is not exhausted has terms.
  unfoldable pub move_first : (Object → ℕ × Object) → List Object → List Object
  move_first move [] = []
  move_first move (term ∷ terms) = (move term).1 ∷ terms

  unfoldable pub next : ℕ → IsrPhrase → Option (ℕ × IsrPhrase)
  next fuel isr =
      if isr.is_exhausted
      then some (isr_sentinel, isr)
      else advance fuel (record isr { terms = move_first stream.next isr.terms })

  unfoldable pub seek : ℕ → ℕ → IsrPhrase → Option (ℕ × IsrPhrase)
  seek fuel target isr =
      if isr.is_exhausted
      then some (isr_sentinel, isr)
      else if leb target isr.current_loc
      then some (isr.current_loc, isr)
      else advance fuel (record isr { terms = move_first (stream.seek target) isr.terms })
