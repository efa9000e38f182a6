-- ===== src/Index/Isr/Phrase/Lost.antt =====
-- A phrase that ISRPhrase does not find.
use search_engines.Base.{
  ℕ, suc, [], ◌∷◌, none, some, true, false, inl, inr, refl, List, All, ◌≡◌, ◌<◌, Bool-cases, arith,
  lt→leb,
}
use search_engines.Index.Isr.Phrase.{
  IsrPhrase, answer, advance, align, implied_start, round, try_start,
}
use search_engines.Index.Isr.Stream.{Stream, drop_below}
use search_engines.Index.VByte.{add32, sub32}
use search_engines.Index.Isr.{isr_sentinel}

drop_below-All : (t : ℕ) (v : List ℕ) → All (λ l. l < t) v → drop_below t v ≡ []
unfolding drop_below
drop_below-All t [] h = refl
drop_below-All t (l ∷ ls) h = rw (lt→leb t l h.0) (drop_below-All t ls h.1)

module _ (stream : Stream) where
  wrapped_start :
      (first second : stream.Object)
      → stream.done first ≡ false
      → stream.done second ≡ false
      → stream.current_location second ≡ 0
      → implied_start stream 0 0 (first ∷ second ∷ []) ≡ some isr_sentinel
  unfolding implied_start sub32
  wrapped_start first second active active' early =
      ground (arith, stream.view-below first, stream.done-view first, stream.current-view first)

  sentinel_ends :
      (first : stream.Object) (terms : List stream.Object)
      → (align stream 0 isr_sentinel (first ∷ terms)).ended ≡ true
  unfolding align add32
  sentinel_ends first terms = ground (
    arith,
    stream.seek-answer isr_sentinel first (omega arith),
    drop_below-All isr_sentinel (stream.view first) (stream.view-below first),
  )

  lost_round :
      (isr : IsrPhrase stream) (first second : stream.Object)
      → isr.terms ≡ first ∷ second ∷ []
      → stream.done second ≡ false
      → stream.current_location second ≡ 0
      → (isr' : IsrPhrase stream) × (round stream isr ≡ answer (isr_sentinel, isr'))
        × (isr'.is_exhausted ≡ true)
  unfolding round try_start
  lost_round isr first second two active early = elim (Bool-cases (stream.done first)) [
    | inl over ↦
        let none_left : implied_start stream 0 0 isr.terms ≡ none =
          rw two (unfold implied_start in ground arith) in
        (record isr { is_exhausted = true }, rw (none_left, round), refl)
    | inr running ↦
        let start : implied_start stream 0 0 isr.terms ≡ some isr_sentinel =
          rw two (wrapped_start first second running active early) in
        let ends : (align stream 0 isr_sentinel isr.terms).ended ≡ true =
          rw two (sentinel_ends first (second ∷ [])) in
        (
          record isr { terms = (align stream 0 isr_sentinel isr.terms).terms; is_exhausted = true },
          rw (start, ends, round, try_start),
          refl,
        )
  ]

  -- For a phrase of two terms whose second term is not done and stands at location 0, the first
  -- round answers the sentinel and marks the phrase as exhausted, whatever locations the two terms
  -- have left.
  pub phrase_lost :
      (fuel : ℕ) (isr : IsrPhrase stream) (first second : stream.Object)
      → isr.terms ≡ first ∷ second ∷ []
      → stream.done second ≡ false
      → stream.current_location second ≡ 0
      → (isr' : IsrPhrase stream) × (advance stream (suc fuel) isr ≡ some (isr_sentinel, isr'))
        × (isr'.is_exhausted ≡ true)
  unfolding advance
  phrase_lost fuel isr first second two active early =
      let (isr', run, over) = lost_round isr first second two active early in
      (isr', rw (run, advance), over)
