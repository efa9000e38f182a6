-- ===== src/Index/Isr/Word/Streams.antt =====
-- src/index/src/lib/isr.cpp and isr.h: the reader of a posting list as a stream.
use search_engines.Base.{
  ℕ, ◌%◌, ◌^◌, ◌≤◌, ◌<◌, ◌≡◌, refl, sym, ap, ◌∙◌, List, [], ◌∷◌, ◌++◌, All, Option, some, true,
  false, length, arith, subst,
}
use search_engines.Index.Outcome.{ok}
use search_engines.Index.SeekTable.{SeekTable}
use search_engines.Index.Isr.{isr_sentinel}
use search_engines.Index.Isr.Stream.{Stream, drop_below, head_location, later, is_nil}
use search_engines.Index.Isr.Word.{IsrWord, next, seek}
use search_engines.Index.Isr.Word.Kept.{IsSame, Keeps, KeepsFound, next-Keeps, seek-Keeps}
use search_engines.Index.Isr.Word.Seek.{GuidedBy, seek-Lands}
use search_engines.Index.Isr.Word.View.{Lands, Reads, next-Lands}

All-behind : (P : ℕ → Type 0) (xs ys : List ℕ) → All P (xs ++ ys) → All P ys
All-behind P [] ys h = h
All-behind P (x ∷ xs) ys h = All-behind P xs ys h.1

module _ (locs content : List ℕ) (table : Option SeekTable) (fits : length locs ≤ isr_sentinel)
    (below : All (λ l. l < isr_sentinel) locs) (guided : GuidedBy locs content table) where
  -- The reader of the posting list has these locations left.
  abbrev Stands : List ℕ → IsrWord → Type 0
  Stands [] isr = isr.is_exhausted ≡ true
  Stands (l ∷ ls) isr = Reads locs isr l ls × (isr.content ≡ content) × (isr.seek_table ≡ table)

  abbrev Reader : Type 0
  Reader = (isr : IsrWord) × ((view : List ℕ) × Stands view isr)

  -- What a call of the code returns, when `view` is what is left behind it.
  abbrev Returns : List ℕ → ℕ × IsrWord → Type 0
  Returns view r = (r.0 ≡ head_location view) × Stands view r.1

  Lands-Returns :
      (view : List ℕ) (r : ℕ × IsrWord)
      → Lands locs view r
      → r.1.content ≡ content
      → r.1.seek_table ≡ table
      → Returns view r
  Lands-Returns [] r (end, over) c t = (end, over)
  Lands-Returns (l ∷ ls) r (at, reads) c t = (at, (reads, c, t))

  next-Returns :
      (view : List ℕ) (isr : IsrWord)
      → Stands view isr
      → (r : ℕ × IsrWord) × (next isr ≡ ok r) × Returns (later view) r
  unfolding next
  next-Returns [] isr over = ((isr_sentinel, isr), rw over refl, (refl, over))
  next-Returns (l ∷ ls) isr (reads, c, t) =
      let (r, run, lands) = next-Lands locs isr ls reads in
      let same : IsSame isr r.1 = subst (Keeps isr) run (next-Keeps isr) in
      (r, run, Lands-Returns ls r lands (same.0 ∙ c) (same.1 ∙ t))

  seek-Returns :
      (target : ℕ) (view : List ℕ) (isr : IsrWord)
      → target ≤ isr_sentinel
      → Stands view isr
      → (r : ℕ × IsrWord) × (seek target isr ≡ ok (some r)) × Returns (drop_below target view) r
  unfolding seek
  seek-Returns target [] isr ht over =
      ((isr_sentinel, isr), rw over refl, unfold drop_below in (refl, over))
  seek-Returns target (l ∷ ls) isr ht (reads, c, t) =
      let (r, run, lands) = seek-Lands target locs isr ls ht fits reads (
        subst (λ u. GuidedBy locs u isr.seek_table) (sym c)
          (subst (GuidedBy locs content) (sym t) guided)) in
      let same : IsSame isr r.1 = subst (KeepsFound isr) run (seek-Keeps target isr) in
      (r, run, Lands-Returns (drop_below target (l ∷ ls)) r lands (same.0 ∙ c) (same.1 ∙ t))

  -- The calls of the code on a reader; a target is converted to 32 bits.
  abbrev next_reader : Reader → ℕ × Reader
  next_reader (isr, (view, stands)) =
      let (r, run, returns) = next-Returns view isr stands in (r.0, (r.1, (later view, returns.1)))

  abbrev seek_reader : ℕ → Reader → ℕ × Reader
  seek_reader t (isr, (view, stands)) =
      let target = t % 2 ^ 32 in
      let (r, run, returns) = seek-Returns target view isr (omega arith) stands in
      (r.0, (r.1, (drop_below target view, returns.1)))

  Stands-done : (view : List ℕ) (isr : IsrWord) → Stands view isr → isr.is_exhausted ≡ is_nil view
  Stands-done [] isr over = over
  Stands-done (l ∷ ls) isr (reads, c, t) = reads.active

  Stands-current :
      (view : List ℕ) (isr : IsrWord)
      → Stands view isr
      → isr.is_exhausted ≡ false
      → isr.current_loc ≡ head_location view
  Stands-current [] isr over active = cc
  Stands-current (l ∷ ls) isr (reads, c, t) active = reads.here

  Stands-below :
      (view : List ℕ) (isr : IsrWord) → Stands view isr → All (λ l. l < isr_sentinel) view
  Stands-below [] isr over = tt
  Stands-below (l ∷ ls) isr (reads, c, t) =
      All-behind (λ m. m < isr_sentinel) reads.before (l ∷ ls)
        (subst (All (λ m. m < isr_sentinel)) reads.whole below)

  target_eq : (t : ℕ) → t ≤ isr_sentinel → t % 2 ^ 32 ≡ t
  target_eq t h = omega arith

  abbrev words : Stream
  words = record {
    Object = Reader;
    next = next_reader;
    seek = seek_reader;
    current_location = λ (isr, o). isr.current_loc;
    done = λ (isr, o). isr.is_exhausted;
    view = λ (isr, (view, stands)). view;
    done-view = λ (isr, (view, stands)). Stands-done view isr stands;
    current-view = λ (isr, (view, stands)) active. Stands-current view isr stands active;
    next-view = λ o. refl;
    next-answer = λ (isr, (view, stands)). (next-Returns view isr stands).2.0;
    seek-view = λ t (isr, (view, stands)) h. ap (λ u. drop_below u view) (target_eq t h);
    seek-answer = λ t (isr, (view, stands)) h.
        (seek-Returns (t % 2 ^ 32) view isr (omega arith) stands).2.0
        ∙ ap (λ u. head_location (drop_below u view)) (target_eq t h);
    view-below = λ (isr, (view, stands)). Stands-below view isr stands;
  }
