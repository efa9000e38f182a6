-- ===== src/Index/Isr/Word/View.antt =====
-- A reader as the list of the locations that it still stands before, and what `next` and `seek`
-- do to that list.
use search_engines.Base.{
  ℕ, zero, suc, ◌+◌, ◌≤◌, ◌<◌, ◌≡◌, refl, sym, ◌∙◌, true, false, List, [], ◌∷◌, ◌++◌, some, leb,
  length, length-append, append_assoc, arith, Bool-cases, inl, inr, le→leb,
}
use search_engines.Index.Outcome.{ok}
use search_engines.Index.Isr.{isr_sentinel}
use search_engines.Index.VByte.{decode_deltas}
use search_engines.Index.VByte.Delta.{decode_deltas_head}
use search_engines.Index.Isr.Word.{IsrWord, next, seek_loop}
use search_engines.Index.Isr.Stream.{drop_below}

-- The reader stands at `loc` of the posting list `locs`, and `later` follows.
pub record Reads (locs : List ℕ) (isr : IsrWord) (loc : ℕ) (later : List ℕ) : Type 0 where
  pub before : List ℕ
  pub whole : locs ≡ before ++ loc ∷ later
  pub index : isr.current_index ≡ suc (length before)
  pub total : isr.current_index + length later ≡ isr.num_postings
  pub here : isr.current_loc ≡ loc
  pub active : isr.is_exhausted ≡ false
  pub rest : decode_deltas (length later) isr.current_ptr isr.current_loc ≡ some later

-- What a call returns, and where it leaves the reader, when `view` is what is left.
abbrev pub Lands : List ℕ → List ℕ → ℕ × IsrWord → Type 0
Lands locs [] (loc, isr) = (loc ≡ isr_sentinel) × (isr.is_exhausted ≡ true)
Lands locs (l ∷ later) (loc, isr) = (loc ≡ l) × Reads locs isr l later

pub next-end :
    (locs : List ℕ) (isr : IsrWord) {loc : ℕ}
    → Reads locs isr loc []
    → next isr ≡ ok (isr_sentinel, record isr { current_loc = isr_sentinel; is_exhausted = true })
unfolding next
next-end locs isr r = ground arith

pub next-Reads :
    (locs : List ℕ) (isr : IsrWord) {loc l : ℕ} {later : List ℕ}
    → Reads locs isr loc (l ∷ later)
    → (isr' : IsrWord) × (next isr ≡ ok (l, isr')) × Reads locs isr' l later
unfolding next
next-Reads locs isr {loc} {l} {later} r =
    let (delta, rest, e, here, more) =
      decode_deltas_head (length later) isr.current_ptr isr.current_loc l later r.rest in
    let isr' : IsrWord = record isr {
      current_loc = l;
      current_index = isr.current_index + 1;
      current_ptr = rest;
    } in
    (
      isr',
      ground (arith, e, here, r.total, r.active),
      record {
        before = r.before ++ loc ∷ [];
        whole = r.whole ∙ sym (append_assoc r.before (loc ∷ []) (l ∷ later));
        index = omega (arith, r.index, length-append r.before (loc ∷ []));
        total = omega (arith, r.total);
        here = refl;
        active = r.active;
        rest = more;
      },
    )

-- For a reader that stands at a location of a posting list: `next` returns the location behind the
-- current one and stands there, and at the end of the list it returns the sentinel and marks the
-- reader as exhausted.
pub next-Lands :
    (locs : List ℕ) (isr : IsrWord) {loc : ℕ} (later : List ℕ)
    → Reads locs isr loc later
    → (r : ℕ × IsrWord) × (next isr ≡ ok r) × Lands locs later r
next-Lands locs isr [] r = (_, next-end locs isr r, (refl, refl))
next-Lands locs isr (l ∷ later) r =
    let (isr', run, reads) = next-Reads locs isr r in ((l, isr'), run, (refl, reads))

-- The loop goes on to the first location that is not below the target, or to the end.
pub seek_loop-Lands :
    (fuel target : ℕ) (locs : List ℕ) (isr : IsrWord) {loc : ℕ} (later : List ℕ)
    → target ≤ isr_sentinel
    → length later < fuel
    → Reads locs isr loc later
    → (r : ℕ × IsrWord) × (seek_loop fuel target isr ≡ ok (some r))
      × Lands locs (drop_below target later) r
unfolding seek_loop drop_below
seek_loop-Lands zero target locs isr later ht hf r = absurd (omega arith)
seek_loop-Lands (suc fuel) target locs isr [] ht hf r = (
  (isr_sentinel, record isr { current_loc = isr_sentinel; is_exhausted = true }),
  simp (r.active, next-end locs isr r, le→leb target isr_sentinel ht),
  (refl, refl),
)
seek_loop-Lands (suc fuel) target locs isr (l ∷ later) ht hf r =
    let (isr', run, reads) = next-Reads locs isr r in
    elim (Bool-cases (leb target l)) [
      | inl e ↦ ((l, isr'), simp (r.active, run, e), rw e (refl, reads))
      | inr e ↦
          let (result, run', lands) =
            seek_loop-Lands fuel target locs isr' later ht (omega arith) reads in
          (result, simp (r.active, run, e) run', rw e lands)
    ]
