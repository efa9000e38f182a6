-- ===== src/Index/Isr/Word/Seek.antt =====
-- `ISRWord::seek`, with and without a seek table.
use search_engines.Base.{
  ℕ, ◌+◌, ◌≤◌, ◌<◌, ◌≡◌, refl, List, [], ◌∷◌, ◌++◌, arith, All, length, lt→leb, drop, Option-cases,
  some, ◌⊎◌, none, inl, inr, length-append, true, ap, ◌∙◌, suc, sym, Bool-cases, Option, leb, subst,
  lt→ltb,
}
use search_engines.Index.Isr.Word.View.{Reads, Lands, seek_loop-Lands}
use search_engines.Index.Isr.Word.{
  IsrWord, leap, leads_ahead, seek_loop, rounds, ok, jump_entry, seek,
}
use search_engines.Index.SeekTable.{SeekTable, SeekTableEntry, entry_for_location, no_posting}
use search_engines.Index.VByte.{decode_deltas, add32}
use search_engines.Index.Isr.{isr_sentinel}
use search_engines.Index.Isr.Stream.{drop_below}
use search_engines.Index.VByte.Delta.{add32-one}

-- What an entry of the table says, for a target that it is looked up with: it is the place behind
-- a posting, and all the postings before that one are below the target.
pub record IsEntry (locs content : List ℕ) (target : ℕ) (e : SeekTableEntry) : Type 0 where
  pub skipped : List ℕ
  pub later : List ℕ
  pub whole : locs ≡ skipped ++ e.base_location ∷ later
  pub index : e.posting_index ≡ length skipped
  pub below : All (λ l. l < target) skipped
  pub resume :
      decode_deltas (length later) (drop e.byte_offset content) e.base_location ≡ some later

-- Every lookup in the table finds a blank entry or such a place.
abbrev pub Guides : List ℕ → List ℕ → SeekTable → Type 0
Guides locs content table =
    (target : ℕ)
    → target ≤ isr_sentinel
    → ((entry_for_location table target).posting_index ≡ no_posting)
      ⊎ IsEntry locs content target (entry_for_location table target)

abbrev pub GuidedBy : List ℕ → List ℕ → Option SeekTable → Type 0
GuidedBy locs content none = Unit {0}
GuidedBy locs content (some table) = Guides locs content table

-- A reader without a seek table, or with one that fits its bytes.
abbrev pub IsGuided : List ℕ → IsrWord → Type 0
IsGuided locs isr = GuidedBy locs isr.content isr.seek_table

drop_below-append :
    (target : ℕ) (xs ys : List ℕ)
    → All (λ l. l < target) xs
    → drop_below target (xs ++ ys) ≡ drop_below target ys
unfolding drop_below
drop_below-append target [] ys h = refl
drop_below-append target (x ∷ xs) ys h =
    rw (lt→leb target x h.0) (drop_below-append target xs ys h.1)

-- Two splits of one list: what holds on the longer front holds on the shorter.
All-shorter_front :
    (P : ℕ → Type 0) (xs ys us vs : List ℕ)
    → xs ++ ys ≡ us ++ vs
    → length xs ≤ length us
    → All P us
    → All P xs
All-shorter_front P [] ys us vs e h a = tt
All-shorter_front P (x ∷ xs) ys [] vs e h a = absurd (omega arith)
All-shorter_front P (x ∷ xs) ys (u ∷ us) vs e h a =
    let here : u ≡ x = cc in
    (rw here at a.0, All-shorter_front P xs ys us vs (cc) (omega arith) a.1)

length-split :
    (xs : List ℕ) (y : ℕ) (zs : List ℕ) → length (xs ++ y ∷ zs) ≡ length xs + 1 + length zs
length-split xs y zs = omega (arith, length-append xs (y ∷ zs))

module _ (target : ℕ) (locs : List ℕ) (isr : IsrWord) {loc : ℕ} (later : List ℕ)
    (ht : target ≤ isr_sentinel) (fits : length locs ≤ isr_sentinel)
    (r : Reads locs isr loc later) where
  -- Where a jump leads to an entry that lies ahead.
  leap-Reads :
      (e : SeekTableEntry) (en : IsEntry locs isr.content target e)
      → leads_ahead e isr ≡ true
      → Reads locs (leap e isr) e.base_location en.later
        × (drop_below target (loc ∷ later) ≡ drop_below target (e.base_location ∷ en.later))
  unfolding leap leads_ahead
  leap-Reads e en ahead =
      let size = ap length en.whole ∙ length-split en.skipped e.base_location en.later in
      let size' = ap length r.whole ∙ length-split r.before loc later in
      let index : add32 e.posting_index 1 ≡ suc (length en.skipped) =
        omega (arith, add32-one e.posting_index (omega (arith, en.index)), en.index) in
      let further : suc (length r.before) < suc (length en.skipped) =
        ground (arith, index, r.index) in
      let below =
        All-shorter_front (λ l. l < target) r.before (loc ∷ later) en.skipped
          (e.base_location ∷ en.later) (sym r.whole ∙ en.whole) (omega arith) en.below in
      (
        record {
          before = en.skipped;
          whole = en.whole;
          index = index;
          total = omega (arith, index, r.total, r.index);
          here = refl;
          active = r.active;
          rest = en.resume;
        },
        sym (drop_below-append target r.before (loc ∷ later) below)
            ∙ ap (drop_below target) (sym r.whole ∙ en.whole)
            ∙ drop_below-append target en.skipped (e.base_location ∷ en.later) en.below,
      )

  seek_from_Lands :
      (isr' : IsrWord) {loc' : ℕ} (later' : List ℕ)
      → Reads locs isr' loc' later'
      → loc' < target
      → (res : ℕ × IsrWord) × (seek_loop (rounds isr') target isr' ≡ ok (some res))
        × Lands locs (drop_below target (loc' ∷ later')) res
  unfolding drop_below
  seek_from_Lands isr' {loc'} later' r' small =
      rw (lt→leb target loc' small)
        (seek_loop-Lands (rounds isr') target locs isr' later' ht (omega (arith, r'.total)) r')

  jump_entry_found :
      (table : Option SeekTable) (e : SeekTableEntry)
      → GuidedBy locs isr.content table
      → jump_entry table target isr ≡ some e
      → IsEntry locs isr.content target e × (leads_ahead e isr ≡ true)
  unfolding jump_entry leads_ahead
  jump_entry_found none e g h = cc
  jump_entry_found (some t) e g h =
      elim (Bool-cases (leads_ahead (entry_for_location t target) isr)) [
        | inr behind ↦ cc (rw behind at h)
        | inl ahead ↦
            let same : entry_for_location t target ≡ e = cc (rw ahead at h) in
            elim (g target ht) [
              | inl empty ↦ absurd (ground arith)
              | inr en ↦ (subst (IsEntry locs isr.content target) same en, rw same at ahead)
            ]
      ]

  -- For a reader that stands at a location of a posting list of fewer than 2^32 postings, with no
  -- seek table or with one whose entries fit its bytes, and a target of at most 2^32 - 1: `seek`
  -- finds the first location from the current one on that is not below the target, and stands
  -- there; where there is none, it returns the sentinel and marks the reader as exhausted. It never
  -- reads outside the buffer, and its loop ends.
  pub seek-Lands :
      IsGuided locs isr
      → (res : ℕ × IsrWord) × (seek target isr ≡ ok (some res))
        × Lands locs (drop_below target (loc ∷ later)) res
  unfolding seek drop_below
  seek-Lands g = elim (Bool-cases (leb target loc)) [
    | inl e ↦ (
      (loc, isr),
      simp (r.active, r.here, e, r.index, lt→ltb 0 (suc (length r.before)) (omega arith)),
      rw e (refl, r),
    )
    | inr e ↦ elim (Option-cases (jump_entry isr.seek_table target isr)) [
      | inl none_found ↦
          let (res, run, lands) = seek_from_Lands isr later r (ground arith) in
          (res, simp (r.active, r.here, e, none_found) run, lands)
      | inr (entry, found) ↦
          let (en, ahead) = jump_entry_found isr.seek_table entry g found in
          let (reads, same) = leap-Reads entry en ahead in
          elim (Bool-cases (leb target entry.base_location)) [
            | inl e' ↦ (
              (entry.base_location, leap entry isr),
              simp (r.active, r.here, e, found, reads.here, e'),
              rw (same, e') (refl, reads),
            )
            | inr e' ↦
                let (res, run, lands) =
                  seek_from_Lands (leap entry isr) en.later reads (ground arith) in
                (res, simp (r.active, r.here, e, found, reads.here, e') run, rw same lands)
          ]
    ]
  ]
