-- ===== src/Index/Isr/Word/Kept.antt =====
-- src/index/src/lib/isr.cpp: `next` and `seek` leave the buffer and the seek table alone.
use search_engines.Base.{
  if◌then◌else◌, ℕ, zero, suc, ◌≡◌, refl, Option, none, some, Bool, true, false, List, leb, ◌∙◌,
  ◌&&◌, ◌+◌, ltb,
}
use search_engines.Index.Outcome.{◌>>=◌, Outcome, ok, failed, defined}
use search_engines.Index.VByte.{decode, add32}
use search_engines.Index.Isr.Word.{IsrWord, next, seek, seek_loop, leap, jump_entry, rounds}
use search_engines.Index.SeekTable.{SeekTableEntry}

-- The same buffer and table.
abbrev pub IsSame : IsrWord → IsrWord → Type 0
IsSame isr isr' = (isr'.content ≡ isr.content) × (isr'.seek_table ≡ isr.seek_table)

abbrev pub Keeps : IsrWord → Outcome (ℕ × IsrWord) → Type 0
Keeps isr (ok r) = IsSame isr r.1
Keeps isr (failed e) = Unit

abbrev pub KeepsFound : IsrWord → Outcome (Option (ℕ × IsrWord)) → Type 0
KeepsFound isr (ok (some r)) = IsSame isr r.1
KeepsFound isr (ok none) = Unit
KeepsFound isr (failed e) = Unit

Keeps-if :
    (isr : IsrWord) (c : Bool) (a b : Outcome (ℕ × IsrWord))
    → Keeps isr a
    → Keeps isr b
    → Keeps isr (if c then a else b)
Keeps-if isr true a b h k = h
Keeps-if isr false a b h k = k

KeepsFound-if :
    (isr : IsrWord) (c : Bool) (a b : Outcome (Option (ℕ × IsrWord)))
    → KeepsFound isr a
    → KeepsFound isr b
    → KeepsFound isr (if c then a else b)
KeepsFound-if isr true a b h k = h
KeepsFound-if isr false a b h k = k

step-Keeps :
    (isr : IsrWord) (read : Option (ℕ × List ℕ))
    → Keeps isr (do
      (delta, rest) ← defined read
      let loc = add32 isr.current_loc delta
      ok (
        loc,
        record isr { current_loc = loc; current_index = isr.current_index + 1; current_ptr = rest },
      ))
step-Keeps isr none = tt
step-Keeps isr (some (delta, rest)) = (refl, refl)

pub next-Keeps : (isr : IsrWord) → Keeps isr (next isr)
unfolding next
next-Keeps isr =
    Keeps-if isr isr.is_exhausted _ _ (refl, refl)
      (Keeps-if isr (leb isr.num_postings isr.current_index) _ _ (refl, refl)
        (step-Keeps isr (decode isr.current_ptr)))

KeepsFound-trans :
    (isr isr' : IsrWord) (o : Outcome (Option (ℕ × IsrWord)))
    → IsSame isr isr'
    → KeepsFound isr' o
    → KeepsFound isr o
KeepsFound-trans isr isr' (ok (some r)) h k = (k.0 ∙ h.0, k.1 ∙ h.1)
KeepsFound-trans isr isr' (ok none) h k = tt
KeepsFound-trans isr isr' (failed e) h k = tt

seek_loop-Keeps : (fuel target : ℕ) (isr : IsrWord) → KeepsFound isr (seek_loop fuel target isr)
unfolding seek_loop
seek_loop-Keeps zero target isr = tt
seek_loop-Keeps (suc fuel) target isr =
    KeepsFound-if isr isr.is_exhausted _ _ (refl, refl)
      (go (next isr) (next-Keeps isr) (λ isr'. seek_loop-Keeps fuel target isr'))
  where
    go :
        (o : Outcome (ℕ × IsrWord))
        → Keeps isr o
        → ((isr' : IsrWord) → KeepsFound isr' (seek_loop fuel target isr'))
        → KeepsFound isr (do
          (loc, isr') ← o
          let more = seek_loop fuel target isr'
          if leb target loc then ok (some (loc, isr')) else more)
    go (failed e) h rest = tt
    go (ok (loc, isr')) h rest =
        KeepsFound-if isr (leb target loc) _ _ h
          (KeepsFound-trans isr isr' (seek_loop fuel target isr') h (rest isr'))

pub seek-Keeps : (target : ℕ) (isr : IsrWord) → KeepsFound isr (seek target isr)
unfolding seek leap
seek-Keeps target isr =
    KeepsFound-if isr isr.is_exhausted _ _ (refl, refl)
      (KeepsFound-if isr (leb target isr.current_loc && ltb 0 isr.current_index) _ _ (refl, refl)
        (go (jump_entry isr.seek_table target isr)))
  where
    go :
        (o : Option SeekTableEntry)
        → KeepsFound isr (elim o [
          | none ↦ seek_loop (rounds isr) target isr
          | some e ↦
              let isr' = leap e isr in
              if leb target isr'.current_loc
              then ok (some (isr'.current_loc, isr'))
              else seek_loop (rounds isr') target isr'
        ])
    go none = seek_loop-Keeps (rounds isr) target isr
    go (some e) =
        let isr' = leap e isr in
        KeepsFound-if isr (leb target isr'.current_loc) _ _ (refl, refl)
          (KeepsFound-trans isr isr' (seek_loop (rounds isr') target isr') (refl, refl)
            (seek_loop-Keeps (rounds isr') target isr'))
