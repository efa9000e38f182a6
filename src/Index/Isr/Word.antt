-- ===== src/Index/Isr/Word.antt =====
-- src/index/src/lib/isr.cpp: ISRWord, the reader of one posting list on disk.
pub mod View
pub mod Seek
pub mod Jump
pub mod Kept
pub mod Streams
use search_engines.Base.{
  ℕ, zero, suc, ◌+◌, ◌-◌, ◌^◌, Bool, true, false, ◌&&◌, not, List, Option, none, some, ltb, leb,
  ◌==◌, if◌then◌else◌, drop,
}
use search_engines.Index.Outcome.{Outcome, ok, ◌>>=◌, defined}
use search_engines.Index.Isr.{isr_sentinel}
use search_engines.Index.VByte.{add32, decode}
use search_engines.Index.SeekTable.{SeekTable, SeekTableEntry, entry_for_location, no_posting}

pub record IsrWord : Type 0 where
  pub num_postings : ℕ
  pub current_index : ℕ
  pub current_loc : ℕ
  pub content : List ℕ
  pub current_ptr : List ℕ
  pub seek_table : Option SeekTable
  pub is_exhausted : Bool

-- A method returns the location and the new state.
unfoldable pub next : IsrWord → Outcome (ℕ × IsrWord)
next isr =
    if isr.is_exhausted
    then ok (isr_sentinel, isr)
    else if leb isr.num_postings isr.current_index
    then ok (isr_sentinel, record isr { current_loc = isr_sentinel; is_exhausted = true })
    else do
      (delta, rest) ← defined (decode isr.current_ptr)
      let loc = add32 isr.current_loc delta
      ok (
        loc,
        record isr { current_loc = loc; current_index = isr.current_index + 1; current_ptr = rest },
      )

unfoldable pub new : List ℕ → ℕ → Option SeekTable → Outcome IsrWord
new content num_postings table =
    let isr : IsrWord = record {
      num_postings = num_postings;
      current_index = 0;
      current_loc = 0;
      content = content;
      current_ptr = content;
      seek_table = table;
      is_exhausted = num_postings == 0;
    } in
    if num_postings == 0 then ok isr else do (loc, started) ← next isr; ok started

-- `while (!done()) { loc = next(); if (loc >= target) return loc; } return ISRSentinel;`
-- with fuel; a run out of fuel is told apart by `none`.
unfoldable pub seek_loop : ℕ → ℕ → IsrWord → Outcome (Option (ℕ × IsrWord))
seek_loop zero target isr = ok none
seek_loop (suc fuel) target isr = if isr.is_exhausted then ok (some (isr_sentinel, isr)) else do
  (loc, isr') ← next isr
  let more = seek_loop fuel target isr'
  if leb target loc then ok (some (loc, isr')) else more

-- Where a jump through the entry `e` leads; `entry.posting_index + 1` is a `uint32_t`.
unfoldable pub leap : SeekTableEntry → IsrWord → IsrWord
leap e isr = record isr {
  current_ptr = drop e.byte_offset isr.content;
  current_loc = e.base_location;
  current_index = add32 e.posting_index 1;
}

unfoldable pub leads_ahead : SeekTableEntry → IsrWord → Bool
leads_ahead e isr =
    not (e.posting_index == no_posting) && ltb isr.current_index (add32 e.posting_index 1)

-- The entry that is jumped to, if any.
unfoldable pub jump_entry : Option SeekTable → ℕ → IsrWord → Option SeekTableEntry
jump_entry none target isr = none
jump_entry (some table) target isr =
    let e = entry_for_location table target in if leads_ahead e isr then some e else none

-- The rounds that the loop can make: one for each posting left, one past the end, one to stop.
abbrev pub rounds : IsrWord → ℕ
rounds isr = isr.num_postings + 2 - isr.current_index

unfoldable pub seek : ℕ → IsrWord → Outcome (Option (ℕ × IsrWord))
seek target isr =
    if isr.is_exhausted
    then ok (some (isr_sentinel, isr))
    else if leb target isr.current_loc && ltb 0 isr.current_index
    then ok (some (isr.current_loc, isr))
    else elim (jump_entry isr.seek_table target isr) [
      | none ↦ seek_loop (rounds isr) target isr
      | some e ↦
          let isr' = leap e isr in
          if leb target isr'.current_loc
          then ok (some (isr'.current_loc, isr'))
          else seek_loop (rounds isr') target isr'
    ]
