-- ===== src/Index/Isr/Word/Jump.antt =====
-- When the seek table of a reader is of no use.
use search_engines.Base.{
  ℕ, refl, [], ◌∷◌, zero, suc, none, some, get_or, List, map, length, ◌≡◌, All, ◌<◌, ◌^◌,
}
use search_engines.Index.SeekTable.Bytes.{FitsEntry, stored}
use search_engines.Index.SeekTable.Unused.{deserialize-blank}
use search_engines.Index.Isr.Word.{jump_entry, leads_ahead, IsrWord}
use search_engines.Index.Outcome.{ok}
use search_engines.Index.SeekTable.{
  SeekTable, SeekTableEntry, entry_for_location, blank, entry_count, extract_index, no_posting,
  deserialize, serialize, serialized_size,
}
use search_engines.Index.VByte.{decode_delta_list}

stored_entry :
    (i : ℕ) (table : SeekTable) → (get_or (map stored table) i blank).posting_index ≡ no_posting
stored_entry i [] = refl
stored_entry zero (e ∷ es) = refl
stored_entry (suc i) (e ∷ es) = stored_entry i es

jump_entry-stored :
    (table : SeekTable) (target : ℕ) (isr : IsrWord)
    → jump_entry (some (map stored table)) target isr ≡ none
unfolding jump_entry leads_ahead entry_for_location
jump_entry-stored table target isr = rw (stored_entry (extract_index target) table)

-- When the first of the 256 entries of a stored table has the byte offset 0, the table is read back
-- without an error, and `seek` never jumps through it, whatever the target; provided that the
-- numbers of the entries have 32 bits, and that the list decodes and is shorter than 2^32 bytes.
pub jump_entry-deserialize :
    (encoded locs : List ℕ) (num_postings : ℕ) (e : SeekTableEntry) (es : List SeekTableEntry)
    → length (e ∷ es) ≡ entry_count
    → All FitsEntry (e ∷ es)
    → e.byte_offset ≡ 0
    → length encoded < 2 ^ 32
    → decode_delta_list encoded num_postings ≡ some locs
    → (table : SeekTable) × (deserialize
          (some (serialize (e ∷ es)))
          (some encoded)
          (length encoded)
          num_postings
          serialized_size
        ≡ ok table)
      × ((target : ℕ) (isr : IsrWord) → jump_entry (some table) target isr ≡ none)
jump_entry-deserialize encoded locs num_postings e es size fits first small h = (
  map stored (e ∷ es),
  deserialize-blank encoded locs num_postings e es size fits first small h,
  jump_entry-stored (e ∷ es),
)
