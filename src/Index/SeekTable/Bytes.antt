-- ===== src/Index/SeekTable/Bytes.antt =====
-- The stored form of a seek table, and the tables whose entries stay unused.
use search_engines.Base.{ℕ, refl, [], ◌∷◌, All, List, length, ◌++◌, ◌≡◌, ap, map, arith}
use search_engines.Index.SeekTable.{
  SeekTable, SeekTableEntry, serialize, read_entries, get32, no_posting, put32,
}
use search_engines.Index.Outcome.{ok}
use search_engines.Index.VByte.{IsU32}

-- An entry whose numbers have 32 bits.
abbrev pub FitsEntry : SeekTableEntry → Type 0
FitsEntry e = IsU32 e.byte_offset × IsU32 e.base_location

-- An entry as it is stored, without its posting index.
abbrev pub stored : SeekTableEntry → SeekTableEntry
stored e = record e { posting_index = no_posting }

get32-put32 : (n : ℕ) (rest : List ℕ) → IsU32 n → get32 (put32 n ++ rest) ≡ ok (n, rest)
unfolding get32 put32
get32-put32 n rest h = ap (λ k. ok (k, rest)) (omega arith)

-- What `serialize` wrote is read back entry by entry, but for the posting indexes, when the numbers
-- of the entries have 32 bits.
pub read_entries-serialize :
    (table : SeekTable)
    → All FitsEntry table
    → read_entries (length table) (serialize table) ≡ ok (map stored table)
unfolding read_entries serialize
read_entries-serialize [] h = refl
read_entries-serialize (e ∷ es) h = rw (
  get32-put32 e.byte_offset (put32 e.base_location ++ serialize es) h.0.0,
  get32-put32 e.base_location (serialize es) h.0.1,
  read_entries-serialize es h.1,
)
