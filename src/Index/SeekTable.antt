-- ===== src/Index/SeekTable.antt =====
-- src/index/src/lib/seek_table.cpp: the table of 256 entry points into a posting list.
-- A pointer is the list of the bytes from it on (`none` is nullptr); a byte offset is the
-- difference of two such lists' lengths. `memcpy` of a 32-bit value is little-endian.
pub mod Bytes
pub mod Unused
use search_engines.Base.{
  ℕ, zero, suc, ◌+◌, ◌-◌, ◌*◌, ◌/◌, ◌%◌, ◌^◌, Bool, true, false, List, [], ◌∷◌, ◌++◌, Option, none,
  some, ◌&&◌, ◌||◌, ltb, ◌==◌, if◌then◌else◌, length, get_or, set, replicate,
}
use search_engines.Index.Outcome.{
  Outcome, ok, failed, invalid_argument, truncated, undefined, ◌>>=◌, ◌>>◌, guard, defined,
}
use search_engines.Index.VByte.{add32, decode}

abbrev pub entry_count : ℕ
entry_count = 256

abbrev pub build_threshold : ℕ
build_threshold = 512

abbrev pub no_posting : ℕ
no_posting = 2 ^ 32 - 1

abbrev pub serialized_size : ℕ
serialized_size = entry_count * 8

pub record SeekTableEntry : Type 0 where
  pub byte_offset : ℕ
  pub base_location : ℕ
  pub posting_index : ℕ

abbrev pub blank : SeekTableEntry
blank = record { byte_offset = 0; base_location = 0; posting_index = no_posting }

abbrev pub SeekTable : Type 0
SeekTable = List SeekTableEntry

unfoldable pub new : SeekTable
new = replicate entry_count blank

unfoldable pub should_build : ℕ → Bool
should_build num_postings = ltb build_threshold num_postings

-- `location >> (32 - IndexBits)`, cast to a byte
unfoldable pub extract_index : ℕ → ℕ
extract_index location = location / 2 ^ 24 % 256

unfoldable pub entry_for_location : SeekTable → ℕ → SeekTableEntry
entry_for_location table location = get_or table (extract_index location) blank

-- The two arrays that the first loop of `build` fills.
pub record Filling : Type 0 where
  pub entries : List SeekTableEntry
  pub initialized : List Bool

unfoldable pub record_posting : ℕ → SeekTableEntry → Filling → Filling
record_posting index e t =
    if get_or t.initialized index false
    then t
    else record { entries = set t.entries index e; initialized = set t.initialized index true }

module _ (encoded : List ℕ) (data_size : ℕ) where
  -- `curr - encoded_deltas`
  unfoldable pub offset_of : List ℕ → ℕ
  offset_of curr = length encoded - length curr

  -- One posting: the check, `decode`, and the running location.
  unfoldable pub read_posting : List ℕ → ℕ → Outcome (ℕ × List ℕ)
  read_posting curr location = do
    guard (ltb (offset_of curr) data_size) truncated
    (delta, rest) ← defined (decode curr)
    ok (add32 location delta, rest)

  -- `posting_idx` counts up while the number of postings left counts down.
  unfoldable pub first_pass : ℕ → ℕ → List ℕ → ℕ → Filling → Outcome Filling
  first_pass zero posting_idx curr location t = ok t
  first_pass (suc left) posting_idx curr location t = do
    (location', rest) ← read_posting curr location
    let e : SeekTableEntry = record {
      byte_offset = offset_of rest % 2 ^ 32;
      base_location = location';
      posting_index = posting_idx;
    }
    first_pass left (posting_idx + 1) rest location' (record_posting (extract_index location') e t)

  -- The inner loop of `addPostingIndexes`: the entries that it marks, and those from
  -- `entry_idx` on that are left.
  unfoldable pub mark : ℕ → ℕ → ℕ → List SeekTableEntry → List SeekTableEntry × List SeekTableEntry
  mark byte_offset location posting_idx [] = ([], [])
  mark byte_offset location posting_idx (e ∷ es) =
      let (marked, left) = mark byte_offset location posting_idx es in
      if (e.byte_offset == byte_offset) && (e.base_location == location)
      then (record e { posting_index = posting_idx } ∷ marked, left)
      else ([], e ∷ es)

  -- The outer loop, over the entries from `entry_idx` on.
  unfoldable pub assign : ℕ → ℕ → List ℕ → ℕ → List SeekTableEntry → Outcome (List SeekTableEntry)
  assign zero posting_idx curr location pending = ok pending
  assign (suc left) posting_idx curr location [] = ok []
  assign (suc left) posting_idx curr location (e ∷ es) = do
    (location', rest) ← read_posting curr location
    let (marked, pending) = mark (offset_of rest % 2 ^ 32) location' posting_idx (e ∷ es)
    final ← assign left (posting_idx + 1) rest location' pending
    ok (marked ++ final)

-- The second loop of `build`; `prev` is `none` while `has_prev` is false.
unfoldable pub forward_fill :
    Option SeekTableEntry → List SeekTableEntry → List Bool → List SeekTableEntry
forward_fill prev (e ∷ es) (true ∷ bs) = e ∷ forward_fill (some e) es bs
forward_fill none (e ∷ es) (false ∷ bs) = e ∷ forward_fill none es bs
forward_fill (some p) (e ∷ es) (false ∷ bs) = p ∷ forward_fill (some p) es bs
forward_fill prev [] bs = []
forward_fill prev (e ∷ es) [] = e ∷ es

unfoldable pub build : Option (List ℕ) → ℕ → ℕ → Outcome SeekTable
build pointer data_size num_postings =
    if (num_postings == 0) || (data_size == 0) then ok new else elim pointer [
      | none ↦ failed invalid_argument
      | some encoded ↦ do
        t ←
            first_pass encoded data_size num_postings 0 encoded 0
              (record { entries = new; initialized = replicate entry_count false })
        ok (forward_fill none t.entries t.initialized)
    ]

unfoldable pub put32 : ℕ → List ℕ
put32 n = n % 256 ∷ n / 256 % 256 ∷ n / 65536 % 256 ∷ n / 16777216 % 256 ∷ []

unfoldable pub serialize : SeekTable → List ℕ
serialize [] = []
serialize (e ∷ es) = put32 e.byte_offset ++ (put32 e.base_location ++ serialize es)

unfoldable pub get32 : List ℕ → Outcome (ℕ × List ℕ)
get32 (a ∷ b ∷ c ∷ d ∷ rest) = ok (a + 256 * b + 65536 * c + 16777216 * d, rest)
get32 _ = failed undefined

unfoldable pub read_entries : ℕ → List ℕ → Outcome SeekTable
read_entries zero ptr = ok []
read_entries (suc k) ptr = do
  (offset, ptr₁) ← get32 ptr
  (base, ptr₂) ← get32 ptr₁
  es ← read_entries k ptr₂
  ok (record { byte_offset = offset; base_location = base; posting_index = no_posting } ∷ es)

unfoldable pub add_posting_indexes : Option (List ℕ) → ℕ → ℕ → SeekTable → Outcome SeekTable
add_posting_indexes none data_size num_postings table = ok table
add_posting_indexes (some encoded) data_size num_postings table =
    if (data_size == 0) || (num_postings == 0)
    then ok table
    else assign encoded data_size num_postings 0 encoded 0 table

unfoldable pub deserialize : Option (List ℕ) → Option (List ℕ) → ℕ → ℕ → ℕ → Outcome SeekTable
deserialize none encoded data_size num_postings size = failed invalid_argument
deserialize (some bytes) encoded data_size num_postings size = do
  guard (size == serialized_size) invalid_argument
  table ← read_entries entry_count bytes
  add_posting_indexes encoded data_size num_postings table
