-- ===== src/Crawler/ChunkFile.antt =====
-- src/crawler/frontier.cpp: the files that hold the items the frontier has no room for. A file is the
-- text in it; opening and closing it is left to the caller.
pub mod RoundTrip
use search_engines.Base.{
  ℕ, suc, zero, Text, List, [], ◌∷◌, ◌++◌, Option, some, none, if◌then◌else◌, ◌==◌, c_string,
  length, ◌>>=◌,
}
use search_engines.Crawler.Bloom.{is_empty}
use search_engines.Crawler.FrontierItem.{FrontierItem, deserialize_from_line, serialize_to_line}

-- What `fprintf` writes for an item.
unfoldable pub line_of : FrontierItem → Text
line_of item = c_string (serialize_to_line item) ++ 10 ∷ []

unfoldable pub write_disk_chunk : List FrontierItem → Text
write_disk_chunk [] = []
write_disk_chunk (item ∷ items) = line_of item ++ write_disk_chunk items

-- `fgets`: at most `n` characters, up to the end of the line with it, and what is left of the file.
unfoldable pub fgets : ℕ → Text → Text × Text
fgets zero s = ([], s)
fgets (suc n) [] = ([], [])
fgets (suc n) (c ∷ s) =
    let more = fgets n s in if c == 10 then (c ∷ [], s) else (c ∷ more.0, more.1)

-- The buffer holds 8192 characters, the last of which is the NUL.
abbrev pub buffer_room : ℕ
buffer_room = 8191

-- A string without the end of the line at its end.
unfoldable pub strip_newline : Text → Text
strip_newline [] = []
strip_newline (c ∷ []) = if c == 10 then [] else c ∷ []
strip_newline (c ∷ d ∷ s) = c ∷ strip_newline (d ∷ s)

-- The item of a line that is not empty, before those of the other lines.
abbrev pub with_line : Text → Option (List FrontierItem) → Option (List FrontierItem)
with_line line more =
    if is_empty line
    then more
    else deserialize_from_line line >>= λ item. more >>= λ items. some (item ∷ items)

-- The loop of `readDiskChunk`; as many rounds as the file has characters, and one, are enough.
-- `none` is an item with a number that its type does not hold.
unfoldable pub read_lines : ℕ → Text → Option (List FrontierItem)
read_lines zero s = none
read_lines (suc n) [] = some []
read_lines (suc n) (c ∷ s) =
    let piece = fgets buffer_room (c ∷ s) in
    let more = read_lines n piece.1 in with_line (strip_newline (c_string piece.0)) more

unfoldable pub read_disk_chunk : Text → Option (List FrontierItem)
read_disk_chunk s = read_lines (suc (length s)) s
