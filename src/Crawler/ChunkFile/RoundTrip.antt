-- ===== src/Crawler/ChunkFile/RoundTrip.antt =====
-- src/crawler/frontier.cpp: the items of a chunk file come back.
use search_engines.Base.{
  ℕ, ◌<◌, suc, zero, Text, List, [], ◌∷◌, ◌++◌, ◌≡◌, refl, false, ◌==◌, All, arith, length, some,
  All-append, c_string, bar, ap, Bool, Bool-cases, length-append, ◌∙◌, append_assoc, inl, true, inr,
}
use search_engines.Crawler.Bloom.{is_empty}
use search_engines.Crawler.Decimal.{IsDigits, print, decimal-IsDigits, decimal}
use search_engines.Crawler.FrontierItem.{
  FrontierItem, serialize_to_line, with_bar, clean_link, suffix_number, ends_line, failed_mark,
}
use search_engines.Crawler.FrontierItem.RoundTrip.{
  IsWritable, deserialize_from_line-serialize_to_line,
}
use search_engines.Crawler.ChunkFile.{
  line_of, write_disk_chunk, fgets, read_lines, strip_newline, read_disk_chunk, with_line,
}

-- Neither the end of a line nor the end of a string.
abbrev pub IsInLine : ℕ → Type 0
IsInLine c = ((c == 10) ≡ false) × ((c == 0) ≡ false)

-- An item whose line is read back as it was written: it has no NUL, and it fits the buffer.
pub record IsLine (item : FrontierItem) : Type 0 where
  pub writable : IsWritable item
  pub nul_free : All (λ c. (c == 0) ≡ false) item.link
  pub short : length (serialize_to_line item) < 8191

fgets-line :
    (n : ℕ) (l rest : Text)
    → All IsInLine l
    → length l < n
    → fgets n (l ++ (10 ∷ rest)) ≡ (l ++ 10 ∷ [], rest)
unfolding fgets
fgets-line zero l rest h le = absurd (omega arith)
fgets-line (suc n) [] rest h le = refl
fgets-line (suc n) (c ∷ l) rest (h, hs) le =
    let more = fgets-line n l rest hs (omega arith) in rw (h.0, more) refl

c_string-line : (l : Text) → All IsInLine l → c_string (l ++ 10 ∷ []) ≡ l ++ 10 ∷ []
c_string-line [] h = refl
c_string-line (c ∷ l) (h, hs) = rw h.1 (ap (λ t. c ∷ t) (c_string-line l hs))

c_string-whole : (l : Text) → All IsInLine l → c_string l ≡ l
c_string-whole [] h = refl
c_string-whole (c ∷ l) (h, hs) = rw h.1 (ap (λ t. c ∷ t) (c_string-whole l hs))

strip_newline-line : (l : Text) → strip_newline (l ++ 10 ∷ []) ≡ l
unfolding strip_newline
strip_newline-line [] = refl
strip_newline-line (c ∷ []) = refl
strip_newline-line (c ∷ d ∷ l) = ap (λ t. c ∷ t) (strip_newline-line (d ∷ l))

digits-InLine : (s : Text) → IsDigits s → All IsInLine s
digits-InLine [] h = tt
digits-InLine (c ∷ s) (h, hs) = ((ground (arith, h), ground (arith, h)), digits-InLine s hs)

print-InLine : (n : ℕ) → All IsInLine (print n)
unfolding print decimal
print-InLine n = digits-InLine (print n) (decimal-IsDigits 20 n)

with_bar-InLine :
    (field rest : Text)
    → All IsInLine field
    → All IsInLine rest
    → All IsInLine (with_bar field rest)
unfolding with_bar
with_bar-InLine field rest h k = All-append IsInLine field (bar ∷ rest) h ((refl, refl), k)

link-InLine : (s : Text) → All (λ c. (c == 0) ≡ false) s → All IsInLine (clean_link s)
unfolding clean_link
link-InLine [] h = tt
link-InLine (c ∷ s) (h, hs) = elim (Bool-cases (ends_line c)) [
  | inl cut ↦ rw cut (link-InLine s hs)
  | inr kept ↦ rw kept ((ground (arith, kept), h), link-InLine s hs)
]

failed_mark-InLine : (b : Bool) → All IsInLine (failed_mark b)
failed_mark-InLine true = ((refl, refl), tt)
failed_mark-InLine false = ((refl, refl), tt)

serialize-InLine : (item : FrontierItem) → IsLine item → All IsInLine (serialize_to_line item)
unfolding serialize_to_line
serialize-InLine item h =
    with_bar-InLine (clean_link item.link) _ (link-InLine item.link h.nul_free) (
      with_bar-InLine (print (suffix_number item.suffix)) _
        (print-InLine (suffix_number item.suffix))
        (with_bar-InLine (print item.base_length) _ (print-InLine item.base_length) (
          with_bar-InLine (print item.seed_distance) _ (print-InLine item.seed_distance) (
            with_bar-InLine (print item.path_depth) _ (print-InLine item.path_depth)
              (failed_mark-InLine item.failed)))))

with_bar-full : (field rest : Text) → is_empty (with_bar field rest) ≡ false
unfolding with_bar
with_bar-full [] rest = refl
with_bar-full (c ∷ field) rest = refl

serialize-full : (item : FrontierItem) → is_empty (serialize_to_line item) ≡ false
unfolding serialize_to_line
serialize-full item = with_bar-full (clean_link item.link) _

-- One round of the loop reads one line.
read_lines-line :
    (n : ℕ) (l rest : Text)
    → All IsInLine l
    → length l < 8191
    → is_empty l ≡ false
    → read_lines (suc n) (l ++ (10 ∷ rest)) ≡ with_line l (read_lines n rest)
unfolding read_lines
read_lines-line n [] rest h le full = cc
read_lines-line n (c ∷ l) rest h le full =
    ap
      (λ (piece : Text × Text). with_line (strip_newline (c_string piece.0)) (read_lines n piece.1))
      (fgets-line 8191 (c ∷ l) rest h le)
    ∙ ap (λ t. with_line t (read_lines n rest))
        (ap strip_newline (c_string-line (c ∷ l) h) ∙ strip_newline-line (c ∷ l))

line_of-append :
    (item : FrontierItem) (rest : Text)
    → IsLine item
    → line_of item ++ rest ≡ serialize_to_line item ++ (10 ∷ rest)
unfolding line_of
line_of-append item rest h =
    ap (λ t. (t ++ 10 ∷ []) ++ rest)
      (c_string-whole (serialize_to_line item) (serialize-InLine item h))
    ∙ append_assoc (serialize_to_line item) (10 ∷ []) rest

with_line-item :
    (item : FrontierItem) (items : List FrontierItem)
    → IsLine item
    → with_line (serialize_to_line item) (some items) ≡ some (item ∷ items)
with_line-item item items h =
    rw (serialize-full item, deserialize_from_line-serialize_to_line item h.writable) refl

read_lines-write :
    (n : ℕ) (items : List FrontierItem)
    → All IsLine items
    → length (write_disk_chunk items) < n
    → read_lines n (write_disk_chunk items) ≡ some items
unfolding write_disk_chunk
read_lines-write zero items h le = absurd (omega arith)
read_lines-write (suc n) [] h le = unfold read_lines in refl
read_lines-write (suc n) (item ∷ items) (h, hs) le =
    let line = line_of-append item (write_disk_chunk items) h in
    let size : length (write_disk_chunk items) < n = omega (
      arith,
      ap length line,
      length-append (serialize_to_line item) (10 ∷ write_disk_chunk items),
    ) in
    ap (read_lines (suc n)) line
    ∙ read_lines-line n (serialize_to_line item) (write_disk_chunk items) (serialize-InLine item h)
        h.short (serialize-full item)
    ∙ ap (with_line (serialize_to_line item)) (read_lines-write n items hs size)
    ∙ with_line-item item items h

-- The items that are written to a chunk file are read back from it, where their links hold no bar,
-- no end of a line and no NUL, their numbers are below 2^63, and their lines have at most 8,190
-- characters.
pub read_disk_chunk-write_disk_chunk :
    (items : List FrontierItem)
    → All IsLine items
    → read_disk_chunk (write_disk_chunk items) ≡ some items
unfolding read_disk_chunk
read_disk_chunk-write_disk_chunk items h =
    read_lines-write (suc (length (write_disk_chunk items))) items h (omega arith)
