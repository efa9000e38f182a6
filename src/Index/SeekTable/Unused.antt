-- ===== src/Index/SeekTable/Unused.antt =====
-- A stored table whose first entry is blank gets no posting indexes back.
use search_engines.Base.{
  ℕ, refl, [], ◌∷◌, zero, suc, some, true, inl, inr, List, length, ◌≡◌, ◌<◌, ◌≤◌, All, arith, ltb,
  ◌^◌, >>=-eq-some, ◌-◌, lt→ltb, map, ◌%◌, subst, ◌+◌, Bool-cases, ◌==◌, ◌||◌,
}
use search_engines.Index.SeekTable.{
  SeekTableEntry, serialize, read_entries, assign, deserialize, mark, offset_of, read_posting,
  add_posting_indexes, entry_count, serialized_size,
}
use search_engines.Index.SeekTable.Bytes.{FitsEntry, stored, read_entries-serialize}
use search_engines.Index.VByte.{add32, decode, decode_deltas, decode_delta_list}
use search_engines.Index.VByte.Decode.{decode-shorter}
use search_engines.Index.Outcome.{ok}

read_posting-decode :
    (encoded curr : List ℕ) (location : ℕ) {delta : ℕ} {rest : List ℕ}
    → length curr ≤ length encoded
    → decode curr ≡ some (delta, rest)
    → read_posting encoded (length encoded) curr location ≡ ok (add32 location delta, rest)
unfolding read_posting offset_of
read_posting-decode encoded curr location {delta} {rest} h e =
    let inside : ltb (length encoded - length curr) (length encoded) ≡ true =
      lt→ltb (length encoded - length curr) (length encoded)
        (omega (arith, decode-shorter curr e)) in
    rw (inside, e)

-- No posting is behind byte 0, so none is taken for that of a blank entry.
mark-blank :
    (encoded : List ℕ) (offset location posting_idx : ℕ) (e : SeekTableEntry)
    (es : List SeekTableEntry)
    → e.byte_offset ≡ 0
    → 0 < offset
    → mark encoded (length encoded) offset location posting_idx (e ∷ es) ≡ ([], e ∷ es)
unfolding mark
mark-blank encoded offset location posting_idx e es h k = ground arith

assign-blank :
    (encoded : List ℕ) (left posting_idx : ℕ) (curr : List ℕ) (location : ℕ) (locs : List ℕ)
    (e : SeekTableEntry) (es : List SeekTableEntry)
    → e.byte_offset ≡ 0
    → length encoded < 2 ^ 32
    → length curr ≤ length encoded
    → decode_deltas left curr location ≡ some locs
    → assign encoded (length encoded) left posting_idx curr location (e ∷ es) ≡ ok (e ∷ es)
unfolding assign decode_deltas offset_of
assign-blank encoded zero posting_idx curr location locs e es blank small inside h = refl
assign-blank encoded (suc left) posting_idx curr location locs e es blank small inside h =
    let ((delta, rest), here, h') = >>=-eq-some (decode curr) _ h in
    let (locs', there, _) = >>=-eq-some (decode_deltas left rest (add32 location delta)) _ h' in
    let shorter = decode-shorter curr here in
    rw (
      read_posting-decode encoded curr location inside here,
      mark-blank encoded ((length encoded - length rest) % 2 ^ 32) (add32 location delta)
          posting_idx e es blank (omega (arith, shorter)),
      assign-blank encoded left (posting_idx + 1) rest (add32 location delta) locs' e es blank small
          (omega (arith, shorter)) there,
    )

-- When no posting of the list lies in the first bucket, so that the first entry of the stored
-- table is blank, the table that `deserialize` gives back has no posting index in any entry.
pub deserialize-blank :
    (encoded locs : List ℕ) (num_postings : ℕ) (e : SeekTableEntry) (es : List SeekTableEntry)
    → length (e ∷ es) ≡ entry_count
    → All FitsEntry (e ∷ es)
    → e.byte_offset ≡ 0
    → length encoded < 2 ^ 32
    → decode_delta_list encoded num_postings ≡ some locs
    → deserialize
        (some (serialize (e ∷ es)))
        (some encoded)
        (length encoded)
        num_postings
        serialized_size
      ≡ ok (map stored (e ∷ es))
unfolding deserialize add_posting_indexes decode_delta_list
deserialize-blank encoded locs num_postings e es size fits blank small h =
    let entries : read_entries entry_count (serialize (e ∷ es)) ≡ ok (map stored (e ∷ es)) =
      subst (λ n. read_entries n (serialize (e ∷ es)) ≡ ok (map stored (e ∷ es))) size
        (read_entries-serialize (e ∷ es) fits) in
    rw entries (elim (Bool-cases ((length encoded == 0) || (num_postings == 0))) [
      | inl nothing ↦ rw nothing
      | inr more ↦ rw (
        more,
        assign-blank encoded num_postings 0 encoded 0 locs (stored e) (map stored es) blank small
            (omega arith) h,
      )
    ])
