-- ===== src/Index/Isr/Runs.antt =====
-- The streams at concrete inputs.
use search_engines.Base.{
  zero, List, ℕ, [], ◌-◌, ◌∷◌, ◌≡◌, drop, false, length, some, arith, get_elem?, none, ◌≤◌, map,
  suc, true, ◌/◌, ◌^◌, ◌%◌, get_or, ◌⊎◌, inr, inl, refl, replicate, All-replicate, Bool-cases, leb,
  ap, ◌∙◌, subst, sym, ◌<◌,
}
use search_engines.Index.Isr.Or
use search_engines.Index.Isr.Or.Union.{
  new-IsPlaced, IsPlaced, views, step_past, least, union_next, union_seek,
}
use search_engines.Index.Isr.Lists.{Listed, lists}
use search_engines.Index.Outcome.{ok}
use search_engines.Index.Isr.Phrase
use search_engines.Index.Isr.And
use search_engines.Index.Isr.And.Match
use search_engines.Index.Isr.Container
use search_engines.Index.Isr.Container.Rounds
use search_engines.Index.Isr.Phrase.Adjacent
use search_engines.Index.Isr.Word
use search_engines.Index.Isr.And.{IsrAnd}
use search_engines.Index.Isr.Container.{IsrContainer}
use search_engines.Index.Isr.Docs.{Docs}
use search_engines.Index.Isr.Phrase.{IsrPhrase}
use search_engines.Index.Isr.Word.{IsrWord, jump_entry}
use search_engines.Index.SeekTable.{
  SeekTable, entry_for_location, extract_index, blank, no_posting, SeekTableEntry, read_entries,
  deserialize, serialize, serialized_size,
}
use search_engines.Index.Types.{DocumentFeatures, DocumentRecord}
use search_engines.Index.VByte.{
  decode_deltas, encode_delta_list, encode, decode, add32, sub32, decode_delta_list,
}
use search_engines.Index.Isr.{isr_sentinel}
use search_engines.Index.Isr.And.Match.{advance_total}
use search_engines.Index.Isr.Phrase.Adjacent.{alignment_total}
use search_engines.Index.Isr.Stream.{drop_below, head_location}
use search_engines.Index.Isr.Word.Seek.{IsGuided, seek-Lands, IsEntry}
use search_engines.Index.Isr.Word.View.{Lands, Reads}
use search_engines.Index.SeekTable.Bytes.{stored, read_entries-serialize, FitsEntry}
use search_engines.Index.Isr.Word.Jump.{jump_entry-deserialize}
use search_engines.Index.Isr.Phrase.Lost.{phrase_lost}

abbrev features : DocumentFeatures
features = record {
  flags = 1;
  base_domain_length = 5;
  url_length = 20;
  path_length = 1;
  path_depth = 0;
  query_param_count = 0;
  numeric_path_char_count = 0;
  domain_hyphen_count = 0;
  outgoing_link_count = 0;
  outgoing_anchor_word_count = 0;
  raw_tld = [];
}

abbrev document : ℕ → ℕ → DocumentRecord
document first last = record {
  url = [];
  start_location = first;
  end_location = last;
  word_count = 10;
  title_word_count = 1;
  seed_distance = 0;
  features = features;
}

-- Two documents, of the locations 0 to 10 and 11 to 20.
abbrev two_documents : Docs
two_documents = record {
  ends = lists;
  current_index = λ (v, h). 3 - length v;
  get_document = λ i. get_elem? (document 0 10 ∷ document 11 20 ∷ []) i;
}

two_documents-StartsFit :
    (i : ℕ) (doc : DocumentRecord)
    → two_documents.get_document i ≡ some doc
    → doc.start_location ≤ isr_sentinel
two_documents-StartsFit zero doc h = ground arith
two_documents-StartsFit (suc zero) doc h = ground arith
two_documents-StartsFit (suc (suc i)) doc h = cc

abbrev ends : Listed
ends = (10 ∷ 20 ∷ [], (omega arith, (omega arith, tt)))

abbrev low : Listed
low = (3 ∷ 8 ∷ 15 ∷ [], (omega arith, (omega arith, (omega arith, tt))))

abbrev high : Listed
high = (12 ∷ 16 ∷ [], (omega arith, (omega arith, tt)))

abbrev early : Listed
early = (0 ∷ 9 ∷ [], (omega arith, (omega arith, tt)))

union_next_example :
    let isr = Or.new lists (low ∷ high ∷ []) in
    let r = Or.next lists isr in
    IsPlaced lists r.1
    × (views lists r.1.terms ≡ map (step_past isr.current_loc) (views lists isr.terms))
    × (r.0 ≡ least (map (step_past isr.current_loc) (views lists isr.terms)))
union_next_example =
    union_next lists (Or.new lists (low ∷ high ∷ [])) (new-IsPlaced lists (low ∷ high ∷ []))

union_seek_example :
    let isr = Or.new lists (low ∷ high ∷ []) in
    let r = Or.seek lists 9 isr in
    IsPlaced lists r.1
    × (views lists r.1.terms ≡ map (drop_below 9) (views lists isr.terms))
    × (r.0 ≡ least (map (drop_below 9) (views lists isr.terms)))
union_seek_example =
    union_seek lists 9 (Or.new lists (low ∷ high ∷ [])) (omega arith)
      (new-IsPlaced lists (low ∷ high ∷ []))

abbrev phrase : List Listed → IsrPhrase lists
phrase terms = record { terms = terms; current_loc = 0; is_exhausted = false }

alignment_total_example :
    (r : ℕ × IsrPhrase lists) × (Phrase.advance lists 10 (phrase (low ∷ high ∷ [])) ≡ some r)
    × Adjacent.Answers lists r
alignment_total_example =
    alignment_total lists 10 (phrase (low ∷ high ∷ [])) (omega arith)
      ((omega arith, (omega arith, (omega arith, tt))), ((omega arith, (omega arith, tt)), tt))
      (omega arith)

phrase_lost_example :
    (isr' : IsrPhrase lists) × (Phrase.advance lists 10 (phrase (low ∷ early ∷ []))
      ≡ some (isr_sentinel, isr'))
    × (isr'.is_exhausted ≡ true)
phrase_lost_example = phrase_lost lists 9 (phrase (low ∷ early ∷ [])) low early refl refl refl

abbrev conjunction : IsrAnd lists two_documents
conjunction = record {
  terms = low ∷ high ∷ [];
  doc_end_isr = ends;
  current_loc = 0;
  is_exhausted = false;
  current_doc = none;
}

advance_total_example :
    (r : ℕ × IsrAnd lists two_documents) × (And.advance lists two_documents 10 conjunction ≡ some r)
    × Match.Answers lists two_documents r
advance_total_example =
    advance_total lists two_documents 10 conjunction two_documents-StartsFit (omega arith)

abbrev exclusion : IsrContainer lists two_documents
exclusion = record {
  positive = low;
  negatives = early ∷ [];
  doc_end_isr = ends;
  current_loc = 0;
  is_exhausted = false;
}

-- Both marks are left, or the second, or none.
abbrev MarksLeft : List ℕ → Type 0
MarksLeft v = (v ≡ 10 ∷ 20 ∷ []) ⊎ (v ≡ 20 ∷ []) ⊎ (v ≡ [])

second-MarksLeft : (t : ℕ) → MarksLeft (drop_below t (20 ∷ []))
unfolding drop_below
second-MarksLeft t = elim (Bool-cases (leb t 20)) [
  | inl stays ↦ rw stays (inr (inl refl))
  | inr drops ↦ rw drops (inr (inr refl))
]

seek-MarksLeft : (t : ℕ) (v : List ℕ) → MarksLeft v → MarksLeft (drop_below t v)
unfolding drop_below
seek-MarksLeft t v (inl e) =
    subst (λ w. MarksLeft (drop_below t w)) (sym e)
      (elim (Bool-cases (leb t 10)) [
        | inl stays ↦ rw stays (inl refl)
        | inr drops ↦ rw drops (second-MarksLeft t)
      ])
seek-MarksLeft t v (inr (inl e)) =
    subst (λ w. MarksLeft (drop_below t w)) (sym e) (second-MarksLeft t)
seek-MarksLeft t v (inr (inr e)) = subst (λ w. MarksLeft (drop_below t w)) (sym e) (inr (inr refl))

-- The document that is named where these marks are left.
document_of :
    {v w : List ℕ}
    → v ≡ w
    → two_documents.get_document (sub32 (3 - length w) 1)
      ≡ two_documents.get_document (sub32 (3 - length v) 1)
document_of e = ap (λ u. two_documents.get_document (sub32 (3 - length u) 1)) (sym e)

document_at :
    (o : Listed) (doc : DocumentRecord)
    → MarksLeft o.0
    → Rounds.HasDocument lists two_documents o doc
    → ((head_location o.0 ≡ 10) × (doc.start_location ≡ 0))
      ⊎ ((head_location o.0 ≡ 20) × (doc.start_location ≡ 11))
unfolding sub32
document_at o doc (inl e) found =
    let same : document 0 10 ≡ doc = cc (document_of e ∙ found) in
    inl (ap head_location e, ap (λ d. d.start_location) (sym same))
document_at o doc (inr (inl e)) found =
    let same : document 11 20 ≡ doc = cc (document_of e ∙ found) in
    inr (ap head_location e, ap (λ d. d.start_location) (sym same))
document_at o doc (inr (inr e)) found = cc (document_of e ∙ found)

marks_apart :
    (a b : Listed) (doc_a doc_b : DocumentRecord)
    → MarksLeft a.0
    → MarksLeft b.0
    → Rounds.HasDocument lists two_documents a doc_a
    → Rounds.HasDocument lists two_documents b doc_b
    → head_location a.0 < head_location b.0
    → (doc_a.start_location ≤ head_location a.0) × (head_location a.0 < doc_b.start_location)
marks_apart a b doc_a doc_b ra rb fa fb lt =
    ground (arith, document_at a doc_a ra fa, document_at b doc_b rb fb)

abbrev two_documents-IsLaidOut : Rounds.IsLaidOut lists two_documents
two_documents-IsLaidOut = record {
  Reached = λ o. MarksLeft o.0;
  seek-Reached = λ t o h. seek-MarksLeft t o.0 h;
  apart = marks_apart;
}

-- A posting list that reaches into the second bucket, and a table with an entry for each.
abbrev locations : List ℕ
locations = 5 ∷ 16777219 ∷ 16777225 ∷ []

abbrev table : SeekTable
table =
    record { byte_offset = 1; base_location = 5; posting_index = 0 }
    ∷ record { byte_offset = 5; base_location = 16777219; posting_index = 1 }
    ∷ []

abbrev reader : IsrWord
reader = record {
  num_postings = 3;
  current_index = 1;
  current_loc = 5;
  content = encode_delta_list locations;
  current_ptr = drop 1 (encode_delta_list locations);
  seek_table = some table;
  is_exhausted = false;
}

reader-Reads : Reads locations reader 5 (16777219 ∷ 16777225 ∷ [])
unfolding decode_deltas encode_delta_list encode decode add32 sub32
reader-Reads = record {
  before = [];
  whole = refl;
  index = refl;
  total = refl;
  here = refl;
  active = refl;
  rest = refl;
}

reader-IsGuided : IsGuided locations reader
unfolding entry_for_location extract_index decode_deltas encode_delta_list encode decode add32 sub32
reader-IsGuided target h = go (target / 2 ^ 24 % 256) refl
  where
    go :
        (i : ℕ)
        → target / 2 ^ 24 % 256 ≡ i
        → ((get_or table i blank).posting_index ≡ no_posting)
          ⊎ IsEntry locations (encode_delta_list locations) target (get_or table i blank)
    go zero e = inr (record {
      skipped = [];
      later = 16777219 ∷ 16777225 ∷ [];
      whole = refl;
      index = refl;
      below = tt;
      resume = refl;
    })
    go (suc zero) e = inr (record {
      skipped = 5 ∷ [];
      later = 16777225 ∷ [];
      whole = refl;
      index = refl;
      below = (omega arith, tt);
      resume = refl;
    })
    go (suc (suc i)) e = inl refl

seek-Lands_example :
    (res : ℕ × IsrWord) × (Word.seek 16777220 reader ≡ ok (some res))
    × Lands locations (drop_below 16777220 locations) res
seek-Lands_example =
    seek-Lands 16777220 locations reader (16777219 ∷ 16777225 ∷ []) (omega arith) (omega arith)
      reader-Reads reader-IsGuided

-- One posting, in the second bucket, and the table that is stored for it.
abbrev far_entry : SeekTableEntry
far_entry = record { byte_offset = 4; base_location = 16777219; posting_index = 0 }

jump_entry-deserialize_example :
    (read_back : SeekTable) × (deserialize
        (some (serialize (blank ∷ replicate 255 far_entry)))
        (some (encode_delta_list (16777219 ∷ [])))
        4
        1
        serialized_size
      ≡ ok read_back)
    × ((target : ℕ) (isr : IsrWord) → jump_entry (some read_back) target isr ≡ none)
unfolding decode_delta_list encode_delta_list encode decode add32 sub32
jump_entry-deserialize_example =
    jump_entry-deserialize (encode_delta_list (16777219 ∷ [])) (16777219 ∷ []) 1 blank
      (replicate 255 far_entry) refl
      ((omega arith, omega arith), All-replicate FitsEntry 255 far_entry (omega arith, omega arith))
      refl (omega arith) refl

read_entries-serialize_example :
    read_entries (length table) (serialize table) ≡ ok (map stored table)
read_entries-serialize_example =
    read_entries-serialize table ((omega arith, omega arith), ((omega arith, omega arith), tt))
