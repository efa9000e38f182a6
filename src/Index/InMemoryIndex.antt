-- ===== src/Index/InMemoryIndex.antt =====
-- src/index/src/lib/in_memory_index.cpp: the index of a chunk while it is being filled. The map
-- from terms is an association list, and the set of the terms of the document a list.
pub mod Frequency
use search_engines.Base.{
  ℕ, Bool, List, Text, [], codes, false, if◌then◌else◌, ◌++◌, ◌∷◌, equal, max, ◌+◌, ◌||◌, ◌%◌, ◌^◌,
}
use search_engines.Index.Types.{PostingList, DocEndOutput, TokenOutput, DocumentRecord}
use search_engines.Index.VByte.{add32}

pub record InMemoryIndex : Type 0 where
  pub index : List (Text × PostingList)
  pub documents : List DocumentRecord
  pub terms_seen : List Text
  pub total_locations : ℕ

abbrev pub empty : InMemoryIndex
empty = record { index = []; documents = []; terms_seen = []; total_locations = 0 }

abbrev pub no_postings : PostingList
no_postings = record { locations = []; doc_frequency = 0; collection_frequency = 0 }

unfoldable pub postings_of : Text → List (Text × PostingList) → PostingList
postings_of term [] = no_postings
postings_of term ((key, postings) ∷ entries) =
    let rest = postings_of term entries in if equal key term then postings else rest

-- `_index[term]`, changed by `change`; a missing term is created.
unfoldable pub change_at :
    Text → (PostingList → PostingList) → List (Text × PostingList) → List (Text × PostingList)
change_at term change [] = (term, change no_postings) ∷ []
change_at term change ((key, postings) ∷ entries) =
    let rest = change_at term change entries in
    if equal key term then (key, change postings) ∷ entries else (key, postings) ∷ rest

unfoldable pub is_seen : Text → List Text → Bool
is_seen term [] = false
is_seen term (t ∷ ts) = equal t term || is_seen term ts

unfoldable pub add_posting : ℕ → Bool → PostingList → PostingList
add_posting location seen p = record {
  locations = p.locations ++ location ∷ [];
  doc_frequency = if seen then p.doc_frequency else add32 p.doc_frequency 1;
  collection_frequency = (p.collection_frequency + 1) % 2 ^ 64;
}

unfoldable pub add_token : TokenOutput → InMemoryIndex → InMemoryIndex
add_token token state =
    let seen = is_seen token.term state.terms_seen in
    record state {
      index = change_at token.term (add_posting token.location seen) state.index;
      terms_seen = if seen then state.terms_seen else token.term ∷ state.terms_seen;
      total_locations = max state.total_locations (token.location + 1);
    }

unfoldable pub finish_document : DocEndOutput → InMemoryIndex → InMemoryIndex
finish_document doc_end state =
    let marked = add_token (record { term = codes "#DocEnd"; location = doc_end.location }) state in
    let document : DocumentRecord = record {
      url = doc_end.url;
      start_location = doc_end.doc_start_loc;
      end_location = doc_end.location;
      word_count = doc_end.word_count;
      title_word_count = doc_end.title_word_count;
      seed_distance = doc_end.seed_distance;
      features = doc_end.features;
    } in
    record marked { documents = marked.documents ++ document ∷ []; terms_seen = [] }
