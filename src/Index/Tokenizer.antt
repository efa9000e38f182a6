-- ===== src/Index/Tokenizer.antt =====
-- src/index/src/lib/tokenizer.cpp: the terms of a document and their locations.
pub mod Layout
use search_engines.Base.{
  ℕ, Bool, List, Text, find, is_lower, map, ◌∷◌, [], codes, hyphen, if◌then◌else◌, lower, ◌++◌,
  ◌||◌, is_upper, length, none, is_digit, some, ◌%◌, ltb, ◌^◌, ◌&&◌, ◌+◌, take, drop,
}
use search_engines.Index.Stemmer.{stem}
use search_engines.Index.Features.{HtmlDocument, extract_document_features}
use search_engines.Index.Types.{TokenOutput, DocEndOutput}
use search_engines.Index.VByte.{add32}

unfoldable pub is_alpha_numeric : ℕ → Bool
is_alpha_numeric c = is_lower c || (is_upper c || is_digit c)

unfoldable pub make_lower_case : Text → Text
make_lower_case s = map lower s

-- The two loops of `stripPunc`.
unfoldable pub strip_front : Text → Text
strip_front [] = []
strip_front (c ∷ cs) = let rest = strip_front cs in if is_alpha_numeric c then c ∷ cs else rest

unfoldable pub strip_back : Text → Text
strip_back [] = []
strip_back (c ∷ cs) = elim (strip_back cs) [
  | [] ↦ if is_alpha_numeric c then c ∷ [] else []
  | d ∷ ds ↦ c ∷ d ∷ ds
]

unfoldable pub strip_punc : Text → Text
strip_punc s = strip_back (strip_front s)

-- The two parts of a hyphenated word, stemmed.
unfoldable pub hyphen_parts : Text → List Text
hyphen_parts stripped = elim (find hyphen stripped) [
  | none ↦ []
  | some at ↦
      if ltb 0 at && ltb (at + 1) (length stripped)
      then stem (take at stripped) ∷ stem (drop (at + 1) stripped) ∷ []
      else []
]

unfoldable pub process_stripped : Text → List Text
process_stripped [] = []
process_stripped (c ∷ cs) = stem (c ∷ cs) ∷ hyphen_parts (c ∷ cs)

unfoldable pub process_token : Text → List Text
process_token raw = process_stripped (strip_punc (make_lower_case raw))

pub record TokenizedDocument : Type 0 where
  pub tokens : List TokenOutput
  pub doc_end : DocEndOutput

abbrev pub put_at : Text → ℕ → Text → TokenOutput
put_at prefix location token = record { term = prefix ++ token; location = location }

-- A loop of `processDocument`: the tokens of the words, and `next_location` behind them.
unfoldable pub place_words : Text → ℕ → List Text → List TokenOutput × ℕ
place_words prefix next_location [] = ([], next_location)
place_words prefix next_location (raw_word ∷ words) =
    let (tokens, after) = place_words prefix (add32 next_location 1) words in
    (map (put_at prefix next_location) (process_token raw_word) ++ tokens, after)

-- With the state of the tokenizer, `next_location`.
unfoldable pub process_document : ℕ → HtmlDocument → TokenizedDocument × ℕ
process_document next_location doc =
    let (title_tokens, body_start) = place_words (codes "$") next_location doc.title_words in
    let (body_tokens, doc_end) = place_words [] body_start doc.words in
    (
      record {
        tokens = title_tokens ++ body_tokens;
        doc_end = record {
          location = doc_end;
          url = doc.document_url;
          word_count = length doc.words % 2 ^ 32;
          title_word_count = length doc.title_words % 2 ^ 16;
          doc_start_loc = next_location;
          seed_distance = doc.seed_distance;
          features = extract_document_features doc;
        };
      },
      add32 doc_end 1,
    )
