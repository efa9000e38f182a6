-- ===== src/Index/Runs.antt =====
-- Words and documents at concrete inputs.
use search_engines.Base.{
  refl, [], ◌∷◌, true, false, List, length, codes, ◌≡◌, ◌+◌, ◌≤◌, All, ◌<◌, if◌then◌else◌, arith,
  ◌&&◌, not, Text,
}
use search_engines.Index.Features.{HtmlDocument}
use search_engines.Index.InMemoryIndex.{postings_of, empty, is_seen}
use search_engines.Index.Stemmer.{
  stem, step1, plural, past, final_y, cleanup, ends_with, contains_vowel,
  ends_with_double_consonant, get_measure, is_vowel, ends_cvc, step5, drop_l, drop_e, step4, strip,
  step3, substitute, step2, strip_ion,
}
use search_engines.Index.Tokenizer.{process_document, put_at}
use search_engines.Index.Types.{TokenOutput}
use search_engines.Index.InMemoryIndex.Frequency.{add_tokens, occurs, frequency-add_tokens}
use search_engines.Index.Stemmer.Bounds.{length-stem}
use search_engines.Index.Tokenizer.Layout.{Ascends, process_document_lem}
use search_engines.Index.UrlFeatures.{
  parse_url, parse_remainder, count_features, bare_host, after_scheme, compute_path_depth,
  bare_path, count_query_params, count_numeric_path_chars, count_numeric, tld_of, lower_ascii,
}
use search_engines.Index.VByte.{add32}

stem_running : stem (codes "running") ≡ codes "run"
unfolding stem step1 plural past final_y cleanup ends_with contains_vowel ends_with_double_consonant
    get_measure is_vowel ends_cvc step5 drop_l drop_e step4 strip step3 substitute step2 strip_ion
stem_running = refl

length-stem_example :
    (length (stem (codes "hopping")) ≤ 7) × (0 < 7 → 0 < length (stem (codes "hopping")))
length-stem_example = length-stem (codes "hopping")

abbrev page : HtmlDocument
page = record {
  document_url = codes "https://a.org/b";
  title_words = codes "Dogs" ∷ [];
  words = codes "well-known" ∷ codes "cats" ∷ [];
  links = [];
  outgoing_anchor_word_count = 0;
  saw_body_tag = true;
  saw_close_html_tag = false;
  was_truncated = true;
  has_open_discard_section = false;
  seed_distance = 1;
}

process_document_lem_example :
    let (out, next) = process_document 100 page in
    (out.doc_end.doc_start_loc ≡ 100)
    × (out.doc_end.location ≡ 100 + length page.title_words + length page.words)
    × (next ≡ out.doc_end.location + 1)
    × All
        (λ t. (100 ≤ t.location) × (t.location < out.doc_end.location) × (0 < length t.term))
        out.tokens
    × Ascends 100 out.tokens
process_document_lem_example = process_document_lem 100 page (omega arith)

abbrev three_tokens : List TokenOutput
three_tokens =
    put_at [] 5 (codes "cat") ∷ put_at [] 6 (codes "dog") ∷ put_at [] 7 (codes "cat") ∷ []

frequency-add_tokens_example :
    (postings_of (codes "cat") (add_tokens three_tokens empty).index).doc_frequency ≡ (
      if occurs (codes "cat") three_tokens && not (is_seen (codes "cat") empty.terms_seen)
      then add32 (postings_of (codes "cat") empty.index).doc_frequency 1
      else (postings_of (codes "cat") empty.index).doc_frequency)
frequency-add_tokens_example = frequency-add_tokens (codes "cat") three_tokens empty

abbrev address : Text
address = codes "http://u@www.ab-c.co.uk:80/x/12?p=1&q#f"

features_of_address :
    (parse_url address).host ≡ codes "www.ab-c.co.uk"
    × ((parse_url address).path_depth ≡ 2)
    × ((parse_url address).query_param_count ≡ 2)
    × ((parse_url address).numeric_path_char_count ≡ 2)
    × ((parse_url address).tld ≡ codes "uk")
unfolding parse_url parse_remainder count_features bare_host after_scheme compute_path_depth
    bare_path count_query_params count_numeric_path_chars count_numeric tld_of lower_ascii
features_of_address = (refl, refl, refl, refl, refl)
