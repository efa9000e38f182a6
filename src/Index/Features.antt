-- ===== src/Index/Features.antt =====
-- src/index/src/lib/document_features.cpp: the features of a document, from the parser's results.
use search_engines.Base.{ℕ, Bool, Text, ◌≡◌, List, if◌then◌else◌, bit_or, ◌+◌, length, arith}
use search_engines.Index.UrlFeatures.{
  parse_url, url_base_domain_length, cap16, url_has_https, url_path_length, url_path_depth,
  url_query_param_count, url_numeric_path_char_count, url_domain_hyphen_count,
}
use search_engines.Index.Types.{
  DocumentFeatures, features_present, has_open_discard_section, html_truncated, saw_close_html_tag,
  https, saw_body_tag,
}

-- What the parser of src/parser/HtmlParser.h gives for a page.
pub record HtmlDocument : Type 0 where
  pub document_url : Text
  pub title_words : List Text
  pub words : List Text
  pub links : List Text
  pub outgoing_anchor_word_count : ℕ
  pub saw_body_tag : Bool
  pub saw_close_html_tag : Bool
  pub was_truncated : Bool
  pub has_open_discard_section : Bool
  pub seed_distance : ℕ

-- `if (condition) features.flags |= flag;`
unfoldable pub raise : Bool → ℕ → ℕ → ℕ
raise condition flag flags = if condition then bit_or flags flag else flags

unfoldable pub document_flags : HtmlDocument → ℕ
document_flags doc = raise doc.has_open_discard_section has_open_discard_section (
    raise doc.was_truncated html_truncated (
      raise doc.saw_close_html_tag saw_close_html_tag (
        raise doc.saw_body_tag saw_body_tag
          (raise (url_has_https doc.document_url) https features_present))))

unfoldable pub extract_document_features : HtmlDocument → DocumentFeatures
extract_document_features doc =
    let parsed = parse_url doc.document_url in
    record {
      flags = document_flags doc;
      base_domain_length = url_base_domain_length parsed;
      url_length = cap16 (length doc.document_url);
      path_length = url_path_length parsed;
      path_depth = url_path_depth parsed;
      query_param_count = url_query_param_count parsed;
      numeric_path_char_count = url_numeric_path_char_count parsed;
      domain_hyphen_count = url_domain_hyphen_count parsed;
      outgoing_link_count = cap16 (length doc.links);
      outgoing_anchor_word_count = cap16 doc.outgoing_anchor_word_count;
      raw_tld = parsed.tld;
    }

abbrev pub bit : Bool → ℕ → ℕ
bit b value = if b then value else 0

-- The flags of a document are its five conditions, each in a bit of its own, and the bit that says
-- that there are flags.
pub document_flags_lem :
    (doc : HtmlDocument)
    → document_flags doc
      ≡ features_present
        + bit (url_has_https doc.document_url) https
        + bit doc.saw_body_tag saw_body_tag
        + bit doc.saw_close_html_tag saw_close_html_tag
        + bit doc.was_truncated html_truncated
        + bit doc.has_open_discard_section has_open_discard_section
unfolding document_flags raise
document_flags_lem doc = ground arith
