-- ===== src/Index/Types.antt =====
-- src/index/src/lib/types.h: the records that the index keeps in memory and on disk. A C++ integer
-- is a number, whose width is said where it matters.
use search_engines.Base.{ℕ, List}
use search_engines.Base.{Text}

-- DocumentFeatures; the six flags are bits 0 to 5 of `flags`.
pub record DocumentFeatures : Type 0 where
  pub flags : ℕ
  pub base_domain_length : ℕ
  pub url_length : ℕ
  pub path_length : ℕ
  pub path_depth : ℕ
  pub query_param_count : ℕ
  pub numeric_path_char_count : ℕ
  pub domain_hyphen_count : ℕ
  pub outgoing_link_count : ℕ
  pub outgoing_anchor_word_count : ℕ
  pub raw_tld : Text

pub record TokenOutput : Type 0 where
  pub term : Text
  pub location : ℕ

pub record DocEndOutput : Type 0 where
  pub location : ℕ
  pub url : Text
  pub word_count : ℕ
  pub title_word_count : ℕ
  pub doc_start_loc : ℕ
  pub seed_distance : ℕ
  pub features : DocumentFeatures

pub record PostingList : Type 0 where
  pub locations : List ℕ
  pub doc_frequency : ℕ
  pub collection_frequency : ℕ

pub record DocumentRecord : Type 0 where
  pub url : Text
  pub start_location : ℕ
  pub end_location : ℕ
  pub word_count : ℕ
  pub title_word_count : ℕ
  pub seed_distance : ℕ
  pub features : DocumentFeatures

-- DocumentFeatureFlag
abbrev pub features_present : ℕ
features_present = 1

abbrev pub https : ℕ
https = 2

abbrev pub saw_body_tag : ℕ
saw_body_tag = 4

abbrev pub saw_close_html_tag : ℕ
saw_close_html_tag = 8

abbrev pub html_truncated : ℕ
html_truncated = 16

abbrev pub has_open_discard_section : ℕ
has_open_discard_section = 32
