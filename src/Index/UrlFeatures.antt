-- ===== src/Index/UrlFeatures.antt =====
-- src/index/src/lib/url_features.cpp: what the ranker counts in an address.
pub mod Bounds
use search_engines.Base.{
  ℕ, Bool, Text, length, min, count_char, false, find, find_first_of, find_last, find_text,
  if◌then◌else◌, is_prefix, map, not, ◌∷◌, at_sign, codes, dot, hyphen, is_digit, lower, question,
  slash, ◌==◌, ampersand, ltb, none, number_sign, suc, ◌&&◌, [], get_or, some, ◌+◌, drop, take, ◌*◌,
  ◌-◌, colon, ◌||◌, Option,
}

pub record ParsedUrl : Type 0 where
  pub host : Text
  pub path : Text
  pub tld : Text
  pub path_depth : ℕ
  pub base_domain_length : ℕ
  pub query_param_count : ℕ
  pub numeric_path_char_count : ℕ
  pub domain_hyphen_count : ℕ
  pub is_ip_address : Bool

unfoldable pub lower_ascii : Text → Text
lower_ascii value = map lower value

-- The path up to `?` or `#`.
unfoldable pub bare_path : Text → Text
bare_path path = elim (find_first_of (question ∷ number_sign ∷ []) path) [
  | none ↦ path
  | some query_pos ↦ take query_pos path
]

unfoldable pub compute_path_depth : Text → ℕ
compute_path_depth path =
    let bare = bare_path path in
    let n = length bare in
    if n == 0
    then 0
    else if ltb 1 n && (get_or bare (n - 1) 0 == slash)
    then count_char (take (n - 1) bare) slash
    else count_char bare slash

unfoldable pub compute_base_domain_length : Text → ℕ
compute_base_domain_length host = elim (find_last dot host) [
  | none ↦ length host
  | some last_dot ↦ elim (find_last dot (take last_dot host)) [
    | none ↦ last_dot
    | some second_last_dot ↦ last_dot - second_last_dot - 1
  ]
]

-- The loop over the query: `open` tells that the segment has a character.
pub count_segments : Bool → Text → ℕ
count_segments open_segment [] = if open_segment then 1 else 0
count_segments open_segment (c ∷ cs) =
    let rest = count_segments (not (c == ampersand)) cs in
    if (c == ampersand) && open_segment then suc rest else rest

-- `path` from behind the question mark up to the fragment, if that comes later.
unfoldable pub count_query_params : Text → ℕ
unfolding count_segments
count_query_params path = elim (find question path) [
  | none ↦ 0
  | some question_pos ↦ elim (find number_sign path) [
    | none ↦ count_segments false (drop (question_pos + 1) path)
    | some fragment_pos ↦
        if ltb fragment_pos question_pos
        then 0
        else count_segments false (drop (question_pos + 1) (take fragment_pos path))
  ]
]

unfoldable pub count_numeric : Text → ℕ
count_numeric [] = 0
count_numeric (c ∷ cs) = let rest = count_numeric cs in if is_digit c then suc rest else rest

unfoldable pub count_numeric_path_chars : Text → ℕ
count_numeric_path_chars path = count_numeric (bare_path path)

-- The loop over the host.
pub ipv4_loop : ℕ → ℕ → ℕ → Text → Bool
ipv4_loop segment_count segment_value segment_length [] =
    not (segment_length == 0) && (segment_count + 1 == 4)
ipv4_loop segment_count segment_value segment_length (ch ∷ host) =
    let value = segment_value * 10 + (ch - 48) in
    let digit = ipv4_loop segment_count value (segment_length + 1) host in
    let next_segment = ipv4_loop (segment_count + 1) 0 0 host in
    if is_digit ch
    then (if ltb 3 (segment_length + 1) || ltb 255 value then false else digit)
    else if not (ch == dot) || (segment_length == 0)
    then false
    else next_segment

unfoldable pub looks_like_ipv4_address : Text → Bool
unfolding ipv4_loop
looks_like_ipv4_address host = if length host == 0 then false else ipv4_loop 0 0 0 host

-- The host without what stands before `@` and from `:` on.
unfoldable pub bare_host : Text → Text
bare_host host =
    let named : Text = elim (find_last at_sign host) [
      | none ↦ host
      | some at_pos ↦ if ltb (at_pos + 1) (length host) then drop (at_pos + 1) host else host
    ] in
    elim (find colon named) [ none ↦ named | some port_pos ↦ take port_pos named ]

unfoldable pub tld_of : Text → Text
tld_of host = elim (find_last dot host) [
  | none ↦ []
  | some last_dot ↦
      if ltb (last_dot + 1) (length host) then lower_ascii (drop (last_dot + 1) host) else []
]

-- The counts over the host and the path that were found.
unfoldable pub count_features : Text → Text → ParsedUrl
count_features host path = record {
  host = host;
  path = path;
  tld = tld_of host;
  path_depth = compute_path_depth path;
  base_domain_length = compute_base_domain_length host;
  query_param_count = count_query_params path;
  numeric_path_char_count = count_numeric_path_chars path;
  domain_hyphen_count = count_char host hyphen;
  is_ip_address = looks_like_ipv4_address host;
}

unfoldable pub after_scheme : Text → Text
after_scheme url = elim (find_text (codes "://") url) [
  | none ↦ url
  | some scheme_pos ↦ drop (scheme_pos + 3) url
]

-- With the place where the host ends, if a path follows it.
unfoldable pub parse_remainder : Text → Option ℕ → ParsedUrl
parse_remainder remainder none = count_features (bare_host remainder) []
parse_remainder remainder (some host_end) =
    count_features (bare_host (take host_end remainder)) (drop host_end remainder)

unfoldable pub parse_url : Text → ParsedUrl
parse_url [] = record {
  host = [];
  path = [];
  tld = [];
  path_depth = 0;
  base_domain_length = 0;
  query_param_count = 0;
  numeric_path_char_count = 0;
  domain_hyphen_count = 0;
  is_ip_address = false;
}
parse_url (c ∷ cs) =
    let remainder = after_scheme (c ∷ cs) in
    parse_remainder remainder (find_first_of (slash ∷ question ∷ number_sign ∷ []) remainder)

-- `static_cast<uint8_t>(std::min(n, UINT8_MAX))`, and the same for 16 bits
abbrev pub cap8 : ℕ → ℕ
cap8 n = min n 255

abbrev pub cap16 : ℕ → ℕ
cap16 n = min n 65535

unfoldable pub url_base_domain_length : ParsedUrl → ℕ
url_base_domain_length parsed = cap8 parsed.base_domain_length

unfoldable pub url_path_length : ParsedUrl → ℕ
url_path_length parsed = cap16 (length parsed.path)

unfoldable pub url_path_depth : ParsedUrl → ℕ
url_path_depth parsed = cap8 parsed.path_depth

unfoldable pub url_query_param_count : ParsedUrl → ℕ
url_query_param_count parsed = cap8 parsed.query_param_count

unfoldable pub url_numeric_path_char_count : ParsedUrl → ℕ
url_numeric_path_char_count parsed = cap8 parsed.numeric_path_char_count

unfoldable pub url_domain_hyphen_count : ParsedUrl → ℕ
url_domain_hyphen_count parsed = cap8 parsed.domain_hyphen_count

unfoldable pub url_has_https : Text → Bool
url_has_https url = is_prefix (codes "https://") url
