-- ===== src/Index/UrlFeatures/Bounds.antt =====
-- The counts of an address against the lengths of its host and its path.
use search_engines.Base.{
  if◌then◌else◌, ℕ, [], ◌∷◌, none, some, false, inl, inr, Text, count_char, find_last, length, ◌≤◌,
  Bool, Option-cases, arith, ◌≡◌, find_first_of, ◌+◌, ◌<◌, question, number_sign, length-take,
  hyphen, not, dot, find, slash, ◌==◌, ampersand, drop, take, length-drop, ◌-◌, Option,
}
use search_engines.Index.UrlFeatures.{
  parse_url, count_features, bare_path, count_numeric, count_segments, ParsedUrl, after_scheme,
  compute_base_domain_length, compute_path_depth, count_numeric_path_chars, count_query_params,
  bare_host, parse_remainder,
}

count_char-length : (s : Text) (needle : ℕ) → count_char s needle ≤ length s
count_char-length [] needle = omega arith
count_char-length (c ∷ s) needle = ground (arith, count_char-length s needle)

count_numeric-length : (s : Text) → count_numeric s ≤ length s
unfolding count_numeric
count_numeric-length [] = omega arith
count_numeric-length (c ∷ s) = ground (arith, count_numeric-length s)

count_segments-length :
    (open_segment : Bool) (s : Text)
    → count_segments open_segment s ≤ length s + (if open_segment then 1 else 0)
unfolding count_segments
count_segments-length open_segment [] = ground arith
count_segments-length open_segment (c ∷ s) =
    ground (arith, count_segments-length (not (c == ampersand)) s)

length-bare_path : (path : Text) → length (bare_path path) ≤ length path
unfolding bare_path
length-bare_path path = elim (Option-cases (find_first_of (question ∷ number_sign ∷ []) path)) [
  | inl whole ↦ rw (whole, length) (omega arith)
  | inr (at, found) ↦ rw (found, length) (omega (arith, length-take at path))
]

find_last-below : (c : ℕ) (s : Text) {at : ℕ} → find_last c s ≡ some at → at < length s
find_last-below c [] h = cc
find_last-below c (a ∷ s) {at} h = elim (Option-cases (find_last c s)) [
  | inl none_left ↦ ground arith
  | inr (i, found) ↦ ground (arith, find_last-below c s found)
]

compute_path_depth-length : (path : Text) → compute_path_depth path ≤ length path
unfolding compute_path_depth
compute_path_depth-length path =
    let bare = bare_path path in
    ground (
      arith,
      count_char-length bare slash,
      count_char-length (take (length bare - 1) bare) slash,
      length-take (length bare - 1) bare,
      length-bare_path path,
    )

compute_base_domain_length-length : (host : Text) → compute_base_domain_length host ≤ length host
unfolding compute_base_domain_length
compute_base_domain_length-length host = elim (Option-cases (find_last dot host)) [
  | inl no_dot ↦ rw (no_dot, compute_base_domain_length) (omega arith)
  | inr (last_dot, found) ↦ elim (Option-cases (find_last dot (take last_dot host))) [
    | inl one_dot ↦
        rw (found, one_dot, compute_base_domain_length)
          (omega (arith, find_last-below dot host found))
    | inr (second, found') ↦
        rw (found, found', compute_base_domain_length)
          (omega (arith, find_last-below dot host found))
  ]
]

count_query_params-length : (path : Text) → count_query_params path ≤ length path
unfolding count_query_params
count_query_params-length path = elim (Option-cases (find question path)) [
  | inl no_query ↦ rw (no_query, count_query_params) (omega arith)
  | inr (from, found) ↦ elim (Option-cases (find number_sign path)) [
    | inl no_fragment ↦
        rw (found, no_fragment, count_query_params)
          (omega (
            arith,
            count_segments-length false (drop (from + 1) path),
            length-drop (from + 1) path,
          ))
    | inr (to, found') ↦
        rw (found, found', count_query_params)
          (ground (
            arith,
            count_segments-length false (drop (from + 1) (take to path)),
            length-drop (from + 1) (take to path),
            length-take to path,
          ))
  ]
]

count_numeric_path_chars-length : (path : Text) → count_numeric_path_chars path ≤ length path
unfolding count_numeric_path_chars
count_numeric_path_chars-length path =
    omega (arith, count_numeric-length (bare_path path), length-bare_path path)

-- No count of an address exceeds the length of the part that it counts in, the host or the path.
abbrev pub IsCounted : ParsedUrl → Type 0
IsCounted p =
    (p.base_domain_length ≤ length p.host)
    × (p.domain_hyphen_count ≤ length p.host)
    × (p.path_depth ≤ length p.path)
    × (p.query_param_count ≤ length p.path)
    × (p.numeric_path_char_count ≤ length p.path)

count_features-IsCounted : (host path : Text) → IsCounted (count_features host path)
unfolding count_features
count_features-IsCounted host path = (
  compute_base_domain_length-length host,
  count_char-length host hyphen,
  compute_path_depth-length path,
  count_query_params-length path,
  count_numeric_path_chars-length path,
)

parse_remainder-IsCounted :
    (remainder : Text) (host_end : Option ℕ) → IsCounted (parse_remainder remainder host_end)
unfolding parse_remainder
parse_remainder-IsCounted remainder none = count_features-IsCounted (bare_host remainder) []
parse_remainder-IsCounted remainder (some host_end) =
    count_features-IsCounted (bare_host (take host_end remainder)) (drop host_end remainder)

-- For every address, the length of the base domain and the number of hyphens are at most the
-- length of the host, and the depth, the query parameters and the digits at most that of the path.
pub parse_url-IsCounted : (url : Text) → IsCounted (parse_url url)
unfolding parse_url
parse_url-IsCounted [] = omega arith
parse_url-IsCounted (c ∷ cs) =
    let remainder = after_scheme (c ∷ cs) in
    parse_remainder-IsCounted remainder
      (find_first_of (slash ∷ question ∷ number_sign ∷ []) remainder)
