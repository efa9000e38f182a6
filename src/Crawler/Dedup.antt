-- ===== src/Crawler/Dedup.antt =====
-- src/crawler/url_dedup.cpp: canonical addresses, relative addresses, and the checks that an
-- address passes before it is queued.
pub mod Segments
use search_engines.Base.{
  ℕ, ◌+◌, ◌*◌, ◌-◌, Bool, true, false, not, ◌&&◌, ◌||◌, if◌then◌else◌, ◌==◌, leb, ltb, List, [],
  ◌∷◌, ◌++◌, Text, Option, none, some, length, take, drop, find, find_last, find_first_of,
  find_text, codes, equal, get_or, to_lower, dot, slash, colon, question, number_sign, at_sign,
  percent, count_char, is_prefix, suc, drop_until,
}
use search_engines.Crawler.Bloom.{UrlBloomFilter, is_empty, check_and_insert}

-- `std::isspace`
abbrev pub is_space : ℕ → Bool
is_space c = (c == 32) || (leb 9 c && leb c 13)

-- The text without the characters at its end that pass the test.
abbrev pub strip_end : (ℕ → Bool) → Text → Text
strip_end test [] = []
strip_end test (c ∷ s) =
    let kept = strip_end test s in if is_empty kept && test c then [] else c ∷ kept

unfoldable pub trim : Text → Text
trim input =
    strip_end (λ c. c == slash) (strip_end is_space (drop_until (λ c. not (is_space c)) input))

abbrev pub allowed_tlds : List Text
allowed_tlds =
    codes "com"
    ∷ codes "org"
    ∷ codes "gov"
    ∷ codes "edu"
    ∷ codes "ca"
    ∷ codes "co.uk"
    ∷ codes "com.au"
    ∷ codes "uk"
    ∷ codes "au"
    ∷ codes "net"
    ∷ codes "mil"
    ∷ codes "int"
    ∷ []

abbrev pub ends_with : Text → Text → Bool
ends_with s suffix =
    leb (length suffix) (length s) && equal (drop (length s - length suffix) s) suffix

-- One turn of the loop of `hostHasAllowedTld`.
abbrev pub has_tld : Text → Text → Bool
has_tld host tld =
    ends_with host tld
    && ((length host == length tld) || (get_or host (length host - length tld - 1) 0 == dot))

abbrev pub has_some_tld : List Text → Text → Bool
has_some_tld [] host = false
has_some_tld (tld ∷ tlds) host = has_tld host tld || has_some_tld tlds host

unfoldable pub host_has_allowed_tld : Text → Bool
host_has_allowed_tld host = not (is_empty host) && has_some_tld allowed_tlds host

-- The text before a place, or all of it where there is none.
abbrev pub cut_at : Option ℕ → Text → Text
cut_at none s = s
cut_at (some i) s = take i s

-- The text from a place on, or none of it.
abbrev pub from_place : Option ℕ → Text → Text
from_place none s = []
from_place (some i) s = drop i s

-- The text behind a place, or all of it where there is none.
abbrev pub behind_place : Option ℕ → Text → Text
behind_place none s = s
behind_place (some i) s = drop (suc i) s

-- `rest.find_first_of("/?")`
abbrev pub host_end : Text → Option ℕ
host_end rest = find_first_of (slash ∷ question ∷ []) rest

abbrev pub host_without_port : Text → Text
host_without_port host_port =
    strip_end (λ c. c == dot) (cut_at (find_last colon host_port) host_port)

-- From the host and port on, without the user.
abbrev pub host_port_allowed : Text → Bool
host_port_allowed [] = false
host_port_allowed (c ∷ s) =
    if c == 91 then false else host_has_allowed_tld (host_without_port (c ∷ s))

abbrev pub rest_allowed : Option ℕ → Text → Bool
rest_allowed none url = false
rest_allowed (some scheme_pos) url =
    let rest = drop (scheme_pos + 3) url in
    let host_port = cut_at (host_end rest) rest in
    host_port_allowed (behind_place (find at_sign host_port) host_port)

unfoldable pub has_allowed_tld : Text → Bool
has_allowed_tld url = rest_allowed (find_text (codes "://") url) url

abbrev pub bad_extensions : List Text
bad_extensions =
    codes ".pdf"
    ∷ codes ".doc"
    ∷ codes ".docx"
    ∷ codes ".xls"
    ∷ codes ".xlsx"
    ∷ codes ".zip"
    ∷ codes ".exe"
    ∷ codes ".jpg"
    ∷ codes ".jpeg"
    ∷ codes ".png"
    ∷ codes ".gif"
    ∷ codes ".bmp"
    ∷ codes ".svg"
    ∷ codes ".webp"
    ∷ codes ".mp4"
    ∷ codes ".webm"
    ∷ codes ".avi"
    ∷ codes ".mov"
    ∷ codes ".mkv"
    ∷ codes ".flv"
    ∷ codes ".mp3"
    ∷ codes ".wav"
    ∷ codes ".aac"
    ∷ codes ".flac"
    ∷ codes ".m4a"
    ∷ codes ".tar"
    ∷ codes ".gz"
    ∷ codes ".rar"
    ∷ codes ".7z"
    ∷ []

abbrev pub ends_with_some : List Text → Text → Bool
ends_with_some [] s = false
ends_with_some (e ∷ es) s = ends_with s e || ends_with_some es s

unfoldable pub has_allowed_file_extension : Text → Bool
has_allowed_file_extension url = not (ends_with_some bad_extensions (to_lower url))

-- At most eight percent signs, or at most a tenth of a tail of 24 characters or more; for sizes
-- below 2^50 the division of doubles decides this exactly.
unfoldable pub tail_reasonable : Text → Bool
tail_reasonable tail =
    let percents = count_char tail percent in
    if leb percents 8
    then true
    else if ltb (length tail) 24
    then false
    else leb (10 * percents) (length tail)

abbrev pub rest_reasonable : Option ℕ → Text → Bool
rest_reasonable none url = false
rest_reasonable (some scheme_pos) url =
    let rest = drop (scheme_pos + 3) url in tail_reasonable (from_place (host_end rest) rest)

unfoldable pub has_reasonable_percent_encoding : Text → Bool
has_reasonable_percent_encoding url = rest_reasonable (find_text (codes "://") url) url

-- Whether the first place stands before the second.
abbrev pub stands_before : Option ℕ → Option ℕ → Bool
stands_before none separator = false
stands_before (some colon_pos) none = true
stands_before (some colon_pos) (some separator) = ltb colon_pos separator

unfoldable pub has_explicit_unsupported_scheme : Text → Bool
has_explicit_unsupported_scheme value =
    stands_before (find colon value) (find_first_of (slash ∷ question ∷ number_sign ∷ []) value)

-- A piece between slashes is kept unless it is empty.
abbrev pub push_piece : Text → List Text → List Text
push_piece [] pieces = pieces
push_piece (c ∷ w) pieces = (c ∷ w) ∷ pieces

-- The piece that a text begins with, and those behind the next slash.
abbrev pub split_pieces : Text → Text × List Text
split_pieces [] = ([], [])
split_pieces (c ∷ s) =
    let rest = split_pieces s in
    if c == slash then ([], push_piece rest.0 rest.1) else (c ∷ rest.0, rest.1)

-- The pieces that the loop of `removeDotSegments` meets.
abbrev pub pieces_of : Text → List Text
pieces_of path = let rest = split_pieces path in push_piece rest.0 rest.1

abbrev pub pop_back : List Text → List Text
pop_back [] = []
pop_back (w ∷ []) = []
pop_back (w ∷ v ∷ ws) = w ∷ pop_back (v ∷ ws)

abbrev pub add_piece : List Text → Text → List Text
add_piece segments piece =
    if equal piece (codes ".")
    then segments
    else if equal piece (codes "..")
    then pop_back segments
    else segments ++ piece ∷ []

unfoldable pub resolve : List Text → List Text → List Text
resolve segments [] = segments
resolve segments (piece ∷ pieces) = resolve (add_piece segments piece) pieces

-- The segments with slashes between them.
abbrev pub join : List Text → Text
join [] = []
join (w ∷ []) = w
join (w ∷ v ∷ ws) = w ++ slash ∷ join (v ∷ ws)

abbrev pub ends_in_slash : Text → Bool
ends_in_slash [] = false
ends_in_slash (c ∷ []) = c == slash
ends_in_slash (c ∷ d ∷ s) = ends_in_slash (d ∷ s)

unfoldable pub remove_dot_segments : Text → Text
remove_dot_segments path =
    let normalized = slash ∷ join (resolve [] (pieces_of path)) in
    if ends_in_slash path && not (ends_in_slash normalized)
    then normalized ++ slash ∷ []
    else normalized

unfoldable pub strip_trailing_slash_from_path : Text → Text
strip_trailing_slash_from_path tail =
    let qpos = find question tail in
    strip_end (λ c. c == slash) (cut_at qpos tail) ++ from_place qpos tail

-- The canonical address of a scheme and what stands behind it.
abbrev pub canonical : Text → Text → Text
canonical scheme rest =
    let host = cut_at (host_end rest) rest in
    if is_empty host
    then []
    else scheme
      ++ codes "://"
      ++ to_lower host
      ++ strip_trailing_slash_from_path (from_place (host_end rest) rest)

abbrev pub normalize_at : Option ℕ → Text → Text
normalize_at none cleaned = []
normalize_at (some scheme_pos) cleaned =
    let scheme = to_lower (take scheme_pos cleaned) in
    let rest = drop (scheme_pos + 3) cleaned in
    if equal scheme (codes "http") || equal scheme (codes "https")
    then canonical scheme (cut_at (find number_sign rest) rest)
    else []

-- The empty text is the refusal.
unfoldable pub normalize_url : Text → Text
normalize_url raw_url =
    let cleaned = trim raw_url in normalize_at (find_text (codes "://") cleaned) cleaned

unfoldable pub passes_url_quality_checks : Text → Option Text
passes_url_quality_checks raw_url =
    let url = normalize_url raw_url in
    if is_empty url
    then none
    else if not (has_allowed_tld url)
    then none
    else if not (has_allowed_file_extension url)
    then none
    else if not (has_reasonable_percent_encoding url)
    then none
    else some url

abbrev pub enqueue : (Text → ℕ × ℕ) → UrlBloomFilter → Option Text → Bool × UrlBloomFilter
enqueue hash_key bloom none = (false, bloom)
enqueue hash_key bloom (some url) = check_and_insert hash_key bloom url

unfoldable pub should_enqueue_url : (Text → ℕ × ℕ) → Text → UrlBloomFilter → Bool × UrlBloomFilter
should_enqueue_url hash_key raw_url bloom =
    enqueue hash_key bloom (passes_url_quality_checks raw_url)

-- The path and query of an address behind its scheme, with a slash where there is none.
abbrev pub path_and_query : Text → Text
path_and_query rest = elim (host_end rest) [ none ↦ slash ∷ [] | some i ↦ drop i rest ]

-- The path before the query, which is not empty.
abbrev pub path_before_query : Text → Text
path_before_query s =
    let path = cut_at (find question s) s in if is_empty path then slash ∷ [] else path

-- The text up to its last slash, or a slash where it has none.
abbrev pub base_directory : Text → Text
base_directory path = elim (find_last slash path) [ none ↦ slash ∷ [] | some i ↦ take (suc i) path ]

-- A cleaned address that is relative to a scheme, an authority and a path.
abbrev pub relative_to : Text → Text → Text → Text → Text
relative_to scheme authority path cleaned =
    let front = scheme ++ codes "://" ++ authority in
    if is_prefix (codes "//") cleaned
    then normalize_url (scheme ++ codes ":" ++ cleaned)
    else if is_prefix (codes "?") cleaned
    then normalize_url (front ++ path ++ cleaned)
    else if is_prefix (codes "/") cleaned
    then normalize_url (front ++ remove_dot_segments cleaned)
    else normalize_url (front ++ remove_dot_segments (base_directory path ++ cleaned))

abbrev pub in_context : Option ℕ → Text → Text → Text
in_context none context cleaned = []
in_context (some scheme_pos) context cleaned =
    let rest = drop (scheme_pos + 3) context in
    relative_to (take scheme_pos context) (cut_at (host_end rest) rest)
      (path_before_query (path_and_query rest)) cleaned

-- The base address, or the source's where it has none.
abbrev pub context_of : Text → Text → Text
context_of source_url base_url =
    let base = normalize_url base_url in if is_empty base then normalize_url source_url else base

unfoldable pub absolutize_url : Text → Text → Text → Text
absolutize_url raw_url source_url base_url =
    let cleaned = trim raw_url in
    let context = context_of source_url base_url in
    if is_empty cleaned || is_prefix (codes "#") cleaned
    then []
    else if is_prefix (codes "http://") cleaned || is_prefix (codes "https://") cleaned
    then normalize_url cleaned
    else if has_explicit_unsupported_scheme cleaned
    then []
    else if is_empty context
    then []
    else in_context (find_text (codes "://") context) context cleaned
