-- ===== src/Crawler/UrlFilter.antt =====
-- src/crawler/UrlFilter.cpp: the extensions and hosts that the crawler stays away from.
pub mod Hosts
use search_engines.Base.{
  ℕ, ◌+◌, ◌-◌, Bool, true, false, not, ◌&&◌, ◌||◌, if◌then◌else◌, ◌==◌, ltb, List, [], ◌∷◌, ◌++◌,
  Text, Option, none, some, length, take, drop, find_text, codes, equal, slash, dot, colon,
  question, number_sign, take_until, drop_until, to_lower, get_or, map, is_among, c_string,
}
use search_engines.Crawler.Bloom.{is_empty}
use search_engines.Crawler.Dedup.{ends_with, tail_reasonable, from_place, host_end}

abbrev pub allowed_extensions : List Text
allowed_extensions =
    codes ".html"
    ∷ codes ".htm"
    ∷ codes ".shtml"
    ∷ codes ".xhtml"
    ∷ codes ".php"
    ∷ codes ".asp"
    ∷ codes ".aspx"
    ∷ codes ".jsp"
    ∷ codes ".jspx"
    ∷ codes ".cfm"
    ∷ codes ".cgi"
    ∷ codes ".pl"
    ∷ codes ".py"
    ∷ codes ".txt"
    ∷ codes ".xml"
    ∷ codes ".rss"
    ∷ codes ".atom"
    ∷ codes ".csv"
    ∷ codes ".tsv"
    ∷ []

abbrev pub ends_with_case_insensitive : Text → Text → Bool
ends_with_case_insensitive s suffix = ends_with (to_lower s) (to_lower suffix)

abbrev pub has_some_extension : List Text → Text → Bool
has_some_extension [] path = false
has_some_extension (e ∷ es) path = ends_with_case_insensitive path e || has_some_extension es path

-- Whether a dot stands behind the last slash.
abbrev pub has_dot : Text → Bool
has_dot [] = false
has_dot (c ∷ s) = let rest = has_dot s in ((c == dot) && not (is_among s slash)) || rest

abbrev pub ends_path : ℕ → Bool
ends_path c = (c == question) || (c == number_sign)

-- The path of an address behind its scheme; it is empty or begins with a slash.
abbrev pub path_of : Text → Text
path_of rest = take_until ends_path (drop_until (λ c. c == slash) rest)

abbrev pub crawlable_path : Text → Bool
crawlable_path [] = true
crawlable_path (c ∷ path) =
    if has_dot (c ∷ path) then has_some_extension allowed_extensions (c ∷ path) else true

abbrev pub crawlable_from : Option ℕ → Text → Bool
crawlable_from none url = true
crawlable_from (some scheme_end) url = crawlable_path (path_of (drop (scheme_end + 3) url))

unfoldable pub has_crawlable_extension : Text → Bool
has_crawlable_extension url = crawlable_from (find_text (codes "://") url) url

abbrev pub ends_host : ℕ → Bool
ends_host c = (c == slash) || (c == colon) || (c == question) || (c == number_sign)

abbrev pub host_from : Option ℕ → Text → Text
host_from none url = []
host_from (some scheme_end) url = to_lower (take_until ends_host (drop (scheme_end + 3) url))

-- The empty text where there is no host.
unfoldable pub extract_host : Text → Text
extract_host url = host_from (find_text (codes "://") url) url

unfoldable pub host_matches_domain : Text → Text → Bool
host_matches_domain host domain =
    equal host domain
    || (ltb (length domain + 1) (length host)
        && (get_or host (length host - length domain - 1) 0 == dot)
        && equal (drop (length host - length domain) host) domain)

abbrev pub is_blocked : List Text → Text → Bool
is_blocked [] host = false
is_blocked (domain ∷ domains) host = host_matches_domain host domain || is_blocked domains host

-- An address without a scheme has no percent signs that count.
abbrev pub percent_allowed : Option ℕ → Text → Bool
percent_allowed none url = true
percent_allowed (some scheme_end) url =
    let rest = drop (scheme_end + 3) url in tail_reasonable (from_place (host_end rest) rest)

unfoldable pub is_allowed : List Text → Text → Bool
is_allowed blocked_hosts url =
    let host = extract_host url in
    if not (has_crawlable_extension url)
    then false
    else if not (percent_allowed (find_text (codes "://") url) url)
    then false
    else if is_empty host
    then true
    else not (is_blocked blocked_hosts host)

-- What an entry of the blacklist blocks: its host, or all of it where it is no address.
abbrev pub blocked_domain : Text → Text
blocked_domain entry = let host = extract_host entry in if is_empty host then entry else host

unfoldable pub add_blocked_domain : Text → List Text → List Text
add_blocked_domain entry blocked_hosts = blocked_hosts ++ blocked_domain entry ∷ []

-- The lines of a blacklist; empty ones are skipped.
abbrev pub load_blacklist : List Text → List Text → List Text
load_blacklist [] blocked_hosts = blocked_hosts
load_blacklist (line ∷ lines) blocked_hosts =
    load_blacklist lines
      (if is_empty line then blocked_hosts else add_blocked_domain (c_string line) blocked_hosts)
