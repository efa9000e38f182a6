-- ===== src/Crawler/FrontierItem.antt =====
-- src/crawler/FrontierItem.cpp and FrontierItemHelper.cpp: an address of the frontier, what is read
-- off it, and its line in a checkpoint.
pub mod RoundTrip
use search_engines.Base.{
  ◌>>=◌, ℕ, ◌+◌, ◌-◌, Bool, true, false, not, ◌&&◌, ◌||◌, if◌then◌else◌, ◌==◌, ltb, List, [], ◌∷◌,
  ◌++◌, Text, Option, none, some, length, take, drop, find, find_last, find_text, codes, equal,
  slash, dot, bar, question, ampersand, count_char, is_prefix, suc, zero, take_until, drop_until,
}
use search_engines.Crawler.Decimal.{atol, print}
use search_engines.Crawler.Dedup.{ends_in_slash}

pub data Suffix : Type 0 where
  com_suffix edu_suffix gov_suffix org_suffix net_suffix mil_suffix int_suffix other_suffix : Suffix

pub record FrontierItem : Type 0 where
  pub link : Text
  pub suffix : Suffix
  pub base_length : ℕ
  pub seed_distance : ℕ
  pub path_depth : ℕ
  pub failed : Bool

unfoldable pub string_to_suffix : Text → Suffix
string_to_suffix tld =
    if equal tld (codes "com") || equal tld (codes "com.au")
    then com_suffix
    else if equal tld (codes "edu")
    then edu_suffix
    else if equal tld (codes "gov")
    then gov_suffix
    else if equal tld (codes "org")
    then org_suffix
    else if equal tld (codes "net")
    then net_suffix
    else if equal tld (codes "mil")
    then mil_suffix
    else if equal tld (codes "int")
    then int_suffix
    else if equal tld (codes "co.uk")
        || equal tld (codes "ca")
        || equal tld (codes "uk")
        || equal tld (codes "au")
    then org_suffix
    else other_suffix

abbrev pub behind_scheme : Option ℕ → Text → Text
behind_scheme none url = url
behind_scheme (some scheme_pos) url = drop (scheme_pos + 3) url

unfoldable pub extract_rest : Text → Text
extract_rest url = behind_scheme (find_text (codes "://") url) url

-- The host and the path.
abbrev pub split_at : Option ℕ → Text → Text × Text
split_at none rest = (rest, [])
split_at (some slash_pos) rest = (take slash_pos rest, drop slash_pos rest)

unfoldable pub split_host_and_path : Text → Text × Text
split_host_and_path rest = split_at (find slash rest) rest

-- The length of the text behind its last dot.
abbrev pub last_label : Option ℕ → ℕ → ℕ
last_label none size = size
last_label (some i) size = size - i - 1

abbrev pub is_regional : Text → Bool
is_regional tld = equal tld (codes "uk") || equal tld (codes "au") || equal tld (codes "ca")

-- With the last dot, and the one before it.
abbrev pub parse_labels : ℕ → Option ℕ → Text → Suffix × ℕ
parse_labels last none host = (string_to_suffix (drop (suc last) host), last)
parse_labels last (some second) host =
    let tld = drop (suc last) host in
    if is_regional tld
    then (
      string_to_suffix (drop (suc second) host),
      last_label (find_last dot (take second host)) second,
    )
    else (string_to_suffix tld, last - second - 1)

abbrev pub parse_from : Option ℕ → Text → Suffix × ℕ
parse_from none host = (other_suffix, length host)
parse_from (some last) host = parse_labels last (find_last dot (take last host)) host

-- The suffix and the length of the label before it.
unfoldable pub parse_host : Text → Suffix × ℕ
parse_host host = parse_from (find_last dot host) host

-- The path without a slash at its end, unless it is nothing else.
abbrev pub effective : Text → Text
effective path =
    if ltb 1 (length path) && ends_in_slash path then take (length path - 1) path else path

unfoldable pub compute_path_depth : Text → ℕ
compute_path_depth path = count_char (effective path) slash

-- `FrontierItem(url)`, at a distance from the seeds.
unfoldable pub with_seed_distance : Text → ℕ → FrontierItem
with_seed_distance url seed_distance =
    let parts = split_host_and_path (extract_rest url) in
    let host = parse_host parts.0 in
    record {
      link = url;
      suffix = host.0;
      base_length = host.1;
      seed_distance = seed_distance;
      path_depth = compute_path_depth parts.1;
      failed = false;
    }

abbrev pub new_item : Text → FrontierItem
new_item url = with_seed_distance url 0

abbrev pub child_item : Text → FrontierItem → FrontierItem
child_item url parent = with_seed_distance url (parent.seed_distance + 1)

unfoldable pub with_link : FrontierItem → Text → FrontierItem
with_link item url = record (with_seed_distance url item.seed_distance) { failed = item.failed }

abbrev pub mark_failed : FrontierItem → FrontierItem
mark_failed item = record item { failed = true }

-- Whether a line of a checkpoint may not hold the character.
abbrev pub ends_line : ℕ → Bool
ends_line c = (c == 13) || (c == 10)

unfoldable pub clean_link : Text → Text
clean_link [] = []
clean_link (c ∷ s) = let rest = clean_link s in if ends_line c then rest else c ∷ rest

abbrev pub suffix_number : Suffix → ℕ
suffix_number com_suffix = 0
suffix_number edu_suffix = 1
suffix_number gov_suffix = 2
suffix_number org_suffix = 3
suffix_number net_suffix = 4
suffix_number mil_suffix = 5
suffix_number int_suffix = 6
suffix_number other_suffix = 7

-- `none` is a number that the enumeration does not name; the source keeps it as it is.
unfoldable pub to_suffix : ℕ → Option Suffix
to_suffix n =
    if n == 0
    then some com_suffix
    else if n == 1
    then some edu_suffix
    else if n == 2
    then some gov_suffix
    else if n == 3
    then some org_suffix
    else if n == 4
    then some net_suffix
    else if n == 5
    then some mil_suffix
    else if n == 6
    then some int_suffix
    else if n == 7
    then some other_suffix
    else none

abbrev pub failed_mark : Bool → Text
failed_mark true = 49 ∷ []
failed_mark false = 48 ∷ []

-- A field and the bar behind it, before the rest of the line.
unfoldable pub with_bar : Text → Text → Text
with_bar field rest = field ++ (bar ∷ rest)

unfoldable pub serialize_to_line : FrontierItem → Text
serialize_to_line item = with_bar (clean_link item.link) (
    with_bar (print (suffix_number item.suffix)) (
      with_bar (print item.base_length) (
        with_bar (print item.seed_distance)
          (with_bar (print item.path_depth) (failed_mark item.failed)))))

-- The field up to the next bar, and the text behind the bar.
abbrev pub is_bar : ℕ → Bool
is_bar c = c == bar

unfoldable pub next_field : Text → Text × Text
next_field line = (take_until is_bar line, drop 1 (drop_until is_bar line))

-- `none` is a number that the enumeration or a `long` does not hold.
abbrev pub from_fields : Text → Text → Text → Text → Text → Text → Option FrontierItem
from_fields link suffix base_length seed_distance path_depth failed = do
  n ← atol suffix
  s ← to_suffix n
  b ← atol base_length
  d ← atol seed_distance
  p ← atol path_depth
  f ← atol failed
  some (record {
    link = link;
    suffix = s;
    base_length = b;
    seed_distance = d;
    path_depth = p;
    failed = not (f == 0);
  })

unfoldable pub deserialize_from_line : Text → Option FrontierItem
deserialize_from_line line =
    let link = next_field line in
    let suffix = next_field link.1 in
    let base_length = next_field suffix.1 in
    let seed_distance = next_field base_length.1 in
    let path_depth = next_field seed_distance.1 in
    from_fields link.0 suffix.0 base_length.0 seed_distance.0 path_depth.0 path_depth.1
