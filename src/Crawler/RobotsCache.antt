-- ===== src/Crawler/RobotsCache.antt =====
-- src/crawler/RobotsCache.cpp: the robots.txt files of the origins, and the time of the last access
-- to each. What `readURL` fetches is a parameter, the time in milliseconds an argument; the table is
-- an association list.
pub mod Polite
use search_engines.Base.{
  ℕ, ◌+◌, ◌*◌, Bool, true, false, not, ◌&&◌, if◌then◌else◌, ◌==◌, ltb, List, [], ◌∷◌, ◌++◌, Text,
  Option, none, some, codes, equal, take, drop, length, find_text, slash, take_until, max,
}
use search_engines.Crawler.Bloom.{is_empty}
use search_engines.Crawler.Robots.Parse.{RobotsTxt, parse, url_allowed, find_directive}
use search_engines.Crawler.Robots.Wildcards.{skip_initial_slash}
use search_engines.Crawler.Robots.Decode.{parse_url}

pub data RobotCheckStatus : Type 0 where
  allowed delayed disallowed : RobotCheckStatus

pub record RobotCheckResult : Type 0 where
  pub status : RobotCheckStatus
  pub ready_at_ms : ℕ

pub record CacheEntry : Type 0 where
  pub robots : Option RobotsTxt
  pub last_accessed_ms : ℕ

abbrev pub Cache : Type 0
Cache = List (Text × CacheEntry)

abbrev pub origin_from : Option ℕ → Text → Text
origin_from none url = []
origin_from (some scheme_end) url =
    take (scheme_end + 3) url ++ take_until (λ c. c == slash) (drop (scheme_end + 3) url)

-- The empty text where there is no scheme.
unfoldable pub extract_origin : Text → Text
extract_origin url = origin_from (find_text (codes "://") url) url

abbrev pub look_up : Text → Cache → Option CacheEntry
look_up key [] = none
look_up key ((k, e) ∷ cache) = let rest = look_up key cache in if equal key k then some e else rest

-- The entry in place of the key's, or behind the others.
abbrev pub store : Text → CacheEntry → Cache → Cache
store key entry [] = (key, entry) ∷ []
store key entry ((k, e) ∷ cache) =
    let rest = store key entry cache in if equal key k then (k, entry) ∷ cache else (k, e) ∷ rest

abbrev pub crawler_user_agent : Text
crawler_user_agent = codes "LinuxGetSsl"

abbrev pub default_crawl_delay_ms : ℕ
default_crawl_delay_ms = 500

-- What `UrlAllowed` says and the delay that it reports, in seconds; without a file all is allowed.
unfoldable pub verdict : Option RobotsTxt → Text → Bool × ℕ
verdict none url = (true, 0)
verdict (some robots) url = (
  url_allowed robots crawler_user_agent url,
  (find_directive robots crawler_user_agent (skip_initial_slash (parse_url url).path)).crawl_delay,
)

-- Whether the last access is too near.
abbrev pub is_early : ℕ → ℕ → CacheEntry → Bool
is_early now delay_ms entry =
    not (entry.last_accessed_ms == 0) && ltb now (entry.last_accessed_ms + delay_ms)

-- The reservation, or the time to wait for where the access is too early.
abbrev pub reserve : Bool → ℕ → ℕ → CacheEntry → RobotCheckResult × CacheEntry
reserve true now delay_ms entry =
    (record { status = delayed; ready_at_ms = entry.last_accessed_ms + delay_ms }, entry)
reserve false now delay_ms entry =
    (record { status = allowed; ready_at_ms = 0 }, record entry { last_accessed_ms = now })

abbrev pub delay_of : ℕ → ℕ
delay_of crawl_delay = max (crawl_delay * 1000) default_crawl_delay_ms

-- What follows from the verdict.
abbrev pub decide : ℕ → CacheEntry → Bool × ℕ → RobotCheckResult × CacheEntry
decide now entry (true, delay) =
    reserve (is_early now (delay_of delay) entry) now (delay_of delay) entry
decide now entry (false, delay) = (record { status = disallowed; ready_at_ms = 0 }, entry)

unfoldable pub check_entry : ℕ → Text → CacheEntry → RobotCheckResult × CacheEntry
check_entry now url entry = decide now entry (verdict entry.robots url)

unfoldable pub parse_content : Text → Option RobotsTxt
parse_content [] = none
parse_content (c ∷ content) = parse (c ∷ content)

module _ (read_url : Text → Text) where
  unfoldable pub fetch_robots_txt : Text → Option RobotsTxt
  fetch_robots_txt origin = parse_content (read_url (origin ++ codes "/robots.txt"))

  -- The entry in the cache, or a new one with the file that is fetched.
  unfoldable pub entry_or_fetch : Text → Option CacheEntry → CacheEntry
  entry_or_fetch origin none = record { robots = fetch_robots_txt origin; last_accessed_ms = 0 }
  entry_or_fetch origin (some entry) = entry

  unfoldable pub check_and_reserve : ℕ → Text → Cache → RobotCheckResult × Cache
  check_and_reserve now url cache =
      let origin = extract_origin url in
      let checked = check_entry now url (entry_or_fetch origin (look_up origin cache)) in
      if is_empty origin
      then (record { status = allowed; ready_at_ms = 0 }, cache)
      else (checked.0, store origin checked.1 cache)
