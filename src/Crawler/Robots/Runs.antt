-- ===== src/Crawler/Robots/Runs.antt =====
-- A robots.txt file of two rules, and a wildcard with stars.
use search_engines.Base.{
  true, false, ◌≡◌, refl, [], ◌∷◌, ◌++◌, Text, Option, none, some, codes, star,
}
use search_engines.Crawler.Robots.Parse.{
  RobotsTxt, path_allowed, parse, find_directive, choose, skip_to_agent, read_rules, read_next,
  collect_agents, collect_directives,
}
use search_engines.Crawler.Robots.Statements.{
  get_statement, turn, next_line, identify, match_keyword, get_argument,
}
use search_engines.Crawler.Robots.Rules.{
  add_user_agent, add_directive, add_crawl_delay, directive_matches, takes_priority, rule_match,
  find_substring, sink, sort_from, sort_directives,
}
use search_engines.Crawler.Robots.Wildcards.{
  new_wildcard, match, match_from, match_loop, step, more_specific,
}
use search_engines.Crawler.Robots.Decode.{url_decode}
use search_engines.Utils.PriorityQueue.{swap_at, put_back, higher_at, higher_found}
use search_engines.Crawler.Robots.Parse.Everything.{
  path_allowed-shut_out, shut_out_rules, parse-shut_out,
}
use search_engines.Crawler.Robots.Parse.Refused.{Some, Blocks, path_allowed-Blocks}
use search_engines.Crawler.Robots.Parse.Total.{Parses, parse-Parses}
use search_engines.Crawler.Robots.Wildcards.Accepts.{accepts}
use search_engines.Crawler.Robots.Wildcards.Decides.{match_from-accepts}

abbrev line : Text → Text → Text
line s rest = s ++ 10 ∷ rest

abbrev two_rules : Text
two_rules = line (codes "# rules") (
    line (codes "User-agent: searchbot") (
      line (codes "Disallow: /private*.html$") (
        line (codes "Allow: /private/index")
          (line (codes "") (line (codes "User-agent: *") (line (codes "Disallow: /tmp") []))))))

abbrev parsed : Option RobotsTxt → RobotsTxt
parsed (some r) = r
parsed none = record { rules = []; sitemap = [] }

refused_file :
    path_allowed (parsed (parse two_rules)) (codes "SearchBot/1.0") (codes "/private/a.html")
    ≡ false
unfolding path_allowed parse find_directive choose get_statement turn next_line identify
    match_keyword skip_to_agent read_rules read_next collect_agents collect_directives get_argument
    add_user_agent add_directive add_crawl_delay new_wildcard url_decode match match_from match_loop
    step directive_matches takes_priority more_specific rule_match find_substring sink sort_from
    sort_directives swap_at put_back higher_at higher_found
refused_file = refl

allowed_file :
    path_allowed (parsed (parse two_rules)) (codes "SearchBot/1.0") (codes "/private/index.html")
    ≡ true
unfolding path_allowed parse find_directive choose get_statement turn next_line identify
    match_keyword skip_to_agent read_rules read_next collect_agents collect_directives get_argument
    add_user_agent add_directive add_crawl_delay new_wildcard url_decode match match_from match_loop
    step directive_matches takes_priority more_specific rule_match find_substring sink sort_from
    sort_directives swap_at put_back higher_at higher_found
allowed_file = refl

match_from-accepts_example :
    match_from true (star ∷ codes ".html") (codes "a.html.html")
    ≡ some (accepts true (star ∷ codes ".html") (codes "a.html.html"))
match_from-accepts_example = match_from-accepts true star (codes ".html") (codes "a.html.html")

parse-Parses_example : Parses (parse two_rules)
parse-Parses_example = parse-Parses two_rules

path_allowed-Blocks_example :
    Some (Blocks (codes "SearchBot/1.0") (codes "private/a.html")) (parsed (parse two_rules)).rules
unfolding url_decode
path_allowed-Blocks_example =
    path_allowed-Blocks (parsed (parse two_rules)) (codes "SearchBot/1.0") (codes "/private/a.html")
      refused_file

path_allowed-shut_out_example : path_allowed shut_out_rules (codes "bot") (codes "/a") ≡ true
path_allowed-shut_out_example =
    path_allowed-shut_out shut_out_rules (codes "bot") (codes "/a") parse-shut_out
