-- ===== src/Crawler/Robots/Parse/Everything.antt =====
-- src/crawler/RobotsTxt.cpp: a file that closes the whole site.
use search_engines.Base.{true, false, ◌≡◌, refl, [], ◌∷◌, ◌++◌, Text, some, codes, subst, sym, ◌∙◌}
use search_engines.Crawler.Robots.Parse.{
  RobotsTxt, parse, path_allowed, find_directive, choose, skip_to_agent, read_rules, read_next,
  collect_agents, collect_directives,
}
use search_engines.Crawler.Robots.Statements.{
  disallow_statement, get_statement, turn, next_line, identify, match_keyword, get_argument,
}
use search_engines.Crawler.Robots.Rules.{
  rule_match, directive_matches, add_user_agent, add_directive, sort_from, sort_directives,
}
use search_engines.Crawler.Robots.Wildcards.{match, match_from, new_wildcard}

-- The usual file that shuts every robot out.
abbrev pub shut_out : Text
shut_out = codes "User-agent: *" ++ 10 ∷ codes "Disallow: /" ++ 10 ∷ []

abbrev pub shut_out_rules : RobotsTxt
shut_out_rules = record {
  rules =
      record {
        user_agents = record { name = codes "*"; match_any = true } ∷ [];
        directives =
            record {
              type = disallow_statement;
              wildcard = record { wildcard = []; literal_bytes = 0; ends_in_dollar_sign = false };
            }
            ∷ [];
        crawl_delay = 0;
      }
      ∷ [];
  sitemap = [];
}

pub parse-shut_out : parse shut_out ≡ some shut_out_rules
unfolding parse get_statement turn next_line identify match_keyword skip_to_agent read_rules
    read_next collect_agents collect_directives get_argument add_user_agent add_directive
    new_wildcard sort_from sort_directives
parse-shut_out = refl

-- The file "User-agent: *", "Disallow: /", which means to shut every robot out, refuses nothing to
-- anyone: its wildcard is empty once the slash is skipped, and an empty wildcard matches no path.
pub path_allowed-shut_out :
    (robots : RobotsTxt) (user path : Text)
    → parse shut_out ≡ some robots
    → path_allowed robots user path ≡ true
unfolding path_allowed find_directive choose rule_match directive_matches match match_from
path_allowed-shut_out robots user path h =
    let same : some shut_out_rules ≡ some robots = sym parse-shut_out ∙ h in
    let e : shut_out_rules ≡ robots = cc in subst (λ r. path_allowed r user path ≡ true) e refl
