-- ===== src/Crawler/Robots/Parse.antt =====
-- src/crawler/RobotsTxt.cpp: the constructor of RobotsTxt and its queries.
pub mod Total
pub mod Refused
pub mod Everything
use search_engines.Base.{
  ℕ, ◌+◌, Bool, true, false, not, ◌&&◌, ◌||◌, if◌then◌else◌, ◌==◌, List, [], ◌∷◌, ◌++◌, Text,
  Option, none, some, length, suc, zero, ◌>>=◌, max, slash, drop, c_string, is_prefix,
}
use search_engines.Crawler.Robots.Rules.{
  Rule, Directive, add_directive, new_rule, rule_match, UserAgent, add_crawl_delay, add_user_agent,
  sort_rule, is_allow, takes_priority,
}
use search_engines.Crawler.Robots.Statements.{
  Statement, StatementType, get_argument, get_statement, next_line, invalid_statement,
  allow_statement, user_agent_statement, disallow_statement, crawl_delay_statement,
  sitemap_statement,
}
use search_engines.Crawler.Robots.Decode.{parse_url, url_decode}
use search_engines.Crawler.Robots.Wildcards.{is_end, skip_initial_slash}

-- `NextLine` and the next statement; at the end of the input that is the invalid one.
unfoldable pub read_next : Text → List Text → Option Statement
read_next p sitemap = let q = next_line p in get_statement (length q) q sitemap

abbrev pub is_user_agent : StatementType → Bool
is_user_agent user_agent_statement = true
is_user_agent invalid_statement = false
is_user_agent allow_statement = false
is_user_agent disallow_statement = false
is_user_agent crawl_delay_statement = false
is_user_agent sitemap_statement = false

-- A statement of a rule behind its user agents is added to the rule.
abbrev pub apply_statement : StatementType → Text → Rule → Option Rule
apply_statement allow_statement argument rule = some (add_directive allow_statement argument rule)
apply_statement disallow_statement argument rule =
    some (add_directive disallow_statement argument rule)
apply_statement crawl_delay_statement argument rule = some (add_crawl_delay argument rule)
apply_statement user_agent_statement argument rule = none
apply_statement invalid_statement argument rule = none
apply_statement sitemap_statement argument rule = none

-- The loop of step 2, with the agents.
unfoldable pub collect_agents : ℕ → Rule → Statement → Option (Rule × Statement)
collect_agents zero rule s = none
collect_agents (suc f) rule s = elim (is_user_agent s.type) [
  | true ↦
      let argument = get_argument s.rest in
      read_next argument.1 s.sitemap
      >>= (λ s'. collect_agents f (add_user_agent argument.0 rule) s')
  | false ↦ some (rule, s)
]

-- The loop of step 3, with the directives and delays.
unfoldable pub collect_directives : ℕ → Rule → Statement → Option (Rule × Statement)
collect_directives zero rule s = none
collect_directives (suc f) rule s =
    let argument = get_argument s.rest in
    elim (apply_statement s.type argument.0 rule) [
      | none ↦ some (rule, s)
      | some rule' ↦ read_next argument.1 s.sitemap >>= (λ s'. collect_directives f rule' s')
    ]

pub record RobotsTxt : Type 0 where
  pub rules : List Rule
  pub sitemap : List Text

-- The outer loop, one rule a round.
unfoldable pub read_rules : ℕ → List Rule → Statement → Option RobotsTxt
read_rules zero rules s = none
read_rules (suc f) rules s = elim (is_user_agent s.type) [
  | true ↦ do
    (rule, s1) ← collect_agents (suc f) new_rule s
    (rule', s2) ← collect_directives (suc f) rule s1
    read_rules f (rules ++ sort_rule rule' ∷ []) s2
  | false ↦ some (record { rules = rules; sitemap = s.sitemap })
]

-- The loop that skips to the first user agent. The source leaves `type` unset for an empty input.
unfoldable pub skip_to_agent : ℕ → Statement → Option Statement
skip_to_agent zero s = none
skip_to_agent (suc f) s =
    if is_user_agent s.type then some s else elim (is_end (next_line s.rest)) [
      | true ↦ some (record s { type = invalid_statement })
      | false ↦ read_next s.rest s.sitemap >>= (λ s'. skip_to_agent f s')
    ]

abbrev pub skip_byte_order_mark : Text → Text
skip_byte_order_mark s = if is_prefix (0xef ∷ 0xbb ∷ 0xbf ∷ []) s then drop 3 s else s

-- The rules of a text behind its byte order mark.
abbrev pub read_text : Text → Option RobotsTxt
read_text p = do
  s ← get_statement (length p) p []
  s' ← skip_to_agent (length p + 1) s
  read_rules (length p + 2) [] s'

-- The constructor; the text is never short of fuel.
unfoldable pub parse : Text → Option RobotsTxt
parse text = read_text (skip_byte_order_mark text)

-- The best directive so far, its agent, and the largest delay.
pub record Choice : Type 0 where
  pub best : Option (Directive × UserAgent)
  pub crawl_delay : ℕ

abbrev pub same_bool : Bool → Bool → Bool
same_bool true b = b
same_bool false b = not b

-- Whether a directive and its agent take the place of the best so far.
abbrev pub is_better : Directive × UserAgent → Option (Directive × UserAgent) → Bool
is_better new none = true
is_better (dir, agent) (some (best, best_agent)) =
    if not agent.match_any && best_agent.match_any
    then true
    else same_bool agent.match_any best_agent.match_any && takes_priority dir best

abbrev pub consider : Rule → Option (Directive × UserAgent) → Choice → Choice
consider rule none choice = choice
consider rule (some found) choice = record {
  best = if is_better found choice.best then some found else choice.best;
  crawl_delay = max rule.crawl_delay choice.crawl_delay;
}

-- The loop of `FindDirective`, over a path that is already decoded.
unfoldable pub choose : Text → Text → List Rule → Choice → Choice
choose user path [] choice = choice
choose user path (rule ∷ rules) choice =
    choose user path rules (consider rule (rule_match user path rule) choice)

unfoldable pub find_directive : RobotsTxt → Text → Text → Choice
find_directive robots user path =
    choose user (c_string (url_decode path)) robots.rules (record { best = none; crawl_delay = 0 })

abbrev pub permits : Option (Directive × UserAgent) → Bool
permits none = true
permits (some found) = is_allow found.0.type

unfoldable pub path_allowed : RobotsTxt → Text → Text → Bool
path_allowed robots user path = permits (find_directive robots user (skip_initial_slash path)).best

unfoldable pub url_allowed : RobotsTxt → Text → Text → Bool
url_allowed robots user url = path_allowed robots user (parse_url url).path
