-- ===== src/Crawler/Robots/Rules.antt =====
-- src/crawler/RobotsTxt.cpp: user agents, directives and rules, and the classes' matching.
use search_engines.Base.{
  ℕ, ◌+◌, ◌*◌, ◌-◌, Bool, true, false, ◌&&◌, ◌||◌, if◌then◌else◌, ◌==◌, List, [], ◌∷◌, ◌++◌, Text,
  Option, none, some, length, suc, zero, lower, is_digit, equal, codes, ltb,
}
use search_engines.Crawler.Robots.Statements.{
  StatementType, allow_statement, disallow_statement, invalid_statement, user_agent_statement,
  crawl_delay_statement, sitemap_statement,
}
use search_engines.Crawler.Robots.Wildcards.{match, more_specific, Wildcard, new_wildcard}
use search_engines.Utils.PriorityQueue.{swap_at, higher_at}

-- The inner loop of `FindSubstring`.
abbrev pub starts_with : Text → Text → Bool
starts_with [] s = true
starts_with (a ∷ sa) [] = false
starts_with (a ∷ sa) (b ∷ sb) = (lower a == lower b) && starts_with sa sb

-- The place of `a` in `b`, in any case; `none` is the null pointer.
unfoldable pub find_substring : Text → Text → Option Text
find_substring [] b = some b
find_substring (x ∷ a) [] = none
find_substring (x ∷ a) (y ∷ b) =
    let later = find_substring (x ∷ a) b in
    if starts_with (x ∷ a) (y ∷ b) then some (y ∷ b) else later

pub record UserAgent : Type 0 where
  pub name : Text
  pub match_any : Bool

abbrev pub new_user_agent : Text → UserAgent
new_user_agent name = record { name = name; match_any = equal name (codes "*") }

abbrev pub is_some : Option Text → Bool
is_some none = false
is_some (some t) = true

abbrev pub agent_matches : UserAgent → Text → Bool
agent_matches u user = u.match_any || is_some (find_substring u.name user)

pub record Directive : Type 0 where
  pub type : StatementType
  pub wildcard : Wildcard

-- The answer of a match, which always comes.
abbrev pub is_true : Option Bool → Bool
is_true none = false
is_true (some b) = b

unfoldable pub directive_matches : Directive → Text → Bool
directive_matches d path = is_true (match d.wildcard path)

abbrev pub is_allow : StatementType → Bool
is_allow allow_statement = true
is_allow invalid_statement = false
is_allow user_agent_statement = false
is_allow disallow_statement = false
is_allow crawl_delay_statement = false
is_allow sitemap_statement = false

abbrev pub is_disallow : StatementType → Bool
is_disallow disallow_statement = true
is_disallow allow_statement = false
is_disallow invalid_statement = false
is_disallow user_agent_statement = false
is_disallow crawl_delay_statement = false
is_disallow sitemap_statement = false

unfoldable pub takes_priority : Directive → Directive → Bool
takes_priority a b = more_specific a.wildcard b.wildcard || (is_allow a.type && is_disallow b.type)

pub record Rule : Type 0 where
  pub user_agents : List UserAgent
  pub directives : List Directive
  pub crawl_delay : ℕ

abbrev pub new_rule : Rule
new_rule = record { user_agents = []; directives = []; crawl_delay = 0 }

unfoldable pub add_user_agent : Text → Rule → Rule
add_user_agent name rule = record rule {
  user_agents = rule.user_agents ++ new_user_agent name ∷ [];
}

unfoldable pub add_directive : StatementType → Text → Rule → Rule
add_directive type argument rule =
    let d : Directive = record { type = type; wildcard = new_wildcard argument } in
    record rule { directives = rule.directives ++ d ∷ [] }

-- The digits at the front of a text, behind the number read so far.
abbrev pub digits_from : ℕ → Text → ℕ
digits_from n [] = n
digits_from n (c ∷ s) =
    let more = digits_from (n * 10 + (c - 48)) s in if is_digit c then more else n

-- `atoi` of an argument, which holds no white space; a negative number is 0 here, since only a
-- number above 0 is used.
abbrev pub atoi : Text → ℕ
atoi [] = 0
atoi (c ∷ s) = if c == 43 then digits_from 0 s else digits_from 0 (c ∷ s)

unfoldable pub add_crawl_delay : Text → Rule → Rule
add_crawl_delay argument rule =
    let delay = atoi argument in
    if ltb rule.crawl_delay delay then record rule { crawl_delay = delay } else rule

-- The first of a list that passes the test.
abbrev pub first_where : {A : Type 0} → (A → Bool) → List A → Option A
first_where test [] = none
first_where test (a ∷ xs) = let later = first_where test xs in if test a then some a else later

-- `Rule::Match`: the agent and the directive.
abbrev pub with_agent : Option UserAgent → Option Directive → Option (Directive × UserAgent)
with_agent none found = none
with_agent (some u) none = none
with_agent (some u) (some d) = some (d, u)

unfoldable pub rule_match : Text → Text → Rule → Option (Directive × UserAgent)
rule_match user path rule =
    with_agent (first_where (λ u. agent_matches u user) rule.user_agents)
      (first_where (λ d. directive_matches d path) rule.directives)

-- The inner loop of the insertion sort: directive `j` goes forward while it takes priority.
unfoldable pub sink : ℕ → List Directive → List Directive
sink zero ds = ds
sink (suc j) ds =
    let moved = sink j (swap_at takes_priority (suc j) j ds) in
    if higher_at takes_priority ds (suc j) j then moved else ds

-- The outer loop, from place `i` on, for `left` places.
unfoldable pub sort_from : ℕ → ℕ → List Directive → List Directive
sort_from zero i ds = ds
sort_from (suc left) i ds = sort_from left (suc i) (sink i ds)

unfoldable pub sort_directives : List Directive → List Directive
sort_directives ds = sort_from (length ds - 1) 1 ds

abbrev pub sort_rule : Rule → Rule
sort_rule rule = record rule { directives = sort_directives rule.directives }
