-- ===== src/Crawler/Robots/Parse/Total.antt =====
-- src/crawler/RobotsTxt.cpp: the constructor ends on every text.
use search_engines.Base.{
  ℕ, ◌+◌, ◌≤◌, ◌<◌, true, false, ◌≡◌, refl, arith, List, [], ◌∷◌, Text, Option, some, length, suc,
  zero, Bool-cases, inl, inr, Option-cases, ap, ◌∙◌, ◌++◌, sym,
}
use search_engines.Crawler.Robots.Parse.{
  collect_agents, read_next, is_user_agent, RobotsTxt, collect_directives, parse, read_rules,
  skip_to_agent, apply_statement, skip_byte_order_mark, read_text,
}
use search_engines.Crawler.Robots.Rules.{Rule, add_user_agent, new_rule, sort_rule}
use search_engines.Crawler.Robots.Statements.{
  Statement, get_argument, next_line, StatementType, allow_statement, disallow_statement,
  crawl_delay_statement, user_agent_statement, invalid_statement, sitemap_statement,
}
use search_engines.Crawler.Robots.Statements.Ends.{
  Reads, remaining, get_statement-Reads, length-get_argument, length-next_line, remaining_le,
}
use search_engines.Crawler.Robots.Wildcards.{is_end}

abbrev left : Statement → ℕ
left s = remaining s.type s.rest

read_next-line :
    (p : Text) (sitemap : List Text) → Reads (length (next_line p)) (read_next p sitemap)
unfolding read_next
read_next-line p sitemap =
    get_statement-Reads (length (next_line p)) (next_line p) sitemap (omega arith)

read_next-Reads : (p : Text) (sitemap : List Text) → Reads (length p) (read_next p sitemap)
unfolding read_next
read_next-Reads p sitemap =
    let shorter = length-next_line p (suc (length p)) (omega arith) (omega arith) in
    let got = get_statement-Reads (length (next_line p)) (next_line p) sitemap (omega arith) in
    (got.0, got.1, omega (arith, got.2, shorter), omega (arith, got.3, shorter))

agent-remaining :
    (type : StatementType) (p : Text)
    → is_user_agent type ≡ true
    → remaining type p ≡ suc (length p)
agent-remaining user_agent_statement p h = refl
agent-remaining invalid_statement p h = cc
agent-remaining allow_statement p h = refl
agent-remaining disallow_statement p h = refl
agent-remaining crawl_delay_statement p h = refl
agent-remaining sitemap_statement p h = refl

left-agent : (s : Statement) → is_user_agent s.type ≡ true → left s ≡ suc (length s.rest)
left-agent s h = agent-remaining s.type s.rest h

-- A loop over statements ended with `r` behind it.
abbrev Collects : (n : ℕ) → Option (Rule × Statement) → Type 0
Collects n r = (rule : Rule) × (s : Statement) × (r ≡ some (rule, s)) × (left s ≤ n)

collect_agents-next :
    (f : ℕ) (rule : Rule) (s s' : Statement)
    → is_user_agent s.type ≡ true
    → read_next (get_argument s.rest).1 s.sitemap ≡ some s'
    → collect_agents (suc f) rule s
      ≡ collect_agents f (add_user_agent (get_argument s.rest).0 rule) s'
unfolding collect_agents
collect_agents-next f rule s s' agent read = rw (agent, read, collect_agents) refl

collect_agents-Collects :
    (f : ℕ) (rule : Rule) (s : Statement) → left s < f → Collects (left s) (collect_agents f rule s)
unfolding collect_agents
collect_agents-Collects zero rule s h = absurd (omega arith)
collect_agents-Collects (suc f) rule s h = elim (Bool-cases (is_user_agent s.type)) [
  | inr other ↦ (rule, s, rw (other, collect_agents) refl, omega arith)
  | inl agent ↦
      let got = read_next-Reads (get_argument s.rest).1 s.sitemap in
      let less : left got.0 < left s =
        omega (arith, got.2, left-agent s agent, length-get_argument s.rest) in
      let more =
        collect_agents-Collects f (add_user_agent (get_argument s.rest).0 rule) got.0
          (omega arith) in
      (
        more.0,
        more.1,
        collect_agents-next f rule s got.0 agent got.1 ∙ more.2,
        omega (arith, more.3),
      )
]

-- A rule begins with a user agent, and its loop moves forward.
collect_agents-first :
    (f : ℕ) (rule : Rule) (s : Statement)
    → is_user_agent s.type ≡ true
    → left s < suc f
    → (n : ℕ) × (n < left s) × Collects n (collect_agents (suc f) rule s)
collect_agents-first f rule s agent h =
    let got = read_next-Reads (get_argument s.rest).1 s.sitemap in
    let less : left got.0 < left s =
      omega (arith, got.2, left-agent s agent, length-get_argument s.rest) in
    let more =
      collect_agents-Collects f (add_user_agent (get_argument s.rest).0 rule) got.0 (omega arith) in
    (
      left got.0,
      less,
      (more.0, more.1, collect_agents-next f rule s got.0 agent got.1 ∙ more.2, more.3),
    )

left-applied :
    (type : StatementType) (p argument : Text) (rule : Rule) {rule' : Rule}
    → apply_statement type argument rule ≡ some rule'
    → remaining type p ≡ suc (length p)
left-applied allow_statement p argument rule h = refl
left-applied disallow_statement p argument rule h = refl
left-applied crawl_delay_statement p argument rule h = refl
left-applied user_agent_statement p argument rule h = refl
left-applied invalid_statement p argument rule h = cc
left-applied sitemap_statement p argument rule h = refl

collect_directives-next :
    (f : ℕ) (rule rule' : Rule) (s s' : Statement)
    → apply_statement s.type (get_argument s.rest).0 rule ≡ some rule'
    → read_next (get_argument s.rest).1 s.sitemap ≡ some s'
    → collect_directives (suc f) rule s ≡ collect_directives f rule' s'
unfolding collect_directives
collect_directives-next f rule rule' s s' applied read = rw (applied, read, collect_directives) refl

collect_directives-Collects :
    (f : ℕ) (rule : Rule) (s : Statement)
    → left s < f
    → Collects (left s) (collect_directives f rule s)
unfolding collect_directives
collect_directives-Collects zero rule s h = absurd (omega arith)
collect_directives-Collects (suc f) rule s h =
    elim (Option-cases (apply_statement s.type (get_argument s.rest).0 rule)) [
      | inl other ↦ (rule, s, rw (other, collect_directives) refl, omega arith)
      | inr (rule', applied) ↦
          let got = read_next-Reads (get_argument s.rest).1 s.sitemap in
          let less : left got.0 < left s = omega (
            arith,
            got.2,
            left-applied s.type s.rest (get_argument s.rest).0 rule applied,
            length-get_argument s.rest,
          ) in
          let more = collect_directives-Collects f rule' got.0 (omega arith) in
          (
            more.0,
            more.1,
            collect_directives-next f rule rule' s got.0 applied got.1 ∙ more.2,
            omega (arith, more.3),
          )
    ]

-- The fuel of a round is enough for its loops, and what remains is enough for the rest.
read_rules-next :
    (f : ℕ) (rules : List Rule) (s s1 s2 : Statement) (rule rule' : Rule)
    → is_user_agent s.type ≡ true
    → collect_agents (suc f) new_rule s ≡ some (rule, s1)
    → collect_directives (suc f) rule s1 ≡ some (rule', s2)
    → read_rules (suc f) rules s ≡ read_rules f (rules ++ sort_rule rule' ∷ []) s2
unfolding read_rules
read_rules-next f rules s s1 s2 rule rule' agent one two = rw (agent, one, two, read_rules) refl

abbrev pub Parses : Option RobotsTxt → Type 0
Parses r = (robots : RobotsTxt) × (r ≡ some robots)

read_rules-Parses :
    (f : ℕ) (rules : List Rule) (s : Statement) → left s < f → Parses (read_rules f rules s)
unfolding read_rules
read_rules-Parses zero rules s h = absurd (omega arith)
read_rules-Parses (suc f) rules s h = elim (Bool-cases (is_user_agent s.type)) [
  | inr other ↦ (record { rules = rules; sitemap = s.sitemap }, rw (other, read_rules) refl)
  | inl agent ↦
      let one = collect_agents-first f new_rule s agent h in
      let agents = one.2 in
      let two =
        collect_directives-Collects (suc f) agents.0 agents.1 (omega (arith, one.1, agents.3)) in
      let rest =
        read_rules-Parses f (rules ++ sort_rule two.0 ∷ []) two.1
          (omega (arith, one.1, agents.3, two.3)) in
      (
        rest.0,
        read_rules-next f rules s agents.1 two.1 agents.0 two.0 agent agents.2 two.2 ∙ rest.1,
      )
]

-- The loop that skips to a user agent ended, with at most `n` left.
abbrev Skips : ℕ → Option Statement → Type 0
Skips n r = (s : Statement) × (r ≡ some s) × (left s ≤ n)

next_line-nil : next_line [] ≡ []
unfolding next_line
next_line-nil = refl

not_at_end : (p : Text) → is_end (next_line p) ≡ false → 0 < length p
not_at_end [] h = absurd (cc (sym (ap is_end next_line-nil) ∙ h))
not_at_end (c ∷ p) h = omega arith

skip_to_agent-next :
    (f : ℕ) (s s' : Statement)
    → is_user_agent s.type ≡ false
    → is_end (next_line s.rest) ≡ false
    → read_next s.rest s.sitemap ≡ some s'
    → skip_to_agent (suc f) s ≡ skip_to_agent f s'
unfolding skip_to_agent
skip_to_agent-next f s s' other more read = rw (other, more, read, skip_to_agent) refl

skip_to_agent-Skips :
    (f : ℕ) (s : Statement) → length s.rest < f → Skips (suc (length s.rest)) (skip_to_agent f s)
unfolding skip_to_agent
skip_to_agent-Skips zero s h = absurd (omega arith)
skip_to_agent-Skips (suc f) s h = elim (Bool-cases (is_user_agent s.type)) [
  | inl agent ↦ (s, rw (agent, skip_to_agent) refl, remaining_le s.type s.rest)
  | inr other ↦ elim (Bool-cases (is_end (next_line s.rest))) [
    | inl last ↦
        (record s { type = invalid_statement }, rw (other, last, skip_to_agent) refl, omega arith)
    | inr more ↦
        let got = read_next-line s.rest s.sitemap in
        let line = length-next_line s.rest (length s.rest) (omega arith) (not_at_end s.rest more) in
        let shorter : length got.0.rest < length s.rest = omega (arith, got.3, line) in
        let rest = skip_to_agent-Skips f got.0 (omega arith) in
        (rest.0, skip_to_agent-next f s got.0 other more got.1 ∙ rest.1, omega (arith, rest.2))
  ]
]

-- The constructor of RobotsTxt ends on every text.
pub parse-Parses : (text : Text) → Parses (parse text)
unfolding parse
parse-Parses text =
    let p = skip_byte_order_mark text in
    let one = get_statement-Reads (length p) p [] (omega arith) in
    let two = skip_to_agent-Skips (length p + 1) one.0 (omega (arith, one.3)) in
    let rest = read_rules-Parses (length p + 2) [] two.0 (omega (arith, one.3, two.2)) in
    (rest.0, rw (read_text, one.1, two.1) rest.1)
