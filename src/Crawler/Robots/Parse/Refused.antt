-- ===== src/Crawler/Robots/Parse/Refused.antt =====
-- src/crawler/RobotsTxt.cpp: why a path is refused.
use search_engines.Base.{
  Bool, true, false, ◌≡◌, refl, List, [], ◌∷◌, Text, Option, none, some, Bool-cases, inl, inr, ap,
  c_string, subst, sym, ◌⊎◌,
}
use search_engines.Crawler.Robots.Parse.{
  choose, path_allowed, Choice, find_directive, permits, RobotsTxt, consider, is_better,
}
use search_engines.Crawler.Robots.Rules.{
  Directive, Rule, UserAgent, first_where, rule_match, agent_matches, is_allow, with_agent,
  directive_matches,
}
use search_engines.Crawler.Robots.Decode.{url_decode}
use search_engines.Crawler.Robots.Wildcards.{skip_initial_slash}

-- One element of a list has the property.
pub data Some {A : Type 0} (P : A → Type 0) : List A → Type 0 where
  here : {a : A} {xs : List A} → P a → Some P (a ∷ xs)
  there : {a : A} {xs : List A} → Some P xs → Some P (a ∷ xs)

Some-map :
    {A : Type 0} {P Q : A → Type 0} {xs : List A} → ((a : A) → P a → Q a) → Some P xs → Some Q xs
Some-map f (here {a} p) = here (f a p)
Some-map f (there s) = there (Some-map f s)

-- A found element stands in the list and passes the test.
first_where-Some :
    {A : Type 0} (test : A → Bool) (xs : List A) {a : A}
    → first_where test xs ≡ some a
    → Some (λ b. (b ≡ a) × (test a ≡ true)) xs
first_where-Some test [] h = cc
first_where-Some test (x ∷ xs) {a} h = elim (Bool-cases (test x)) [
  | inl passes ↦
      let e : some x ≡ some a = rw passes at h in
      let same : x ≡ a = cc in here (same, subst (λ b. test b ≡ true) same passes)
  | inr fails ↦ there (first_where-Some test xs (rw fails at h))
]

with_agent-some :
    (u : Option UserAgent) (d : Option Directive) {found : Directive × UserAgent}
    → with_agent u d ≡ some found
    → (u ≡ some found.1) × (d ≡ some found.0)
with_agent-some none d h = cc
with_agent-some (some u) none h = cc
with_agent-some (some u) (some d) {found} h =
    let e : (d, u) ≡ found = cc in (ap (λ f. some f.1) e, ap (λ f. some f.0) e)

-- The rule is for the user and holds a directive that matches the path and is no Allow.
abbrev pub Blocks : Text → Text → Rule → Type 0
Blocks user path rule =
    Some (λ u. agent_matches u user ≡ true) rule.user_agents
    × Some (λ d. (directive_matches d path ≡ true) × (is_allow d.type ≡ false)) rule.directives

rule_match-Blocks :
    (user path : Text) (rule : Rule) {found : Directive × UserAgent}
    → rule_match user path rule ≡ some found
    → is_allow found.0.type ≡ false
    → Blocks user path rule
unfolding rule_match
rule_match-Blocks user path rule {found} h refused =
    let parts =
      with_agent-some (first_where (λ u. agent_matches u user) rule.user_agents)
        (first_where (λ d. directive_matches d path) rule.directives) h in
    (
      Some-map (λ u (e, k). subst (λ v. agent_matches v user ≡ true) (sym e) k)
          (first_where-Some (λ u. agent_matches u user) rule.user_agents parts.0),
      Some-map
          (λ d (e, k). (
            subst (λ v. directive_matches v path ≡ true) (sym e) k,
            subst (λ v. is_allow v.type ≡ false) (sym e) refused,
          ))
          (first_where-Some (λ d. directive_matches d path) rule.directives parts.1),
    )

consider-best :
    (rule : Rule) (r : Option (Directive × UserAgent)) (choice : Choice)
    {found : Directive × UserAgent}
    → (consider rule r choice).best ≡ some found
    → (choice.best ≡ some found) ⊎ (r ≡ some found)
consider-best rule none choice h = inl h
consider-best rule (some new) choice h = elim (Bool-cases (is_better new choice.best)) [
  | inl better ↦ inr (rw better at h)
  | inr worse ↦ inl (rw worse at h)
]

choose-best :
    (user path : Text) (rules : List Rule) (choice : Choice) {found : Directive × UserAgent}
    → (choose user path rules choice).best ≡ some found
    → (choice.best ≡ some found) ⊎ Some (λ rule. rule_match user path rule ≡ some found) rules
unfolding choose
choose-best user path [] choice h = inl h
choose-best user path (rule ∷ rules) choice h =
    elim (choose-best user path rules (consider rule (rule_match user path rule) choice) h) [
      | inr later ↦ inr (there later)
      | inl kept ↦ elim (consider-best rule (rule_match user path rule) choice kept) [
        | inl before ↦ inl before
        | inr now ↦ inr (here now)
      ]
    ]

permits-false :
    (best : Option (Directive × UserAgent))
    → permits best ≡ false
    → (found : Directive × UserAgent) × (best ≡ some found) × (is_allow found.0.type ≡ false)
permits-false none h = cc
permits-false (some found) h = (found, refl, h)

-- A path is refused only on account of a rule: one of the rules names an agent that the user
-- matches, and holds a directive that matches the decoded path and is not an Allow.
pub path_allowed-Blocks :
    (robots : RobotsTxt) (user path : Text)
    → path_allowed robots user path ≡ false
    → Some (Blocks user (c_string (url_decode (skip_initial_slash path)))) robots.rules
unfolding path_allowed find_directive
path_allowed-Blocks robots user path h =
    let decoded_path = c_string (url_decode (skip_initial_slash path)) in
    let start : Choice = record { best = none; crawl_delay = 0 } in
    let refused = permits-false (choose user decoded_path robots.rules start).best h in
    elim (choose-best user decoded_path robots.rules start refused.1) [
      | inl nothing ↦ cc
      | inr rule ↦ Some-map (λ r e. rule_match-Blocks user decoded_path r e refused.2) rule
    ]
