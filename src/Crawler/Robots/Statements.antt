-- ===== src/Crawler/Robots/Statements.antt =====
-- src/crawler/RobotsTxt.cpp: the tokens of a robots.txt file, from MatchKeyword to GetStatement.
pub mod Ends
use search_engines.Base.{
  ℕ, ◌+◌, ◌-◌, ◌*◌, Bool, true, false, ◌&&◌, ◌||◌, if◌then◌else◌, leb, ◌==◌, List, [], ◌∷◌, ◌++◌,
  Text, Option, none, some, take_until, drop_until, drop, number_sign, length, suc, zero, codes,
  lower, c_string,
}

pub data StatementType : Type 0 where
  invalid_statement user_agent_statement allow_statement disallow_statement : StatementType
  crawl_delay_statement sitemap_statement : StatementType

-- What is left of the input behind the keyword, in any case.
unfoldable pub match_keyword : Text → Text → Option Text
match_keyword [] p = some p
match_keyword (k ∷ keyword) [] = none
match_keyword (k ∷ keyword) (c ∷ p) =
    let rest = match_keyword keyword p in if lower c == k then rest else none

-- The statement where its keyword was found, with the input behind it.
abbrev pub recognized : StatementType → Text → Option Text → StatementType × Text
recognized type p none = (invalid_statement, p)
recognized type p (some rest) = (type, rest)

-- The `switch` on the first character.
unfoldable pub identify : Text → StatementType × Text
identify [] = (invalid_statement, [])
identify (c ∷ p) =
    let s = c ∷ p in
    if lower c == 117
    then recognized user_agent_statement s (match_keyword (codes "user-agent:") s)
    else if lower c == 97
    then recognized allow_statement s (match_keyword (codes "allow:") s)
    else if lower c == 100
    then recognized disallow_statement s (match_keyword (codes "disallow:") s)
    else if lower c == 115
    then recognized sitemap_statement s (match_keyword (codes "sitemap:") s)
    else if lower c == 99
    then recognized crawl_delay_statement s (match_keyword (codes "crawl-delay:") s)
    else (invalid_statement, s)

-- A space or a tab.
abbrev pub is_blank : ℕ → Bool
is_blank c = (c == 32) || (c == 9)

-- The end of a line.
abbrev pub is_line_end : ℕ → Bool
is_line_end c = (c == 13) || (c == 10)

abbrev pub skip_blanks : Text → Text
skip_blanks [] = []
skip_blanks (c ∷ s) = let more = skip_blanks s in if is_blank c then more else c ∷ s

abbrev pub ends_argument : ℕ → Bool
ends_argument c = is_blank c || is_line_end c

-- The argument, and the input behind it.
unfoldable pub get_argument : Text → Text × Text
get_argument p =
    let start = skip_blanks p in
    (c_string (take_until ends_argument start), drop_until ends_argument start)

-- `if (*start < bound && **start == '\n') (*start)++;`
abbrev pub skip_line_feed : Text → Text
skip_line_feed [] = []
skip_line_feed (c ∷ s) = if c == 10 then s else c ∷ s

unfoldable pub next_line : Text → Text
next_line p = skip_line_feed (drop 1 (drop_until is_line_end p))

-- A statement, the input behind its keyword, and the sitemaps met so far.
pub record Statement : Type 0 where
  pub type : StatementType
  pub rest : Text
  pub sitemap : List Text

-- The line is blank or a comment.
abbrev pub is_skipped : Text → Bool
is_skipped [] = true
is_skipped (c ∷ s) = is_line_end c || (c == number_sign)

-- What one turn of the loop comes to: a statement, or the input and the sitemaps to go on with.
pub data Turn : Type 0 where
  found : Statement → Turn
  again : Text → List Text → Turn

-- A statement that `Identify` has read.
abbrev pub act : StatementType × Text → List Text → Turn
act (sitemap_statement, p) sitemap =
    let argument = get_argument p in again (next_line argument.1) (sitemap ++ argument.0 ∷ [])
act (invalid_statement, p) sitemap = again (next_line p) sitemap
act (user_agent_statement, p) sitemap =
    found (record { type = user_agent_statement; rest = p; sitemap = sitemap })
act (allow_statement, p) sitemap =
    found (record { type = allow_statement; rest = p; sitemap = sitemap })
act (disallow_statement, p) sitemap =
    found (record { type = disallow_statement; rest = p; sitemap = sitemap })
act (crawl_delay_statement, p) sitemap =
    found (record { type = crawl_delay_statement; rest = p; sitemap = sitemap })

-- The body of the loop of `GetStatement`.
unfoldable pub turn : Text → List Text → Turn
turn p sitemap =
    let start = skip_blanks p in
    if is_skipped start then again (next_line start) sitemap else act (identify start) sitemap

-- The rest of the loop, where the turn did not end it.
abbrev pub proceed : Turn → (Text → List Text → Option Statement) → Option Statement
proceed (found s) continue = some s
proceed (again p sitemap) continue = continue p sitemap

-- `none` is the end of the fuel; the length of the input is enough.
unfoldable pub get_statement : ℕ → Text → List Text → Option Statement
get_statement f [] sitemap =
    some (record { type = invalid_statement; rest = []; sitemap = sitemap })
get_statement zero (c ∷ p) sitemap = none
get_statement (suc f) (c ∷ p) sitemap =
    proceed (turn (c ∷ p) sitemap) (λ p' sitemap'. get_statement f p' sitemap')
