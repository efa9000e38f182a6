-- ===== src/Query/Tokenizer.antt =====
-- src/index/src/lib/query_tokenizer.cpp: QueryTokenizer. The place in the query is the character
-- before it, if any, and the characters from it on.
pub mod Hang
use search_engines.Base.{
  ℕ, not, quote, Bool, List, Option, Text, if◌then◌else◌, map, none, true, ◌==◌, ◌∷◌, [], equal,
  left_paren, lower, some, suc, ◌||◌, codes, hyphen, leb, right_paren, ◌>>=◌, bar, ◌&&◌, ◌++◌,
  ampersand, zero,
}
use search_engines.Query.Tokens.{QueryToken, QueryTokenType}
use search_engines.Index.Tokenizer.{process_token}

-- `std::isspace` in the C locale
unfoldable pub is_space : ℕ → Bool
is_space c = (c == 32) || (leb 9 c && leb c 13)

unfoldable pub to_lower : Text → Text
to_lower s = map lower s

-- The characters that end a word.
unfoldable pub is_special : ℕ → Bool
is_special c =
    (c == left_paren) || ((c == right_paren) || ((c == quote) || ((c == bar) || (c == ampersand))))

abbrev pub starts_space : Text → Bool
starts_space [] = true
starts_space (c ∷ cs) = is_space c

-- The inner loop: the word, and what is left from its end on. A hyphen belongs to the word when a
-- character follows that is not a space.
unfoldable pub take_word : Text → Text × Text
take_word [] = ([], [])
take_word (wc ∷ cs) =
    let (word, rest) = take_word cs in
    if is_space wc || is_special wc
    then ([], wc ∷ cs)
    else if (wc == hyphen) && starts_space cs
    then ([], wc ∷ cs)
    else (wc ∷ word, rest)

-- The token of a word, if it has one.
unfoldable pub word_tokens : Text → List QueryToken
word_tokens word =
    let lower_word = to_lower word in
    if equal lower_word (codes "or")
    then record { type = QueryTokenType.or; text = codes "OR" } ∷ []
    else if equal lower_word (codes "and")
    then record { type = QueryTokenType.and; text = codes "AND" } ∷ []
    else if equal lower_word (codes "not")
    then record { type = QueryTokenType.not; text = codes "NOT" } ∷ []
    else elim (process_token lower_word) [
      | [] ↦ []
      | text ∷ _ ↦ record { type = QueryTokenType.word; text = text } ∷ []
    ]

-- `is_not_operator` for a hyphen behind `before`
unfoldable pub is_not_operator : Option ℕ → Bool
is_not_operator none = true
is_not_operator (some b) = is_space b || ((b == left_paren) || (b == quote))

-- The second character of `||` and of `&&` is skipped.
unfoldable pub skip_twin : ℕ → Text → Text
skip_twin c [] = []
skip_twin c (d ∷ cs) = if d == c then cs else d ∷ cs

-- The character before what is left, when `s` was read down to it; `b` was before `s`.
unfoldable pub last_of : Option ℕ → Text → Option ℕ
last_of b [] = b
last_of b (c ∷ cs) = last_of (some c) cs

pub record Step : Type 0 where
  pub tokens : List QueryToken
  pub before : Option ℕ
  pub left : Text

abbrev single : QueryTokenType → Text → ℕ → Text → Step
single type text c left = record {
  tokens = record { type = type; text = text } ∷ [];
  before = some c;
  left = left;
}

-- One round of the outer loop, at the character `c`.
unfoldable pub step : Option ℕ → ℕ → Text → Step
step before c cs =
    let (word, rest) = take_word (c ∷ cs) in
    if is_space c
    then record { tokens = []; before = some c; left = cs }
    else if c == left_paren
    then single QueryTokenType.l_paren (codes "(") c cs
    else if c == right_paren
    then single QueryTokenType.r_paren (codes ")") c cs
    else if c == quote
    then single QueryTokenType.quote (quote ∷ []) c cs
    else if c == bar
    then single QueryTokenType.or (codes "OR") c (skip_twin c cs)
    else if c == ampersand
    then single QueryTokenType.and (codes "AND") c (skip_twin c cs)
    else if (c == hyphen) && is_not_operator before
    then single QueryTokenType.not (codes "NOT") c cs
    else record { tokens = word_tokens word; before = last_of before word; left = rest }

-- The outer loop with fuel; `none` tells that the fuel ran out.
unfoldable pub tokenize_from : ℕ → Option ℕ → Text → Option (List QueryToken)
tokenize_from zero before query = none
tokenize_from (suc fuel) before [] = some []
tokenize_from (suc fuel) before (c ∷ cs) =
    let s = step before c cs in
    tokenize_from fuel s.before s.left >>= λ tokens. some (s.tokens ++ tokens)

unfoldable pub tokenize : ℕ → Text → Option (List QueryToken)
tokenize fuel query = tokenize_from fuel none query
