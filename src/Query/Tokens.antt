-- ===== src/Query/Tokens.antt =====
-- src/index/src/lib/query_tokenizer.h: the tokens of a query.
use search_engines.Base.{Bool, true, false, Text}

pub data QueryTokenType : Type 0 where
  word : QueryTokenType
  or : QueryTokenType
  and : QueryTokenType
  not : QueryTokenType
  l_paren : QueryTokenType
  r_paren : QueryTokenType
  quote : QueryTokenType

pub record QueryToken : Type 0 where
  pub type : QueryTokenType
  pub text : Text

abbrev pub is_word : QueryTokenType → Bool
is_word QueryTokenType.word = true
is_word _ = false

abbrev pub is_or : QueryTokenType → Bool
is_or QueryTokenType.or = true
is_or _ = false

abbrev pub is_and : QueryTokenType → Bool
is_and QueryTokenType.and = true
is_and _ = false

abbrev pub is_not : QueryTokenType → Bool
is_not QueryTokenType.not = true
is_not _ = false

abbrev pub is_l_paren : QueryTokenType → Bool
is_l_paren QueryTokenType.l_paren = true
is_l_paren _ = false

abbrev pub is_r_paren : QueryTokenType → Bool
is_r_paren QueryTokenType.r_paren = true
is_r_paren _ = false

abbrev pub is_quote : QueryTokenType → Bool
is_quote QueryTokenType.quote = true
is_quote _ = false
