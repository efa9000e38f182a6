-- ===== src/Query/Compiler/Lost.antt =====
-- What a missing word costs.
use search_engines.Base.{ℕ, ◌∷◌, suc, none, some, false, Bool, Text, List, ◌≡◌}
use search_engines.Query.Compiler.{
  compile, Builder, parse_or, parse_and, and_loop, parse_primary, add_operand, or_loop,
  make_children, create_isr,
}
use search_engines.Query.Tokens.{QueryToken, is_or, QueryTokenType}

module _ (builder : Builder) (is_anchor : Bool) where
  -- A query that begins with a word that the index does not have, followed by a token other than
  -- OR, compiles to nothing, whatever comes behind.
  pub alternative_lost :
      (fuel : ℕ) (text : Text) (next : QueryToken) (tokens : List QueryToken)
      → create_isr builder is_anchor text ≡ none
      → is_or next.type ≡ false
      → compile builder is_anchor
          (suc (suc fuel))
          (record { type = QueryTokenType.word; text = text } ∷ next ∷ tokens)
        ≡ some none
  unfolding compile parse_or parse_and and_loop parse_primary add_operand or_loop make_children
  alternative_lost fuel text next tokens missing other = rw (missing, other)
