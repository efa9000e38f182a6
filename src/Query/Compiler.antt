-- ===== src/Query/Compiler.antt =====
-- src/index/src/lib/query_compiler.cpp: QueryCompiler, a parser by recursive descent. The tokens
-- from `current_` on are a list.
pub mod Total
pub mod Lost
use search_engines.Base.{
  ℕ, ◌>>=◌, not, Bool, Text, List, Option, [], false, if◌then◌else◌, none, some, ◌||◌, ◌∷◌, codes,
  suc, ◌++◌, true, zero,
}
use search_engines.Query.Tokens.{
  QueryToken, QueryTokenType, is_or, is_quote, is_r_paren, is_word, is_and, is_l_paren, is_not,
}

-- What the compiler builds with: the chunk's `createISR`, and the constructors of the streams.
pub record Builder : Type 1 where
  pub Node : Type 0
  pub create : Text → Option Node
  pub make_or : List Node → Node
  pub make_and : List Node → Node
  pub make_phrase : List Node → Node
  pub make_container : Node → List Node → Node

module _ (builder : Builder) (is_anchor : Bool) where
  open builder use {Node, create, make_or, make_and, make_phrase, make_container}

  unfoldable pub create_isr : Text → Option Node
  create_isr term = if is_anchor then create term else elim (create term) [
    | none ↦ create (codes "$" ++ term)
    | some body ↦ elim (create (codes "$" ++ term)) [
      | none ↦ some body
      | some title ↦ some (make_or (body ∷ title ∷ []))
    ]
  ]

  -- A node, or a null pointer, and the tokens that are left; `none` tells that the fuel ran out.
  abbrev pub Parsed : Type 0
  Parsed = Option (Option Node × List QueryToken)

  -- The terms of a phrase: those found, whether one is missing, and what is left from the quote on.
  pub record Terms : Type 0 where
    pub nodes : List Node
    pub missing_term : Bool
    pub left : List QueryToken

  unfoldable pub phrase_terms : List QueryToken → Terms
  phrase_terms [] = record { nodes = []; missing_term = false; left = [] }
  phrase_terms (t ∷ ts) =
      let more = phrase_terms ts in
      if is_quote t.type
      then record { nodes = []; missing_term = false; left = t ∷ ts }
      else if is_word t.type
      then (elim (create_isr t.text) [
        | none ↦ record more { missing_term = true }
        | some node ↦ record more { nodes = node ∷ more.nodes }
      ])
      else more

  -- `if (!isAtEnd() && peek().type == ...) consume();`
  abbrev pub skip : (QueryTokenType → Bool) → List QueryToken → List QueryToken
  skip test [] = []
  skip test (t ∷ ts) = if test t.type then ts else t ∷ ts

  unfoldable pub make_terms : Bool → List Node → Option Node
  make_terms missing_term [] = none
  make_terms missing_term (n ∷ []) = if missing_term then none else some n
  make_terms missing_term (n ∷ m ∷ nodes) =
      if missing_term then none else some (make_phrase (n ∷ m ∷ nodes))

  -- `sub` stands for the call of `parseOr` behind a parenthesis.
  unfoldable pub parse_primary : (List QueryToken → Parsed) → List QueryToken → Parsed
  parse_primary sub [] = some (none, [])
  parse_primary sub (t ∷ ts) =
      let terms = phrase_terms ts in
      if is_word t.type
      then some (create_isr t.text, ts)
      else if is_l_paren t.type
      then (sub ts >>= λ (node, left). some (node, skip is_r_paren left))
      else if is_quote t.type
      then some (make_terms terms.missing_term terms.nodes, skip is_quote terms.left)
      else some (none, ts)

  pub record Operands : Type 0 where
    pub positives : List Node
    pub negatives : List Node

  unfoldable pub add_operand : Bool → Option Node → Operands → Operands
  add_operand is_not none ops = ops
  add_operand true (some node) ops = record ops { negatives = ops.negatives ++ node ∷ [] }
  add_operand false (some node) ops = record ops { positives = ops.positives ++ node ∷ [] }

  -- A required term that is missing.
  abbrev pub is_lost : Bool → Option Node → Bool
  is_lost is_not none = not is_not
  is_lost is_not (some node) = false

  -- Whether the loop of `parseAnd` ends at the token.
  abbrev pub ends_and : QueryToken → Bool
  ends_and t = is_or t.type || is_r_paren t.type

  abbrev pub starts_with : (QueryTokenType → Bool) → List QueryToken → Bool
  starts_with test [] = false
  starts_with test (t ∷ ts) = test t.type

  -- The loop of `parseAnd`: the operands, or `none` for the null pointer that a missing required
  -- term returns at once.
  unfoldable pub and_loop :
      (List QueryToken → Parsed)
      → ℕ
      → Operands
      → List QueryToken
      → Option (Option Operands × List QueryToken)
  and_loop sub zero ops tokens = none
  and_loop sub (suc fuel) ops [] = some (some ops, [])
  and_loop sub (suc fuel) ops (t ∷ ts) =
      let after_and = skip is_and (t ∷ ts) in
      let is_not_term = starts_with is_not after_and in
      let operands : Option (Option Operands × List QueryToken) = elim (skip is_not after_and) [
        | [] ↦ some (some ops, [])
        | u ∷ us ↦ parse_primary sub (u ∷ us) >>= λ (node, left).
            let more = and_loop sub fuel (add_operand is_not_term node ops) left in
            if is_lost is_not_term node then some (none, left) else more
      ] in
      if ends_and t then some (some ops, t ∷ ts) else operands

  unfoldable pub make_positive : List Node → Option Node
  make_positive [] = none
  make_positive (n ∷ []) = some n
  make_positive (n ∷ m ∷ nodes) = some (make_and (n ∷ m ∷ nodes))

  unfoldable pub make_operands : Operands → Option Node
  make_operands ops = make_positive ops.positives >>= λ node. elim ops.negatives [
    | [] ↦ some node
    | neg ∷ negs ↦ some (make_container node (neg ∷ negs))
  ]

  unfoldable pub parse_and : (List QueryToken → Parsed) → ℕ → List QueryToken → Parsed
  parse_and sub fuel tokens =
      and_loop sub fuel (record { positives = []; negatives = [] }) tokens >>= λ (ops, left).
      some (ops >>= make_operands, left)

  abbrev pub add_child : List Node → Option Node → List Node
  add_child children none = children
  add_child children (some node) = children ++ node ∷ []

  -- The loop of `parseOr`.
  unfoldable pub or_loop :
      (List QueryToken → Parsed)
      → ℕ
      → List Node
      → List QueryToken
      → Option (List Node × List QueryToken)
  or_loop sub zero children tokens = none
  or_loop sub (suc fuel) children [] = some (children, [])
  or_loop sub (suc fuel) children (t ∷ ts) =
      let right =
        parse_and sub fuel ts >>= λ (node, left). or_loop sub fuel (add_child children node) left in
      if is_or t.type then right else some (children, t ∷ ts)

  unfoldable pub make_children : List Node → Option Node
  make_children [] = none
  make_children (n ∷ []) = some n
  make_children (n ∷ m ∷ nodes) = some (make_or (n ∷ m ∷ nodes))

  unfoldable pub parse_or : ℕ → List QueryToken → Parsed
  parse_or zero tokens = none
  parse_or (suc fuel) tokens = parse_and (parse_or fuel) (suc fuel) tokens >>= λ (left, rest).
      or_loop (parse_or fuel) (suc fuel) (add_child [] left) rest >>= λ (children, rest').
      some (make_children children, rest')

  -- `compile` and, with `is_anchor`, `compileAnchor`
  unfoldable pub compile : ℕ → List QueryToken → Option (Option Node)
  compile fuel [] = some none
  compile fuel (t ∷ ts) = parse_or fuel (t ∷ ts) >>= λ (node, left). some node
