-- ===== src/Query/Compiler/Total.antt =====
-- The parser ends on every list of tokens.
use search_engines.Base.{
  ℕ, refl, if◌then◌else◌, ◌∷◌, [], zero, suc, none, some, inl, inr, Bool, List, Option, length, ◌≡◌,
  ◌<◌, ◌≤◌, Bool-cases, arith, ◌>>=◌,
}
use search_engines.Query.Compiler.{
  compile, Builder, parse_primary, phrase_terms, Parsed, skip, and_loop, or_loop, parse_and,
  parse_or, Operands, add_child, is_lost, starts_with, add_operand, ends_and,
}
use search_engines.Query.Tokens.{
  QueryTokenType, QueryToken, is_word, is_l_paren, is_r_paren, is_quote, is_or, is_not, is_and,
}

module _ (builder : Builder) (is_anchor : Bool) where
  abbrev Found : {A : Type 0} → Option (A × List QueryToken) → ℕ → Type 0
  Found {A} o n = (r : A × List QueryToken) × (o ≡ some r) × (length r.1 ≤ n)

  -- A parser ends on fewer than `n` tokens, and consumes tokens only.
  abbrev Ends : ℕ → (List QueryToken → Parsed builder is_anchor) → Type 0
  Ends n parse =
      (tokens : List QueryToken) → length tokens < n → Found (parse tokens) (length tokens)

  length-skip :
      (test : QueryTokenType → Bool) (tokens : List QueryToken)
      → length (skip builder is_anchor test tokens) ≤ length tokens
  length-skip test [] = omega arith
  length-skip test (t ∷ ts) = ground arith

  length-phrase_terms :
      (tokens : List QueryToken)
      → length (phrase_terms builder is_anchor tokens).left ≤ length tokens
  unfolding phrase_terms
  length-phrase_terms [] = omega arith
  length-phrase_terms (t ∷ ts) = ground (arith, length-phrase_terms ts)

  -- The parser of one operand consumes a token.
  primary-Ends :
      (n : ℕ) (sub : List QueryToken → Parsed builder is_anchor) (t : QueryToken)
      (ts : List QueryToken)
      → Ends n sub
      → length ts < n
      → Found (parse_primary builder is_anchor sub (t ∷ ts)) (length ts)
  unfolding parse_primary
  primary-Ends n sub t ts ends h = elim (Bool-cases (is_word t.type)) [
    | inl e ↦ rw e (_, refl, omega arith)
    | inr e ↦ elim (Bool-cases (is_l_paren t.type)) [
      | inl paren ↦
          let ((node, left), run, shorter) = ends ts h in
          rw (e, paren, run) (_, refl, omega (arith, shorter, length-skip is_r_paren left))
      | inr other ↦ elim (Bool-cases (is_quote t.type)) [
        | inl quoted ↦
            rw (e, other, quoted)
              (
                _,
                refl,
                omega (
                  arith,
                  length-phrase_terms ts,
                  length-skip is_quote (phrase_terms builder is_anchor ts).left,
                ),
              )
        | inr rest ↦ rw (e, other, rest) (_, refl, omega arith)
      ]
    ]
  ]

  -- With more fuel than tokens the loop over the operands ends.
  and_loop-Ends :
      (n fuel : ℕ) (sub : List QueryToken → Parsed builder is_anchor)
      (ops : Operands builder is_anchor) (tokens : List QueryToken)
      → Ends n sub
      → length tokens ≤ n
      → length tokens < fuel
      → Found (and_loop builder is_anchor sub fuel ops tokens) (length tokens)
  unfolding and_loop
  and_loop-Ends n zero sub ops tokens ends h k = absurd (omega arith)
  and_loop-Ends n (suc fuel) sub ops [] ends h k = (_, refl, omega arith)
  and_loop-Ends n (suc fuel) sub ops (t ∷ ts) ends h k =
      elim (Bool-cases (ends_and builder is_anchor t)) [
        | inl over ↦ rw over (_, refl, omega arith)
        | inr more ↦ rw more (
            go (skip builder is_anchor is_and (t ∷ ts))
              (skip builder is_anchor is_not (skip builder is_anchor is_and (t ∷ ts)))
              (omega (
                arith,
                length-skip is_and (t ∷ ts),
                length-skip is_not (skip builder is_anchor is_and (t ∷ ts)),
              ))
              (λ ops' left l. and_loop-Ends n fuel sub ops' left ends (omega arith) (omega arith)))
      ]
    where
      go :
          (after_and rest : List QueryToken)
          → length rest ≤ length (t ∷ ts)
          → ((ops' : Operands builder is_anchor) (left : List QueryToken)
              → length left < length (t ∷ ts)
              → Found (and_loop builder is_anchor sub fuel ops' left) (length left))
          → Found
              (elim rest [
                | [] ↦ some (some ops, [])
                | u ∷ us ↦ parse_primary builder is_anchor sub (u ∷ us) >>= λ (node, left).
                    if is_lost builder is_anchor
                      (starts_with builder is_anchor is_not after_and)
                      node
                    then some (none, left)
                    else and_loop builder is_anchor sub fuel
                        (add_operand builder is_anchor
                          (starts_with builder is_anchor is_not after_and)
                          node
                          ops)
                        left
              ])
              (length (t ∷ ts))
      go after_and [] l again = (_, refl, omega arith)
      go after_and (u ∷ us) l again =
          let ((node, left), run, shorter) = primary-Ends n sub u us ends (omega arith) in
          let negated = starts_with builder is_anchor is_not after_and in
          let ops' = add_operand builder is_anchor negated node ops in
          let (r, run', shorter') = again ops' left (omega (arith, shorter)) in
          elim (Bool-cases (is_lost builder is_anchor negated node)) [
            | inl lost ↦ rw (run, lost) (_, refl, omega (arith, shorter))
            | inr kept ↦ rw (run, kept, run') (r, refl, omega (arith, shorter, shorter'))
          ]

  parse_and-Ends :
      (n fuel : ℕ) (sub : List QueryToken → Parsed builder is_anchor) (tokens : List QueryToken)
      → Ends n sub
      → length tokens ≤ n
      → length tokens < fuel
      → Found (parse_and builder is_anchor sub fuel tokens) (length tokens)
  unfolding parse_and
  parse_and-Ends n fuel sub tokens ends h k =
      let (r, run, shorter) =
        and_loop-Ends n fuel sub (record { positives = []; negatives = [] }) tokens ends h k in
      rw run (_, refl, shorter)

  or_loop-Ends :
      (n fuel : ℕ) (sub : List QueryToken → Parsed builder is_anchor) (children : List builder.Node)
      (tokens : List QueryToken)
      → Ends n sub
      → length tokens ≤ n
      → length tokens < fuel
      → Found (or_loop builder is_anchor sub fuel children tokens) (length tokens)
  unfolding or_loop
  or_loop-Ends n zero sub children tokens ends h k = absurd (omega arith)
  or_loop-Ends n (suc fuel) sub children [] ends h k = (_, refl, omega arith)
  or_loop-Ends n (suc fuel) sub children (t ∷ ts) ends h k = elim (Bool-cases (is_or t.type)) [
    | inr over ↦ rw over (_, refl, omega arith)
    | inl more ↦
        let ((node, left), run, shorter) =
          parse_and-Ends n fuel sub ts ends (omega arith) (omega arith) in
        let (r, run', shorter') =
          or_loop-Ends n fuel sub (add_child builder is_anchor children node) left ends
            (omega (arith, shorter)) (omega (arith, shorter)) in
        rw (more, run, run') (r, refl, omega (arith, shorter, shorter'))
  ]

  parse_or-Ends : (n : ℕ) → Ends n (parse_or builder is_anchor n)
  unfolding parse_or
  parse_or-Ends zero tokens h = absurd (omega arith)
  parse_or-Ends (suc n) tokens h =
      let sub = parse_or builder is_anchor n in
      let ((left, rest), run, shorter) =
        parse_and-Ends n (suc n) sub tokens (parse_or-Ends n) (omega arith) h in
      let (r, run', shorter') =
        or_loop-Ends n (suc n) sub (add_child builder is_anchor [] left) rest (parse_or-Ends n)
          (omega (arith, shorter)) (omega (arith, shorter)) in
      rw (run, run') (_, refl, omega (arith, shorter, shorter'))

  -- The compiler ends on every list of tokens, balanced or not: with more fuel than there are
  -- tokens it returns a tree, or a null pointer.
  pub compile_total :
      (fuel : ℕ) (tokens : List QueryToken)
      → length tokens < fuel
      → (node : Option builder.Node) × (compile builder is_anchor fuel tokens ≡ some node)
  unfolding compile
  compile_total fuel [] h = (none, refl)
  compile_total fuel (t ∷ ts) h =
      let (r, run, _) = parse_or-Ends fuel (t ∷ ts) h in rw run (r.0, refl)
