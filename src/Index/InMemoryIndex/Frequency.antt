-- ===== src/Index/InMemoryIndex/Frequency.antt =====
-- What the postings of a term are after tokens were added.
use search_engines.Base.{
  if◌then◌else◌, refl, Bool-cases, inl, inr, ◌∙◌, false, ◌||◌, ℕ, List, Text, ◌∷◌, ◌≡◌, [], Bool,
  equal, arith, ◌&&◌, equal→≡, not, equal_swap, ap,
}
use search_engines.Index.InMemoryIndex.{
  postings_of, change_at, InMemoryIndex, add_token, add_posting, is_seen,
}
use search_engines.Index.Types.{TokenOutput, PostingList}
use search_engines.Index.VByte.{add32}

-- Changing a term changes the postings of that term and of no other.
pub postings_of-change_at :
    (term t : Text) (change : PostingList → PostingList) (entries : List (Text × PostingList))
    → postings_of t (change_at term change entries)
      ≡ (if equal term t then change (postings_of t entries) else postings_of t entries)
unfolding postings_of change_at
postings_of-change_at term t change [] = ground arith
postings_of-change_at term t change ((key, postings) ∷ entries) =
    elim (Bool-cases (equal key term)) [
      | inl same ↦ let e : key ≡ term = equal→≡ key term same in rw (same, e) (ground arith)
      | inr other ↦ elim (Bool-cases (equal key t)) [
        | inr e ↦ rw (other, e) (postings_of-change_at term t change entries)
        | inl e ↦
            let here : key ≡ t = equal→≡ key t e in
            let apart : equal term t ≡ false = equal_swap term t ∙ rw here at other in
            rw (other, e, apart)
      ]
    ]

-- Whether a token of the list has the term.
abbrev pub occurs : Text → List TokenOutput → Bool
occurs t [] = false
occurs t (token ∷ tokens) = equal token.term t || occurs t tokens

-- The tokens of a document, one call of `addToken` after the other.
unfoldable pub add_tokens : List TokenOutput → InMemoryIndex → InMemoryIndex
add_tokens [] state = state
add_tokens (token ∷ tokens) state = add_tokens tokens (add_token token state)

abbrev frequency : Text → InMemoryIndex → ℕ
frequency t state = (postings_of t state.index).doc_frequency

frequency-add_token :
    (t : Text) (token : TokenOutput) (state : InMemoryIndex)
    → frequency t (add_token token state) ≡ (
        if equal token.term t && not (is_seen t state.terms_seen)
        then add32 (frequency t state) 1
        else frequency t state)
unfolding add_token add_posting
frequency-add_token t token state =
    let seen = is_seen token.term state.terms_seen in
    ap (λ p. p.doc_frequency)
      (postings_of-change_at token.term t (add_posting token.location seen) state.index)
    ∙ elim (Bool-cases (equal token.term t)) [
      | inl same ↦
          let e : seen ≡ is_seen t state.terms_seen =
            ap (λ term. is_seen term state.terms_seen) (equal→≡ token.term t same) in
          ground (arith, same, e)
      | inr other ↦ ground (arith, other)
    ]

-- A term counts as seen in the document once a token had it.
is_seen-add_token :
    (t : Text) (token : TokenOutput) (state : InMemoryIndex)
    → is_seen t (add_token token state).terms_seen
      ≡ (equal token.term t || is_seen t state.terms_seen)
unfolding add_token is_seen
is_seen-add_token t token state = elim (Bool-cases (equal token.term t)) [
  | inl same ↦
      let e : is_seen token.term state.terms_seen ≡ is_seen t state.terms_seen =
        ap (λ term. is_seen term state.terms_seen) (equal→≡ token.term t same) in
      ground (arith, same, e)
  | inr other ↦ ground (arith, other)
]

-- A document is counted once in the frequency of each term that its tokens have and that was not
-- seen in it before, and not at all for any other term; the counter is 32 bits wide.
pub frequency-add_tokens :
    (t : Text) (tokens : List TokenOutput) (state : InMemoryIndex)
    → (postings_of t (add_tokens tokens state).index).doc_frequency ≡ (
        if occurs t tokens && not (is_seen t state.terms_seen)
        then add32 (postings_of t state.index).doc_frequency 1
        else (postings_of t state.index).doc_frequency)
unfolding add_tokens
frequency-add_tokens t [] state = refl
frequency-add_tokens t (token ∷ tokens) state =
    frequency-add_tokens t tokens (add_token token state)
    ∙ rw (is_seen-add_token t token state, frequency-add_token t token state) (ground arith)
