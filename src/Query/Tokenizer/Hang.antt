-- ===== src/Query/Tokenizer/Hang.antt =====
-- When the loop of the query tokenizer ends, and when it does not.
use search_engines.Base.{
  ℕ, refl, [], ◌∷◌, zero, suc, none, some, true, false, inl, inr, hyphen, Text, length, ◌≡◌, Option,
  ◌<◌, ◌≤◌, List, arith, Bool-cases, ◌++◌, ◌==◌, ◌||◌, ◌&&◌,
}
use search_engines.Query.Tokenizer.{
  tokenize, skip_twin, step, take_word, tokenize_from, is_not_operator, is_space, is_special,
  starts_space, word_tokens, last_of, to_lower,
}
use search_engines.Query.Tokens.{QueryToken}
use search_engines.Index.Tokenizer.{
  process_token, process_stripped, strip_punc, strip_back, strip_front, make_lower_case,
}

-- Behind every hyphen stands a character that is not a space.
abbrev pub HyphensJoin : Text → Type 0
HyphensJoin [] = Unit {0}
HyphensJoin (c ∷ cs) = ((c ≡ hyphen) → starts_space cs ≡ false) × HyphensJoin cs

take_word-HyphensJoin :
    (s : Text) → HyphensJoin s → HyphensJoin (take_word s).1 × (length (take_word s).1 ≤ length s)
unfolding take_word
take_word-HyphensJoin [] h = (tt, omega arith)
take_word-HyphensJoin (c ∷ cs) h =
    let (joined, shorter) = take_word-HyphensJoin cs h.1 in
    elim (Bool-cases (is_space c || is_special c)) [
      | inl over ↦ rw over (h, omega arith)
      | inr inside ↦ elim (Bool-cases ((c == hyphen) && starts_space cs)) [
        | inl dangling ↦ rw (inside, dangling) (h, omega arith)
        | inr more ↦ rw (inside, more) (joined, omega (arith, shorter))
      ]
    ]

-- A word that begins at such a character takes it.
take_word-shorter :
    (c : ℕ) (cs : Text)
    → HyphensJoin (c ∷ cs)
    → is_space c ≡ false
    → is_special c ≡ false
    → length (take_word (c ∷ cs)).1 ≤ length cs
unfolding take_word
take_word-shorter c cs h space special =
    ground (arith, space, special, take_word-HyphensJoin cs h.1)

skip_twin-HyphensJoin :
    (c : ℕ) (cs : Text)
    → HyphensJoin cs
    → HyphensJoin (skip_twin c cs) × (length (skip_twin c cs) ≤ length cs)
unfolding skip_twin
skip_twin-HyphensJoin c [] h = (tt, omega arith)
skip_twin-HyphensJoin c (d ∷ cs) h = elim (Bool-cases (d == c)) [
  | inl twin ↦ rw twin (h.1, omega arith)
  | inr other ↦ rw other (h, omega arith)
]

-- Every round consumes a character.
step-HyphensJoin :
    (before : Option ℕ) (c : ℕ) (cs : Text)
    → HyphensJoin (c ∷ cs)
    → HyphensJoin (step before c cs).left × (length (step before c cs).left ≤ length cs)
unfolding step is_special
step-HyphensJoin before c cs h = ground (
  arith,
  take_word-HyphensJoin (c ∷ cs) h,
  take_word-shorter c cs h,
  skip_twin-HyphensJoin c cs h.1,
)

tokenize_from_total :
    (fuel : ℕ) (before : Option ℕ) (query : Text)
    → HyphensJoin query
    → length query < fuel
    → (tokens : List QueryToken) × (tokenize_from fuel before query ≡ some tokens)
unfolding tokenize_from
tokenize_from_total zero before query h k = absurd (omega arith)
tokenize_from_total (suc fuel) before [] h k = ([], refl)
tokenize_from_total (suc fuel) before (c ∷ cs) h k =
    let s = step before c cs in
    let (joined, shorter) = step-HyphensJoin before c cs h in
    let (tokens, run) = tokenize_from_total fuel s.before s.left joined (omega (arith, shorter)) in
    (s.tokens ++ tokens, rw run)

-- The loop ends on every query in which a character that is not a space stands behind each hyphen;
-- the length of the query and one more is enough fuel.
pub tokenize_total :
    (fuel : ℕ) (query : Text)
    → HyphensJoin query
    → length query < fuel
    → (tokens : List QueryToken) × (tokenize fuel query ≡ some tokens)
unfolding tokenize
tokenize_total fuel query h k = tokenize_from_total fuel none query h k

word_tokens-empty : word_tokens [] ≡ []
unfolding word_tokens to_lower process_token process_stripped strip_punc strip_back strip_front
    make_lower_case
word_tokens-empty = refl

-- A hyphen at the end of a word is neither an operator nor a part of a word: a round that meets it
-- changes nothing.
step_stays :
    (b : ℕ) (cs : Text)
    → is_not_operator (some b) ≡ false
    → starts_space cs ≡ true
    → step (some b) hyphen cs ≡ record { tokens = []; before = some b; left = hyphen ∷ cs }
unfolding step take_word is_space is_special last_of
step_stays b cs h k = rw (h, k, word_tokens-empty)

-- The loop does not end when a hyphen is met behind a character that is not a space, a parenthesis
-- or a quote, and before a space or the end of the query: no fuel is enough.
pub tokenize_hangs :
    (fuel b : ℕ) (cs : Text)
    → is_not_operator (some b) ≡ false
    → starts_space cs ≡ true
    → tokenize_from fuel (some b) (hyphen ∷ cs) ≡ none
unfolding tokenize_from
tokenize_hangs zero b cs h k = refl
tokenize_hangs (suc fuel) b cs h k = rw (step_stays b cs h k, tokenize_hangs fuel b cs h k)
