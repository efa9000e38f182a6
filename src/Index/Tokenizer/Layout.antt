-- ===== src/Index/Tokenizer/Layout.antt =====
-- Where the terms of a document lie.
use search_engines.Base.{
  refl, if◌then◌else◌, ℕ, [], ◌∷◌, List, Text, All, find, ◌<◌, ◌≤◌, Option-cases, length, ◌≡◌,
  arith, hyphen, inl, inr, take, drop, ◌+◌, length-take, length-drop, map, ◌^◌, length-append, ◌++◌,
  ltb, All-append, codes, ◌&&◌,
}
use search_engines.Index.Tokenizer.{
  process_document, hyphen_parts, process_token, process_stripped, strip_punc, make_lower_case,
  place_words, put_at,
}
use search_engines.Index.Types.{TokenOutput}
use search_engines.Index.Stemmer.{stem}
use search_engines.Index.Stemmer.Bounds.{length-stem}
use search_engines.Index.Features.{HtmlDocument}
use search_engines.Index.VByte.Delta.{add32-exact}

-- A term at a location of the range, with a name.
abbrev Lies : ℕ → ℕ → TokenOutput → Type 0
Lies low high t = (low ≤ t.location) × (t.location < high) × (0 < length t.term)

-- No location is below the one before it.
abbrev pub Ascends : ℕ → List TokenOutput → Type 0
Ascends low [] = Unit {0}
Ascends low (t ∷ ts) = (low ≤ t.location) × Ascends t.location ts

NonEmpty : Text → Type 0
NonEmpty s = 0 < length s

stem-NonEmpty : (s : Text) → NonEmpty s → NonEmpty (stem s)
unfolding NonEmpty
stem-NonEmpty s h = (length-stem s).1 h

-- The parts of a word around a place inside it.
parts-NonEmpty :
    (s : Text) (at : ℕ)
    → All NonEmpty (
        if ltb 0 at && ltb (at + 1) (length s)
        then stem (take at s) ∷ stem (drop (at + 1) s) ∷ []
        else [])
unfolding NonEmpty
parts-NonEmpty s at = ground (
  arith,
  stem-NonEmpty (take at s),
  stem-NonEmpty (drop (at + 1) s),
  length-take at s,
  length-drop (at + 1) s,
)

hyphen_parts-NonEmpty : (s : Text) → All NonEmpty (hyphen_parts s)
unfolding hyphen_parts
hyphen_parts-NonEmpty s = elim (Option-cases (find hyphen s)) [
  | inl none_found ↦ rw (none_found, All) tt
  | inr (at, found) ↦ rw (found, All) (parts-NonEmpty s at)
]

process_token-NonEmpty : (raw : Text) → All NonEmpty (process_token raw)
unfolding process_token
process_token-NonEmpty raw = go (strip_punc (make_lower_case raw))
  where
    go : (s : Text) → All NonEmpty (process_stripped s)
    go [] = unfold process_stripped in tt
    go (c ∷ cs) =
        unfold process_stripped NonEmpty in
        (stem-NonEmpty (c ∷ cs) (omega arith), hyphen_parts-NonEmpty (c ∷ cs))

-- The tokens of one word.
put_at-Lies :
    (prefix : Text) (low high location : ℕ) (tokens : List Text)
    → low ≤ location
    → location < high
    → All NonEmpty tokens
    → All (Lies low high) (map (put_at prefix location) tokens)
unfolding NonEmpty
put_at-Lies prefix low high location [] h k some_byte = tt
put_at-Lies prefix low high location (t ∷ ts) h k some_byte = (
  omega (arith, length-append prefix t, some_byte.0),
  put_at-Lies prefix low high location ts h k some_byte.1,
)

Ascends-lower : (low mid : ℕ) (ts : List TokenOutput) → low ≤ mid → Ascends mid ts → Ascends low ts
Ascends-lower low mid [] h k = tt
Ascends-lower low mid (t ∷ ts) h k = (omega (arith, k.0), k.1)

put_at-Ascends :
    (prefix : Text) (low location : ℕ) (tokens : List Text) (more : List TokenOutput)
    → low ≤ location
    → Ascends location more
    → Ascends low (map (put_at prefix location) tokens ++ more)
put_at-Ascends prefix low location [] more h k = Ascends-lower low location more h k
put_at-Ascends prefix low location (t ∷ ts) more h k =
    (h, put_at-Ascends prefix location location ts more (omega arith) k)

append-Ascends :
    (low mid : ℕ) (xs ys : List TokenOutput)
    → low ≤ mid
    → All (λ t. t.location < mid) xs
    → Ascends low xs
    → Ascends mid ys
    → Ascends low (xs ++ ys)
append-Ascends low mid [] ys h below k l = Ascends-lower low mid ys h l
append-Ascends low mid (x ∷ xs) ys h below k l =
    (k.0, append-Ascends x.location mid xs ys (omega (arith, below.0)) below.1 k.1 l)

-- The number of words is the length of the range.
place_words-after :
    (prefix : Text) (next : ℕ) (words : List Text)
    → next + length words < 2 ^ 32
    → (place_words prefix next words).1 ≡ next + length words
unfolding place_words
place_words-after prefix next [] h = omega arith
place_words-after prefix next (w ∷ words) h =
    rw (add32-exact next 1 (omega arith))
      (omega (arith, place_words-after prefix (next + 1) words (omega arith)))

place_words-Lies :
    (prefix : Text) (low high next : ℕ) (words : List Text)
    → low ≤ next
    → next + length words ≤ high
    → high < 2 ^ 32
    → All (Lies low high) (place_words prefix next words).0
unfolding place_words
place_words-Lies prefix low high next [] h k l = tt
place_words-Lies prefix low high next (w ∷ words) h k l = rw (add32-exact next 1 (omega arith)) (
    All-append (Lies low high) _ _
      (put_at-Lies prefix low high next (process_token w) h (omega arith)
        (process_token-NonEmpty w))
      (place_words-Lies prefix low high (next + 1) words (omega arith) (omega arith) l))

place_words-Ascends :
    (prefix : Text) (low next : ℕ) (words : List Text)
    → low ≤ next
    → next + length words < 2 ^ 32
    → Ascends low (place_words prefix next words).0
unfolding place_words
place_words-Ascends prefix low next [] h k = tt
place_words-Ascends prefix low next (w ∷ words) h k = rw (add32-exact next 1 (omega arith)) (
    put_at-Ascends prefix low next (process_token w) _ h
      (place_words-Ascends prefix next (next + 1) words (omega arith) (omega arith)))

Lies-below :
    (low high : ℕ) (ts : List TokenOutput)
    → All (Lies low high) ts
    → All (λ t. t.location < high) ts
Lies-below low high [] h = tt
Lies-below low high (t ∷ ts) h = (h.0.1, Lies-below low high ts h.1)

-- The tokens of a document have names, and lie in order between its first location and its end
-- mark; the mark stands behind one location for each word of the title and of the body, and the
-- next document begins right behind it; provided that the locations fit in 32 bits.
pub process_document_lem :
    (next_location : ℕ) (doc : HtmlDocument)
    → next_location + length doc.title_words + length doc.words + 1 < 2 ^ 32
    → let (out, next) = process_document next_location doc in
      (out.doc_end.doc_start_loc ≡ next_location)
      × (out.doc_end.location ≡ next_location + length doc.title_words + length doc.words)
      × (next ≡ out.doc_end.location + 1)
      × All
          (λ t.
            (next_location ≤ t.location)
            × (t.location < out.doc_end.location)
            × (0 < length t.term))
          out.tokens
      × Ascends next_location out.tokens
unfolding process_document
process_document_lem next_location doc h =
    let body_start = next_location + length doc.title_words in
    let end = body_start + length doc.words in
    let here = place_words-after (codes "$") next_location doc.title_words (omega arith) in
    let there : (place_words [] body_start doc.words).1 ≡ end =
      place_words-after [] body_start doc.words (omega arith) in
    let title_Lies =
      place_words-Lies (codes "$") next_location end next_location doc.title_words (omega arith)
        (omega arith) (omega arith) in
    let title_Lies' =
      place_words-Lies (codes "$") next_location body_start next_location doc.title_words
        (omega arith) (omega arith) (omega arith) in
    let body_Lies =
      place_words-Lies [] next_location end body_start doc.words (omega arith) (omega arith)
        (omega arith) in
    let title_Ascends =
      place_words-Ascends (codes "$") next_location next_location doc.title_words (omega arith)
        (omega arith) in
    let body_Ascends =
      place_words-Ascends [] body_start body_start doc.words (omega arith) (omega arith) in
    rw (here, there)
      (
        refl,
        refl,
        add32-exact end 1 (omega arith),
        All-append (Lies next_location end) _ _ title_Lies body_Lies,
        append-Ascends next_location body_start _ _ (omega arith)
            (Lies-below next_location body_start _ title_Lies') title_Ascends body_Ascends,
      )
