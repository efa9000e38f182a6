-- ===== src/Index/Stemmer.antt =====
-- src/index/src/lib/tokenizer.h: PorterStemmer. A word is a list of bytes, and a step returns the
-- word that the source changes in place.
pub mod Bounds
use search_engines.Base.{
  zero, ℕ, Bool, List, ◌==◌, ◌||◌, ◌&&◌, not, Text, codes, false, get_or, if◌then◌else◌, length,
  take, true, ◌∷◌, [], leb, ltb, set, suc, ◌++◌, ◌+◌, ◌-◌, drop, equal,
}

abbrev pub letter_y : ℕ
letter_y = 121

abbrev pub letter_i : ℕ
letter_i = 105

pub is_ascii_vowel : ℕ → Bool
is_ascii_vowel c = (c == 97) || (c == 101) || (c == 105) || (c == 111) || (c == 117)

-- `w.substr(0, w.length() - n)`
abbrev pub chop : ℕ → Text → Text
chop n w = take (length w - n) w

unfoldable pub ends_with : Text → Text → Bool
ends_with value ending =
    if ltb (length value) (length ending)
    then false
    else equal (drop (length value - length ending) value) ending

unfoldable pub is_vowel : Text → ℕ → Bool
unfolding is_ascii_vowel
is_vowel w zero = is_ascii_vowel (get_or w 0 0)
is_vowel w (suc i) =
    let before = is_vowel w i in
    if is_ascii_vowel (get_or w (suc i) 0)
    then true
    else if get_or w (suc i) 0 == letter_y
    then not before
    else false

-- The state of the loops: `first` while `i` is 0.
pub vowel_here : Bool → Bool → ℕ → Bool
unfolding is_ascii_vowel
vowel_here first prev_is_vowel c =
    is_ascii_vowel c || ((c == letter_y) && (not first && not prev_is_vowel))

pub measure_loop : Bool → Bool → Bool → ℕ → Text → ℕ
measure_loop first prev_is_vowel in_vowel_run m [] = m
measure_loop first prev_is_vowel in_vowel_run m (c ∷ cs) =
    let here = vowel_here first prev_is_vowel c in
    measure_loop false here here (if not here && in_vowel_run then m + 1 else m) cs

unfoldable pub get_measure : Text → ℕ
unfolding measure_loop vowel_here
get_measure w = measure_loop true false false 0 w

pub vowel_loop : Bool → Bool → Text → Bool
vowel_loop first prev_is_vowel [] = false
vowel_loop first prev_is_vowel (c ∷ cs) =
    let here = vowel_here first prev_is_vowel c in
    let more = vowel_loop false here cs in if here then true else more

unfoldable pub contains_vowel : Text → Bool
unfolding vowel_loop vowel_here
contains_vowel w = vowel_loop true false w

unfoldable pub ends_with_double_consonant : Text → Bool
ends_with_double_consonant w =
    let n = length w in
    not (ltb n 2) && ((get_or w (n - 1) 0 == get_or w (n - 2) 0) && not (is_vowel w (n - 1)))

unfoldable pub ends_cvc : Text → Bool
ends_cvc w =
    let n = length w in
    let c = get_or w (n - 1) 0 in
    if ltb n 3
    then false
    else if is_vowel w (n - 1) || (not (is_vowel w (n - 2)) || is_vowel w (n - 3))
    then false
    else not (c == 119) && (not (c == 120) && not (c == letter_y))

-- The plural endings, at the head of `step1`.
unfoldable pub plural : Text → Text
plural w =
    if ends_with w (codes "sses")
    then chop 2 w
    else if ends_with w (codes "ies")
    then chop 3 w ++ codes "i"
    else if ends_with w (codes "s") && not (ends_with w (codes "ss"))
    then chop 1 w
    else w

-- The branch `do_cleanup`.
unfoldable pub cleanup : Text → Text
cleanup w =
    if ends_with w (codes "at") || (ends_with w (codes "bl") || ends_with w (codes "iz"))
    then w ++ codes "e"
    else if ends_with_double_consonant w
        && (not (ends_with w (codes "l"))
            && (not (ends_with w (codes "s")) && not (ends_with w (codes "z"))))
    then chop 1 w
    else if (get_measure w == 1) && ends_cvc w
    then w ++ codes "e"
    else w

unfoldable pub past : Text → Text
past w =
    if ends_with w (codes "eed")
    then (if ltb 0 (get_measure (chop 3 w)) then chop 1 w else w)
    else if ends_with w (codes "ed")
    then (if contains_vowel (chop 2 w) then cleanup (chop 2 w) else w)
    else if ends_with w (codes "ing")
    then (if contains_vowel (chop 3 w) then cleanup (chop 3 w) else w)
    else w

-- `w[w.length() - 1] = 'i'`
unfoldable pub final_y : Text → Text
final_y w =
    if ends_with w (codes "y") && contains_vowel (chop 1 w)
    then set w (length w - 1) letter_i
    else w

unfoldable pub step1 : Text → Text
step1 w = final_y (past (plural w))

-- The loop of `step2` and `step3`, which stops at the first suffix that fits.
unfoldable pub substitute : List (Text × Text) → Text → Text
substitute [] w = w
substitute ((suffix, rep) ∷ subs) w =
    let rest = substitute subs w in
    let stem = chop (length suffix) w in
    if ends_with w suffix then (if ltb 0 (get_measure stem) then stem ++ rep else w) else rest

abbrev pub subs2 : List (Text × Text)
subs2 =
    (codes "ational", codes "ate")
    ∷ (codes "tional", codes "tion")
    ∷ (codes "enci", codes "ence")
    ∷ (codes "anci", codes "ance")
    ∷ (codes "izer", codes "ize")
    ∷ (codes "abli", codes "able")
    ∷ (codes "alli", codes "al")
    ∷ (codes "entli", codes "ent")
    ∷ (codes "eli", codes "e")
    ∷ (codes "ousli", codes "ous")
    ∷ (codes "ization", codes "ize")
    ∷ (codes "ation", codes "ate")
    ∷ (codes "ator", codes "ate")
    ∷ (codes "alism", codes "al")
    ∷ (codes "iveness", codes "ive")
    ∷ (codes "fulness", codes "ful")
    ∷ (codes "ousness", codes "ous")
    ∷ (codes "aliti", codes "al")
    ∷ (codes "iviti", codes "ive")
    ∷ (codes "biliti", codes "ble")
    ∷ []

unfoldable pub step2 : Text → Text
step2 w = substitute subs2 w

abbrev pub subs3 : List (Text × Text)
subs3 =
    (codes "icate", codes "ic")
    ∷ (codes "ative", codes "")
    ∷ (codes "alize", codes "al")
    ∷ (codes "iciti", codes "ic")
    ∷ (codes "ical", codes "ic")
    ∷ (codes "ful", codes "")
    ∷ (codes "ness", codes "")
    ∷ []

unfoldable pub step3 : Text → Text
step3 w = substitute subs3 w

abbrev pub suffixes4 : List Text
suffixes4 =
    codes "al"
    ∷ codes "ance"
    ∷ codes "ence"
    ∷ codes "er"
    ∷ codes "ic"
    ∷ codes "able"
    ∷ codes "ible"
    ∷ codes "ant"
    ∷ codes "ement"
    ∷ codes "ment"
    ∷ codes "ent"
    ∷ codes "ou"
    ∷ codes "ism"
    ∷ codes "ate"
    ∷ codes "iti"
    ∷ codes "ous"
    ∷ codes "ive"
    ∷ codes "ize"
    ∷ []

-- The code of `step4` behind its loop.
unfoldable pub strip_ion : Text → Text
strip_ion w =
    let stem = chop 3 w in
    if ends_with w (codes "ion")
      && (ltb 1 (get_measure stem) && (ends_with stem (codes "s") || ends_with stem (codes "t")))
    then stem
    else w

unfoldable pub strip : List Text → Text → Text
strip [] w = strip_ion w
strip (s ∷ suffixes) w =
    let rest = strip suffixes w in
    let stem = chop (length s) w in
    if ends_with w s then (if ltb 1 (get_measure stem) then stem else w) else rest

unfoldable pub step4 : Text → Text
step4 w = strip suffixes4 w

unfoldable pub drop_e : Text → Text
drop_e w =
    let m = get_measure (chop 1 w) in
    if ends_with w (codes "e") && (ltb 1 m || ((m == 1) && not (ends_cvc (chop 1 w))))
    then chop 1 w
    else w

unfoldable pub drop_l : Text → Text
drop_l w =
    if ltb 1 (get_measure w) && (ends_with_double_consonant w && ends_with w (codes "l"))
    then chop 1 w
    else w

unfoldable pub step5 : Text → Text
step5 w = drop_l (drop_e w)

unfoldable pub stem : Text → Text
stem token =
    let w = step1 token in
    if leb (length token) 2
    then token
    else if ltb 2 (length w)
    then step5 (step4 (step3 (step2 w)))
    else w
