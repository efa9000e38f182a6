-- ===== src/Index/Stemmer/Bounds.antt =====
-- The stemmer keeps a word from growing, and from becoming empty.
use search_engines.Base.{
  [], ◌∷◌, ℕ, List, Text, All, arith, length, ◌<◌, ◌∷◌, ◌≡◌, length-append, length-set, true, ◌≤◌,
  codes, ◌+◌, ◌-◌, length-take,
}
use search_engines.Index.Stemmer.{
  stem, cleanup, contains_vowel, drop_e, drop_l, ends_with, ends_with_double_consonant, final_y,
  get_measure, past, plural, step1, step2, step3, step4, step5, strip, strip_ion, substitute, subs2,
  subs3, suffixes4, chop, letter_i,
}

-- The second word is no longer than the first, and not empty unless the first is.
abbrev Kept : Text → Text → Type 0
Kept w v = (length v ≤ length w) × (0 < length w → 0 < length v)

Kept-trans : (w v u : Text) → Kept w v → Kept v u → Kept w u
Kept-trans w v u h k = (omega (arith, h.0, k.0), λ some_byte. k.1 (h.1 some_byte))

ends_with-length : (w s : Text) → ends_with w s ≡ true → length s ≤ length w
unfolding ends_with
ends_with-length w s h = ground arith

get_measure-nonempty : (w : Text) → 0 < get_measure w → 0 < length w
unfolding get_measure
get_measure-nonempty [] h = absurd (omega arith)
get_measure-nonempty (c ∷ cs) h = omega arith

contains_vowel-nonempty : (w : Text) → contains_vowel w ≡ true → 0 < length w
unfolding contains_vowel
contains_vowel-nonempty [] h = cc
contains_vowel-nonempty (c ∷ cs) h = omega arith

length-chop : (n : ℕ) (w : Text) → length (chop n w) ≡ length w - n
length-chop n w = omega (arith, length-take (length w - n) w)

double_consonant-length : (w : Text) → ends_with_double_consonant w ≡ true → 1 < length w
unfolding ends_with_double_consonant
double_consonant-length w h = ground arith

substitute-Kept :
    (subs : List (Text × Text)) (w : Text)
    → All (λ (suffix, rep). length rep ≤ length suffix) subs
    → Kept w (substitute subs w)
unfolding substitute
substitute-Kept [] w h = (omega arith, λ k. k)
substitute-Kept ((suffix, rep) ∷ subs) w h =
    let stem = chop (length suffix) w in
    ground (
      arith,
      substitute-Kept subs w,
      ends_with-length w suffix,
      get_measure-nonempty stem,
      length-chop (length suffix) w,
      length-append stem rep,
    )

strip_ion-Kept : (w : Text) → Kept w (strip_ion w)
unfolding strip_ion
strip_ion-Kept w = ground (arith, get_measure-nonempty (chop 3 w), length-chop 3 w)

strip-Kept : (suffixes : List Text) (w : Text) → Kept w (strip suffixes w)
unfolding strip
strip-Kept [] w = strip_ion-Kept w
strip-Kept (s ∷ suffixes) w =
    let stem = chop (length s) w in
    ground (arith, strip-Kept suffixes w, get_measure-nonempty stem, length-chop (length s) w)

drop_e-Kept : (w : Text) → Kept w (drop_e w)
unfolding drop_e
drop_e-Kept w = ground (arith, get_measure-nonempty (chop 1 w), length-chop 1 w)

drop_l-Kept : (w : Text) → Kept w (drop_l w)
unfolding drop_l
drop_l-Kept w = ground (arith, double_consonant-length w, length-chop 1 w)

-- What `cleanup` gives back is at most one byte longer.
cleanup-Kept :
    (w : Text) → (length (cleanup w) ≤ length w + 1) × (0 < length w → 0 < length (cleanup w))
unfolding cleanup
cleanup-Kept w =
    ground (arith, double_consonant-length w, length-chop 1 w, length-append w (codes "e"))

past-Kept : (w : Text) → Kept w (past w)
unfolding past
past-Kept w = ground (
  arith,
  cleanup-Kept (chop 2 w),
  cleanup-Kept (chop 3 w),
  length-chop 1 w,
  length-chop 2 w,
  length-chop 3 w,
  get_measure-nonempty (chop 3 w),
  contains_vowel-nonempty (chop 2 w),
  contains_vowel-nonempty (chop 3 w),
  ends_with-length w (codes "ed"),
  ends_with-length w (codes "ing"),
)

plural-Kept : (w : Text) → 2 < length w → Kept w (plural w)
unfolding plural
plural-Kept w h =
    ground (
      arith,
      length-chop 1 w,
      length-chop 2 w,
      length-chop 3 w,
      length-append (chop 3 w) (codes "i"),
    )

final_y-Kept : (w : Text) → Kept w (final_y w)
unfolding final_y
final_y-Kept w = ground (arith, length-set w (length w - 1) letter_i)

step1-Kept : (w : Text) → 2 < length w → Kept w (step1 w)
unfolding step1
step1-Kept w h =
    Kept-trans _ _ _ (plural-Kept w h)
      (Kept-trans _ _ _ (past-Kept (plural w)) (final_y-Kept (past (plural w))))

step5-Kept : (w : Text) → Kept w (step5 w)
unfolding step5
step5-Kept w = Kept-trans _ _ _ (drop_e-Kept w) (drop_l-Kept (drop_e w))

later_steps-Kept : (w : Text) → Kept w (step5 (step4 (step3 (step2 w))))
unfolding step2 step3 step4
later_steps-Kept w =
    let two = substitute-Kept subs2 w (omega arith) in
    let three = substitute-Kept subs3 (step2 w) (omega arith) in
    let four = strip-Kept suffixes4 (step3 (step2 w)) in
    Kept-trans _ _ _ two
      (Kept-trans _ _ _ three (Kept-trans _ _ _ four (step5-Kept (step4 (step3 (step2 w))))))

-- The stem of a word is no longer than the word, and is not empty unless the word is.
pub length-stem :
    (token : Text)
    → (length (stem token) ≤ length token) × (0 < length token → 0 < length (stem token))
unfolding stem
length-stem token = ground (arith, step1-Kept token, later_steps-Kept (step1 token))
