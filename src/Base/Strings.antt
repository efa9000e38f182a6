-- ===== src/Base/Strings.antt =====
-- Character strings as lists of byte values, with the string operations that the sources use.
use Prim.Native.Char.{code}
use Prim.Native.String.{String}
use Prim.Native.Nat.{ℕ, suc, ◌+◌, ◌≤◌}
use mathlib.Core.Bool.{Bool, true, false, ◌&&◌, ◌||◌}
use mathlib.Core.List.{List, [], ◌∷◌, ◌++◌}
use mathlib.Core.Option.{Option, none, some}
use mathlib.Core.Path.{◌≡◌, refl, ap, ap₂}
use mathlib.Core.Logic.{inl, inr}
use native.Mathlib.Omega.{arith}
use search_engines.Base.Lists.{length}
use search_engines.Base.Tests.{◌==◌, if◌then◌else◌, leb, Bool-cases, ==_iff}

abbrev pub Text : Type 0
Text = List ℕ

-- The bytes of an ASCII literal.
abbrev pub codes : String → Text
codes String.[] = []
codes (String.◌∷◌ c s) = code c ∷ codes s

abbrev pub equal : Text → Text → Bool
equal [] [] = true
equal (a ∷ v) (b ∷ w) = (a == b) && equal v w
equal (a ∷ v) [] = false
equal [] (b ∷ w) = false

-- `s.find(c)`
abbrev pub find : ℕ → Text → Option ℕ
find c [] = none
find c (a ∷ s) = elim (find c s) [
  | none ↦ if a == c then some 0 else none
  | some i ↦ some (if a == c then 0 else suc i)
]

-- Whether `c` is one of `set`.
abbrev pub is_among : Text → ℕ → Bool
is_among [] c = false
is_among (a ∷ s) c = (c == a) || is_among s c

-- `s.find_first_of(set)`
abbrev pub find_first_of : Text → Text → Option ℕ
find_first_of set [] = none
find_first_of set (a ∷ s) = elim (find_first_of set s) [
  | none ↦ if is_among set a then some 0 else none
  | some i ↦ some (if is_among set a then 0 else suc i)
]

-- The last place of `c`.
abbrev pub find_last : ℕ → Text → Option ℕ
find_last c [] = none
find_last c (a ∷ s) = elim (find_last c s) [
  | none ↦ if a == c then some 0 else none
  | some i ↦ some (suc i)
]

abbrev pub is_prefix : Text → Text → Bool
is_prefix [] s = true
is_prefix (a ∷ p) [] = false
is_prefix (a ∷ p) (b ∷ s) = (a == b) && is_prefix p s

-- `s.find(p)` for a string that is not empty.
abbrev pub find_text : Text → Text → Option ℕ
find_text p [] = none
find_text p (a ∷ s) = elim (find_text p s) [
  | none ↦ if is_prefix p (a ∷ s) then some 0 else none
  | some i ↦ some (if is_prefix p (a ∷ s) then 0 else suc i)
]

abbrev pub count_char : Text → ℕ → ℕ
count_char [] needle = 0
count_char (c ∷ s) needle = let rest = count_char s needle in if c == needle then suc rest else rest

-- The characters before the first one that stops, and the rest from there on.
abbrev pub take_until : (ℕ → Bool) → Text → Text
take_until stops [] = []
take_until stops (c ∷ s) = let more = take_until stops s in if stops c then [] else c ∷ more

abbrev pub drop_until : (ℕ → Bool) → Text → Text
drop_until stops [] = []
drop_until stops (c ∷ s) = let more = drop_until stops s in if stops c then c ∷ s else more

-- A buffer read as a string that a NUL ends.
abbrev pub c_string : Text → Text
c_string s = take_until (λ c. c == 0) s

abbrev pub is_digit : ℕ → Bool
is_digit c = leb 48 c && leb c 57

abbrev pub is_upper : ℕ → Bool
is_upper c = leb 65 c && leb c 90

abbrev pub is_lower : ℕ → Bool
is_lower c = leb 97 c && leb c 122

abbrev pub lower : ℕ → ℕ
lower c = if is_upper c then c + 32 else c

abbrev pub to_lower : Text → Text
to_lower [] = []
to_lower (c ∷ s) = lower c ∷ to_lower s

-- The characters that the sources look for.
abbrev pub quote : ℕ
quote = 34

abbrev pub number_sign : ℕ
number_sign = 35

abbrev pub ampersand : ℕ
ampersand = 38

abbrev pub left_paren : ℕ
left_paren = 40

abbrev pub right_paren : ℕ
right_paren = 41

abbrev pub dollar : ℕ
dollar = 36

abbrev pub percent : ℕ
percent = 37

abbrev pub star : ℕ
star = 42

abbrev pub hyphen : ℕ
hyphen = 45

abbrev pub dot : ℕ
dot = 46

abbrev pub slash : ℕ
slash = 47

abbrev pub colon : ℕ
colon = 58

abbrev pub question : ℕ
question = 63

abbrev pub at_sign : ℕ
at_sign = 64

abbrev pub bar : ℕ
bar = 124

pub equal_refl : (s : Text) → equal s s ≡ true
equal_refl [] = refl
equal_refl (c ∷ s) = ground (arith, equal_refl s)

pub equal→≡ : (v w : Text) → equal v w ≡ true → v ≡ w
equal→≡ [] [] h = refl
equal→≡ (a ∷ v) [] h = cc
equal→≡ [] (b ∷ w) h = cc
equal→≡ (a ∷ v) (b ∷ w) h = elim (Bool-cases (a == b)) [
  | inl e ↦ ap₂ (λ x xs. x ∷ xs) ((==_iff a b).0 e) (equal→≡ v w (rw e at h))
  | inr e ↦ cc (rw e at h)
]

-- Equality with one text settles equality with another.
pub equal_swap : (v w : Text) → equal v w ≡ equal w v
equal_swap [] [] = refl
equal_swap (a ∷ v) [] = refl
equal_swap [] (b ∷ w) = refl
equal_swap (a ∷ v) (b ∷ w) = ground (arith, equal_swap v w)

pub length-drop_until : (stops : ℕ → Bool) (s : Text) → length (drop_until stops s) ≤ length s
length-drop_until stops [] = omega arith
length-drop_until stops (c ∷ s) = ground (arith, length-drop_until stops s)

pub take_until-drop_until :
    (stops : ℕ → Bool) (s : Text) → take_until stops s ++ drop_until stops s ≡ s
take_until-drop_until stops [] = refl
take_until-drop_until stops (c ∷ s) = elim (Bool-cases (stops c)) [
  | inl stop ↦ rw stop refl
  | inr go ↦ rw go (ap (λ t. c ∷ t) (take_until-drop_until stops s))
]
