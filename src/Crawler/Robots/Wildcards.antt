-- ===== src/Crawler/Robots/Wildcards.antt =====
-- src/crawler/RobotsTxt.cpp: the class Wildcard.
pub mod Accepts
pub mod Decides
use search_engines.Base.{
  ℕ, ◌+◌, ◌*◌, Bool, true, false, not, ◌&&◌, ◌||◌, if◌then◌else◌, ◌==◌, List, [], ◌∷◌, Text, Option,
  none, some, length, suc, zero, c_string, percent, star, dollar, slash, take, ltb, ◌-◌,
}
use search_engines.Crawler.Robots.Decode.{url_decode}

-- `*wildcard` is the NUL.
abbrev pub is_end : Text → Bool
is_end [] = true
is_end (c ∷ w) = false

-- `while (*wildcard == '*') wildcard++;`
abbrev pub skip_stars : Text → Text
skip_stars [] = []
skip_stars (c ∷ w) = let more = skip_stars w in if c == star then more else c ∷ w

-- What one turn of the loop of `Match` comes to: an answer, or the places of `wildcard` and `path`
-- and those that `wBack` and `pBack` keep.
pub data Step : Type 0 where
  answer : Bool → Step
  go_on : Text → Text → Option (Text × Text) → Step

-- Going back to the last star, which then takes one more character.
abbrev pub retry : Option (Text × Text) → Step
retry none = answer false
retry (some (w, [])) = answer false
retry (some (w, c ∷ p)) = go_on w p (some (w, p))

-- `ends` is `endsInDollarSign`. The test `!wildcard` is of the pointer, and never true.
unfoldable pub step : Bool → Text → Text → Option (Text × Text) → Step
step ends w [] back = answer (is_end (skip_stars w))
step ends [] (c ∷ p) back = retry back
step ends (x ∷ w) (c ∷ p) back =
    if x == star
    then go_on (skip_stars w) (c ∷ p) (some (skip_stars w, c ∷ p))
    else if x == c
    then if is_end w && not ends then answer true else go_on w p back
    else retry back

abbrev pub after_step : Step → (Text → Text → Option (Text × Text) → Option Bool) → Option Bool
after_step (answer b) continue = some b
after_step (go_on w p back) continue = continue w p back

-- `none` is the end of the fuel.
unfoldable pub match_loop : ℕ → Bool → Text → Text → Option (Text × Text) → Option Bool
match_loop zero ends w p back = none
match_loop (suc f) ends w p back =
    after_step (step ends w p back) (λ w' p' back'. match_loop f ends w' p' back')

-- `Wildcard::Match` of the strings.
unfoldable pub match_from : Bool → Text → Text → Option Bool
match_from ends [] path = some false
match_from ends (c ∷ w) path =
    match_loop ((length (c ∷ w) + 1) * (length path + 1)) ends (c ∷ w) path none

pub record Wildcard : Type 0 where
  pub wildcard : Text
  pub literal_bytes : ℕ
  pub ends_in_dollar_sign : Bool

-- The initial slash is skipped.
abbrev pub skip_initial_slash : Text → Text
skip_initial_slash [] = []
skip_initial_slash (c ∷ s) = if c == slash then s else c ∷ s

abbrev pub needs_decoding : Text → Bool
needs_decoding [] = false
needs_decoding (c ∷ s) = (c == percent) || needs_decoding s

-- The last character is a dollar sign.
abbrev pub ends_in_dollar : Text → Bool
ends_in_dollar [] = false
ends_in_dollar (c ∷ []) = c == dollar
ends_in_dollar (c ∷ d ∷ s) = ends_in_dollar (d ∷ s)

abbrev pub count_literals : Text → ℕ
count_literals [] = 0
count_literals (c ∷ s) = let more = count_literals s in if c == star then more else suc more

-- The dollar sign is cut off and the literal bytes are counted.
abbrev pub compiled : Text → Bool → Wildcard
compiled w true =
    let kept = take (length w - 1) w in
    record { wildcard = kept; literal_bytes = count_literals kept; ends_in_dollar_sign = true }
compiled w false = record {
  wildcard = w;
  literal_bytes = count_literals w;
  ends_in_dollar_sign = false;
}

abbrev pub compile_text : Text → Wildcard
compile_text w = compiled w (ends_in_dollar w)

-- The constructor, from the argument on.
unfoldable pub new_wildcard : Text → Wildcard
new_wildcard argument =
    let path = skip_initial_slash argument in
    compile_text (if needs_decoding path then c_string (url_decode path) else path)

unfoldable pub match : Wildcard → Text → Option Bool
match w path = match_from w.ends_in_dollar_sign w.wildcard path

unfoldable pub more_specific : Wildcard → Wildcard → Bool
more_specific a b =
    ltb b.literal_bytes a.literal_bytes
    || ((a.literal_bytes == b.literal_bytes) && a.ends_in_dollar_sign && not b.ends_in_dollar_sign)
