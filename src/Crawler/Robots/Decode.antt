-- ===== src/Crawler/Robots/Decode.antt =====
-- src/crawler/RobotsTxt.cpp: the parts of an address, and its %xx encodings.
pub mod Shorter
use search_engines.Base.{
  ℕ, ◌+◌, ◌-◌, ◌*◌, ◌^◌, Bool, true, false, ◌&&◌, ◌||◌, if◌then◌else◌, leb, ◌==◌, List, [], ◌∷◌,
  Text, Option, none, some, bit_or, take_until, drop_until, drop, slash, colon, percent, length,
  ◌≤◌, arith, suc,
}

-- The parts that `RobotsParsedUrl` finds; `Port` is empty where the source leaves it unset.
pub record RobotsParsedUrl : Type 0 where
  pub service : Text
  pub host : Text
  pub port : Text
  pub path : Text

-- `if (*p == Slash) p++;`
abbrev pub skip_slash : Text → Text
skip_slash [] = []
skip_slash (c ∷ s) = if c == slash then s else c ∷ s

abbrev pub is_slash : ℕ → Bool
is_slash c = c == slash

-- What follows the host: a port behind a colon, and the path behind the next slash.
abbrev pub port_and_path : Text → Text × Text
port_and_path [] = ([], [])
port_and_path (c ∷ s) =
    if c == colon then (take_until is_slash s, drop 1 (drop_until is_slash s)) else ([], s)

abbrev pub ends_host : ℕ → Bool
ends_host c = (c == slash) || (c == colon)

-- From the colon behind the service on.
unfoldable pub after_service : Text → Text → RobotsParsedUrl
after_service service [] = record { service = service; host = []; port = []; path = [] }
after_service service (c ∷ s) =
    let p = skip_slash (skip_slash s) in
    let rest = port_and_path (drop_until ends_host p) in
    record { service = service; host = take_until ends_host p; port = rest.0; path = rest.1 }

unfoldable pub parse_url : Text → RobotsParsedUrl
parse_url url = after_service (take_until (λ c. c == colon) url) (drop_until (λ c. c == colon) url)

-- `none` is -1.
abbrev pub hex_literal_character : ℕ → Option ℕ
hex_literal_character c =
    if leb 48 c && leb c 57
    then some (c - 48)
    else if leb 97 c && leb c 102
    then some (c - 97 + 10)
    else if leb 65 c && leb c 70
    then some (c - 65 + 10)
    else none

-- `i << 4 | j`, which is negative where one of them is.
abbrev pub joined : Option ℕ → Option ℕ → Option ℕ
joined (some i) (some j) = some (bit_or (i * 2 ^ 4) j)
joined (some i) none = none
joined none j = none

-- The byte that replaces an encoding, unless it is a slash.
abbrev pub unless_slash : Option ℕ → Option ℕ
unless_slash none = none
unless_slash (some hex) = if hex == slash then none else some hex

abbrev pub decoded : ℕ → ℕ → Option ℕ
decoded c d = unless_slash (joined (hex_literal_character c) (hex_literal_character d))

-- A `%` with fewer than two characters behind it ends the loop.
unfoldable pub url_decode : Text → Text
url_decode [] = []
url_decode (c ∷ []) = if c == percent then [] else c ∷ []
url_decode (c ∷ a ∷ []) = let more = url_decode (a ∷ []) in if c == percent then [] else c ∷ more
url_decode (c ∷ a ∷ b ∷ s) = elim (c == percent) [
  | true ↦ elim (decoded a b) [
    | some hex ↦ hex ∷ url_decode s
    | none ↦ percent ∷ url_decode (a ∷ b ∷ s)
  ]
  | false ↦ c ∷ url_decode (a ∷ b ∷ s)
]
