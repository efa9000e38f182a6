-- ===== src/Crawler/Robots/Statements/Ends.antt =====
-- src/crawler/RobotsTxt.cpp: reading a statement ends, and always moves forward.
use search_engines.Base.{
  ℕ, ◌+◌, ◌≤◌, ◌<◌, Bool, true, false, List, [], ◌∷◌, Text, Option, some, length, suc, zero, arith,
  ◌≡◌, codes, ◌==◌, lower, if◌then◌else◌, Bool-cases, inl, inr, refl, drop_until, drop,
  length-drop_until, Option-cases,
}
use search_engines.Crawler.Robots.Statements.{
  Statement, StatementType, Turn, invalid_statement, get_argument, get_statement, identify,
  match_keyword, next_line, skip_blanks, skip_line_feed, turn, act, found, is_line_end, is_skipped,
  recognized, user_agent_statement, again, allow_statement, ends_argument, disallow_statement,
  sitemap_statement, crawl_delay_statement, proceed,
}

length-match_keyword :
    (k p : Text) {rest : Text} → match_keyword k p ≡ some rest → length rest + length k ≡ length p
unfolding match_keyword
length-match_keyword [] p h = ground arith
length-match_keyword (k ∷ ks) [] h = cc
length-match_keyword (k ∷ ks) (c ∷ p) {rest} h = elim (Bool-cases (lower c == k)) [
  | inl same ↦
      let e : match_keyword ks p ≡ some rest = rw same at h in
      omega (arith, length-match_keyword ks p e)
  | inr other ↦ cc (rw other at h)
]

length-skip_blanks : (s : Text) → length (skip_blanks s) ≤ length s
length-skip_blanks [] = omega arith
length-skip_blanks (c ∷ s) = ground (arith, length-skip_blanks s)

length-skip_line_feed : (s : Text) → length (skip_line_feed s) ≤ length s
length-skip_line_feed [] = omega arith
length-skip_line_feed (c ∷ s) = ground arith

length-tail : (s : Text) (n : ℕ) → length s ≤ n → 0 < n → length (drop 1 s) < n
length-tail [] n h k = k
length-tail (c ∷ s) n h k = omega arith

-- A line is not empty: going to the next one moves forward, unless the input is at its end.
pub length-next_line : (s : Text) (n : ℕ) → length s ≤ n → 0 < n → length (next_line s) < n
unfolding next_line
length-next_line s n h k =
    let rest : length (drop_until is_line_end s) ≤ n =
      omega (arith, length-drop_until is_line_end s) in
    omega (
      arith,
      length-skip_line_feed (drop 1 (drop_until is_line_end s)),
      length-tail (drop_until is_line_end s) n rest k,
    )

pub length-get_argument : (p : Text) → length (get_argument p).1 ≤ length p
unfolding get_argument
length-get_argument p =
    omega (arith, length-skip_blanks p, length-drop_until ends_argument (skip_blanks p))

-- What `identify` leaves of `n` characters: all of them where it recognized nothing.
abbrev Leaves : ℕ → StatementType × Text → Type 0
Leaves n (invalid_statement, p) = length p ≤ n
Leaves n (user_agent_statement, p) = length p < n
Leaves n (allow_statement, p) = length p < n
Leaves n (disallow_statement, p) = length p < n
Leaves n (crawl_delay_statement, p) = length p < n
Leaves n (sitemap_statement, p) = length p < n

Leaves-less : (n : ℕ) (type : StatementType) (p : Text) → length p < n → Leaves n (type, p)
Leaves-less n invalid_statement p h = omega arith
Leaves-less n user_agent_statement p h = h
Leaves-less n allow_statement p h = h
Leaves-less n disallow_statement p h = h
Leaves-less n crawl_delay_statement p h = h
Leaves-less n sitemap_statement p h = h

recognized-Leaves :
    (type : StatementType) (k p : Text)
    → 0 < length k
    → Leaves (length p) (recognized type p (match_keyword k p))
recognized-Leaves type k p h = elim (Option-cases (match_keyword k p)) [
  | inl missing ↦ rw missing (omega arith)
  | inr (rest, read) ↦
      rw read (Leaves-less (length p) type rest (omega (arith, length-match_keyword k p read)))
]

Leaves-if :
    (n : ℕ) (c : Bool) (x y : StatementType × Text)
    → Leaves n x
    → Leaves n y
    → Leaves n (if c then x else y)
Leaves-if n true x y h k = h
Leaves-if n false x y h k = k

identify-Leaves : (p : Text) → Leaves (length p) (identify p)
unfolding identify
identify-Leaves [] = omega arith
identify-Leaves (c ∷ p) =
    let s = c ∷ p in
    let n = length s in
    Leaves-if n (lower c == 117) _ _
      (recognized-Leaves user_agent_statement (codes "user-agent:") s (omega arith))
      (Leaves-if n (lower c == 97) _ _
        (recognized-Leaves allow_statement (codes "allow:") s (omega arith))
        (Leaves-if n (lower c == 100) _ _
          (recognized-Leaves disallow_statement (codes "disallow:") s (omega arith))
          (Leaves-if n (lower c == 115) _ _
            (recognized-Leaves sitemap_statement (codes "sitemap:") s (omega arith))
            (Leaves-if n (lower c == 99) _ _
              (recognized-Leaves crawl_delay_statement (codes "crawl-delay:") s (omega arith))
              (omega arith)))))

-- One turn leaves fewer than `n` characters.
abbrev TurnsBelow : ℕ → Turn → Type 0
TurnsBelow n (found s) = length s.rest < n
TurnsBelow n (again p sitemap) = length p < n

TurnsBelow-if :
    (n : ℕ) (c : Bool) (x y : Turn)
    → TurnsBelow n x
    → TurnsBelow n y
    → TurnsBelow n (if c then x else y)
TurnsBelow-if n true x y h k = h
TurnsBelow-if n false x y h k = k

act-TurnsBelow :
    (n : ℕ) (x : StatementType × Text) (sitemap : List Text)
    → 0 < n
    → Leaves n x
    → TurnsBelow n (act x sitemap)
act-TurnsBelow n (invalid_statement, p) sitemap h k = length-next_line p n k h
act-TurnsBelow n (user_agent_statement, p) sitemap h k = k
act-TurnsBelow n (allow_statement, p) sitemap h k = k
act-TurnsBelow n (disallow_statement, p) sitemap h k = k
act-TurnsBelow n (crawl_delay_statement, p) sitemap h k = k
act-TurnsBelow n (sitemap_statement, p) sitemap h k =
    length-next_line (get_argument p).1 n (omega (arith, length-get_argument p)) h

Leaves-weaken : (m n : ℕ) (x : StatementType × Text) → m ≤ n → Leaves m x → Leaves n x
Leaves-weaken m n (invalid_statement, p) h k = omega arith
Leaves-weaken m n (user_agent_statement, p) h k = omega arith
Leaves-weaken m n (allow_statement, p) h k = omega arith
Leaves-weaken m n (disallow_statement, p) h k = omega arith
Leaves-weaken m n (crawl_delay_statement, p) h k = omega arith
Leaves-weaken m n (sitemap_statement, p) h k = omega arith

turn-TurnsBelow :
    (n : ℕ) (p : Text) (sitemap : List Text) → 0 < n → length p ≤ n → TurnsBelow n (turn p sitemap)
unfolding turn
turn-TurnsBelow n p sitemap pos h =
    let start = skip_blanks p in
    let short : length start ≤ n = omega (arith, length-skip_blanks p) in
    TurnsBelow-if n (is_skipped start) _ _ (length-next_line start n short pos) (
      act-TurnsBelow n (identify start) sitemap pos
        (Leaves-weaken (length start) n (identify start) short (identify-Leaves start)))

-- What is left to read, and nothing behind the last statement.
abbrev pub remaining : StatementType → Text → ℕ
remaining invalid_statement p = 0
remaining user_agent_statement p = suc (length p)
remaining allow_statement p = suc (length p)
remaining disallow_statement p = suc (length p)
remaining crawl_delay_statement p = suc (length p)
remaining sitemap_statement p = suc (length p)

pub remaining_le : (type : StatementType) (p : Text) → remaining type p ≤ suc (length p)
remaining_le invalid_statement p = omega arith
remaining_le user_agent_statement p = omega arith
remaining_le allow_statement p = omega arith
remaining_le disallow_statement p = omega arith
remaining_le crawl_delay_statement p = omega arith
remaining_le sitemap_statement p = omega arith

-- A statement was read, and at most `n` remains.
abbrev pub Reads : ℕ → Option Statement → Type 0
Reads n r = (s : Statement) × (r ≡ some s) × (remaining s.type s.rest ≤ n) × (length s.rest ≤ n)

proceed-Reads :
    (m : ℕ) (t : Turn) (continue : Text → List Text → Option Statement)
    → TurnsBelow m t
    → ((p : Text) (sitemap : List Text) → length p < m → Reads m (continue p sitemap))
    → Reads m (proceed t continue)
proceed-Reads m (found s) continue k rest =
    (s, refl, omega (arith, remaining_le s.type s.rest), omega arith)
proceed-Reads m (again p sitemap) continue k rest = rest p sitemap k

Reads-more : (m n : ℕ) (r : Option Statement) → m ≤ n → Reads m r → Reads n r
Reads-more m n r h (s, e, k, l) = (s, e, omega arith, omega arith)

-- Fuel of the length of the input is enough for `get_statement`, and reading moves forward.
pub get_statement-Reads :
    (f : ℕ) (p : Text) (sitemap : List Text)
    → length p ≤ f
    → Reads (length p) (get_statement f p sitemap)
unfolding get_statement
get_statement-Reads f [] sitemap h = (_, refl, omega arith, omega arith)
get_statement-Reads zero (c ∷ p) sitemap h = absurd (omega arith)
get_statement-Reads (suc f) (c ∷ p) sitemap h =
    proceed-Reads (length (c ∷ p)) (turn (c ∷ p) sitemap)
      (λ p' sitemap'. get_statement f p' sitemap')
      (turn-TurnsBelow (length (c ∷ p)) (c ∷ p) sitemap (omega arith) (omega arith))
      (λ p' sitemap' less.
        Reads-more (length p') (length (c ∷ p)) (get_statement f p' sitemap') (omega arith)
          (get_statement-Reads f p' sitemap' (omega arith)))
