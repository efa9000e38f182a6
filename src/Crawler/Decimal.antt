-- ===== src/Crawler/Decimal.antt =====
-- The decimal numbers that the crawler's files hold: `snprintf` with %zu or %d, and `atol`.
use native.Mathlib.Nat.{pow-suc}
use search_engines.Base.{
  Bool, Option, some, none, leb, ℕ, ◌+◌, ◌*◌, ◌-◌, ◌/◌, ◌%◌, ◌^◌, ◌<◌, ◌≤◌, suc, zero, true, false,
  if◌then◌else◌, ◌==◌, ltb, [], ◌∷◌, ◌++◌, Text, is_digit, ◌≡◌, refl, arith, All, hyphen,
  drop_until, not, Bool-cases, inl, inr, ap, ◌∙◌, All-append,
}
use search_engines.Crawler.Dedup.{is_space}

-- The digits of a number below `10 ^ fuel`; twenty serve every `size_t`.
unfoldable pub decimal : ℕ → ℕ → Text
decimal zero n = []
decimal (suc f) n =
    let front = decimal f (n / 10) in
    if ltb n 10 then (48 + n) ∷ [] else front ++ (48 + n % 10) ∷ []

unfoldable pub print : ℕ → Text
print n = decimal 20 n

-- The number that the digits at the front continue, and what stops them.
abbrev pub digits_after : ℕ → Text → ℕ
digits_after n [] = n
digits_after n (c ∷ s) =
    let more = digits_after (n * 10 + (c - 48)) s in if is_digit c then more else n

-- The number where a `long` holds it, as the `size_t` that it is converted to; `none` where it does
-- not, and what `atol` does is undefined.
abbrev pub as_long : Bool → ℕ → Option ℕ
as_long true n = if leb n (2 ^ 63) then some ((2 ^ 64 - n) % 2 ^ 64) else none
as_long false n = if ltb n (2 ^ 63) then some n else none

-- A sign and digits.
abbrev pub signed : Text → Option ℕ
signed [] = some 0
signed (c ∷ s) =
    if c == hyphen
    then as_long true (digits_after 0 s)
    else if c == 43
    then as_long false (digits_after 0 s)
    else as_long false (digits_after 0 (c ∷ s))

unfoldable pub atol : Text → Option ℕ
atol s = signed (drop_until (λ c. not (is_space c)) s)

abbrev pub IsDigits : Text → Type 0
IsDigits s = All (λ c. (48 ≤ c) × (c ≤ 57)) s

digits_after-append :
    (s t : Text) (n : ℕ) → IsDigits s → digits_after n (s ++ t) ≡ digits_after (digits_after n s) t
digits_after-append [] t n h = refl
digits_after-append (c ∷ s) t n (h, hs) =
    let e : is_digit c ≡ true = ground (arith, h) in
    rw e (digits_after-append s t (n * 10 + (c - 48)) hs)

pub decimal-IsDigits : (f n : ℕ) → IsDigits (decimal f n)
unfolding decimal
decimal-IsDigits zero n = tt
decimal-IsDigits (suc f) n = elim (Bool-cases (ltb n 10)) [
  | inl small ↦ rw small (ground (arith, small), tt)
  | inr large ↦ rw large (
      All-append (λ c. (48 ≤ c) × (c ≤ 57)) (decimal f (n / 10)) ((48 + n % 10) ∷ [])
        (decimal-IsDigits f (n / 10)) (omega arith, tt))
]

last_digit : (n d : ℕ) → d < 10 → digits_after n ((48 + d) ∷ []) ≡ n * 10 + d
last_digit n d h = let e : is_digit (48 + d) ≡ true = ground arith in rw e (omega arith)

digits_after-decimal : (f n : ℕ) → n < 10 ^ f → digits_after 0 (decimal f n) ≡ n
unfolding decimal
digits_after-decimal zero n h = omega arith
digits_after-decimal (suc f) n h = elim (Bool-cases (ltb n 10)) [
  | inl small ↦ rw small (ground (arith, small))
  | inr large ↦
      let rest = digits_after-decimal f (n / 10) (omega (arith, pow-suc 10 f)) in
      rw large (
        digits_after-append (decimal f (n / 10)) ((48 + n % 10) ∷ []) 0
          (decimal-IsDigits f (n / 10))
        ∙ ap (λ (k : ℕ). digits_after k ((48 + n % 10) ∷ [])) rest
        ∙ last_digit (n / 10) (n % 10) (omega arith)
        ∙ omega arith)
]

atol-digits : (s : Text) → IsDigits s → atol s ≡ as_long false (digits_after 0 s)
unfolding atol
atol-digits [] h = refl
atol-digits (c ∷ s) (h, hs) =
    let e : is_space c ≡ false = ground (arith, h) in
    let m : (c == hyphen) ≡ false = ground (arith, h) in
    let p : (c == 43) ≡ false = ground (arith, h) in rw (e, m, p) refl

-- `atol` reads back what `snprintf` printed, where a `long` holds it.
pub atol-print : (n : ℕ) → n < 2 ^ 63 → atol (print n) ≡ some n
unfolding print
atol-print n h =
    let fits : ltb n (2 ^ 63) ≡ true = ground arith in
    atol-digits (print n) (decimal-IsDigits 20 n)
    ∙ ap (as_long false) (digits_after-decimal 20 n (omega arith))
    ∙ rw fits refl
