-- ===== src/Utils/Utf8/Safe.antt =====
-- src/utils/Utf8.cpp: what every read does, on any bytes.
use search_engines.Base.{
  ℕ, ◌≤◌, ◌<◌, Bool, true, false, ◌≡◌, refl, arith, [], ◌∷◌, Text, drop, length, if◌then◌else◌, not,
  Bool-cases, ltb, inl, inr,
}
use search_engines.Utils.Utf8.{
  Read, at_least, checked_three, is_forbidden_character, read_five, read_four, read_six, read_three,
  read_two, read_utf8, continues, get_utf8, next_utf8, five_bytes, four_bytes, six_bytes,
  three_bytes, two_bytes,
}
use search_engines.Utils.Utf8.Fields.{two_bytes-eq}

-- A read of `s` that stops at `r` went past `n` bytes of it, one to six.
abbrev pub Consumes : Text → Text → Type 0
Consumes s r = (n : ℕ) × ((1 ≤ n) × (n ≤ 6) × (n ≤ length s)) × (r ≡ drop n s)

Consumes-if :
    (s : Text) (c : Bool) (r r' : Read)
    → Consumes s r.rest
    → Consumes s r'.rest
    → Consumes s (if c then r else r').rest
Consumes-if s true r r' h k = h
Consumes-if s false r r' h k = k

Consumes-at_least :
    (s : Text) (least c : ℕ) (r : Text) → Consumes s r → Consumes s (at_least least c r).rest
Consumes-at_least s least c r h = Consumes-if s (ltb c least) _ _ h h

read_two-Consumes : (b : ℕ) (s : Text) → Consumes (b ∷ s) (read_two b s).rest
unfolding read_two
read_two-Consumes b [] = (1, (omega arith, omega arith, omega arith), refl)
read_two-Consumes b (p1 ∷ s) =
    Consumes-if (b ∷ p1 ∷ s) (not (continues p1)) _ _
      (1, (omega arith, omega arith, omega arith), refl)
      (Consumes-at_least (b ∷ p1 ∷ s) 0x80 (two_bytes b p1) s
        (2, (omega arith, omega arith, omega arith), refl))

read_three-Consumes : (b : ℕ) (s : Text) → Consumes (b ∷ s) (read_three b s).rest
unfolding read_three
read_three-Consumes b [] = (1, (omega arith, omega arith, omega arith), refl)
read_three-Consumes b (p1 ∷ []) = (2, (omega arith, omega arith, omega arith), refl)
read_three-Consumes b (p1 ∷ p2 ∷ s) =
    Consumes-if (b ∷ p1 ∷ p2 ∷ s) (not (continues p1)) _ _
      (1, (omega arith, omega arith, omega arith), refl)
      (Consumes-if (b ∷ p1 ∷ p2 ∷ s) (not (continues p2)) _ _
        (2, (omega arith, omega arith, omega arith), refl)
        (Consumes-if (b ∷ p1 ∷ p2 ∷ s) (is_forbidden_character (three_bytes b p1 p2)) _ _
          (3, (omega arith, omega arith, omega arith), refl)
          (Consumes-at_least (b ∷ p1 ∷ p2 ∷ s) 0x800 (three_bytes b p1 p2) s
            (3, (omega arith, omega arith, omega arith), refl))))

read_four-Consumes : (b : ℕ) (s : Text) → Consumes (b ∷ s) (read_four b s).rest
unfolding read_four
read_four-Consumes b [] = (1, (omega arith, omega arith, omega arith), refl)
read_four-Consumes b (p1 ∷ []) = (2, (omega arith, omega arith, omega arith), refl)
read_four-Consumes b (p1 ∷ p2 ∷ []) = (3, (omega arith, omega arith, omega arith), refl)
read_four-Consumes b (p1 ∷ p2 ∷ p3 ∷ s) =
    Consumes-if (b ∷ p1 ∷ p2 ∷ p3 ∷ s) (not (continues p1)) _ _
      (1, (omega arith, omega arith, omega arith), refl)
      (Consumes-if (b ∷ p1 ∷ p2 ∷ p3 ∷ s) (not (continues p2)) _ _
        (2, (omega arith, omega arith, omega arith), refl)
        (Consumes-if (b ∷ p1 ∷ p2 ∷ p3 ∷ s) (not (continues p3)) _ _
          (3, (omega arith, omega arith, omega arith), refl)
          (Consumes-at_least (b ∷ p1 ∷ p2 ∷ p3 ∷ s) 0x10000 (four_bytes b p1 p2 p3) s
            (4, (omega arith, omega arith, omega arith), refl))))

read_five-Consumes : (b : ℕ) (s : Text) → Consumes (b ∷ s) (read_five b s).rest
unfolding read_five
read_five-Consumes b [] = (1, (omega arith, omega arith, omega arith), refl)
read_five-Consumes b (p1 ∷ []) = (2, (omega arith, omega arith, omega arith), refl)
read_five-Consumes b (p1 ∷ p2 ∷ []) = (3, (omega arith, omega arith, omega arith), refl)
read_five-Consumes b (p1 ∷ p2 ∷ p3 ∷ []) = (4, (omega arith, omega arith, omega arith), refl)
read_five-Consumes b (p1 ∷ p2 ∷ p3 ∷ p4 ∷ s) =
    Consumes-if (b ∷ p1 ∷ p2 ∷ p3 ∷ p4 ∷ s) (not (continues p1)) _ _
      (1, (omega arith, omega arith, omega arith), refl)
      (Consumes-if (b ∷ p1 ∷ p2 ∷ p3 ∷ p4 ∷ s) (not (continues p2)) _ _
        (2, (omega arith, omega arith, omega arith), refl)
        (Consumes-if (b ∷ p1 ∷ p2 ∷ p3 ∷ p4 ∷ s) (not (continues p3)) _ _
          (3, (omega arith, omega arith, omega arith), refl)
          (Consumes-if (b ∷ p1 ∷ p2 ∷ p3 ∷ p4 ∷ s) (not (continues p4)) _ _
            (4, (omega arith, omega arith, omega arith), refl)
            (Consumes-at_least (b ∷ p1 ∷ p2 ∷ p3 ∷ p4 ∷ s) 0x200000 (five_bytes b p1 p2 p3 p4) s
              (5, (omega arith, omega arith, omega arith), refl)))))

read_six-Consumes : (b : ℕ) (s : Text) → Consumes (b ∷ s) (read_six b s).rest
unfolding read_six
read_six-Consumes b [] = (1, (omega arith, omega arith, omega arith), refl)
read_six-Consumes b (p1 ∷ []) = (2, (omega arith, omega arith, omega arith), refl)
read_six-Consumes b (p1 ∷ p2 ∷ []) = (3, (omega arith, omega arith, omega arith), refl)
read_six-Consumes b (p1 ∷ p2 ∷ p3 ∷ []) = (4, (omega arith, omega arith, omega arith), refl)
read_six-Consumes b (p1 ∷ p2 ∷ p3 ∷ p4 ∷ []) = (5, (omega arith, omega arith, omega arith), refl)
read_six-Consumes b (p1 ∷ p2 ∷ p3 ∷ p4 ∷ p5 ∷ s) =
    Consumes-if (b ∷ p1 ∷ p2 ∷ p3 ∷ p4 ∷ p5 ∷ s) (not (continues p1)) _ _
      (1, (omega arith, omega arith, omega arith), refl)
      (Consumes-if (b ∷ p1 ∷ p2 ∷ p3 ∷ p4 ∷ p5 ∷ s) (not (continues p2)) _ _
        (2, (omega arith, omega arith, omega arith), refl)
        (Consumes-if (b ∷ p1 ∷ p2 ∷ p3 ∷ p4 ∷ p5 ∷ s) (not (continues p3)) _ _
          (3, (omega arith, omega arith, omega arith), refl)
          (Consumes-if (b ∷ p1 ∷ p2 ∷ p3 ∷ p4 ∷ p5 ∷ s) (not (continues p4)) _ _
            (4, (omega arith, omega arith, omega arith), refl)
            (Consumes-if (b ∷ p1 ∷ p2 ∷ p3 ∷ p4 ∷ p5 ∷ s) (not (continues p5)) _ _
              (5, (omega arith, omega arith, omega arith), refl)
              (Consumes-at_least (b ∷ p1 ∷ p2 ∷ p3 ∷ p4 ∷ p5 ∷ s) 0x4000000
                (six_bytes b p1 p2 p3 p4 p5) s
                (6, (omega arith, omega arith, omega arith), refl))))))

-- Every read of a text that is not empty goes past one to six of its bytes, so that a loop over
-- reads ends, and never past the bound.
pub next_utf8-Consumes : (b : ℕ) (s : Text) → Consumes (b ∷ s) (next_utf8 (b ∷ s))
unfolding read_utf8
next_utf8-Consumes b s =
    Consumes-if (b ∷ s) (ltb b 0x80) _ _ (1, (omega arith, omega arith, omega arith), refl)
      (Consumes-if (b ∷ s) (ltb b 0xc0) _ _ (1, (omega arith, omega arith, omega arith), refl)
        (Consumes-if (b ∷ s) (ltb b 0xe0) _ _ (read_two-Consumes b s) (
          Consumes-if (b ∷ s) (ltb b 0xf0) _ _ (read_three-Consumes b s) (
            Consumes-if (b ∷ s) (ltb b 0xf8) _ _ (read_four-Consumes b s) (
              Consumes-if (b ∷ s) (ltb b 0xfc) _ _ (read_five-Consumes b s) (
                Consumes-if (b ∷ s) (ltb b 0xfe) _ _ (read_six-Consumes b s)
                  (1, (omega arith, omega arith, omega arith), refl)))))))

-- A value that a text may hold.
abbrev pub IsAllowed : ℕ → Type 0
IsAllowed c = is_forbidden_character c ≡ false

at_least-IsAllowed :
    (least c : ℕ) (s : Text) → (least ≤ c → IsAllowed c) → IsAllowed (at_least least c s).value
at_least-IsAllowed least c s h = elim (Bool-cases (ltb c least)) [
  | inl low ↦ rw low refl
  | inr high ↦ rw high (h (ground (arith, high)))
]

above : (c : ℕ) → 0x10000 ≤ c → IsAllowed c
above c h = ground arith

below : (c : ℕ) → c < 0xd800 → IsAllowed c
below c h = ground arith

IsAllowed-if :
    (c : Bool) (r r' : Read)
    → IsAllowed r.value
    → IsAllowed r'.value
    → IsAllowed (if c then r else r').value
IsAllowed-if true r r' h k = h
IsAllowed-if false r r' h k = k

read_two-IsAllowed : (b : ℕ) (s : Text) → IsAllowed (read_two b s).value
unfolding read_two
read_two-IsAllowed b [] = refl
read_two-IsAllowed b (p1 ∷ s) = IsAllowed-if (not (continues p1)) _ _ refl (
    at_least-IsAllowed 0x80 (two_bytes b p1) s
      (λ h. below (two_bytes b p1) (omega (arith, two_bytes-eq b p1))))

checked_three-IsAllowed : (c : ℕ) (s : Text) → IsAllowed (checked_three c s).value
checked_three-IsAllowed c s = elim (Bool-cases (is_forbidden_character c)) [
  | inl bad ↦ rw bad refl
  | inr good ↦ rw good (at_least-IsAllowed 0x800 c s (λ h. good))
]

read_three-IsAllowed : (b : ℕ) (s : Text) → IsAllowed (read_three b s).value
unfolding read_three
read_three-IsAllowed b [] = refl
read_three-IsAllowed b (p1 ∷ []) = refl
read_three-IsAllowed b (p1 ∷ p2 ∷ s) =
    IsAllowed-if (not (continues p1)) _ _ refl
      (IsAllowed-if (not (continues p2)) _ _ refl (checked_three-IsAllowed (three_bytes b p1 p2) s))

read_four-IsAllowed : (b : ℕ) (s : Text) → IsAllowed (read_four b s).value
unfolding read_four
read_four-IsAllowed b [] = refl
read_four-IsAllowed b (p1 ∷ []) = refl
read_four-IsAllowed b (p1 ∷ p2 ∷ []) = refl
read_four-IsAllowed b (p1 ∷ p2 ∷ p3 ∷ s) = IsAllowed-if (not (continues p1)) _ _ refl (
    IsAllowed-if (not (continues p2)) _ _ refl (
      IsAllowed-if (not (continues p3)) _ _ refl (
        at_least-IsAllowed 0x10000 (four_bytes b p1 p2 p3) s
          (λ h. above (four_bytes b p1 p2 p3) (omega arith)))))

read_five-IsAllowed : (b : ℕ) (s : Text) → IsAllowed (read_five b s).value
unfolding read_five
read_five-IsAllowed b [] = refl
read_five-IsAllowed b (p1 ∷ []) = refl
read_five-IsAllowed b (p1 ∷ p2 ∷ []) = refl
read_five-IsAllowed b (p1 ∷ p2 ∷ p3 ∷ []) = refl
read_five-IsAllowed b (p1 ∷ p2 ∷ p3 ∷ p4 ∷ s) = IsAllowed-if (not (continues p1)) _ _ refl (
    IsAllowed-if (not (continues p2)) _ _ refl (
      IsAllowed-if (not (continues p3)) _ _ refl (
        IsAllowed-if (not (continues p4)) _ _ refl (
          at_least-IsAllowed 0x200000 (five_bytes b p1 p2 p3 p4) s
            (λ h. above (five_bytes b p1 p2 p3 p4) (omega arith))))))

read_six-IsAllowed : (b : ℕ) (s : Text) → IsAllowed (read_six b s).value
unfolding read_six
read_six-IsAllowed b [] = refl
read_six-IsAllowed b (p1 ∷ []) = refl
read_six-IsAllowed b (p1 ∷ p2 ∷ []) = refl
read_six-IsAllowed b (p1 ∷ p2 ∷ p3 ∷ []) = refl
read_six-IsAllowed b (p1 ∷ p2 ∷ p3 ∷ p4 ∷ []) = refl
read_six-IsAllowed b (p1 ∷ p2 ∷ p3 ∷ p4 ∷ p5 ∷ s) = IsAllowed-if (not (continues p1)) _ _ refl (
    IsAllowed-if (not (continues p2)) _ _ refl (
      IsAllowed-if (not (continues p3)) _ _ refl (
        IsAllowed-if (not (continues p4)) _ _ refl (
          IsAllowed-if (not (continues p5)) _ _ refl (
            at_least-IsAllowed 0x4000000 (six_bytes b p1 p2 p3 p4 p5) s
              (λ h. above (six_bytes b p1 p2 p3 p4 p5) (omega arith)))))))

-- No read gives a surrogate, a noncharacter, 0xfffe or 0xffff, whatever the bytes are.
pub get_utf8-IsAllowed : (s : Text) → IsAllowed (get_utf8 s)
unfolding read_utf8
get_utf8-IsAllowed [] = refl
get_utf8-IsAllowed (b ∷ s) = elim (Bool-cases (ltb b 0x80)) [
  | inl low ↦ rw (low, get_utf8) (below b (ground (arith, low)))
  | inr high ↦
      rw (high, get_utf8)
        (IsAllowed-if (ltb b 0xc0) _ _ refl (
          IsAllowed-if (ltb b 0xe0) _ _ (read_two-IsAllowed b s) (
            IsAllowed-if (ltb b 0xf0) _ _ (read_three-IsAllowed b s) (
              IsAllowed-if (ltb b 0xf8) _ _ (read_four-IsAllowed b s) (
                IsAllowed-if (ltb b 0xfc) _ _ (read_five-IsAllowed b s)
                  (IsAllowed-if (ltb b 0xfe) _ _ (read_six-IsAllowed b s) refl))))))
]
