-- ===== src/Utils/Utf8/Back.antt =====
-- src/utils/Utf8.cpp: stepping backward over a sequence.
use search_engines.Base.{
  ℕ, ◌+◌, ◌≤◌, ◌<◌, ◌/◌, true, false, ◌≡◌, refl, arith, [], ◌∷◌, Text, length, ap, ◌++◌, dec_le,
  All, get_or, suc, zero, ◌∙◌, ◌-◌,
}
use search_engines.Utils.Utf8.{continues, previous_utf8, scan_back, size_of_utf8, write_utf8}
use search_engines.Utils.Utf8.Fields.{continues_iff, trail-continues}
use search_engines.Utils.Utf8.RoundTrip.{
  write_one, write_two, write_three, write_four, write_five, write_six,
}

previous_utf8-eq : (s : Text) (p : ℕ) → previous_utf8 s p ≡ scan_back s p
unfolding previous_utf8 scan_back
previous_utf8-eq s zero = refl
previous_utf8-eq s (suc p) = ground arith

-- Going back over `k` continuation bytes to the byte at `p`.
scan_back-over :
    (s : Text) (p k : ℕ)
    → continues (get_or s p 0) ≡ false
    → ((i : ℕ) → i < k → continues (get_or s (suc (p + i)) 0) ≡ true)
    → scan_back s (suc (p + k)) ≡ p
unfolding scan_back
scan_back-over s p zero first more = let e : p + 0 ≡ p = omega arith in rw (e, first) refl
scan_back-over s p (suc k) first more =
    let e : p + suc k ≡ suc (p + k) = omega arith in
    rw (e, more k (omega arith)) (scan_back-over s p k first (λ i h. more i (omega arith)))

get_or-append : (pre s : Text) (i : ℕ) → get_or (pre ++ s) (length pre + i) 0 ≡ get_or s i 0
get_or-append [] s i = let e : 0 + i ≡ i = omega arith in ap (λ j. get_or s j 0) e
get_or-append (a ∷ pre) s i =
    let e : suc (length pre) + i ≡ suc (length pre + i) = omega arith in
    ap (λ j. get_or (a ∷ pre ++ s) j 0) e ∙ get_or-append pre s i

get_or-append_length : (pre s : Text) → get_or (pre ++ s) (length pre) 0 ≡ get_or s 0 0
get_or-append_length pre s =
    let e : length pre ≡ length pre + 0 = omega arith in
    ap (λ j. get_or (pre ++ s) j 0) e ∙ get_or-append pre s 0

get_or-All :
    (ts rest : Text) (i : ℕ)
    → All (λ b. continues b ≡ true) ts
    → i < length ts
    → continues (get_or (ts ++ rest) i 0) ≡ true
get_or-All [] rest i h k = absurd (omega arith)
get_or-All (t ∷ ts) rest zero h k = h.0
get_or-All (t ∷ ts) rest (suc i) h k = get_or-All ts rest i h.1 (omega arith)

-- A byte that is not a continuation byte, with `n` continuation bytes behind it.
abbrev IsSequence : ℕ → Text → Type 0
IsSequence n [] = ⊥
IsSequence n (b ∷ ts) = (continues b ≡ false) × All (λ b. continues b ≡ true) ts × (n ≡ length ts)

previous_utf8-over :
    (pre w rest : Text) (n : ℕ)
    → IsSequence n w
    → previous_utf8 (pre ++ (w ++ rest)) (suc (length pre + n)) ≡ length pre
previous_utf8-over pre [] rest n h = absurd h
previous_utf8-over pre (b ∷ ts) rest n (first, more, e) =
    previous_utf8-eq (pre ++ ((b ∷ ts) ++ rest)) (suc (length pre + n))
    ∙ scan_back-over (pre ++ ((b ∷ ts) ++ rest)) (length pre) n
        (ap continues (get_or-append_length pre ((b ∷ ts) ++ rest)) ∙ first)
        (λ i h.
          let shift : suc (length pre + i) ≡ length pre + suc i = omega arith in
          rw shift (
            ap continues (get_or-append pre ((b ∷ ts) ++ rest) (suc i))
            ∙ get_or-All ts rest i more (omega arith)))

first_byte : (b : ℕ) → b < 256 → 192 ≤ b → continues b ≡ false
first_byte b h k = ground (arith, continues_iff b h)

ascii_byte : (b : ℕ) → b < 128 → continues b ≡ false
ascii_byte b h = ground (arith, continues_iff b (omega arith))

write_utf8-IsSequence :
    (room c : ℕ) → 6 ≤ room → c ≤ 0x7fffffff → IsSequence (size_of_utf8 c - 1) (write_utf8 room c)
write_utf8-IsSequence room c h k = elim (dec_le c 0x7f) [
  | yes one ↦ rw (write_one room c h one) (ascii_byte c (omega arith), tt, ground arith)
  | no n1 ↦ elim (dec_le c 0x7ff) [
    | yes two ↦ rw (write_two room c h (omega arith) two) (
      first_byte (192 + c / 64) (omega arith) (omega arith),
      (trail-continues 0 c, tt),
      ground arith,
    )
    | no n2 ↦ elim (dec_le c 0xffff) [
      | yes three ↦ rw (write_three room c h (omega arith) three) (
        first_byte (224 + c / 4096) (omega arith) (omega arith),
        (trail-continues 6 c, (trail-continues 0 c, tt)),
        ground arith,
      )
      | no n3 ↦ elim (dec_le c 0x1fffff) [
        | yes four ↦ rw (write_four room c h (omega arith) four) (
          first_byte (240 + c / 262144) (omega arith) (omega arith),
          (trail-continues 12 c, (trail-continues 6 c, (trail-continues 0 c, tt))),
          ground arith,
        )
        | no n4 ↦ elim (dec_le c 0x3ffffff) [
          | yes five ↦ rw (write_five room c h (omega arith) five) (
            first_byte (248 + c / 16777216) (omega arith) (omega arith),
            (
              trail-continues 18 c,
              (trail-continues 12 c, (trail-continues 6 c, (trail-continues 0 c, tt))),
            ),
            ground arith,
          )
          | no n5 ↦ rw (write_six room c h (omega arith) k) (
            first_byte (252 + c / 1073741824) (omega arith) (omega arith),
            (
              trail-continues 24 c,
              (
                trail-continues 18 c,
                (trail-continues 12 c, (trail-continues 6 c, (trail-continues 0 c, tt))),
              ),
            ),
            ground arith,
          )
        ]
      ]
    ]
  ]
]

-- Stepping back from just behind the bytes written for `c` lands on the first of them, whatever
-- stands before and after, for every `c` of at most 31 bits where at least six bytes had room.
pub previous_utf8-write_utf8 :
    (before after : Text) (room c : ℕ)
    → 6 ≤ room
    → c ≤ 0x7fffffff
    → previous_utf8 (before ++ (write_utf8 room c ++ after)) (length before + size_of_utf8 c)
      ≡ length before
previous_utf8-write_utf8 before after room c h k =
    ap (previous_utf8 (before ++ (write_utf8 room c ++ after))) (ground arith)
    ∙ previous_utf8-over before (write_utf8 room c) after (size_of_utf8 c - 1)
        (write_utf8-IsSequence room c h k)
