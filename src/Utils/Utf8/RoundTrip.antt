-- ===== src/Utils/Utf8/RoundTrip.antt =====
-- src/utils/Utf8.cpp: reading back what was written.
use search_engines.Base.{
  ℕ, ◌+◌, ◌≤◌, ◌/◌, false, ◌≡◌, refl, arith, [], ◌∷◌, Text, ◌++◌, dec_le, le→ltb,
}
use search_engines.Utils.Utf8.{
  is_forbidden_character, read_five, read_four, read_six, read_three, read_two, read_utf8,
  write_utf8, trail, five_bytes, four_bytes, six_bytes, three_bytes, two_bytes,
}
use search_engines.Utils.Utf8.Fields.{
  marked, five_bytes-eq, four_bytes-eq, six_bytes-eq, three_bytes-eq, two_bytes-eq, trail-eq,
  trail-continues,
}

pub write_one : (room c : ℕ) → 6 ≤ room → c ≤ 0x7f → write_utf8 room c ≡ c ∷ []
unfolding write_utf8
write_one room c h k = ground arith

read_utf8-one : (c : ℕ) (s : Text) → c ≤ 0x7f → read_utf8 (c ∷ s) ≡ record { value = c; rest = s }
unfolding read_utf8
read_utf8-one c s h = ground arith

read_two-trail :
    (c : ℕ) (s : Text)
    → 0x80 ≤ c
    → c ≤ 0x7ff
    → is_forbidden_character c ≡ false
    → read_two (192 + c / 64) (trail 0 c ∷ s) ≡ record { value = c; rest = s }
unfolding read_two
read_two-trail c s low high good =
    let v : two_bytes (192 + c / 64) (trail 0 c) ≡ c =
      omega (arith, two_bytes-eq (192 + c / 64) (trail 0 c), trail-eq 0 c) in
    rw (trail-continues 0 c, v) (rw (le→ltb c 0x80 low) refl)

pub write_two :
    (room c : ℕ)
    → 6 ≤ room
    → 0x80 ≤ c
    → c ≤ 0x7ff
    → write_utf8 room c ≡ (192 + c / 64) ∷ trail 0 c ∷ []
unfolding write_utf8
write_two room c h low high = ground (arith, marked 5 6 (c / 64) (omega arith) (omega arith))

read_utf8-two :
    (c : ℕ) (s : Text)
    → 0x80 ≤ c
    → c ≤ 0x7ff
    → is_forbidden_character c ≡ false
    → read_utf8 ((192 + c / 64) ∷ trail 0 c ∷ s) ≡ record { value = c; rest = s }
unfolding read_utf8
read_utf8-two c s low high good = ground (arith, read_two-trail c s low high good)

read_three-trail :
    (c : ℕ) (s : Text)
    → 0x800 ≤ c
    → c ≤ 0xffff
    → is_forbidden_character c ≡ false
    → read_three (224 + c / 4096) (trail 6 c ∷ trail 0 c ∷ s) ≡ record { value = c; rest = s }
unfolding read_three
read_three-trail c s low high good =
    let v : three_bytes (224 + c / 4096) (trail 6 c) (trail 0 c) ≡ c = omega (
      arith,
      three_bytes-eq (224 + c / 4096) (trail 6 c) (trail 0 c),
      trail-eq 6 c,
      trail-eq 0 c,
    ) in
    rw (trail-continues 6 c, trail-continues 0 c, v, good) (rw (le→ltb c 0x800 low) refl)

pub write_three :
    (room c : ℕ)
    → 6 ≤ room
    → 0x800 ≤ c
    → c ≤ 0xffff
    → write_utf8 room c ≡ (224 + c / 4096) ∷ trail 6 c ∷ trail 0 c ∷ []
unfolding write_utf8
write_three room c h low high = ground (arith, marked 4 14 (c / 4096) (omega arith) (omega arith))

read_utf8-three :
    (c : ℕ) (s : Text)
    → 0x800 ≤ c
    → c ≤ 0xffff
    → is_forbidden_character c ≡ false
    → read_utf8 ((224 + c / 4096) ∷ trail 6 c ∷ trail 0 c ∷ s) ≡ record { value = c; rest = s }
unfolding read_utf8
read_utf8-three c s low high good = ground (arith, read_three-trail c s low high good)

read_four-trail :
    (c : ℕ) (s : Text)
    → 0x10000 ≤ c
    → c ≤ 0x1fffff
    → is_forbidden_character c ≡ false
    → read_four (240 + c / 262144) (trail 12 c ∷ trail 6 c ∷ trail 0 c ∷ s)
      ≡ record { value = c; rest = s }
unfolding read_four
read_four-trail c s low high good =
    let v : four_bytes (240 + c / 262144) (trail 12 c) (trail 6 c) (trail 0 c) ≡ c = omega (
      arith,
      four_bytes-eq (240 + c / 262144) (trail 12 c) (trail 6 c) (trail 0 c),
      trail-eq 12 c,
      trail-eq 6 c,
      trail-eq 0 c,
    ) in
    rw (trail-continues 12 c, trail-continues 6 c, trail-continues 0 c, v)
      (rw (le→ltb c 0x10000 low) refl)

pub write_four :
    (room c : ℕ)
    → 6 ≤ room
    → 0x10000 ≤ c
    → c ≤ 0x1fffff
    → write_utf8 room c ≡ (240 + c / 262144) ∷ trail 12 c ∷ trail 6 c ∷ trail 0 c ∷ []
unfolding write_utf8
write_four room c h low high = ground (arith, marked 3 30 (c / 262144) (omega arith) (omega arith))

read_utf8-four :
    (c : ℕ) (s : Text)
    → 0x10000 ≤ c
    → c ≤ 0x1fffff
    → is_forbidden_character c ≡ false
    → read_utf8 ((240 + c / 262144) ∷ trail 12 c ∷ trail 6 c ∷ trail 0 c ∷ s)
      ≡ record { value = c; rest = s }
unfolding read_utf8
read_utf8-four c s low high good = ground (arith, read_four-trail c s low high good)

read_five-trail :
    (c : ℕ) (s : Text)
    → 0x200000 ≤ c
    → c ≤ 0x3ffffff
    → is_forbidden_character c ≡ false
    → read_five (248 + c / 16777216) (trail 18 c ∷ trail 12 c ∷ trail 6 c ∷ trail 0 c ∷ s)
      ≡ record { value = c; rest = s }
unfolding read_five
read_five-trail c s low high good =
    let v : five_bytes (248 + c / 16777216) (trail 18 c) (trail 12 c) (trail 6 c) (trail 0 c) ≡ c =
      omega (
        arith,
        five_bytes-eq (248 + c / 16777216) (trail 18 c) (trail 12 c) (trail 6 c) (trail 0 c),
        trail-eq 18 c,
        trail-eq 12 c,
        trail-eq 6 c,
        trail-eq 0 c,
      ) in
    rw (trail-continues 18 c, trail-continues 12 c, trail-continues 6 c, trail-continues 0 c, v)
      (rw (le→ltb c 0x200000 low) refl)

pub write_five :
    (room c : ℕ)
    → 6 ≤ room
    → 0x200000 ≤ c
    → c ≤ 0x3ffffff
    → write_utf8 room c
      ≡ (248 + c / 16777216) ∷ trail 18 c ∷ trail 12 c ∷ trail 6 c ∷ trail 0 c ∷ []
unfolding write_utf8
write_five room c h low high =
    ground (arith, marked 2 62 (c / 16777216) (omega arith) (omega arith))

read_utf8-five :
    (c : ℕ) (s : Text)
    → 0x200000 ≤ c
    → c ≤ 0x3ffffff
    → is_forbidden_character c ≡ false
    → read_utf8 ((248 + c / 16777216) ∷ trail 18 c ∷ trail 12 c ∷ trail 6 c ∷ trail 0 c ∷ s)
      ≡ record { value = c; rest = s }
unfolding read_utf8
read_utf8-five c s low high good = ground (arith, read_five-trail c s low high good)

read_six-trail :
    (c : ℕ) (s : Text)
    → 0x4000000 ≤ c
    → c ≤ 0x7fffffff
    → is_forbidden_character c ≡ false
    → read_six
        (252 + c / 1073741824)
        (trail 24 c ∷ trail 18 c ∷ trail 12 c ∷ trail 6 c ∷ trail 0 c ∷ s)
      ≡ record { value = c; rest = s }
unfolding read_six
read_six-trail c s low high good =
    let v : six_bytes (252 + c / 1073741824) (trail 24 c) (trail 18 c) (trail 12 c) (trail 6 c)
          (trail 0 c)
        ≡ c =
      omega (
        arith,
        six_bytes-eq (252 + c / 1073741824) (trail 24 c) (trail 18 c) (trail 12 c) (trail 6 c)
            (trail 0 c),
        trail-eq 24 c,
        trail-eq 18 c,
        trail-eq 12 c,
        trail-eq 6 c,
        trail-eq 0 c,
      ) in
    rw
      (
        trail-continues 24 c,
        trail-continues 18 c,
        trail-continues 12 c,
        trail-continues 6 c,
        trail-continues 0 c,
        v,
      )
      (rw (le→ltb c 0x4000000 low) refl)

pub write_six :
    (room c : ℕ)
    → 6 ≤ room
    → 0x4000000 ≤ c
    → c ≤ 0x7fffffff
    → write_utf8 room c
      ≡ (252 + c / 1073741824) ∷ trail 24 c ∷ trail 18 c ∷ trail 12 c ∷ trail 6 c ∷ trail 0 c ∷ []
unfolding write_utf8
write_six room c h low high =
    ground (arith, marked 1 126 (c / 1073741824) (omega arith) (omega arith))

read_utf8-six :
    (c : ℕ) (s : Text)
    → 0x4000000 ≤ c
    → c ≤ 0x7fffffff
    → is_forbidden_character c ≡ false
    → read_utf8
        ((252 + c / 1073741824) ∷ trail 24 c ∷ trail 18 c ∷ trail 12 c ∷ trail 6 c ∷ trail 0 c ∷ s)
      ≡ record { value = c; rest = s }
unfolding read_utf8
read_utf8-six c s low high good = ground (arith, read_six-trail c s low high good)

-- Reading a text that starts with the bytes written for `c` gives `c` back and stops right behind
-- them, for every `c` of at most 31 bits that is not a forbidden character, where at least six bytes had room.
pub read_utf8-write_utf8 :
    (room c : ℕ) (s : Text)
    → 6 ≤ room
    → c ≤ 0x7fffffff
    → is_forbidden_character c ≡ false
    → read_utf8 (write_utf8 room c ++ s) ≡ record { value = c; rest = s }
read_utf8-write_utf8 room c s h k good = elim (dec_le c 0x7f) [
  | yes one ↦ rw (write_one room c h one) (read_utf8-one c s one)
  | no n1 ↦ elim (dec_le c 0x7ff) [
    | yes two ↦ rw (write_two room c h (omega arith) two) (read_utf8-two c s (omega arith) two good)
    | no n2 ↦ elim (dec_le c 0xffff) [
      | yes three ↦
          rw (write_three room c h (omega arith) three)
            (read_utf8-three c s (omega arith) three good)
      | no n3 ↦ elim (dec_le c 0x1fffff) [
        | yes four ↦
            rw (write_four room c h (omega arith) four) (read_utf8-four c s (omega arith) four good)
        | no n4 ↦ elim (dec_le c 0x3ffffff) [
          | yes five ↦
              rw (write_five room c h (omega arith) five)
                (read_utf8-five c s (omega arith) five good)
          | no n5 ↦ rw (write_six room c h (omega arith) k) (read_utf8-six c s (omega arith) k good)
        ]
      ]
    ]
  ]
]
