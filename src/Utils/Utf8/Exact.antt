-- ===== src/Utils/Utf8/Exact.antt =====
-- src/utils/Utf8.cpp: what is not read as the replacement character is what would be written.
use search_engines.Utils.Utf8.Written.{
  two-written, three-written, four-written, five-written, six-written,
}
use search_engines.Base.{
  if◌then◌else◌, ℕ, ◌≤◌, ◌<◌, ◌≡◌, refl, ◌⊎◌, ◌++◌, [], ◌∷◌, Text, Bool, All, not, true, false, inl,
  ltb, inr, ◌/◌, ap, arith, sym,
}
use search_engines.Utils.Utf8.{
  Read, write_utf8, at_least, get_utf8, read_five, read_four, read_six, read_three, read_two,
  read_utf8, replacement_character, continues, five_bytes, four_bytes, is_forbidden_character,
  six_bytes, two_bytes, three_bytes,
}
use search_engines.Utils.Utf8.Safe.{IsAllowed, get_utf8-IsAllowed}
use search_engines.Utils.Utf8.Fields.{
  five_bytes-eq, four_bytes-eq, six_bytes-eq, two_bytes-eq, continues_iff, three_bytes-eq,
}
use search_engines.Utils.Utf8.RoundTrip.{write_one}

abbrev pub IsByte : ℕ → Type 0
IsByte b = b < 256

-- The read gives the replacement character, or a value that is written as the bytes that it went
-- past.
abbrev pub IsExact : Text → Read → Type 0
IsExact s r = (r.value ≡ replacement_character) ⊎ (s ≡ write_utf8 6 r.value ++ r.rest)

IsExact-if :
    (s : Text) (c : Bool) (r r' : Read)
    → (c ≡ true → IsExact s r)
    → (c ≡ false → IsExact s r')
    → IsExact s (if c then r else r')
IsExact-if s true r r' h k = h refl
IsExact-if s false r r' h k = k refl

IsExact-at_least :
    (s : Text) (least c : ℕ) (rest : Text)
    → (least ≤ c → s ≡ write_utf8 6 c ++ rest)
    → IsExact s (at_least least c rest)
IsExact-at_least s least c rest h =
    IsExact-if s (ltb c least) _ _ (λ low. inl refl) (λ high. inr (h (ground (arith, high))))

-- A byte that is not refused is a continuation byte.
continued : (p : ℕ) → IsByte p → not (continues p) ≡ false → p / 64 ≡ 2
continued p h e = ground (arith, e, continues_iff p h)

read_two-IsExact :
    (b : ℕ) (s : Text) → 192 ≤ b → b < 224 → All IsByte s → IsExact (b ∷ s) (read_two b s)
unfolding read_two
read_two-IsExact b [] from below h = inl refl
read_two-IsExact b (p ∷ s) from below (hp, hs) =
    IsExact-if (b ∷ p ∷ s) (not (continues p)) _ _ (λ bad. inl refl)
      (λ cp. IsExact-at_least (b ∷ p ∷ s) 128 (two_bytes b p) s (λ low.
        two-written b p (two_bytes b p) s (two_bytes-eq b p) from below (continued p hp cp) low))

read_three-IsExact :
    (b : ℕ) (s : Text) → 224 ≤ b → b < 240 → All IsByte s → IsExact (b ∷ s) (read_three b s)
unfolding read_three
read_three-IsExact b [] from below h = inl refl
read_three-IsExact b (p ∷ []) from below h = inl refl
read_three-IsExact b (p ∷ q ∷ s) from below (hp, (hq, hs)) =
    IsExact-if (b ∷ p ∷ q ∷ s) (not (continues p)) _ _ (λ bad. inl refl)
      (λ cp.
        IsExact-if (b ∷ p ∷ q ∷ s) (not (continues q)) _ _ (λ bad. inl refl)
          (λ cq.
            IsExact-if (b ∷ p ∷ q ∷ s) (is_forbidden_character (three_bytes b p q)) _ _
              (λ bad. inl refl)
              (λ good. IsExact-at_least (b ∷ p ∷ q ∷ s) 2048 (three_bytes b p q) s (λ low.
                three-written b p q (three_bytes b p q) s (three_bytes-eq b p q) from below
                  (continued p hp cp) (continued q hq cq) low))))

read_four-IsExact :
    (b : ℕ) (s : Text) → 240 ≤ b → b < 248 → All IsByte s → IsExact (b ∷ s) (read_four b s)
unfolding read_four
read_four-IsExact b [] from below h = inl refl
read_four-IsExact b (p ∷ []) from below h = inl refl
read_four-IsExact b (p ∷ q ∷ []) from below h = inl refl
read_four-IsExact b (p ∷ q ∷ r ∷ s) from below (hp, (hq, (hr, hs))) =
    IsExact-if (b ∷ p ∷ q ∷ r ∷ s) (not (continues p)) _ _ (λ bad. inl refl)
      (λ cp.
        IsExact-if (b ∷ p ∷ q ∷ r ∷ s) (not (continues q)) _ _ (λ bad. inl refl)
          (λ cq.
            IsExact-if (b ∷ p ∷ q ∷ r ∷ s) (not (continues r)) _ _ (λ bad. inl refl)
              (λ cr. IsExact-at_least (b ∷ p ∷ q ∷ r ∷ s) 65536 (four_bytes b p q r) s (λ low.
                four-written b p q r (four_bytes b p q r) s (four_bytes-eq b p q r) from below
                  (continued p hp cp) (continued q hq cq) (continued r hr cr) low))))

read_five-IsExact :
    (b : ℕ) (s : Text) → 248 ≤ b → b < 252 → All IsByte s → IsExact (b ∷ s) (read_five b s)
unfolding read_five
read_five-IsExact b [] from below h = inl refl
read_five-IsExact b (p ∷ []) from below h = inl refl
read_five-IsExact b (p ∷ q ∷ []) from below h = inl refl
read_five-IsExact b (p ∷ q ∷ r ∷ []) from below h = inl refl
read_five-IsExact b (p ∷ q ∷ r ∷ t ∷ s) from below (hp, (hq, (hr, (ht, hs)))) =
    IsExact-if (b ∷ p ∷ q ∷ r ∷ t ∷ s) (not (continues p)) _ _ (λ bad. inl refl)
      (λ cp.
        IsExact-if (b ∷ p ∷ q ∷ r ∷ t ∷ s) (not (continues q)) _ _ (λ bad. inl refl)
          (λ cq.
            IsExact-if (b ∷ p ∷ q ∷ r ∷ t ∷ s) (not (continues r)) _ _ (λ bad. inl refl)
              (λ cr.
                IsExact-if (b ∷ p ∷ q ∷ r ∷ t ∷ s) (not (continues t)) _ _ (λ bad. inl refl)
                  (λ ct.
                    IsExact-at_least (b ∷ p ∷ q ∷ r ∷ t ∷ s) 2097152 (five_bytes b p q r t) s
                      (λ low.
                        five-written b p q r t (five_bytes b p q r t) s (five_bytes-eq b p q r t)
                          from below (continued p hp cp) (continued q hq cq) (continued r hr cr)
                          (continued t ht ct) low)))))

read_six-IsExact :
    (b : ℕ) (s : Text) → 252 ≤ b → b < 254 → All IsByte s → IsExact (b ∷ s) (read_six b s)
unfolding read_six
read_six-IsExact b [] from below h = inl refl
read_six-IsExact b (p ∷ []) from below h = inl refl
read_six-IsExact b (p ∷ q ∷ []) from below h = inl refl
read_six-IsExact b (p ∷ q ∷ r ∷ []) from below h = inl refl
read_six-IsExact b (p ∷ q ∷ r ∷ t ∷ []) from below h = inl refl
read_six-IsExact b (p ∷ q ∷ r ∷ t ∷ u ∷ s) from below (hp, (hq, (hr, (ht, (hu, hs))))) =
    IsExact-if (b ∷ p ∷ q ∷ r ∷ t ∷ u ∷ s) (not (continues p)) _ _ (λ bad. inl refl)
      (λ cp.
        IsExact-if (b ∷ p ∷ q ∷ r ∷ t ∷ u ∷ s) (not (continues q)) _ _ (λ bad. inl refl)
          (λ cq.
            IsExact-if (b ∷ p ∷ q ∷ r ∷ t ∷ u ∷ s) (not (continues r)) _ _ (λ bad. inl refl)
              (λ cr.
                IsExact-if (b ∷ p ∷ q ∷ r ∷ t ∷ u ∷ s) (not (continues t)) _ _ (λ bad. inl refl)
                  (λ ct.
                    IsExact-if (b ∷ p ∷ q ∷ r ∷ t ∷ u ∷ s) (not (continues u)) _ _ (λ bad. inl refl)
                      (λ cu.
                        IsExact-at_least (b ∷ p ∷ q ∷ r ∷ t ∷ u ∷ s) 67108864
                          (six_bytes b p q r t u) s
                          (λ low.
                            six-written b p q r t u (six_bytes b p q r t u) s
                              (six_bytes-eq b p q r t u) from below (continued p hp cp)
                              (continued q hq cq) (continued r hr cr) (continued t ht ct)
                              (continued u hu cu) low))))))

read_utf8-IsExact : (b : ℕ) (s : Text) → All IsByte s → IsExact (b ∷ s) (read_utf8 (b ∷ s))
unfolding read_utf8
read_utf8-IsExact b s h =
    IsExact-if (b ∷ s) (ltb b 0x80) _ _
      (λ low. inr (ap (λ w. w ++ s) (sym (write_one 6 b (omega arith) (ground (arith, low))))))
      (λ h1.
        IsExact-if (b ∷ s) (ltb b 0xc0) _ _ (λ low. inl refl)
          (λ h2.
            IsExact-if (b ∷ s) (ltb b 0xe0) _ _
              (λ low. read_two-IsExact b s (ground (arith, h2)) (ground (arith, low)) h)
              (λ h3.
                IsExact-if (b ∷ s) (ltb b 0xf0) _ _
                  (λ low. read_three-IsExact b s (ground (arith, h3)) (ground (arith, low)) h)
                  (λ h4.
                    IsExact-if (b ∷ s) (ltb b 0xf8) _ _
                      (λ low. read_four-IsExact b s (ground (arith, h4)) (ground (arith, low)) h)
                      (λ h5.
                        IsExact-if (b ∷ s) (ltb b 0xfc) _ _
                          (λ low.
                            read_five-IsExact b s (ground (arith, h5)) (ground (arith, low)) h)
                          (λ h6.
                            IsExact-if (b ∷ s) (ltb b 0xfe) _ _
                              (λ low.
                                read_six-IsExact b s (ground (arith, h6)) (ground (arith, low)) h)
                              (λ h7. inl refl)))))))

-- No read gives a surrogate, a noncharacter, 0xfffe or 0xffff. What is read from bytes is the
-- replacement character, or a value that is written as just the bytes that the read went past: no
-- malformed and no overlong sequence is read as another character.
pub read_utf8-IsAllowed :
    (b : ℕ) (s : Text)
    → All IsByte s
    → IsAllowed (get_utf8 (b ∷ s)) × IsExact (b ∷ s) (read_utf8 (b ∷ s))
read_utf8-IsAllowed b s h = (get_utf8-IsAllowed (b ∷ s), read_utf8-IsExact b s h)
