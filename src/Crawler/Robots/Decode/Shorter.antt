-- ===== src/Crawler/Robots/Decode/Shorter.antt =====
-- src/crawler/RobotsTxt.cpp: UrlDecode never writes past its buffer.
use search_engines.Base.{
  ◌≤◌, arith, [], ◌∷◌, Text, length, Bool-cases, inl, inr, Option-cases, percent, ◌==◌,
}
use search_engines.Crawler.Robots.Decode.{url_decode, decoded}

-- `UrlDecode` can only shorten a text or leave its length: its buffer is large enough.
pub length-url_decode : (s : Text) → length (url_decode s) ≤ length s
unfolding url_decode
length-url_decode [] = omega arith
length-url_decode (c ∷ []) = ground arith
length-url_decode (c ∷ a ∷ []) = ground (arith, length-url_decode (a ∷ []))
length-url_decode (c ∷ a ∷ b ∷ s) = elim (Bool-cases (c == percent)) [
  | inl escape ↦ elim (Option-cases (decoded a b)) [
    | inl literal ↦ rw (escape, literal, url_decode) (omega (arith, length-url_decode (a ∷ b ∷ s)))
    | inr (hex, code) ↦ rw (escape, code, url_decode) (omega (arith, length-url_decode s))
  ]
  | inr plain ↦ rw (plain, url_decode) (omega (arith, length-url_decode (a ∷ b ∷ s)))
]
