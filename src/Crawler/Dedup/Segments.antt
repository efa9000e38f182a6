-- ===== src/Crawler/Dedup/Segments.antt =====
-- src/crawler/url_dedup.cpp: a path without dot segments.
use search_engines.Base.{
  false, ◌≡◌, refl, ◌==◌, List, [], ◌∷◌, ◌++◌, Text, slash, All, ap, ap₂, ◌∙◌, sym, Bool-cases, inl,
  inr, codes, equal, append-nil, All-append, ◌&&◌, not,
}
use search_engines.Crawler.Bloom.{is_empty}
use search_engines.Crawler.Dedup.{
  add_piece, pieces_of, pop_back, push_piece, remove_dot_segments, resolve, split_pieces, join,
  ends_in_slash,
}

-- No character is a slash.
abbrev pub IsSlashless : Text → Type 0
IsSlashless w = All (λ c. (c == slash) ≡ false) w

-- A piece between slashes.
abbrev IsPiece : Text → Type 0
IsPiece w = (is_empty w ≡ false) × IsSlashless w

-- A piece that stands for itself: neither "." nor "..".
abbrev pub IsPlain : Text → Type 0
IsPlain w =
    (is_empty w ≡ false)
    × IsSlashless w
    × (equal w (codes ".") ≡ false)
    × (equal w (codes "..") ≡ false)

push_piece-All :
    (w : Text) (ws : List Text) → IsSlashless w → All IsPiece ws → All IsPiece (push_piece w ws)
push_piece-All [] ws h k = k
push_piece-All (c ∷ w) ws h k = ((refl, h), k)

split_pieces-IsPiece : (s : Text) → IsSlashless (split_pieces s).0 × All IsPiece (split_pieces s).1
split_pieces-IsPiece [] = (tt, tt)
split_pieces-IsPiece (c ∷ s) =
    let rest = split_pieces-IsPiece s in
    elim (Bool-cases (c == slash)) [
      | inl here ↦ rw here (tt, push_piece-All (split_pieces s).0 (split_pieces s).1 rest.0 rest.1)
      | inr other ↦ rw other ((other, rest.0), rest.1)
    ]

pop_back-All : (P : Text → Type 0) (ws : List Text) → All P ws → All P (pop_back ws)
pop_back-All P [] h = tt
pop_back-All P (w ∷ []) h = tt
pop_back-All P (w ∷ v ∷ ws) (h, hs) = (h, pop_back-All P (v ∷ ws) hs)

add_piece-IsPlain :
    (ws : List Text) (w : Text) → All IsPlain ws → IsPiece w → All IsPlain (add_piece ws w)
add_piece-IsPlain ws w h (full, slashless) = elim (Bool-cases (equal w (codes "."))) [
  | inl one ↦ rw one h
  | inr not_one ↦ elim (Bool-cases (equal w (codes ".."))) [
    | inl two ↦ rw (not_one, two) (pop_back-All IsPlain ws h)
    | inr not_two ↦
        rw (not_one, not_two)
          (All-append IsPlain ws (w ∷ []) h ((full, slashless, not_one, not_two), tt))
  ]
]

resolve-IsPlain :
    (segments pieces : List Text)
    → All IsPlain segments
    → All IsPiece pieces
    → All IsPlain (resolve segments pieces)
unfolding resolve
resolve-IsPlain segments [] h k = h
resolve-IsPlain segments (w ∷ ws) h (k, ks) =
    resolve-IsPlain (add_piece segments w) ws (add_piece-IsPlain segments w h k) ks

split_pieces-append :
    (w t : Text)
    → IsSlashless w
    → split_pieces (w ++ t) ≡ (w ++ (split_pieces t).0, (split_pieces t).1)
split_pieces-append [] t h = refl
split_pieces-append (c ∷ w) t (h, hs) = rw (h, split_pieces-append w t hs) refl

pieces_of-join : (ws : List Text) → All IsPlain ws → pieces_of (join ws) ≡ ws
pieces_of-join [] h = refl
pieces_of-join ((c ∷ w) ∷ []) ((full, slashless, one, two), hs) =
    ap (λ x. push_piece x.0 x.1)
      (ap split_pieces (sym (append-nil (c ∷ w))) ∙ split_pieces-append (c ∷ w) [] slashless)
    ∙ ap (λ x. x ∷ []) (append-nil (c ∷ w))
pieces_of-join ((c ∷ w) ∷ v ∷ ws) ((full, slashless, one, two), hs) =
    ap (λ x. push_piece x.0 x.1) (split_pieces-append (c ∷ w) (slash ∷ join (v ∷ ws)) slashless)
    ∙ ap₂ (λ x xs. x ∷ xs) (append-nil (c ∷ w)) (pieces_of-join (v ∷ ws) hs)
pieces_of-join ([] ∷ ws) ((full, slashless, one, two), hs) = cc

split_pieces-slash : (s : Text) → split_pieces (s ++ slash ∷ []) ≡ split_pieces s
split_pieces-slash [] = refl
split_pieces-slash (c ∷ s) = rw (split_pieces-slash s) refl

-- Resolving a path gives a path that begins with a slash and whose pieces between slashes are those
-- that `resolve` keeps; none of them is "." or "..".
pub pieces_of-remove_dot_segments :
    (path : Text)
    → ((rest : Text) × (remove_dot_segments path ≡ slash ∷ rest))
      × (pieces_of (remove_dot_segments path) ≡ resolve [] (pieces_of path))
      × All IsPlain (resolve [] (pieces_of path))
unfolding remove_dot_segments
pieces_of-remove_dot_segments path =
    let plain = resolve-IsPlain [] (pieces_of path) tt (
      push_piece-All (split_pieces path).0 (split_pieces path).1 (split_pieces-IsPiece path).0
        (split_pieces-IsPiece path).1) in
    let kept = resolve [] (pieces_of path) in
    let normalized = slash ∷ join kept in
    (
      elim (Bool-cases (ends_in_slash path && not (ends_in_slash normalized))) [
        | inl more ↦ rw more (join kept ++ slash ∷ [], refl)
        | inr done ↦ rw done (join kept, refl)
      ],
      elim (Bool-cases (ends_in_slash path && not (ends_in_slash normalized))) [
        | inl more ↦ rw more (
            ap (λ x. push_piece x.0 x.1) (split_pieces-slash normalized)
            ∙ pieces_of-join kept plain)
        | inr done ↦ rw done (pieces_of-join kept plain)
      ],
      plain,
    )
