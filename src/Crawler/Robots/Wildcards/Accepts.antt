-- ===== src/Crawler/Robots/Wildcards/Accepts.antt =====
-- What a wildcard of src/crawler/RobotsTxt.cpp is meant to accept, read off its characters: a star
-- stands for any text, the end of a wildcard without a dollar sign for any rest.
use search_engines.Base.{
  ℕ, ◌+◌, ◌≤◌, Bool, true, false, not, ◌&&◌, ◌||◌, if◌then◌else◌, ◌==◌, [], ◌∷◌, ◌++◌, Text, length,
  suc, zero, star, drop, ◌≡◌, refl, arith, Bool-cases, inl, inr, ap, ◌∙◌, ap₂, drop-append_length,
  sym, ==_iff, ◌-◌, length-append, length-drop, subst,
}
use search_engines.Crawler.Robots.Wildcards.{is_end, skip_stars}

-- Some suffix passes the test.
abbrev pub any_suffix : (Text → Bool) → Text → Bool
any_suffix test [] = test []
any_suffix test (c ∷ s) = test (c ∷ s) || any_suffix test s

abbrev pub accepts : Bool → Text → Text → Bool
accepts ends [] p = not ends || is_end p
accepts ends (x ∷ w) [] = (x == star) && accepts ends w []
accepts ends (x ∷ w) (c ∷ p) =
    if x == star then any_suffix (accepts ends w) (c ∷ p) else (x == c) && accepts ends w p

pub any_suffix_at :
    (test : Text → Bool) (n : ℕ) (s : Text)
    → n ≤ length s
    → test (drop n s) ≡ true
    → any_suffix test s ≡ true
any_suffix_at test zero [] h k = k
any_suffix_at test zero (c ∷ s) h k = ground (arith, k)
any_suffix_at test (suc n) [] h k = absurd (omega arith)
any_suffix_at test (suc n) (c ∷ s) h k =
    let rest = any_suffix_at test n s (omega arith) k in ground (arith, rest)

pub any_suffix_found :
    (test : Text → Bool) (s : Text)
    → any_suffix test s ≡ true
    → (n : ℕ) × (n ≤ length s) × (test (drop n s) ≡ true)
any_suffix_found test [] h = (0, omega arith, h)
any_suffix_found test (c ∷ s) h = elim (Bool-cases (test (c ∷ s))) [
  | inl here ↦ (0, omega arith, here)
  | inr there ↦
      let more = any_suffix_found test s (rw there at h) in (suc more.0, omega arith, more.2)
]

-- A text without a star.
abbrev pub IsLiteral : Text → Type 0
IsLiteral [] = Unit {0}
IsLiteral (c ∷ x) = ((c == star) ≡ false) × IsLiteral x

-- A literal prefix of a wildcard is the prefix of the path.
pub accepts-literal :
    (ends : Bool) (x w t : Text)
    → IsLiteral x
    → accepts ends (x ++ w) t ≡ true
    → (u : Text) × (t ≡ x ++ u) × (accepts ends w u ≡ true)
accepts-literal ends [] w t h k = (t, refl, k)
accepts-literal ends (c ∷ x) w [] (h, hs) k = cc (rw h at k)
accepts-literal ends (c ∷ x) w (d ∷ t) (h, hs) k = elim (Bool-cases (c == d)) [
  | inl same ↦
      let more = accepts-literal ends x w t hs (rw (h, same) at k) in
      (more.0, ap₂ (λ a s. a ∷ s) (sym ((==_iff c d).0 same)) more.1, more.2)
  | inr other ↦ cc (rw (h, other) at k)
]

drop-prefix : (x s : Text) (n : ℕ) → drop (length x + n) (x ++ s) ≡ drop n s
drop-prefix [] s n = let e : 0 + n ≡ n = omega arith in rw e refl
drop-prefix (c ∷ x) s n =
    let e : suc (length x) + n ≡ suc (length x + n) = omega arith in rw e (drop-prefix x s n)

pub drop-nil : (n : ℕ) → drop {A = ℕ} n [] ≡ []
drop-nil zero = refl
drop-nil (suc n) = refl

drop-drop : (m n : ℕ) (s : Text) → drop m (drop n s) ≡ drop (n + m) s
drop-drop m zero s = let e : 0 + m ≡ m = omega arith in rw e refl
drop-drop m (suc n) [] = drop-nil m ∙ sym (drop-nil (suc n + m))
drop-drop m (suc n) (c ∷ s) =
    let e : suc n + m ≡ suc (n + m) = omega arith in rw e (drop-drop m n s)

-- Where an earlier star would still succeed, so does one that stands behind the literal text `x`
-- and begins at `p`.
pub any_suffix-absorb :
    (ends : Bool) (x w p t : Text) (n : ℕ)
    → IsLiteral x
    → t ≡ drop n (x ++ p)
    → n ≤ length (x ++ p)
    → accepts ends (x ++ w) t ≡ true
    → (m : ℕ) × (m ≤ length p) × (accepts ends w (drop m p) ≡ true)
any_suffix-absorb ends x w p t n h e k a =
    let got = accepts-literal ends x w t h a in
    let whole : drop (length x) t ≡ got.0 =
      ap (drop (length x)) got.1 ∙ drop-append_length x got.0 in
    let swap : n + length x ≡ length x + n = omega arith in
    let same : drop (length x) t ≡ drop n p =
      ap (drop (length x)) e
      ∙ drop-drop (length x) n (x ++ p)
      ∙ ap (λ (k : ℕ). drop k (x ++ p)) swap
      ∙ drop-prefix x p n in
    let sizes : length x + length got.0 ≡ length x + length p - n =
      sym (length-append x got.0)
      ∙ ap length (sym got.1 ∙ e)
      ∙ length-drop n (x ++ p)
      ∙ ap (λ (k : ℕ). k - n) (length-append x p) in
    let room : n ≤ length x + length p = omega (arith, length-append x p) in
    (n, omega arith, subst (λ u. accepts ends w u ≡ true) (sym whole ∙ same) got.2)

any_suffix-ext :
    (f g : Text → Bool) (s : Text) → ((t : Text) → f t ≡ g t) → any_suffix f s ≡ any_suffix g s
any_suffix-ext f g [] h = h []
any_suffix-ext f g (c ∷ s) h = ap₂ (λ a b. a || b) (h (c ∷ s)) (any_suffix-ext f g s h)

or_again : (a b : Bool) → ((a || b) || b) ≡ (a || b)
or_again true b = refl
or_again false true = refl
or_again false false = refl

any_suffix-any_suffix : (f : Text → Bool) (s : Text) → any_suffix (any_suffix f) s ≡ any_suffix f s
any_suffix-any_suffix f [] = refl
any_suffix-any_suffix f (c ∷ s) =
    ap (λ b. (f (c ∷ s) || any_suffix f s) || b) (any_suffix-any_suffix f s)
    ∙ or_again (f (c ∷ s)) (any_suffix f s)

pub accepts-star :
    (ends : Bool) (x : ℕ) (w s : Text)
    → (x == star) ≡ true
    → accepts ends (x ∷ w) s ≡ any_suffix (accepts ends w) s
accepts-star ends x w [] h = rw h refl
accepts-star ends x w (c ∷ s) h = rw h refl

-- Several stars in a row are one.
pub any_suffix-skip_stars :
    (ends : Bool) (w s : Text)
    → any_suffix (accepts ends w) s ≡ any_suffix (accepts ends (skip_stars w)) s
any_suffix-skip_stars ends [] s = refl
any_suffix-skip_stars ends (x ∷ w) s = elim (Bool-cases (x == star)) [
  | inl h ↦
      any_suffix-ext (accepts ends (x ∷ w)) (any_suffix (accepts ends w)) s
        (λ t. accepts-star ends x w t h)
      ∙ any_suffix-any_suffix (accepts ends w) s
      ∙ any_suffix-skip_stars ends w s
      ∙ rw h refl
  | inr h ↦ rw h refl
]

pub any_suffix-later :
    (f : Text → Bool) (s : Text) (n : ℕ) → any_suffix f (drop n s) ≡ true → any_suffix f s ≡ true
any_suffix-later f s zero h = h
any_suffix-later f [] (suc n) h = h
any_suffix-later f (c ∷ s) (suc n) h = let rest = any_suffix-later f s n h in ground (arith, rest)

pub accepts-empty : (ends : Bool) (w : Text) → accepts ends w [] ≡ is_end (skip_stars w)
accepts-empty true [] = refl
accepts-empty false [] = refl
accepts-empty ends (x ∷ w) = elim (Bool-cases (x == star)) [
  | inl h ↦ rw h (accepts-empty ends w)
  | inr h ↦ rw h refl
]

pub accepts-end : (p : Text) → any_suffix (accepts false []) p ≡ true
accepts-end [] = refl
accepts-end (c ∷ p) = refl
