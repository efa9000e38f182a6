-- ===== src/Crawler/Robots/Wildcards/Decides.antt =====
-- src/crawler/RobotsTxt.cpp: the loop of `Wildcard::Match` ends and answers what it is asked.
use native.Mathlib.Nat.{mul-suc}
use search_engines.Base.{
  ℕ, ◌+◌, ◌*◌, ◌≤◌, ◌<◌, Bool, true, false, not, ◌&&◌, ◌||◌, ◌==◌, [], ◌∷◌, ◌++◌, Text, length, suc,
  zero, star, drop, ◌≡◌, refl, arith, Bool-cases, inl, inr, ap, ◌∙◌, Option, none, some,
  append_assoc, sym, subst, length-append, ==_iff,
}
use search_engines.Crawler.Robots.Wildcards.{
  is_end, after_step, retry, match_loop, skip_stars, step, match_from,
}
use search_engines.Crawler.Robots.Wildcards.Accepts.{
  accepts, any_suffix, IsLiteral, any_suffix_found, any_suffix-absorb, accepts-empty, accepts-end,
  any_suffix-skip_stars, accepts-star, drop-nil, any_suffix-later,
}

-- Whether the kept star succeeds at a later place.
abbrev later : Bool → Option (Text × Text) → Bool
later ends none = false
later ends (some (w, [])) = false
later ends (some (w, c ∷ p)) = any_suffix (accepts ends w) p

-- What the loop knows of the places it keeps: from there on the same literal text was read in the
-- wildcard and in the path.
abbrev Kept : Bool → Text → Text → Option (Text × Text) → Type 0
Kept ends w p none = (is_end w ≡ true) → (ends ≡ true)
Kept ends w p (some (wb, pb)) =
    (x : Text) × IsLiteral x
    × (wb ≡ x ++ w)
    × (pb ≡ x ++ p)
    × ((is_end w ≡ true) → (ends ≡ false) → (x ≡ []))

-- `k` bounds the wildcards and `m` the path from the kept place on.
abbrev Within : ℕ → ℕ → Text → Option (Text × Text) → Type 0
Within k m p none = length p ≤ m
Within k m p (some (wb, pb)) = (length wb < k) × (length pb ≤ m)

or_false : (b : Bool) → (b || false) ≡ b
or_false true = refl
or_false false = refl

retry_eq :
    (ends : Bool) (w p : Text)
    → (accepts ends w p || later ends (some (w, p))) ≡ any_suffix (accepts ends w) p
retry_eq ends w [] = or_false (accepts ends w [])
retry_eq ends w (c ∷ p) = refl

-- Going back answers for the later places.
after_step-retry :
    (ends : Bool) (k m : ℕ) (p : Text) (back : Option (Text × Text))
    (continue : Text → Text → Option (Text × Text) → Option Bool)
    → Within k m p back
    → ((m' : ℕ) (wb pb : Text)
        → m ≡ suc m'
        → length wb < k
        → length pb ≤ m'
        → continue wb pb (some (wb, pb)) ≡ some (accepts ends wb pb || later ends (some (wb, pb))))
    → after_step (retry back) continue ≡ some (later ends back)
after_step-retry ends k m p none continue h rest = refl
after_step-retry ends k m p (some (wb, [])) continue h rest = refl
after_step-retry ends k zero p (some (wb, b ∷ pb)) continue h rest = absurd (omega (arith, h.1))
after_step-retry ends k (suc m) p (some (wb, b ∷ pb)) continue h rest =
    rest m wb pb refl h.0 (omega (arith, h.1)) ∙ ap some (retry_eq ends wb pb)

-- Where a kept star would still succeed later, some rest of the path is accepted from here on.
later-absorb :
    (ends : Bool) (w p : Text) (back : Option (Text × Text))
    → Kept ends w p back
    → later ends back ≡ true
    → (n : ℕ) × (n ≤ length p) × (accepts ends w (drop n p) ≡ true)
later-absorb ends w p none h e = cc
later-absorb ends w p (some (wb, [])) h e = cc
later-absorb ends w p (some (wb, b ∷ pb)) (x, literal, ew, ep, fresh) e =
    let got = any_suffix_found (accepts ends wb) pb e in
    any_suffix-absorb ends x w p (drop got.0 pb) (suc got.0) literal (ap (drop (suc got.0)) ep)
      (omega (arith, got.1, ap length ep))
      (subst (λ v. accepts ends v (drop got.0 pb) ≡ true) ew got.2)

or_absorb : (a b : Bool) → (b ≡ true → a ≡ true) → (a || b) ≡ a
or_absorb true b h = refl
or_absorb false true h = sym (h refl)
or_absorb false false h = refl

-- A star in the wildcard.
star_step :
    (ends : Bool) (x c : ℕ) (w p : Text) (back : Option (Text × Text))
    → (x == star) ≡ true
    → Kept ends (x ∷ w) (c ∷ p) back
    → (accepts ends (skip_stars w) (c ∷ p) || later ends (some (skip_stars w, c ∷ p)))
      ≡ (accepts ends (x ∷ w) (c ∷ p) || later ends back)
star_step ends x c w p back h kept =
    let whole : any_suffix (accepts ends (skip_stars w)) (c ∷ p) ≡ accepts ends (x ∷ w) (c ∷ p) =
      sym (any_suffix-skip_stars ends w (c ∷ p)) ∙ sym (accepts-star ends x w (c ∷ p) h) in
    whole
    ∙ sym (
        or_absorb (accepts ends (x ∷ w) (c ∷ p)) (later ends back) (λ e.
          let got = later-absorb ends (x ∷ w) (c ∷ p) back kept e in
          accepts-star ends x w (c ∷ p) h
          ∙ any_suffix-later (accepts ends w) (c ∷ p) got.0
              (sym (accepts-star ends x w (drop got.0 (c ∷ p)) h) ∙ got.2)))

-- The end of the path.
end_step :
    (ends : Bool) (w : Text) (back : Option (Text × Text))
    → Kept ends w [] back
    → is_end (skip_stars w) ≡ (accepts ends w [] || later ends back)
end_step ends w back kept =
    sym (accepts-empty ends w)
    ∙ sym (
        or_absorb (accepts ends w []) (later ends back) (λ e.
          let got = later-absorb ends w [] back kept e in
          sym (ap (accepts ends w) (drop-nil got.0)) ∙ got.2))

-- The end of the wildcard, with some of the path left.
over_step :
    (ends : Bool) (c : ℕ) (p : Text) (back : Option (Text × Text))
    → Kept ends [] (c ∷ p) back
    → later ends back ≡ (accepts ends [] (c ∷ p) || later ends back)
over_step true c p back kept = refl
over_step false c p none kept = cc (kept refl)
over_step false c p (some (wb, [])) (x, literal, ew, ep, fresh) =
    let e : x ≡ [] = fresh refl refl in
    absurd (omega (arith, ap length ep, ap length e, length-append x (c ∷ p)))
over_step false c p (some (wb, b ∷ pb)) (x, literal, ew, ep, fresh) =
    let e : wb ≡ [] = ew ∙ ap (λ y. y ++ []) (fresh refl refl) in
    ap (λ v. any_suffix (accepts false v) pb) e ∙ accepts-end pb

IsLiteral-snoc : (y : Text) (x : ℕ) → IsLiteral y → (x == star) ≡ false → IsLiteral (y ++ x ∷ [])
IsLiteral-snoc [] x h k = (k, tt)
IsLiteral-snoc (c ∷ y) x (h, hs) k = (h, IsLiteral-snoc y x hs k)

accepts-done : (ends : Bool) (w p : Text) → (is_end w && not ends) ≡ true → accepts ends w p ≡ true
accepts-done true [] p h = cc
accepts-done false [] p h = refl
accepts-done ends (x ∷ w) p h = cc

Kept-byte :
    (ends : Bool) (x c : ℕ) (w p : Text) (back : Option (Text × Text))
    → (x == star) ≡ false
    → x ≡ c
    → (is_end w && not ends) ≡ false
    → Kept ends (x ∷ w) (c ∷ p) back
    → Kept ends w p back
Kept-byte true x c w p none h e more kept = λ done. refl
Kept-byte false x c w p none h e more kept = λ done. cc (rw done at more)
Kept-byte ends x c w p (some (wb, pb)) h e more (y, literal, ew, ep, fresh) = (
  y ++ x ∷ [],
  IsLiteral-snoc y x literal h,
  ew ∙ sym (append_assoc y (x ∷ []) w),
  ep ∙ ap (λ d. y ++ d ∷ p) (sym e) ∙ sym (append_assoc y (x ∷ []) p),
  λ done opened. cc (rw (done, opened) at more),
)

length-skip_stars : (w : Text) → length (skip_stars w) ≤ length w
length-skip_stars [] = omega arith
length-skip_stars (c ∷ w) = ground (arith, length-skip_stars w)

Within-path :
    (k m : ℕ) (c : ℕ) (p : Text) (back : Option (Text × Text))
    → Within k m (c ∷ p) back
    → Within k m p back
Within-path k m c p none h = omega arith
Within-path k m c p (some (wb, pb)) h = h

-- The kept place is no later than the path.
length-path :
    (ends : Bool) (k m : ℕ) (w p : Text) (back : Option (Text × Text))
    → Kept ends w p back
    → Within k m p back
    → length p ≤ m
length-path ends k m w p none kept h = h
length-path ends k m w p (some (wb, pb)) (x, literal, ew, ep, fresh) h =
    omega (arith, h.1, ap length ep, length-append x p)

match_loop-accepts :
    (f k m : ℕ) (ends : Bool) (w p : Text) (back : Option (Text × Text))
    → Kept ends w p back
    → Within k m p back
    → length w < k
    → k * m + length w < f
    → match_loop f ends w p back ≡ some (accepts ends w p || later ends back)
unfolding match_loop step
match_loop-accepts zero k m ends w p back kept within wide h = absurd (omega arith)
match_loop-accepts (suc f) k m ends w [] back kept within wide h =
    ap some (end_step ends w back kept)
match_loop-accepts (suc f) k m ends [] (c ∷ p) back kept within wide h =
    after_step-retry ends k m (c ∷ p) back (λ w' p' back'. match_loop f ends w' p' back') within
      (λ m' wb pb e wide' short.
        match_loop-accepts f k m' ends wb pb (some (wb, pb))
          ([], tt, refl, refl, λ done opened. refl) (wide', short) wide'
          (omega (arith, ap (λ (n : ℕ). k * n) e, mul-suc k m')))
    ∙ ap some (over_step ends c p back kept)
match_loop-accepts (suc f) k m ends (x ∷ w) (c ∷ p) back kept within wide h =
    elim (Bool-cases (x == star)) [
      | inl starred ↦ rw starred (
          match_loop-accepts f k m ends (skip_stars w) (c ∷ p) (some (skip_stars w, c ∷ p))
            ([], tt, refl, refl, λ done opened. refl)
            (
              omega (arith, length-skip_stars w),
              length-path ends k m (x ∷ w) (c ∷ p) back kept within,
            )
            (omega (arith, length-skip_stars w)) (omega (arith, length-skip_stars w))
          ∙ ap some (
              star_step ends x c w p back starred kept
              ∙ ap (λ b. b || later ends back) (accepts-star ends x w (c ∷ p) starred)))
      | inr plain ↦ elim (Bool-cases (x == c)) [
        | inl same ↦ elim (Bool-cases (is_end w && not ends)) [
          | inl done ↦ rw (plain, same, done) (rw (accepts-done ends w p done) refl)
          | inr more ↦
              rw (plain, same, more)
                (match_loop-accepts f k m ends w p back
                  (Kept-byte ends x c w p back plain ((==_iff x c).0 same) more kept)
                  (Within-path k m c p back within) (omega arith) (omega arith))
        ]
        | inr other ↦
            rw (plain, other)
              (after_step-retry ends k m (c ∷ p) back (λ w' p' back'. match_loop f ends w' p' back')
                within
                (λ m' wb pb e wide' short.
                  match_loop-accepts f k m' ends wb pb (some (wb, pb))
                    ([], tt, refl, refl, λ done opened. refl) (wide', short) wide'
                    (omega (arith, ap (λ (n : ℕ). k * n) e, mul-suc k m'))))
      ]
    ]

-- `Wildcard::Match` ends on every wildcard that is not empty and every path, and answers true
-- exactly where the wildcard accepts the path: each star stands for any text, every other character
-- for itself, and the end of the wildcard for any rest of the path, unless a dollar sign stood there.
pub match_from-accepts :
    (ends : Bool) (x : ℕ) (w path : Text)
    → match_from ends (x ∷ w) path ≡ some (accepts ends (x ∷ w) path)
unfolding match_from
match_from-accepts ends x w path =
    let k : ℕ = length (x ∷ w) + 1 in
    match_loop-accepts (k * (length path + 1)) k (length path) ends (x ∷ w) path none (λ done. cc)
      (omega arith) (omega arith) (omega (arith, mul-suc k (length path)))
    ∙ ap some (or_false (accepts ends (x ∷ w) path))
