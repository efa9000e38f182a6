-- ===== src/Index/Isr/Container/Avoids.antt =====
-- Documents that the negative streams of ISRContainer have no location in.
use search_engines.Base.{
  ℕ, ◌≤◌, ◌<◌, ◌≡◌, List, [], ◌∷◌, true, false, arith, inl, inr, All, ◌⊎◌, Bool-cases, ◌==◌, leb,
  not, ◌&&◌, sym, subst, ◌∙◌,
}
use search_engines.Index.Isr.Stream.{Stream, drop_below, head_location, is_nil}
use search_engines.Index.Isr.Docs.{Docs}
use search_engines.Index.Isr.Container.{exclude}
use search_engines.Index.Isr.{isr_sentinel}

-- Locations that do not fall.
abbrev pub Ascends : List ℕ → Type 0
Ascends [] = Unit
Ascends (l ∷ ls) = All (λ m. l ≤ m) ls × Ascends ls

-- None of the locations lies in a document from `s` to `e`.
abbrev pub Avoids : ℕ → ℕ → List ℕ → Type 0
Avoids s e v = All (λ l. (l < s) ⊎ (e < l)) v

drop_below-Ascends : (t : ℕ) (v : List ℕ) → Ascends v → Ascends (drop_below t v)
unfolding drop_below
drop_below-Ascends t [] h = tt
drop_below-Ascends t (l ∷ ls) h = elim (Bool-cases (leb t l)) [
  | inl e ↦ rw e h
  | inr e ↦ rw e (drop_below-Ascends t ls h.1)
]

above-Avoids : (s e l : ℕ) (ls : List ℕ) → e < l → All (λ m. l ≤ m) ls → Avoids s e ls
above-Avoids s e l [] h hs = tt
above-Avoids s e l (m ∷ ls) h (k, ks) = (inr (omega arith), above-Avoids s e l ls h ks)

nil-Avoids : (s e : ℕ) (v : List ℕ) → is_nil v ≡ true → Avoids s e v
nil-Avoids s e [] h = tt
nil-Avoids s e (l ∷ ls) h = cc

-- A stream whose next location from `s` on lies behind `e` has none in between.
drop_below-Avoids :
    (s e : ℕ) (v : List ℕ) → Ascends v → e < head_location (drop_below s v) → Avoids s e v
unfolding drop_below
drop_below-Avoids s e [] up h = tt
drop_below-Avoids s e (l ∷ ls) up h = elim (Bool-cases (leb s l)) [
  | inl stays ↦
      let behind : e < l = rw stays at h in (inr behind, above-Avoids s e l ls behind up.0)
  | inr drops ↦ (inl (ground (arith, drops)), drop_below-Avoids s e ls up.1 (rw drops at h))
]

-- What is dropped lies before any document that starts later.
Avoids-drop_below : (t s e : ℕ) (v : List ℕ) → t ≤ s → Avoids s e (drop_below t v) → Avoids s e v
unfolding drop_below
Avoids-drop_below t s e [] le h = tt
Avoids-drop_below t s e (l ∷ ls) le h = elim (Bool-cases (leb t l)) [
  | inl stays ↦ rw stays at h
  | inr drops ↦ (inl (ground (arith, drops)), Avoids-drop_below t s e ls le (rw drops at h))
]

module _ (stream : Stream) (docs : Docs) where
  abbrev pub AllAscend : List stream.Object → Type 0
  AllAscend negs = All (λ neg. Ascends (stream.view neg)) negs

  -- No stream has a location in the document.
  abbrev pub AllAvoid : ℕ → ℕ → List stream.Object → Type 0
  AllAvoid s e negs = All (λ neg. Avoids s e (stream.view neg)) negs

  pub exclude-AllAscend :
      (s e : ℕ) (negs : List stream.Object)
      → s ≤ isr_sentinel
      → AllAscend negs
      → AllAscend (exclude stream docs s e negs).1
  unfolding exclude
  exclude-AllAscend s e [] hs h = tt
  exclude-AllAscend s e (neg ∷ negs) hs (up, ups) =
      let sought : Ascends (stream.view (stream.seek s neg).1) =
        subst Ascends (sym (stream.seek-view s neg hs))
          (drop_below-Ascends s (stream.view neg) up) in
      let rest = exclude-AllAscend s e negs hs ups in
      elim (Bool-cases (stream.done neg)) [
        | inl over ↦ rw over (up, rest)
        | inr active ↦
            elim (Bool-cases
              (not ((stream.seek s neg).0 == isr_sentinel) && leb (stream.seek s neg).0 e)) [
                | inl hit ↦ rw (active, hit) (sought, ups)
                | inr miss ↦ rw (active, miss) (sought, rest)
              ]
      ]

  pub exclude-AllAvoid :
      (s e : ℕ) (negs : List stream.Object)
      → s ≤ isr_sentinel
      → e < isr_sentinel
      → AllAscend negs
      → (exclude stream docs s e negs).0 ≡ false
      → AllAvoid s e negs
  unfolding exclude
  exclude-AllAvoid s e [] hs he up h = tt
  exclude-AllAvoid s e (neg ∷ negs) hs he (up, ups) h = elim (Bool-cases (stream.done neg)) [
    | inl over ↦ (
      nil-Avoids s e (stream.view neg) (sym (stream.done-view neg) ∙ over),
      exclude-AllAvoid s e negs hs he ups (rw over at h),
    )
    | inr active ↦
        elim (Bool-cases
          (not ((stream.seek s neg).0 == isr_sentinel) && leb (stream.seek s neg).0 e)) [
            | inl hit ↦ cc (rw (active, hit) at h)
            | inr miss ↦
                let behind : e < (stream.seek s neg).0 = ground (arith, miss) in
                (
                  drop_below-Avoids s e (stream.view neg) up
                      (subst (λ l. e < l) (stream.seek-answer s neg hs) behind),
                  exclude-AllAvoid s e negs hs he ups (rw (active, miss) at h),
                )
          ]
  ]

  pub AllAvoid-exclude :
      (t end s e : ℕ) (negs : List stream.Object)
      → t ≤ isr_sentinel
      → t ≤ s
      → AllAvoid s e (exclude stream docs t end negs).1
      → AllAvoid s e negs
  unfolding exclude
  AllAvoid-exclude t end s e [] ht le h = tt
  AllAvoid-exclude t end s e (neg ∷ negs) ht le h =
      let before : Avoids s e (stream.view (stream.seek t neg).1) → Avoids s e (stream.view neg) =
        λ k.
          Avoids-drop_below t s e (stream.view neg) le
            (subst (Avoids s e) (stream.seek-view t neg ht) k) in
      elim (Bool-cases (stream.done neg)) [
        | inl over ↦ let k = rw over at h in (k.0, AllAvoid-exclude t end s e negs ht le k.1)
        | inr active ↦
            elim (Bool-cases
              (not ((stream.seek t neg).0 == isr_sentinel) && leb (stream.seek t neg).0 end)) [
                | inl hit ↦ let k = rw (active, hit) at h in (before k.0, k.1)
                | inr miss ↦
                    let k = rw (active, miss) at h in
                    (before k.0, AllAvoid-exclude t end s e negs ht le k.1)
              ]
      ]
