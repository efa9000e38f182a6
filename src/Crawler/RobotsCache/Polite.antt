-- ===== src/Crawler/RobotsCache/Polite.antt =====
-- src/crawler/RobotsCache.cpp: two accesses to one origin are kept apart.
use search_engines.Base.{
  equal→≡, ◌≤◌, if◌then◌else◌, List, ℕ, ◌+◌, ◌<◌, Bool, true, false, ◌≡◌, ◌≢◌, refl, arith, [], ◌∷◌,
  Text, Option, some, equal, Bool-cases, inl, inr, equal_refl, ap, ◌∙◌, sym, ap₂, subst,
}
use search_engines.Crawler.RobotsCache.{
  CacheEntry, check_and_reserve, Cache, check_entry, allowed, look_up, extract_origin, store,
  decide, entry_or_fetch, reserve, is_early, verdict, delay_of,
}
use search_engines.Crawler.Bloom.{is_empty}

look_up-store :
    (key : Text) (entry : CacheEntry) (cache : Cache)
    → look_up key (store key entry cache) ≡ some entry
look_up-store key entry [] = rw (equal_refl key) refl
look_up-store key entry ((k, e) ∷ cache) = elim (Bool-cases (equal key k)) [
  | inl same ↦ rw same (rw same refl)
  | inr other ↦ rw other (rw other (look_up-store key entry cache))
]

reserve-last :
    (early : Bool) (now delay_ms : ℕ) (entry : CacheEntry)
    → (reserve early now delay_ms entry).0.status ≡ allowed
    → (reserve early now delay_ms entry).1.last_accessed_ms ≡ now
reserve-last true now delay_ms entry h = cc
reserve-last false now delay_ms entry h = refl

decide-last :
    (now : ℕ) (entry : CacheEntry) (said : Bool × ℕ)
    → (decide now entry said).0.status ≡ allowed
    → (decide now entry said).1.last_accessed_ms ≡ now
decide-last now entry (true, delay) h =
    reserve-last (is_early now (delay_of delay) entry) now (delay_of delay) entry h
decide-last now entry (false, delay) h = cc

look_up-store_ne :
    (key other : Text) (entry : CacheEntry) (cache : Cache)
    → key ≢ other
    → look_up key (store other entry cache) ≡ look_up key cache
look_up-store_ne key other entry [] ne = elim (Bool-cases (equal key other)) [
  | inl same ↦ absurd (ne (equal→≡ key other same))
  | inr apart ↦ rw apart refl
]
look_up-store_ne key other entry ((k, e) ∷ cache) ne = elim (Bool-cases (equal other k)) [
  | inl same ↦ elim (Bool-cases (equal key k)) [
    | inl also ↦ absurd (ne (equal→≡ key k also ∙ sym (equal→≡ other k same)))
    | inr apart ↦ rw same (rw apart refl)
  ]
  | inr apart ↦ rw apart (
      ap (λ rest. if equal key k then some e else rest) (look_up-store_ne key other entry cache ne))
]

-- The time of the last access never goes back.
decide-later :
    (now : ℕ) (entry : CacheEntry) (said : Bool × ℕ)
    → entry.last_accessed_ms ≤ (decide now entry said).1.last_accessed_ms
decide-later now entry (true, delay) = elim (Bool-cases (is_early now (delay_of delay) entry)) [
  | inl early ↦ rw (early, reserve) (omega arith)
  | inr late ↦ rw (late, reserve) (ground (arith, late))
]
decide-later now entry (false, delay) = omega arith

-- An entry accessed less than half a second before is not allowed again.
decide-early :
    (now : ℕ) (entry : CacheEntry) (said : Bool × ℕ)
    → 0 < entry.last_accessed_ms
    → now < entry.last_accessed_ms + 500
    → (decide now entry said).0.status ≢ allowed
decide-early now entry (true, delay) pos h e =
    let early : is_early now (delay_of delay) entry ≡ true = ground arith in cc (rw early at e)
decide-early now entry (false, delay) pos h e = cc

module _ (read_url : Text → Text) where
  check_and_reserve-next :
      (now : ℕ) (url : Text) (cache : Cache)
      → is_empty (extract_origin url) ≡ false
      → check_and_reserve read_url now url cache ≡ (
        (check_entry now url
            (entry_or_fetch read_url (extract_origin url) (look_up (extract_origin url) cache))).0,
        store
            (extract_origin url)
            (check_entry now url
              (entry_or_fetch read_url (extract_origin url) (look_up (extract_origin url) cache))).1
            cache,
      )
  unfolding check_and_reserve
  check_and_reserve-next now url cache full = rw full refl

  -- The cache after calls at some times for some addresses.
  abbrev pub after : List (ℕ × Text) → Cache → Cache
  after [] cache = cache
  after ((now, url) ∷ calls) cache = after calls (check_and_reserve read_url now url cache).1

  -- The origin was accessed, and not before this time.
  abbrev AccessedAt : ℕ → Text → Cache → Type 0
  AccessedAt time origin cache =
      (entry : CacheEntry) × (look_up origin cache ≡ some entry) × (time ≤ entry.last_accessed_ms)

  check_and_reserve-none :
      (now : ℕ) (url : Text) (cache : Cache)
      → is_empty (extract_origin url) ≡ true
      → (check_and_reserve read_url now url cache).1 ≡ cache
  unfolding check_and_reserve
  check_and_reserve-none now url cache empty = rw empty refl

  call-AccessedAt :
      (time : ℕ) (origin : Text) (now : ℕ) (url : Text) (cache : Cache)
      → AccessedAt time origin cache
      → AccessedAt time origin (check_and_reserve read_url now url cache).1
  unfolding check_entry entry_or_fetch
  call-AccessedAt time origin now url cache (entry, found, late) =
      let at = extract_origin url in
      let before = entry_or_fetch read_url at (look_up at cache) in
      let got : CacheEntry = (check_entry now url before).1 in
      elim (Bool-cases (is_empty at)) [
        | inl empty ↦
            (entry, ap (look_up origin) (check_and_reserve-none now url cache empty) ∙ found, late)
        | inr full ↦
            let stored = ap (λ r. r.1) (check_and_reserve-next now url cache full) in
            elim (Bool-cases (equal origin at)) [
              | inl same ↦
                  let e = equal→≡ origin at same in
                  let kept : before.last_accessed_ms ≡ entry.last_accessed_ms =
                    ap (λ (o : Option CacheEntry). (entry_or_fetch read_url at o).last_accessed_ms)
                      (ap (λ o. look_up o cache) (sym e) ∙ found) in
                  (
                    got,
                    ap₂ look_up e stored ∙ look_up-store at got cache,
                    omega (arith, kept, decide-later now before (verdict before.robots url)),
                  )
              | inr apart ↦
                  let ne : origin ≢ at = λ e.
                    let same : equal origin at ≡ true =
                      subst (λ o. equal origin o ≡ true) e (equal_refl origin) in
                    cc in
                  (
                    entry,
                    ap (look_up origin) stored ∙ look_up-store_ne origin at got cache ne ∙ found,
                    late,
                  )
            ]
      ]

  after-AccessedAt :
      (time : ℕ) (origin : Text) (calls : List (ℕ × Text)) (cache : Cache)
      → AccessedAt time origin cache
      → AccessedAt time origin (after calls cache)
  after-AccessedAt time origin [] cache h = h
  after-AccessedAt time origin ((now, url) ∷ calls) cache h =
      after-AccessedAt time origin calls (check_and_reserve read_url now url cache).1
        (call-AccessedAt time origin now url cache h)

  first-AccessedAt :
      (now : ℕ) (url : Text) (cache : Cache)
      → is_empty (extract_origin url) ≡ false
      → (check_and_reserve read_url now url cache).0.status ≡ allowed
      → AccessedAt now (extract_origin url) (check_and_reserve read_url now url cache).1
  unfolding check_entry entry_or_fetch
  first-AccessedAt now url cache full ok =
      let origin = extract_origin url in
      let entry = entry_or_fetch read_url origin (look_up origin cache) in
      let first = check_and_reserve-next now url cache full in
      let got : CacheEntry = (check_entry now url entry).1 in
      let last : got.last_accessed_ms ≡ now =
        decide-last now entry (verdict entry.robots url) (sym (ap (λ r. r.0.status) first) ∙ ok) in
      (
        got,
        ap (λ r. look_up origin r.1) first ∙ look_up-store origin got cache,
        omega (arith, last),
      )

  -- Once an address that names an origin was allowed at a time after 0, no address of the same
  -- origin is allowed at a time before half a second later, whatever is fetched and whatever calls,
  -- for this origin and for others, at any times, there are in between.
  pub check_and_reserve-polite :
      (now next : ℕ) (url other : Text) (cache : Cache) (calls : List (ℕ × Text))
      → is_empty (extract_origin url) ≡ false
      → extract_origin other ≡ extract_origin url
      → (check_and_reserve read_url now url cache).0.status ≡ allowed
      → 0 < now
      → next < now + 500
      → (check_and_reserve read_url next other
          (after calls (check_and_reserve read_url now url cache).1)).0.status
        ≢ allowed
  unfolding check_entry entry_or_fetch
  check_and_reserve-polite now next url other cache calls full same ok pos soon again =
      let between = after calls (check_and_reserve read_url now url cache).1 in
      let (entry, found, late) =
        after-AccessedAt now (extract_origin url) calls (check_and_reserve read_url now url cache).1
          (first-AccessedAt now url cache full ok) in
      let second = check_and_reserve-next next other between (ap is_empty same ∙ full) in
      decide-early next entry (verdict entry.robots other) (omega arith) (omega arith) (
        ap
          (λ (o : Option CacheEntry).
            (check_entry next other (entry_or_fetch read_url (extract_origin other) o)).0.status)
          (sym (ap (λ o. look_up o between) same ∙ found))
        ∙ sym (ap (λ r. r.0.status) second)
        ∙ again)
