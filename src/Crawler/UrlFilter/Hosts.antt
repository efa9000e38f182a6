-- ===== src/Crawler/UrlFilter/Hosts.antt =====
-- src/crawler/UrlFilter.cpp: what blocking a domain does.
use search_engines.Base.{
  ℕ, ◌+◌, ◌-◌, Bool, true, false, ◌||◌, ◌≡◌, refl, ltb, List, [], ◌∷◌, ◌++◌, Text, length, drop,
  equal, dot, get_or, arith, equal_refl, Bool-cases, inl, inr, ◌∙◌, suc, length-append, find_text,
  codes, ◌⊎◌,
}
use search_engines.Crawler.UrlFilter.{
  add_blocked_domain, host_matches_domain, is_allowed, is_blocked, extract_host, blocked_domain,
  has_crawlable_extension, percent_allowed,
}
use search_engines.Crawler.Bloom.{is_empty}

or_true : (a : Bool) → (a || true) ≡ true
or_true true = refl
or_true false = refl

-- A domain matches itself.
matches_self : (domain : Text) → host_matches_domain domain domain ≡ true
unfolding host_matches_domain
matches_self domain = rw (equal_refl domain) refl

get_or-middle : (s t : Text) (d : ℕ) → get_or (s ++ (d ∷ t)) (length s) 0 ≡ d
get_or-middle [] t d = refl
get_or-middle (c ∷ s) t d = get_or-middle s t d

drop-middle : (s t : Text) (d : ℕ) → drop (suc (length s)) (s ++ (d ∷ t)) ≡ t
drop-middle [] t d = refl
drop-middle (c ∷ s) t d = drop-middle s t d

-- A domain matches every name below it.
matches_below :
    (c : ℕ) (labels domain : Text)
    → host_matches_domain ((c ∷ labels) ++ (dot ∷ domain)) domain ≡ true
unfolding host_matches_domain
matches_below c labels domain =
    let host = (c ∷ labels) ++ (dot ∷ domain) in
    let size : length host ≡ suc (length (c ∷ labels)) + length domain =
      length-append (c ∷ labels) (dot ∷ domain) ∙ omega arith in
    let long : ltb (length domain + 1) (length host) ≡ true = ground (arith, size) in
    let at : length host - length domain ≡ suc (length (c ∷ labels)) = omega (arith, size) in
    let before : length host - length domain - 1 ≡ length (c ∷ labels) = omega (arith, size) in
    rw
      (
        long,
        before,
        get_or-middle (c ∷ labels) domain dot,
        at,
        drop-middle (c ∷ labels) domain dot,
        equal_refl domain,
      )
      (or_true (equal host domain))

is_blocked-last :
    (domains : List Text) (domain host : Text)
    → host_matches_domain host domain ≡ true
    → is_blocked (domains ++ domain ∷ []) host ≡ true
is_blocked-last [] domain host h = rw h refl
is_blocked-last (d ∷ domains) domain host h =
    rw (is_blocked-last domains domain host h) (or_true (host_matches_domain host d))

refused :
    (blocked : List Text) (url : Text)
    → is_empty (extract_host url) ≡ false
    → is_blocked blocked (extract_host url) ≡ true
    → is_allowed blocked url ≡ false
unfolding is_allowed
refused blocked url full hit = elim (Bool-cases (has_crawlable_extension url)) [
  | inr bad ↦ rw bad refl
  | inl good ↦ elim (Bool-cases (percent_allowed (find_text (codes "://") url) url)) [
    | inr dense ↦ rw (good, dense) refl
    | inl plain ↦ rw (good, plain, full, hit) refl
  ]
]

-- Once an entry was added to the blacklist, every address is refused whose host is the domain of the
-- entry, if that is not empty, or a name below it.
pub is_allowed-add_blocked_domain :
    (blocked : List Text) (entry url : Text)
    → is_empty (extract_host url) ≡ false
    → (extract_host url ≡ blocked_domain entry)
      ⊎ ((c : ℕ) × (labels : Text) × (extract_host url
            ≡ (c ∷ labels) ++ (dot ∷ blocked_domain entry)))
    → is_allowed (add_blocked_domain entry blocked) url ≡ false
unfolding add_blocked_domain
is_allowed-add_blocked_domain blocked entry url full (inl same) =
    refused (add_blocked_domain entry blocked) url full (
      is_blocked-last blocked (blocked_domain entry) (extract_host url)
        (rw same (matches_self (blocked_domain entry))))
is_allowed-add_blocked_domain blocked entry url full (inr (c, labels, below)) =
    refused (add_blocked_domain entry blocked) url full (
      is_blocked-last blocked (blocked_domain entry) (extract_host url)
        (rw below (matches_below c labels (blocked_domain entry))))
