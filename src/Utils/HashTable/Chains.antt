-- ===== src/Utils/HashTable/Chains.antt =====
-- src/utils/hash/HashTable.h: the chains, weighed bucket by bucket, and what a link does to them.
use search_engines.Base.{◌≡◌, refl, sym, ap, ◌∙◌, ◌≢◌, ◌+◌, ◌%◌, arith}
use native.Mathlib.Nat.{mod-lt}
use search_engines.Utils.HashTable.{Bucket, link, relink, relink_all, chain_at}
use search_engines.Base.{
  List, ℕ, length, replicate, ◌++◌, ◌<◌, ◌∷◌, ◌≡◌, ◌≢◌, [], arith, length-set, set, ◌+◌, ◌∙◌, suc,
  sym, ◌%◌, zero, ap,
}

module _ {K V : Type 0} where
  -- All buckets of the chains, in order.
  abbrev pub entries : List (List (Bucket K V)) → List (Bucket K V)
  entries [] = []
  entries (chain ∷ chains) = chain ++ entries chains

  -- The weights of the buckets together.
  abbrev pub weigh : (Bucket K V → ℕ) → List (Bucket K V) → ℕ
  weigh w [] = 0
  weigh w (b ∷ chain) = w b + weigh w chain

  pub weigh-append :
      (w : Bucket K V → ℕ) (xs ys : List (Bucket K V))
      → weigh w (xs ++ ys) ≡ weigh w xs + weigh w ys
  weigh-append w [] ys = omega arith
  weigh-append w (x ∷ xs) ys = omega (arith, weigh-append w xs ys)

  weigh-set :
      (w : Bucket K V → ℕ) (b : Bucket K V) (i : ℕ) (chains : List (List (Bucket K V)))
      → i < length chains
      → weigh w (entries (set chains i (b ∷ chain_at chains i))) ≡ w b + weigh w (entries chains)
  weigh-set w b i [] h = absurd (omega arith)
  weigh-set w b zero (chain ∷ chains) h = omega arith
  weigh-set w b (suc i) (chain ∷ chains) h = omega (
    arith,
    weigh-set w b i chains (omega arith),
    weigh-append w chain (entries (set chains i (b ∷ chain_at chains i))),
    weigh-append w chain (entries chains),
  )

  pub length-link :
      (size : ℕ) (b : Bucket K V) (chains : List (List (Bucket K V)))
      → length (link size b chains) ≡ length chains
  unfolding link
  length-link size b chains =
      length-set chains (b.hash_value % size) (b ∷ chain_at chains (b.hash_value % size))

  pub length-relink :
      (size : ℕ) (xs : List (Bucket K V)) (chains : List (List (Bucket K V)))
      → length (relink size xs chains) ≡ length chains
  length-relink size [] chains = refl
  length-relink size (b ∷ xs) chains =
      length-relink size xs (link size b chains) ∙ length-link size b chains

  pub weigh-link :
      (w : Bucket K V → ℕ) (size : ℕ) (b : Bucket K V) (chains : List (List (Bucket K V)))
      → 0 < size
      → length chains ≡ size
      → weigh w (entries (link size b chains)) ≡ w b + weigh w (entries chains)
  unfolding link
  weigh-link w size b chains pos e =
      weigh-set w b (b.hash_value % size) chains (omega (arith, mod-lt b.hash_value pos))

  -- Nothing is lost and nothing is added when the buckets move to other chains.
  pub weigh-relink :
      (w : Bucket K V → ℕ) (size : ℕ) (xs : List (Bucket K V)) (chains : List (List (Bucket K V)))
      → 0 < size
      → length chains ≡ size
      → weigh w (entries (relink size xs chains)) ≡ weigh w xs + weigh w (entries chains)
  weigh-relink w size [] chains pos e = omega arith
  weigh-relink w size (b ∷ xs) chains pos e = omega (
    arith,
    weigh-relink w size xs (link size b chains) pos (length-link size b chains ∙ e),
    weigh-link w size b chains pos e,
  )

  relink-append :
      (size : ℕ) (xs ys : List (Bucket K V)) (chains : List (List (Bucket K V)))
      → relink size (xs ++ ys) chains ≡ relink size ys (relink size xs chains)
  relink-append size [] ys chains = refl
  relink-append size (b ∷ xs) ys chains = relink-append size xs ys (link size b chains)

  pub relink_all-entries :
      (size : ℕ) (old chains : List (List (Bucket K V)))
      → relink_all size old chains ≡ relink size (entries old) chains
  relink_all-entries size [] chains = refl
  relink_all-entries size (chain ∷ old) chains =
      relink_all-entries size old (relink size chain chains)
      ∙ sym (relink-append size chain (entries old) chains)

  pub entries-replicate : (n : ℕ) → entries (replicate {A = List (Bucket K V)} n []) ≡ []
  entries-replicate zero = refl
  entries-replicate (suc n) = entries-replicate n

  pub weigh-one : (xs : List (Bucket K V)) → weigh (λ b. 1) xs ≡ length xs
  weigh-one [] = refl
  weigh-one (x ∷ xs) = omega (arith, weigh-one xs)

  pub chain_at-set_self :
      (chains : List (List (Bucket K V))) (i : ℕ) (chain : List (Bucket K V))
      → i < length chains
      → chain_at (set chains i chain) i ≡ chain
  chain_at-set_self [] i chain h = absurd (omega arith)
  chain_at-set_self (c ∷ chains) zero chain h = refl
  chain_at-set_self (c ∷ chains) (suc i) chain h = chain_at-set_self chains i chain (omega arith)

  pub chain_at-set_ne :
      (chains : List (List (Bucket K V))) {i j : ℕ} (chain : List (Bucket K V))
      → i ≢ j
      → chain_at (set chains i chain) j ≡ chain_at chains j
  chain_at-set_ne [] chain h = refl
  chain_at-set_ne (c ∷ chains) {i = zero} {j = zero} chain h = absurd (h refl)
  chain_at-set_ne (c ∷ chains) {i = zero} {j = suc j} chain h = refl
  chain_at-set_ne (c ∷ chains) {i = suc i} {j = zero} chain h = refl
  chain_at-set_ne (c ∷ chains) {i = suc i} {j = suc j} chain h =
      chain_at-set_ne chains chain (λ e. h (ap suc e))
