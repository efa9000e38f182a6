-- ===== src/Crawler/FrontierItem/RoundTrip.antt =====
-- src/crawler/FrontierItem.cpp: an item comes back from its line.
use search_engines.Base.{
  ℕ, ◌<◌, ◌^◌, Bool, true, false, ◌≡◌, refl, ◌==◌, [], ◌∷◌, Text, some, All, ap, arith, not,
}
use search_engines.Crawler.Decimal.{IsDigits, atol, print, decimal-IsDigits, atol-print, decimal}
use search_engines.Crawler.FrontierItem.{
  FrontierItem, Suffix, deserialize_from_line, ends_line, is_bar, next_field, clean_link,
  failed_mark, serialize_to_line, suffix_number, to_suffix, with_bar, com_suffix, edu_suffix,
  gov_suffix, org_suffix, net_suffix, mil_suffix, int_suffix, other_suffix,
}

-- No character is a bar.
abbrev IsBarless : Text → Type 0
IsBarless s = All (λ c. is_bar c ≡ false) s

next_field-with_bar :
    (field rest : Text) → IsBarless field → next_field (with_bar field rest) ≡ (field, rest)
unfolding next_field with_bar
next_field-with_bar [] rest h = refl
next_field-with_bar (c ∷ s) rest (h, hs) =
    let more = next_field-with_bar s rest hs in rw h (ap (λ x. (c ∷ x.0, x.1)) more)

digits-IsBarless : (s : Text) → IsDigits s → IsBarless s
digits-IsBarless [] h = tt
digits-IsBarless (c ∷ s) (h, hs) = (ground (arith, h), digits-IsBarless s hs)

print-IsBarless : (n : ℕ) → IsBarless (print n)
unfolding print decimal
print-IsBarless n = digits-IsBarless (print n) (decimal-IsDigits 20 n)

clean_link-clean : (s : Text) → All (λ c. ends_line c ≡ false) s → clean_link s ≡ s
unfolding clean_link
clean_link-clean [] h = refl
clean_link-clean (c ∷ s) (h, hs) = rw h (ap (λ t. c ∷ t) (clean_link-clean s hs))

to_suffix-suffix_number : (s : Suffix) → to_suffix (suffix_number s) ≡ some s
unfolding to_suffix
to_suffix-suffix_number com_suffix = refl
to_suffix-suffix_number edu_suffix = refl
to_suffix-suffix_number gov_suffix = refl
to_suffix-suffix_number org_suffix = refl
to_suffix-suffix_number net_suffix = refl
to_suffix-suffix_number mil_suffix = refl
to_suffix-suffix_number int_suffix = refl
to_suffix-suffix_number other_suffix = refl

suffix_number-small : (s : Suffix) → suffix_number s < 2 ^ 63
suffix_number-small com_suffix = omega arith
suffix_number-small edu_suffix = omega arith
suffix_number-small gov_suffix = omega arith
suffix_number-small org_suffix = omega arith
suffix_number-small net_suffix = omega arith
suffix_number-small mil_suffix = omega arith
suffix_number-small int_suffix = omega arith
suffix_number-small other_suffix = omega arith

abbrev flag_number : Bool → ℕ
flag_number true = 1
flag_number false = 0

atol-failed_mark : (b : Bool) → atol (failed_mark b) ≡ some (flag_number b)
unfolding atol
atol-failed_mark true = refl
atol-failed_mark false = refl

flag_number-set : (b : Bool) → not (flag_number b == 0) ≡ b
flag_number-set true = refl
flag_number-set false = refl

-- The numbers fit a `long`, and the link holds neither a bar nor the end of a line.
pub record IsWritable (item : FrontierItem) : Type 0 where
  pub barless : All (λ c. is_bar c ≡ false) item.link
  pub one_line : All (λ c. ends_line c ≡ false) item.link
  pub base_length_fits : item.base_length < 2 ^ 63
  pub seed_distance_fits : item.seed_distance < 2 ^ 63
  pub path_depth_fits : item.path_depth < 2 ^ 63

-- An item is read back from the line that was written for it, where its link holds neither a bar nor
-- the end of a line and its numbers are below 2^63.
pub deserialize_from_line-serialize_to_line :
    (item : FrontierItem)
    → IsWritable item
    → deserialize_from_line (serialize_to_line item) ≡ some item
unfolding deserialize_from_line serialize_to_line
deserialize_from_line-serialize_to_line item h =
    let depth = with_bar (print item.path_depth) (failed_mark item.failed) in
    let seed = with_bar (print item.seed_distance) depth in
    let base = with_bar (print item.base_length) seed in
    let number = suffix_number item.suffix in
    rw
      (
        clean_link-clean item.link h.one_line,
        next_field-with_bar item.link (with_bar (print number) base) h.barless,
        next_field-with_bar (print number) base (print-IsBarless number),
        next_field-with_bar (print item.base_length) seed (print-IsBarless item.base_length),
        next_field-with_bar (print item.seed_distance) depth (print-IsBarless item.seed_distance),
        next_field-with_bar (print item.path_depth) (failed_mark item.failed)
            (print-IsBarless item.path_depth),
        atol-print number (suffix_number-small item.suffix),
        to_suffix-suffix_number item.suffix,
        atol-print item.base_length h.base_length_fits,
        atol-print item.seed_distance h.seed_distance_fits,
        atol-print item.path_depth h.path_depth_fits,
        atol-failed_mark item.failed,
        flag_number-set item.failed,
      )
      refl
