-- ===== src/Config/Locations/Longest.antt =====
-- src/config/model.rs and src/config/build.rs: the longest prefix and the first regular expression,
-- searched for in the groups of `loc_set`, and in the list that the configuration writes.
use oxi_serve.Base.{
  true, false, List, [], ◌∷◌, ◌≡◌, refl, sym, ap, ◌∙◌, inl, inr, Bool-cases, All, Option, some,
  none, length, leb, arith, if◌then◌else◌,
}
use oxi_serve.Base.Bytes.{Bytes}
use oxi_serve.Config.Locations.{
  Location, LocMatch, exact, prefix, prefix_no_regex, regex, named, prefix_of, longest_first,
  starts_with, first_prefix, first_regex, with_captures, captures_of, insert_by, sort_by,
}
use oxi_serve.Config.Locations.Groups.{is_prefix, is_regex, of_kind}
use oxi_serve.Config.Locations.Sort.{IsSorted, All-map, sort_by-IsSorted}

captures_of-none :
    {Regex Captures : Type 0} (captures : Regex → Bytes → Option Captures) (m : LocMatch Regex)
    (uri : Bytes)
    → is_regex m ≡ false
    → captures_of captures m uri ≡ none
unfolding captures_of is_regex
captures_of-none captures (exact p) uri h = refl
captures_of-none captures (prefix p) uri h = refl
captures_of-none captures (prefix_no_regex p) uri h = refl
captures_of-none captures (regex re ci) uri h = ground arith
captures_of-none captures (named n) uri h = refl

module _ {Regex S : Type 0} where
  -- The longest prefix of the path, the first of them in the configuration.
  unfoldable pub longer : Location Regex S → Option (Location Regex S) → Location Regex S
  longer l none = l
  longer l (some m) = if leb (length (prefix_of m)) (length (prefix_of l)) then l else m

  unfoldable pub pick :
      Bytes → Location Regex S → Option (Location Regex S) → Option (Location Regex S)
  pick uri l later = if starts_with uri (prefix_of l) then some (longer l later) else later

  unfoldable pub longest : Bytes → List (Location Regex S) → Option (Location Regex S)
  longest uri [] = none
  longest uri (l ∷ ls) =
      let later = longest uri ls in if is_prefix l.matcher then pick uri l later else later

  longest_first_trans :
      (a b c : Location Regex S)
      → longest_first a b ≡ true
      → longest_first b c ≡ true
      → longest_first a c ≡ true
  unfolding longest_first
  longest_first_trans a b c h k = ground arith

  longest_first_total :
      (a b : Location Regex S) → longest_first a b ≡ false → longest_first b a ≡ true
  unfolding longest_first
  longest_first_total a b h = ground arith

  longer-All :
      (uri : Bytes) (x : Location Regex S) (ys : List (Location Regex S))
      → All (λ y. longest_first x y ≡ true) ys
      → longer x (first_prefix uri ys) ≡ x
  unfolding longer first_prefix longest_first
  longer-All uri x [] _ = refl
  longer-All uri x (y ∷ ys) (p, h) =
      let ih = longer-All uri x ys h in
      elim (Bool-cases (starts_with uri (prefix_of y))) [ inl e ↦ rw (e, p) refl | inr e ↦ rw e ih ]

  longer-later : (x y : Location Regex S) → longest_first x y ≡ false → longer x (some y) ≡ y
  unfolding longer longest_first
  longer-later x y h = rw h refl

  pick-insert :
      (uri : Bytes) (x : Location Regex S) (ys : List (Location Regex S))
      → IsSorted longest_first ys
      → first_prefix uri (insert_by longest_first x ys) ≡ pick uri x (first_prefix uri ys)
  unfolding first_prefix insert_by pick IsSorted longer
  pick-insert uri x [] _ = refl
  pick-insert uri x (y ∷ ys) (hy, h) =
      let ih = pick-insert uri x ys h in
      elim (Bool-cases (longest_first x y)) [
        | inl e ↦ elim (Bool-cases (starts_with uri (prefix_of x))) [
          | inl sx ↦
              let shorter = All-map (λ z. longest_first_trans x y z e) ys hy in
              rw (e, sx) (ap some (sym (longer-All uri x (y ∷ ys) (e, shorter))))
          | inr sx ↦ rw (e, sx) refl
        ]
        | inr e ↦ elim (Bool-cases (starts_with uri (prefix_of y))) [
          | inl sy ↦ elim (Bool-cases (starts_with uri (prefix_of x))) [
            | inl sx ↦ rw (e, sy, sx) (ap some (sym (longer-later x y e)))
            | inr sx ↦ rw (e, sy, sx) refl
          ]
          | inr sy ↦ rw (e, sy) ih
        ]
      ]

  pick-first_prefix :
      (uri : Bytes) (l : Location Regex S) (ls : List (Location Regex S))
      → first_prefix uri (sort_by longest_first (l ∷ ls))
        ≡ pick uri l (first_prefix uri (sort_by longest_first ls))
  unfolding sort_by
  pick-first_prefix uri l ls =
      pick-insert uri l (sort_by longest_first ls)
        (sort_by-IsSorted longest_first longest_first_trans longest_first_total ls)

  first_prefix-nil :
      (uri : Bytes) → first_prefix uri (sort_by {Regex = Regex} {S = S} longest_first []) ≡ none
  unfolding sort_by first_prefix
  first_prefix-nil uri = refl

  pub first_prefix-sort_by :
      (uri : Bytes) (ls : List (Location Regex S))
      → first_prefix uri (sort_by longest_first (of_kind is_prefix ls)) ≡ longest uri ls
  unfolding longest of_kind
  first_prefix-sort_by uri [] = first_prefix-nil uri
  first_prefix-sort_by uri (l ∷ ls) =
      let ih = first_prefix-sort_by uri ls in
      elim (Bool-cases (is_prefix l.matcher)) [
        | inl e ↦ rw e (pick-first_prefix uri l (of_kind is_prefix ls) ∙ ap (pick uri l) ih)
        | inr e ↦ rw e ih
      ]

  -- A location of another kind is passed over.
  pub first_regex-of_kind :
      {Captures : Type 0} (captures : Regex → Bytes → Option Captures) (uri : Bytes)
      (ls : List (Location Regex S))
      → first_regex captures uri (of_kind is_regex ls) ≡ first_regex captures uri ls
  unfolding first_regex of_kind with_captures
  first_regex-of_kind captures uri [] = refl
  first_regex-of_kind captures uri (l ∷ ls) =
      let ih = first_regex-of_kind captures uri ls in
      elim (Bool-cases (is_regex l.matcher)) [
        | inl e ↦ rw e (ap (with_captures l (captures_of captures l.matcher uri)) ih)
        | inr e ↦ rw (e, captures_of-none captures l.matcher uri e) ih
      ]
