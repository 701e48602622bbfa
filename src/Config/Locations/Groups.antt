-- ===== src/Config/Locations/Groups.antt =====
-- src/config/build.rs: the groups of `loc_set`, as parts of the list that the configuration writes.
use oxi_serve.Base.{
  ℕ, suc, Bool, true, false, List, [], ◌∷◌, ◌++◌, append-nil, append_assoc, ◌≡◌, refl, sym, ap, ◌∙◌,
  inl, inr, Bool-cases, All, some, get_elem?, if◌then◌else◌, arith,
}
use oxi_serve.Config.Locations.{
  Location, LocSet, LocMatch, exact, prefix, prefix_no_regex, regex, named, group, group_all,
  empty_set,
}
use oxi_serve.Config.Locations.Sort.{All-map}

-- The locations of one kind, in the order of the configuration.
unfoldable pub is_exact : {Regex : Type 0} → LocMatch Regex → Bool
is_exact (exact p) = true
is_exact (prefix p) = false
is_exact (prefix_no_regex p) = false
is_exact (regex re ci) = false
is_exact (named n) = false

unfoldable pub is_prefix : {Regex : Type 0} → LocMatch Regex → Bool
is_prefix (exact p) = false
is_prefix (prefix p) = true
is_prefix (prefix_no_regex p) = true
is_prefix (regex re ci) = false
is_prefix (named n) = false

unfoldable pub is_regex : {Regex : Type 0} → LocMatch Regex → Bool
is_regex (exact p) = false
is_regex (prefix p) = false
is_regex (prefix_no_regex p) = false
is_regex (regex re ci) = true
is_regex (named n) = false

module _ {Regex S : Type 0} where
  unfoldable pub of_kind :
      (LocMatch Regex → Bool) → List (Location Regex S) → List (Location Regex S)
  of_kind test [] = []
  of_kind test (l ∷ ls) = let rest = of_kind test ls in if test l.matcher then l ∷ rest else rest

  module _ (part : LocSet Regex S → List (Location Regex S)) (test : LocMatch Regex → Bool)
      (step : (l : Location Regex S) (m : LocMatch Regex) (set : LocSet Regex S)
        → part (group l m set) ≡ part set ++ (if test m then l ∷ [] else [])) where
    group_all-part :
        (ls : List (Location Regex S)) (set : LocSet Regex S)
        → part (group_all ls set) ≡ part set ++ of_kind test ls
    unfolding group_all of_kind
    group_all-part [] set = sym (append-nil (part set))
    group_all-part (l ∷ ls) set =
        let ih = group_all-part ls (group l l.matcher set) in
        ih
        ∙ ap (λ t. t ++ of_kind test ls) (step l l.matcher set)
        ∙ elim (Bool-cases (test l.matcher)) [
          | inl e ↦ rw e (append_assoc (part set) (l ∷ []) (of_kind test ls))
          | inr e ↦ rw e (ap (λ t. t ++ of_kind test ls) (append-nil (part set)))
        ]

  exact_step :
      (l : Location Regex S) (m : LocMatch Regex) (set : LocSet Regex S)
      → (group l m set).exact ≡ set.exact ++ (if is_exact m then l ∷ [] else [])
  unfolding group is_exact
  exact_step l (exact p) set = refl
  exact_step l (prefix p) set = sym (append-nil set.exact)
  exact_step l (prefix_no_regex p) set = sym (append-nil set.exact)
  exact_step l (regex re ci) set = sym (append-nil set.exact)
  exact_step l (named n) set = sym (append-nil set.exact)

  prefix_step :
      (l : Location Regex S) (m : LocMatch Regex) (set : LocSet Regex S)
      → (group l m set).prefix ≡ set.prefix ++ (if is_prefix m then l ∷ [] else [])
  unfolding group is_prefix
  prefix_step l (exact p) set = sym (append-nil set.prefix)
  prefix_step l (prefix p) set = refl
  prefix_step l (prefix_no_regex p) set = refl
  prefix_step l (regex re ci) set = sym (append-nil set.prefix)
  prefix_step l (named n) set = sym (append-nil set.prefix)

  regex_step :
      (l : Location Regex S) (m : LocMatch Regex) (set : LocSet Regex S)
      → (group l m set).regex ≡ set.regex ++ (if is_regex m then l ∷ [] else [])
  unfolding group is_regex
  regex_step l (exact p) set = sym (append-nil set.regex)
  regex_step l (prefix p) set = sym (append-nil set.regex)
  regex_step l (prefix_no_regex p) set = sym (append-nil set.regex)
  regex_step l (regex re ci) set = refl
  regex_step l (named n) set = sym (append-nil set.regex)

  pub group_all-exact :
      (ls : List (Location Regex S)) → (group_all ls empty_set).exact ≡ of_kind is_exact ls
  group_all-exact ls = group_all-part (λ s. s.exact) is_exact exact_step ls empty_set

  pub group_all-prefix :
      (ls : List (Location Regex S)) → (group_all ls empty_set).prefix ≡ of_kind is_prefix ls
  group_all-prefix ls = group_all-part (λ s. s.prefix) is_prefix prefix_step ls empty_set

  pub group_all-regex :
      (ls : List (Location Regex S)) → (group_all ls empty_set).regex ≡ of_kind is_regex ls
  group_all-regex ls = group_all-part (λ s. s.regex) is_regex regex_step ls empty_set

  -- What holds of the locations holds of those of a kind, which are of that kind, and back.
  module _ (P : Location Regex S → Type 0) (test : LocMatch Regex → Bool) where
    pub of_kind-All :
        (ls : List (Location Regex S))
        → All P ls
        → All (λ l. P l × (test l.matcher ≡ true)) (of_kind test ls)
    unfolding of_kind
    of_kind-All [] _ = tt
    of_kind-All (l ∷ ls) (p, h) =
        let ih = of_kind-All ls h in
        elim (Bool-cases (test l.matcher)) [ inl e ↦ rw e ((p, e), ih) | inr e ↦ rw e ih ]

    pub of_kind-back :
        (ls : List (Location Regex S))
        → All P (of_kind test ls)
        → All (λ l. test l.matcher ≡ true → P l) ls
    unfolding of_kind
    of_kind-back [] _ = tt
    of_kind-back (l ∷ ls) h = elim (Bool-cases (test l.matcher)) [
      | inl e ↦ let (p, later) = rw e at h in (λ _. p, of_kind-back ls later)
      | inr e ↦ (λ q. absurd (ground arith), of_kind-back ls (rw e at h))
    ]

  -- A location stands in the list.
  pub IsIn : List (Location Regex S) → Location Regex S → Type 0
  IsIn ls l = (i : ℕ) × (get_elem? ls i ≡ some l)

  pub All-IsIn : (ls : List (Location Regex S)) → All (IsIn ls) ls
  unfolding IsIn
  All-IsIn [] = tt
  All-IsIn (l ∷ ls) = ((0, refl), All-map (λ y (i, e). (suc i, e)) ls (All-IsIn ls))
