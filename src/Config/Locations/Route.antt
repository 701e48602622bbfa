-- ===== src/Config/Locations/Route.antt =====
-- src/config/model.rs and src/config/build.rs: the location that a path reaches, from the order in
-- which the configuration writes the locations.
use Prim.Native.Nat.{Ordering}
use oxi_serve.Base.{Bool, true, false, Option-cases, inl, inr, if◌then◌else◌}
use oxi_serve.Config.Locations.{
  with_captures, captures_of, first_regex, prefix, prefix_no_regex, regex, named, plain, or_plain,
  skips_regexes,
}
use oxi_serve.Base.{
  suc, ◌+◌, true, List, [], ◌∷◌, ◌≡◌, ◌≢◌, refl, ap, ◌∙◌, All, Option, some, none, length, arith,
  if◌then◌else◌,
}
use oxi_serve.Base.Bytes.{Bytes}
use oxi_serve.Config.Locations.{
  Location, LocMatch, exact, prefix, prefix_no_regex, regex, named, cmp, search, prefix_of,
  path_order, first_regex, skips_regexes, plain, or_plain, after_exact, find, loc_set, sort_by,
}
use oxi_serve.Config.Locations.Groups.{
  is_exact, of_kind, of_kind-All, of_kind-back, IsIn, All-IsIn, group_all-exact, group_all-prefix,
  group_all-regex,
}
use oxi_serve.Config.Locations.Sort.{All-map, sort_by-All, sort_by-back, sort_by-IsSorted}
use oxi_serve.Config.Locations.Order.{cmp_refl, cmp-eq}
use oxi_serve.Config.Locations.Search.{path_order_trans, path_order_total}
use oxi_serve.Config.Locations.Search.{IsMissed, search_complete, search-found}
use oxi_serve.Config.Locations.Longest.{longest, first_prefix-sort_by, first_regex-of_kind}

-- A prefix that is marked to skip regular expressions.
unfoldable pub is_marked : {Regex : Type 0} → LocMatch Regex → Bool
is_marked (exact p) = false
is_marked (prefix p) = false
is_marked (prefix_no_regex p) = true
is_marked (regex re ci) = false
is_marked (named n) = false

unfoldable pub or_later : {A : Type 0} → Option A → Option A → Option A
or_later none later = later
or_later (some a) later = some a

module _ {Regex S : Type 0} where
  matcher_exact :
      (m : LocMatch Regex) (s : S)
      → is_exact m ≡ true
      → m ≡ exact (prefix_of (record { matcher = m; settings = s }))
  unfolding is_exact prefix_of
  matcher_exact (exact p) s h = refl
  matcher_exact (prefix p) s h = ground arith
  matcher_exact (prefix_no_regex p) s h = ground arith
  matcher_exact (regex re ci) s h = ground arith
  matcher_exact (named n) s h = ground arith

  -- A location of the list that is exactly the path.
  pub IsExact : List (Location Regex S) → Bytes → Location Regex S → Type 0
  IsExact locs uri l = IsIn locs l × (l.matcher ≡ exact uri)

  found-IsExact :
      (locs : List (Location Regex S)) (uri : Bytes) (l : Location Regex S)
      → (IsIn locs l × (is_exact l.matcher ≡ true)) × (cmp (prefix_of l) uri ≡ Ordering.eq)
      → IsExact locs uri l
  unfolding IsExact
  found-IsExact locs uri l ((i, e), c) =
      (i, matcher_exact l.matcher l.settings e ∙ ap exact (cmp-eq (prefix_of l) uri c))

  exact_missed :
      (uri : Bytes) (l : Location Regex S)
      → (is_exact l.matcher ≡ true → cmp (prefix_of l) uri ≢ Ordering.eq)
      → l.matcher ≢ exact uri
  unfolding is_exact prefix_of
  exact_missed uri l h e = h (rw e refl) (rw e (cmp_refl uri))

  All-IsMissed :
      (uri : Bytes) (ls : List (Location Regex S))
      → IsMissed uri ls
      → All (λ l. cmp (prefix_of l) uri ≢ Ordering.eq) ls
  unfolding IsMissed
  All-IsMissed uri [] h = tt
  All-IsMissed uri (l ∷ ls) h = (h 0 l refl, All-IsMissed uri ls (λ i. h (suc i)))

  -- The search in the sorted exact locations finds one that is the path, if one is.
  data Exact (locs : List (Location Regex S)) (uri : Bytes)
      : Option (Location Regex S) → Type 0 where
    hit : (l : Location Regex S) → IsExact locs uri l → Exact locs uri (some l)
    miss : All (λ l. l.matcher ≢ exact uri) locs → Exact locs uri none

  search-Exact :
      (locs : List (Location Regex S)) (uri : Bytes) (r : Option (Location Regex S))
      → let ls = sort_by path_order (of_kind is_exact locs) in
        search uri (length ls + 1) 0 (length ls) ls ≡ r → Exact locs uri r
  search-Exact locs uri none e =
      let ls = sort_by path_order (of_kind is_exact locs) in
      let missed =
        search_complete uri ls
          (sort_by-IsSorted path_order path_order_trans path_order_total (of_kind is_exact locs))
          e in
      let kind =
        sort_by-back (λ l. cmp (prefix_of l) uri ≢ Ordering.eq) path_order (of_kind is_exact locs)
          (All-IsMissed uri ls missed) in
      miss (
        All-map (λ l. exact_missed uri l) locs
          (of_kind-back (λ l. cmp (prefix_of l) uri ≢ Ordering.eq) is_exact locs kind))
  search-Exact locs uri (some l) e =
      let ls = sort_by path_order (of_kind is_exact locs) in
      let P = λ (l : Location Regex S). IsIn locs l × (is_exact l.matcher ≡ true) in
      let inside =
        sort_by-All P path_order (of_kind is_exact locs)
          (of_kind-All (IsIn locs) is_exact locs (All-IsIn locs)) in
      hit l
        (found-IsExact locs uri l (search-found uri P (length ls + 1) 0 (length ls) ls l inside e))

  module _ {Captures : Type 0} (captures : Regex → Bytes → Option Captures) where
    -- One location as a regular expression, with its captures.
    unfoldable pub matched :
        Location Regex S → LocMatch Regex → Bytes → Option (Location Regex S × Option Captures)
    matched l (exact p) uri = none
    matched l (prefix p) uri = none
    matched l (prefix_no_regex p) uri = none
    matched l (regex re ci) uri = elim (captures re uri) [ none ↦ none | some c ↦ some (l, some c) ]
    matched l (named n) uri = none

    -- The first regular expression that matches.
    unfoldable pub first_matched :
        List (Location Regex S) → Bytes → Option (Location Regex S × Option Captures)
    first_matched [] uri = none
    first_matched (l ∷ ls) uri = or_later (matched l l.matcher uri) (first_matched ls uri)

    -- The documented order on the list as the configuration writes it, behind the exact match.
    unfoldable pub by_prefix :
        List (Location Regex S)
        → Bytes
        → Option (Location Regex S)
        → Option (Location Regex S × Option Captures)
    by_prefix locs uri none = first_matched locs uri
    by_prefix locs uri (some best) =
        if is_marked best.matcher
        then some (best, none)
        else or_later (first_matched locs uri) (some (best, none))

    unfoldable pub direct :
        List (Location Regex S) → Bytes → Option (Location Regex S × Option Captures)
    direct locs uri = by_prefix locs uri (longest uri locs)

    matched-captures :
        (l : Location Regex S) (m : LocMatch Regex) (uri : Bytes)
        (later : Option (Location Regex S × Option Captures))
        → with_captures l (captures_of captures m uri) later ≡ or_later (matched l m uri) later
    unfolding with_captures captures_of matched or_later
    matched-captures l (exact p) uri later = refl
    matched-captures l (prefix p) uri later = refl
    matched-captures l (prefix_no_regex p) uri later = refl
    matched-captures l (named n) uri later = refl
    matched-captures l (regex re ci) uri later = elim (Option-cases (captures re uri)) [
      | inl e ↦ rw (matched, e) refl
      | inr (c, e) ↦ rw (matched, e) refl
    ]

    first_regex-first_matched :
        (locs : List (Location Regex S)) (uri : Bytes)
        → first_regex captures uri locs ≡ first_matched locs uri
    unfolding first_regex first_matched
    first_regex-first_matched [] uri = refl
    first_regex-first_matched (l ∷ ls) uri =
        ap (with_captures l (captures_of captures l.matcher uri)) (first_regex-first_matched ls uri)
        ∙ matched-captures l l.matcher uri (first_matched ls uri)

    skips-marked :
        (best : Location Regex S) (m : LocMatch Regex)
        → best.matcher ≡ m
        → skips_regexes (some best) ≡ is_marked m
    unfolding skips_regexes is_marked
    skips-marked best (exact p) e = rw e refl
    skips-marked best (prefix p) e = rw e refl
    skips-marked best (prefix_no_regex p) e = rw e refl
    skips-marked best (regex re ci) e = rw e refl
    skips-marked best (named n) e = rw e refl

    or_plain-or_later :
        (r : Option (Location Regex S × Option Captures)) (best : Location Regex S)
        → or_plain r (some best) ≡ or_later r (some (best, none))
    unfolding or_plain plain or_later
    or_plain-or_later none best = refl
    or_plain-or_later (some a) best = refl

    or_plain-none : (r : Option (Location Regex S × Option Captures)) → or_plain r none ≡ r
    unfolding or_plain plain
    or_plain-none none = refl
    or_plain-none (some a) = refl

    by_prefix-none :
        (locs : List (Location Regex S)) (uri : Bytes)
        → (if skips_regexes {Regex = Regex} {S = S} none
            then plain none
            else or_plain (first_regex captures uri locs) none)
          ≡ first_matched locs uri
    unfolding skips_regexes
    by_prefix-none locs uri =
        rw (first_regex-first_matched locs uri) (or_plain-none (first_matched locs uri))

    by_prefix-lem :
        (locs : List (Location Regex S)) (uri : Bytes) (best : Option (Location Regex S))
        → (if skips_regexes best then plain best else or_plain (first_regex captures uri locs) best)
          ≡ by_prefix locs uri best
    unfolding by_prefix plain
    by_prefix-lem locs uri none = by_prefix-none locs uri
    by_prefix-lem locs uri (some best) =
        rw
          (
            first_regex-first_matched locs uri,
            skips-marked best best.matcher refl,
            or_plain-or_later (first_matched locs uri) best,
          )
          refl

    pub data Route (locs : List (Location Regex S)) (uri : Bytes)
        : Option (Location Regex S × Option Captures) → Type 0 where
      by_exact : (l : Location Regex S) → IsExact locs uri l → Route locs uri (some (l, none))
      by_pattern : All (λ l. l.matcher ≢ exact uri) locs → Route locs uri (direct locs uri)

    after_exact-direct :
        (locs : List (Location Regex S)) (uri : Bytes)
        → after_exact captures (loc_set locs) uri none ≡ direct locs uri
    unfolding after_exact loc_set direct
    after_exact-direct locs uri =
        rw
          (
            group_all-prefix locs,
            group_all-regex locs,
            first_prefix-sort_by uri locs,
            first_regex-of_kind captures uri locs,
          )
          (by_prefix-lem locs uri (longest uri locs))

    loc_set-exact :
        (locs : List (Location Regex S))
        → (loc_set locs).exact ≡ sort_by path_order (of_kind is_exact locs)
    unfolding loc_set
    loc_set-exact locs = ap (sort_by path_order) (group_all-exact locs)

    after_exact-Route :
        (locs : List (Location Regex S)) (uri : Bytes) (r : Option (Location Regex S))
        → Exact locs uri r
        → Route locs uri (after_exact captures (loc_set locs) uri r)
    unfolding after_exact
    after_exact-Route locs uri _ (hit l h) = by_exact l h
    after_exact-Route locs uri _ (miss h) = rw (after_exact-direct locs uri) (by_pattern h)

    -- The location that `find` returns for a path, from the sets that `loc_set` builds of a
    -- configuration's locations: one that is exactly the path, where the configuration has one;
    -- else, where the longest prefix is marked to skip regular expressions, that one; else the first
    -- regular expression in the order of the configuration that matches, with its captures; else the
    -- longest prefix, the first of its length; else none.
    pub find-Route :
        (locs : List (Location Regex S)) (uri : Bytes)
        → Route locs uri (find captures (loc_set locs) uri)
    unfolding find
    find-Route locs uri =
        rw (loc_set-exact locs) (after_exact-Route locs uri _ (search-Exact locs uri _ refl))
