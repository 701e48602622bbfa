-- ===== src/Config/Locations.antt =====
-- src/config/model.rs and src/config/build.rs: the locations of a server, and the search among them
-- for a path. A location's settings are of any type `S`; regular expressions, which a library
-- matches, are of any type `Regex`.
pub mod Order
pub mod Sort
pub mod Groups
pub mod Search
pub mod Longest
pub mod Route
mod Examples
use Prim.Native.Nat.{compare, Ordering}
use oxi_serve.Base.{
  ℕ, zero, suc, ◌+◌, ◌-◌, ◌/◌, Bool, true, false, List, [], ◌∷◌, ◌++◌, Option, none, some,
}
use oxi_serve.Base.{leb, ltb, ◌==◌, if◌then◌else◌, get_elem?, length}
use oxi_serve.Base.Bytes.{Bytes}

pub data LocMatch (Regex : Type 0) : Type 0 where
  exact prefix prefix_no_regex named : Bytes → LocMatch Regex
  regex : Regex → Bool → LocMatch Regex

pub record Location (Regex S : Type 0) : Type 0 where
  pub matcher : LocMatch Regex
  pub settings : S

pub record LocSet (Regex S : Type 0) : Type 0 where
  pub exact : List (Location Regex S)
  pub prefix : List (Location Regex S)
  pub regex : List (Location Regex S)
  pub named : List (Bytes × Location Regex S)

-- `<str as Ord>::cmp`
unfoldable pub cmp : Bytes → Bytes → Ordering
cmp [] [] = Ordering.eq
cmp [] (y ∷ ys) = Ordering.lt
cmp (x ∷ xs) [] = Ordering.gt
cmp (x ∷ xs) (y ∷ ys) = elim (compare x y) [
  | Ordering.lt ↦ Ordering.lt
  | Ordering.eq ↦ cmp xs ys
  | Ordering.gt ↦ Ordering.gt
]

unfoldable pub starts_with : Bytes → Bytes → Bool
starts_with s [] = true
starts_with [] (p ∷ ps) = false
starts_with (c ∷ s) (p ∷ ps) = if c == p then starts_with s ps else false

unfoldable pub not_gt : Ordering → Bool
not_gt Ordering.lt = true
not_gt Ordering.eq = true
not_gt Ordering.gt = false

-- The captures of a location that is a regular expression.
unfoldable pub captures_of :
    {Regex Captures : Type 0}
    → (Regex → Bytes → Option Captures)
    → LocMatch Regex
    → Bytes
    → Option Captures
captures_of captures (regex re ci) uri = captures re uri
captures_of captures (exact p) uri = none
captures_of captures (prefix p) uri = none
captures_of captures (prefix_no_regex p) uri = none
captures_of captures (named n) uri = none

module _ {Regex S : Type 0} where
  -- `matcher.prefix().unwrap_or("")`
  unfoldable pub prefix_of : Location Regex S → Bytes
  prefix_of l = elim l.matcher [
    | exact p ↦ p
    | prefix p ↦ p
    | prefix_no_regex p ↦ p
    | named n ↦ []
    | regex re ci ↦ []
  ]

  -- A stable sort, as of `sort_by`: an element goes before the first that it may stand before.
  unfoldable pub insert_by :
      (Location Regex S → Location Regex S → Bool)
      → Location Regex S
      → List (Location Regex S)
      → List (Location Regex S)
  insert_by le x [] = x ∷ []
  insert_by le x (y ∷ ys) =
      let later = insert_by le x ys in if le x y then x ∷ y ∷ ys else y ∷ later

  unfoldable pub sort_by :
      (Location Regex S → Location Regex S → Bool)
      → List (Location Regex S)
      → List (Location Regex S)
  sort_by le [] = []
  sort_by le (x ∷ xs) = insert_by le x (sort_by le xs)

  unfoldable pub path_order : Location Regex S → Location Regex S → Bool
  unfolding not_gt
  path_order a b = not_gt (cmp (prefix_of a) (prefix_of b))

  unfoldable pub longest_first : Location Regex S → Location Regex S → Bool
  longest_first a b = leb (length (prefix_of b)) (length (prefix_of a))

  -- Grouping -------------------------------------------------------------------------------------
  unfoldable pub group : Location Regex S → LocMatch Regex → LocSet Regex S → LocSet Regex S
  group l (exact p) set = record set { exact = set.exact ++ (l ∷ []) }
  group l (prefix p) set = record set { prefix = set.prefix ++ (l ∷ []) }
  group l (prefix_no_regex p) set = record set { prefix = set.prefix ++ (l ∷ []) }
  group l (regex re ci) set = record set { regex = set.regex ++ (l ∷ []) }
  group l (named n) set = record set { named = (n, l) ∷ set.named }

  unfoldable pub group_all : List (Location Regex S) → LocSet Regex S → LocSet Regex S
  group_all [] set = set
  group_all (l ∷ ls) set = group_all ls (group l l.matcher set)

  abbrev pub empty_set : LocSet Regex S
  empty_set = record { exact = []; prefix = []; regex = []; named = [] }

  unfoldable pub loc_set : List (Location Regex S) → LocSet Regex S
  loc_set locs =
      let set = group_all locs empty_set in
      record set { exact = sort_by path_order set.exact; prefix = sort_by longest_first set.prefix }

  -- The search -----------------------------------------------------------------------------------
  -- One look of `binary_search_by`: below, here or above.
  unfoldable pub probe :
      Bytes
      → Option (Location Regex S)
      → Option (Location Regex S)
      → Option (Location Regex S)
      → Option (Location Regex S)
  probe uri none below above = none
  probe uri (some l) below above = elim (cmp (prefix_of l) uri) [
    | Ordering.lt ↦ above
    | Ordering.eq ↦ some l
    | Ordering.gt ↦ below
  ]

  -- `binary_search_by` between `lo` and `hi`, on fuel, with the element in place of its index.
  unfoldable pub search : Bytes → ℕ → ℕ → ℕ → List (Location Regex S) → Option (Location Regex S)
  unfolding probe
  search uri zero lo hi ls = none
  search uri (suc fuel) lo hi ls =
      let mid = lo + (hi - lo) / 2 in
      let below = search uri fuel lo mid ls in
      let above = search uri fuel (mid + 1) hi ls in
      if ltb lo hi then probe uri (get_elem? ls mid) below above else none

  unfoldable pub first_prefix : Bytes → List (Location Regex S) → Option (Location Regex S)
  first_prefix uri [] = none
  first_prefix uri (l ∷ ls) =
      let later = first_prefix uri ls in if starts_with uri (prefix_of l) then some l else later

  unfoldable pub skips_regexes : Option (Location Regex S) → Bool
  skips_regexes none = false
  skips_regexes (some l) = elim l.matcher [ prefix_no_regex p ↦ true | _ ↦ false ]

  unfoldable pub with_captures :
      {Captures : Type 0}
      → Location Regex S
      → Option Captures
      → Option (Location Regex S × Option Captures)
      → Option (Location Regex S × Option Captures)
  with_captures l none later = later
  with_captures l (some c) later = some (l, some c)

  unfoldable pub plain :
      {Captures : Type 0} → Option (Location Regex S) → Option (Location Regex S × Option Captures)
  plain none = none
  plain (some l) = some (l, none)

  unfoldable pub or_plain :
      {Captures : Type 0}
      → Option (Location Regex S × Option Captures)
      → Option (Location Regex S)
      → Option (Location Regex S × Option Captures)
  unfolding plain
  or_plain none best = plain best
  or_plain (some r) best = some r

  module _ {Captures : Type 0} (captures : Regex → Bytes → Option Captures) where
    unfoldable pub first_regex :
        Bytes → List (Location Regex S) → Option (Location Regex S × Option Captures)
    unfolding with_captures
    first_regex uri [] = none
    first_regex uri (l ∷ ls) =
        with_captures l (captures_of captures l.matcher uri) (first_regex uri ls)

    -- Behind the search for an exact match.
    unfoldable pub after_exact :
        LocSet Regex S
        → Bytes
        → Option (Location Regex S)
        → Option (Location Regex S × Option Captures)
    unfolding or_plain
    after_exact set uri (some l) = some (l, none)
    after_exact set uri none =
        let best = first_prefix uri set.prefix in
        if skips_regexes best then plain best else or_plain (first_regex uri set.regex) best

    unfoldable pub find : LocSet Regex S → Bytes → Option (Location Regex S × Option Captures)
    unfolding after_exact
    find set uri =
        after_exact set uri (search uri (length set.exact + 1) 0 (length set.exact) set.exact)
