-- ===== src/Config/Locations/Examples.antt =====
-- src/config/model.rs: runs of the search for a location, and its theorem at a concrete input.
use oxi_serve.Base.{
  ℕ, ◌≡◌, refl, true, false, [], ◌∷◌, List, none, some, Option, Bool, if◌then◌else◌,
}
use oxi_serve.Base.Bytes.{Bytes, codes}
use oxi_serve.Config.Locations.{
  Location, exact, prefix, prefix_no_regex, regex, find, loc_set, starts_with, cmp, not_gt,
  prefix_of, insert_by, sort_by, path_order, longest_first, group, group_all, probe, search,
  first_prefix, skips_regexes, captures_of, with_captures, first_regex, plain, or_plain,
  after_exact,
}
use oxi_serve.Config.Locations.Route.{Route, find-Route}

-- A regular expression that is a suffix stands for one.
abbrev ends_with : Bytes → Bytes → Option Bool
ends_with re [] = none
ends_with re (c ∷ cs) = if starts_with (c ∷ cs) re then some true else ends_with re cs

abbrev locations : List (Location Bytes ℕ)
locations =
    record { matcher = prefix (codes "/"); settings = 1 }
    ∷ record { matcher = regex (codes ".php") false; settings = 2 }
    ∷ record { matcher = prefix (codes "/docs"); settings = 3 }
    ∷ record { matcher = exact (codes "/a.php"); settings = 4 }
    ∷ record { matcher = prefix_no_regex (codes "/static/"); settings = 5 }
    ∷ record { matcher = exact (codes "/"); settings = 6 }
    ∷ []

settings_of : Option (Location Bytes ℕ × Option Bool) → Option ℕ
settings_of none = none
settings_of (some (l, c)) = some l.settings

find_run :
    (settings_of (find ends_with (loc_set locations) (codes "/a.php")) ≡ some 4)
    × ((settings_of (find ends_with (loc_set locations) (codes "/docs/b.php")) ≡ some 2)
        × ((settings_of (find ends_with (loc_set locations) (codes "/static/c.php")) ≡ some 5)
            × ((settings_of (find ends_with (loc_set locations) (codes "/docs/d")) ≡ some 3)
                × (settings_of (find ends_with (loc_set locations) (codes "e")) ≡ none))))
unfolding settings_of find loc_set starts_with cmp not_gt prefix_of insert_by sort_by path_order
    longest_first group group_all probe search first_prefix skips_regexes captures_of with_captures
    first_regex plain or_plain after_exact
find_run = (refl, (refl, (refl, (refl, refl))))

find-Route_example :
    Route ends_with locations
      (codes "/docs/b.php")
      (find ends_with (loc_set locations) (codes "/docs/b.php"))
find-Route_example = find-Route ends_with locations (codes "/docs/b.php")
