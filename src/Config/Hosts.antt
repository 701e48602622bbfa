-- ===== src/Config/Hosts.antt =====
-- src/config/model.rs: the server of a listener that a request's `Host` selects. A server's settings
-- are of any type `C`; regular expressions, which a library matches, are of any type `Regex`.
pub mod Wildcards
pub mod Longest
pub mod Precedence
mod Examples
use oxi_serve.Base.{
  ℕ, zero, suc, ◌+◌, ◌-◌, Bool, true, false, ◌&&◌, List, [], ◌∷◌, ◌++◌, Option, none, some,
}
use oxi_serve.Base.{leb, ltb, ◌==◌, if◌then◌else◌, get_elem?, length, take, drop}
use oxi_serve.Base.Bytes.{Bytes}

pub data ServerName (Regex : Type 0) : Type 0 where
  exact leading_wildcard trailing_wildcard : Bytes → ServerName Regex
  regex : Regex → ServerName Regex
  empty : ServerName Regex

pub record Server (Regex C : Type 0) : Type 0 where
  pub names : List (ServerName Regex)
  pub conf : C

pub record Listener (Regex C : Type 0) : Type 0 where
  pub servers : List (Server Regex C)
  pub default_server : ℕ

-- `to_ascii_lowercase`
unfoldable pub lower : ℕ → ℕ
lower c = if leb 65 c && leb c 90 then c + 32 else c

unfoldable pub eq_ignore_ascii_case : Bytes → Bytes → Bool
eq_ignore_ascii_case [] [] = true
eq_ignore_ascii_case [] (y ∷ ys) = false
eq_ignore_ascii_case (x ∷ xs) [] = false
eq_ignore_ascii_case (x ∷ xs) (y ∷ ys) =
    let rest = eq_ignore_ascii_case xs ys in if lower x == lower y then rest else false

-- `trim_end_matches('.')`; 46 is the dot.
unfoldable pub trim_dot : ℕ → Bytes → Bytes
trim_dot c (d ∷ rest) = c ∷ d ∷ rest
trim_dot c [] = if c == 46 then [] else c ∷ []

unfoldable pub trim_end_dots : Bytes → Bytes
trim_end_dots [] = []
trim_end_dots (c ∷ rest) = trim_dot c (trim_end_dots rest)

unfoldable pub is_dot : Option ℕ → Bool
is_dot none = false
is_dot (some c) = c == 46

unfoldable pub leads : Bytes → Bytes → Bool
unfolding is_dot
leads host suffix =
    if ltb (length suffix) (length host)
    then is_dot (get_elem? host (length host - length suffix - 1))
      && eq_ignore_ascii_case (drop (length host - length suffix) host) suffix
    else false

unfoldable pub trails : Bytes → Bytes → Bool
unfolding is_dot
trails host pre =
    if ltb (length pre) (length host)
    then is_dot (get_elem? host (length pre)) && eq_ignore_ascii_case (take (length pre) host) pre
    else false

-- Of the names so far, a server that answers at once, or the longest wildcards.
pub data Scan (C : Type 0) : Type 0 where
  answer : C → Scan C
  best : Option (ℕ × C) → Option (ℕ × C) → Scan C

-- A wildcard that matches replaces a shorter one.
unfoldable pub replace : {C : Type 0} → Bool → ℕ → C → Option (ℕ × C) → Option (ℕ × C)
replace false n c old = old
replace true n c none = some (n, c)
replace true n c (some (l, s)) = if ltb l n then some (n, c) else some (l, s)

unfoldable pub any_regex :
    {Regex : Type 0} → (Regex → Bytes → Bool) → Bytes → List (ServerName Regex) → Bool
any_regex is_match host [] = false
any_regex is_match host (regex re ∷ ns) =
    let rest = any_regex is_match host ns in if is_match re host then true else rest
any_regex is_match host (exact e ∷ ns) = any_regex is_match host ns
any_regex is_match host (leading_wildcard e ∷ ns) = any_regex is_match host ns
any_regex is_match host (trailing_wildcard e ∷ ns) = any_regex is_match host ns
any_regex is_match host (empty ∷ ns) = any_regex is_match host ns

unfoldable pub then_scan :
    {C : Type 0} → Scan C → (Option (ℕ × C) → Option (ℕ × C) → Scan C) → Scan C
then_scan (answer c) next = answer c
then_scan (best lead trail) next = next lead trail

module _ {Regex C : Type 0} where
  unfoldable pub scan_names :
      Bytes → C → List (ServerName Regex) → Option (ℕ × C) → Option (ℕ × C) → Scan C
  scan_names host c [] lead trail = best lead trail
  scan_names host c (exact e ∷ ns) lead trail =
      let rest = scan_names host c ns lead trail in
      if eq_ignore_ascii_case host e then answer c else rest
  scan_names host c (leading_wildcard suffix ∷ ns) lead trail =
      scan_names host c ns (replace (leads host suffix) (length suffix) c lead) trail
  scan_names host c (trailing_wildcard pre ∷ ns) lead trail =
      scan_names host c ns lead (replace (trails host pre) (length pre) c trail)
  scan_names host c (empty ∷ ns) lead trail =
      let rest = scan_names host c ns lead trail in elim host [ [] ↦ answer c | ◌∷◌ x xs ↦ rest ]
  scan_names host c (regex re ∷ ns) lead trail = scan_names host c ns lead trail

  unfoldable pub scan_servers :
      Bytes → List (Server Regex C) → Option (ℕ × C) → Option (ℕ × C) → Scan C
  scan_servers host [] lead trail = best lead trail
  scan_servers host (s ∷ ss) lead trail =
      then_scan (scan_names host s.conf s.names lead trail) (scan_servers host ss)

  unfoldable pub conf_of : Option (Server Regex C) → Option C
  conf_of none = none
  conf_of (some s) = some s.conf

  module _ (is_match : Regex → Bytes → Bool) where
    unfoldable pub by_regex : Bytes → List (Server Regex C) → Option C → Option C
    by_regex host [] default = default
    by_regex host (s ∷ ss) default =
        let rest = by_regex host ss default in
        if any_regex is_match host s.names then some s.conf else rest

    unfoldable pub decide : Bytes → Listener Regex C → Scan C → Option C
    unfolding conf_of
    decide host l (answer c) = some c
    decide host l (best (some (n, c)) trail) = some c
    decide host l (best none (some (n, c))) = some c
    decide host l (best none none) =
        by_regex host l.servers (conf_of (get_elem? l.servers l.default_server))

    -- No result where the code's index of the default server is out of bounds.
    unfoldable pub match_host : Listener Regex C → Bytes → Option C
    unfolding decide
    match_host l host =
        let host = trim_end_dots host in decide host l (scan_servers host l.servers none none)
