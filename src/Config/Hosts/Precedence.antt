-- ===== src/Config/Hosts/Precedence.antt =====
-- src/config/model.rs: the server that `match_host` selects, from the names in the order in which the
-- servers of the listener have them.
use oxi_serve.Base.{
  ℕ, Bool, true, false, List, [], ◌∷◌, ◌++◌, ◌≡◌, refl, sym, ap, ◌∙◌, inl, inr, Bool-cases, Option,
  none, some, Option-cases,
}
use oxi_serve.Base.{if◌then◌else◌, get_elem?, length}
use oxi_serve.Base.Bytes.{Bytes}
use oxi_serve.Config.Hosts.Longest.{
  combine, candidate, combine_assoc, of_best, or_else, first, longest, first-append, longest-append,
}
use oxi_serve.Config.Hosts.Wildcards.{is_subdomain, begins, leads_lem, trails_lem}
use oxi_serve.Config.Hosts.{
  ServerName, exact, leading_wildcard, trailing_wildcard, regex, empty, Server, Listener, Scan,
  answer, best, leads, trails, replace, scan_names, then_scan, scan_servers, any_regex, by_regex,
  conf_of, decide, match_host, eq_ignore_ascii_case, trim_end_dots,
}

-- The tests of one name --------------------------------------------------------------------------
unfoldable pub answers : {Regex : Type 0} → Bytes → ServerName Regex → Bool
answers host (exact e) = eq_ignore_ascii_case host e
answers host (leading_wildcard e) = false
answers host (trailing_wildcard e) = false
answers host (regex re) = false
answers host empty = elim host [ [] ↦ true | ◌∷◌ x xs ↦ false ]

unfoldable pub leading : {Regex : Type 0} → Bytes → ServerName Regex → Option ℕ
leading host (exact e) = none
leading host (leading_wildcard e) = if is_subdomain host e then some (length e) else none
leading host (trailing_wildcard e) = none
leading host (regex re) = none
leading host empty = none

unfoldable pub trailing : {Regex : Type 0} → Bytes → ServerName Regex → Option ℕ
trailing host (exact e) = none
trailing host (leading_wildcard e) = none
trailing host (trailing_wildcard e) = if begins host e then some (length e) else none
trailing host (regex re) = none
trailing host empty = none

unfoldable pub matches : {Regex : Type 0} → (Regex → Bytes → Bool) → Bytes → ServerName Regex → Bool
matches is_match host (exact e) = false
matches is_match host (leading_wildcard e) = false
matches is_match host (trailing_wildcard e) = false
matches is_match host (regex re) = is_match re host
matches is_match host empty = false

-- The scan of the names ----------------------------------------------------------------------------
module _ {C : Type 0} where
  result : Option C → Option (ℕ × C) → Option (ℕ × C) → Scan C
  result none lead trail = best lead trail
  result (some c) lead trail = answer c

  replace_lem :
      (b : Bool) (n : ℕ) (c : C) (old : Option (ℕ × C))
      → replace b n c old ≡ combine old (candidate (if b then some n else none) c)
  unfolding replace combine candidate
  replace_lem false n c none = refl
  replace_lem false n c (some a) = refl
  replace_lem true n c none = refl
  replace_lem true n c (some (l, s)) = refl

  combine-none : (o : Option (ℕ × C)) → combine o none ≡ o
  unfolding combine
  combine-none none = refl
  combine-none (some a) = refl

module _ {C : Type 0} where
  result-nil :
      (lead trail : Option (ℕ × C))
      → best lead trail ≡ result none (combine lead none) (combine trail none)
  unfolding result
  result-nil lead trail = rw (combine-none lead, combine-none trail) refl

module _ {Regex C : Type 0} where
  -- Each name with its server.
  unfoldable pub tagged : C → List (ServerName Regex) → List (ServerName Regex × C)
  tagged c [] = []
  tagged c (n ∷ ns) = (n, c) ∷ tagged c ns

  unfoldable pub entries : List (Server Regex C) → List (ServerName Regex × C)
  entries [] = []
  entries (s ∷ ss) = tagged s.conf s.names ++ entries ss

  outcome : Bytes → List (ServerName Regex × C) → Option (ℕ × C) → Option (ℕ × C) → Scan C
  outcome host es lead trail =
      result (first (answers host) es) (combine lead (longest (leading host) es))
        (combine trail (longest (trailing host) es))

  outcome_cons :
      (host : Bytes) (n : ServerName Regex) (c : C) (es : List (ServerName Regex × C))
      (lead trail : Option (ℕ × C))
      → outcome host ((n, c) ∷ es) lead trail ≡ (
          if answers host n
          then answer c
          else outcome host es
              (combine lead (candidate (leading host n) c))
              (combine trail (candidate (trailing host n) c)))
  unfolding outcome first longest result
  outcome_cons host n c es lead trail = elim (Bool-cases (answers host n)) [
    | inl e ↦ rw e refl
    | inr e ↦
        rw
          (
            e,
            combine_assoc lead (candidate (leading host n) c) (longest (leading host) es),
            combine_assoc trail (candidate (trailing host n) c) (longest (trailing host) es),
          )
          refl
  ]

  outcome-pass :
      (host : Bytes) (n : ServerName Regex) (c : C) (es : List (ServerName Regex × C))
      (lead trail : Option (ℕ × C))
      → leading host n ≡ none
      → trailing host n ≡ none
      → outcome host ((n, c) ∷ es) lead trail
        ≡ (if answers host n then answer c else outcome host es lead trail)
  unfolding candidate
  outcome-pass host n c es lead trail l t =
      rw (outcome_cons host n c es lead trail, l, t, combine-none lead, combine-none trail) refl

  scan_names-outcome :
      (host : Bytes) (c : C) (ns : List (ServerName Regex)) (lead trail : Option (ℕ × C))
      → scan_names host c ns lead trail ≡ outcome host (tagged c ns) lead trail
  unfolding scan_names tagged answers leading trailing outcome result first combine candidate
      longest
  scan_names-outcome host c [] lead trail = result-nil lead trail
  scan_names-outcome host c (exact e ∷ ns) lead trail =
      let ih = scan_names-outcome host c ns lead trail in
      rw (ih, outcome-pass host (exact e) c (tagged c ns) lead trail refl refl) refl
  scan_names-outcome host c (leading_wildcard e ∷ ns) lead trail =
      let ih = scan_names-outcome host c ns (replace (leads host e) (length e) c lead) trail in
      ih
      ∙ rw
          (
            replace_lem (leads host e) (length e) c lead,
            leads_lem host e,
            outcome_cons host (leading_wildcard e) c (tagged c ns) lead trail,
            combine-none trail,
          )
          refl
  scan_names-outcome host c (trailing_wildcard e ∷ ns) lead trail =
      let ih = scan_names-outcome host c ns lead (replace (trails host e) (length e) c trail) in
      ih
      ∙ rw
          (
            replace_lem (trails host e) (length e) c trail,
            trails_lem host e,
            outcome_cons host (trailing_wildcard e) c (tagged c ns) lead trail,
            combine-none lead,
          )
          refl
  scan_names-outcome host c (regex re ∷ ns) lead trail =
      let ih = scan_names-outcome host c ns lead trail in
      ih ∙ sym (outcome-pass host (regex re) c (tagged c ns) lead trail refl refl)
  scan_names-outcome [] c (empty ∷ ns) lead trail =
      sym (outcome-pass [] empty c (tagged c ns) lead trail refl refl)
  scan_names-outcome (x ∷ host) c (empty ∷ ns) lead trail =
      let ih = scan_names-outcome (x ∷ host) c ns lead trail in
      ih ∙ sym (outcome-pass (x ∷ host) empty c (tagged c ns) lead trail refl refl)

  -- The scan of the servers, and the regular expressions -----------------------------------------
  outcome-append :
      (host : Bytes) (xs ys : List (ServerName Regex × C)) (lead trail : Option (ℕ × C))
      → outcome host (xs ++ ys) lead trail
        ≡ then_scan (outcome host xs lead trail) (outcome host ys)
  unfolding outcome then_scan result or_else
  outcome-append host xs ys lead trail =
      rw
        (
          first-append (answers host) xs ys,
          longest-append (leading host) xs ys,
          longest-append (trailing host) xs ys,
        )
        (elim (Option-cases (first (answers host) xs)) [
          | inl e ↦
              rw
                (
                  e,
                  combine_assoc lead (longest (leading host) xs) (longest (leading host) ys),
                  combine_assoc trail (longest (trailing host) xs) (longest (trailing host) ys),
                )
                refl
          | inr (c, e) ↦ rw e refl
        ])

  scan_servers-outcome :
      (host : Bytes) (ss : List (Server Regex C)) (lead trail : Option (ℕ × C))
      → scan_servers host ss lead trail ≡ outcome host (entries ss) lead trail
  unfolding scan_servers entries outcome first longest
  scan_servers-outcome host [] lead trail = result-nil lead trail
  scan_servers-outcome host (s ∷ ss) lead trail =
      rw
        (
          scan_names-outcome host s.conf s.names lead trail,
          outcome-append host (tagged s.conf s.names) (entries ss) lead trail,
        )
        (ap (then_scan (outcome host (tagged s.conf s.names) lead trail))
          (λ i l t. scan_servers-outcome host ss l t i))

  module _ (is_match : Regex → Bytes → Bool) where
    any_regex-first :
        (host : Bytes) (c : C) (ns : List (ServerName Regex))
        → first (matches is_match host) (tagged c ns)
          ≡ (if any_regex is_match host ns then some c else none)
    unfolding first matches tagged any_regex
    any_regex-first host c [] = refl
    any_regex-first host c (exact e ∷ ns) = any_regex-first host c ns
    any_regex-first host c (leading_wildcard e ∷ ns) = any_regex-first host c ns
    any_regex-first host c (trailing_wildcard e ∷ ns) = any_regex-first host c ns
    any_regex-first host c (empty ∷ ns) = any_regex-first host c ns
    any_regex-first host c (regex re ∷ ns) =
        let ih = any_regex-first host c ns in
        elim (Bool-cases (is_match re host)) [ inl e ↦ rw e refl | inr e ↦ rw e ih ]

    by_regex-first :
        (host : Bytes) (ss : List (Server Regex C)) (default : Option C)
        → by_regex is_match host ss default
          ≡ or_else (first (matches is_match host) (entries ss)) default
    unfolding by_regex entries first or_else
    by_regex-first host [] default = refl
    by_regex-first host (s ∷ ss) default =
        let ih = by_regex-first host ss default in
        rw
          (
            first-append (matches is_match host) (tagged s.conf s.names) (entries ss),
            any_regex-first host s.conf s.names,
          )
          (elim (Bool-cases (any_regex is_match host s.names)) [
            | inl e ↦ rw e refl
            | inr e ↦ rw e ih
          ])

    -- The order of precedence, on the list of all names with their servers.
    unfoldable pub precedence : Listener Regex C → Bytes → Option C
    precedence l host =
        let es = entries l.servers in
        or_else (first (answers host) es) (
          or_else (of_best (longest (leading host) es)) (
            or_else (of_best (longest (trailing host) es)) (
              or_else (first (matches is_match host) es)
                (conf_of (get_elem? l.servers l.default_server)))))

    decide-precedence :
        (host : Bytes) (l : Listener Regex C)
        → decide is_match host l (outcome host (entries l.servers) none none) ≡ precedence l host
    unfolding precedence decide outcome result or_else of_best combine
    decide-precedence host l = elim (Option-cases (first (answers host) (entries l.servers))) [
      | inr (c, e) ↦ rw e refl
      | inl e ↦ elim (Option-cases (longest (leading host) (entries l.servers))) [
        | inr ((n, c), f) ↦ rw (e, f) refl
        | inl f ↦ elim (Option-cases (longest (trailing host) (entries l.servers))) [
          | inr ((n, c), g) ↦ rw (e, f, g) refl
          | inl g ↦
              rw (e, f, g)
                (by_regex-first host l.servers (conf_of (get_elem? l.servers l.default_server)))
        ]
      ]
    ]

    -- For any listener and host, `match_host` selects the server that this order of precedence
    -- names, for the host without the dots that end it: of the first name that is the host in
    -- whatever case, or is empty where the host is; else of the longest leading wildcard `*.d` where
    -- what stands behind some dot of the host is `d`, in whatever case (which no bare `d` fulfils:
    -- `short_is_not` in Wildcards), the first of its length; else of the longest trailing wildcard
    -- `n.*` where the host begins with `n`, in whatever case, and a dot, the first of its length; else
    -- of the first regular expression that matches; else the default server.
    pub match_host-precedence :
        (l : Listener Regex C) (host : Bytes)
        → match_host is_match l host ≡ precedence l (trim_end_dots host)
    unfolding match_host
    match_host-precedence l host =
        rw (scan_servers-outcome (trim_end_dots host) l.servers none none)
          (decide-precedence (trim_end_dots host) l)
