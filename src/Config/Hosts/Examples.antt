-- ===== src/Config/Hosts/Examples.antt =====
-- src/config/model.rs: runs of the choice of a server, and its theorem at a concrete input.
use oxi_serve.Base.{ℕ, ◌≡◌, refl, [], ◌∷◌, some, Bool}
use oxi_serve.Base.Bytes.{Bytes, codes}
use oxi_serve.Config.Hosts.{
  exact, leading_wildcard, trailing_wildcard, regex, Listener, lower, eq_ignore_ascii_case,
  trim_dot, trim_end_dots, leads, trails, replace, scan_names, then_scan, scan_servers, any_regex,
  by_regex, conf_of, decide, match_host,
}
use oxi_serve.Config.Hosts.Precedence.{precedence, match_host-precedence}

abbrev listener : Listener Bytes ℕ
listener = record {
  servers =
      record { names = regex (codes "r") ∷ []; conf = 1 }
      ∷ record {
        names = leading_wildcard (codes "example.com") ∷ trailing_wildcard (codes "www") ∷ [];
        conf = 2;
      }
      ∷ record {
        names = leading_wildcard (codes "a.example.com") ∷ exact (codes "example.org") ∷ [];
        conf = 3;
      }
      ∷ record { names = []; conf = 4 }
      ∷ [];
  default_server = 3;
}

-- A regular expression that is the whole host stands for one.
abbrev whole : Bytes → Bytes → Bool
whole re host = eq_ignore_ascii_case re host

-- The longest wildcard, the exact name, and the default: a leading wildcard does not match the bare
-- domain.
match_host_run :
    (match_host whole listener (codes "B.A.example.com.") ≡ some 3)
    × ((match_host whole listener (codes "Example.ORG") ≡ some 3)
        × ((match_host whole listener (codes "www.x") ≡ some 2)
            × ((match_host whole listener (codes "R") ≡ some 1)
                × (match_host whole listener (codes "example.com") ≡ some 4))))
unfolding match_host lower eq_ignore_ascii_case trim_dot trim_end_dots leads trails replace
    scan_names then_scan scan_servers any_regex by_regex conf_of decide
match_host_run = (refl, (refl, (refl, (refl, refl))))

match_host-precedence_example :
    match_host whole listener (codes "b.a.example.com.")
    ≡ precedence whole listener (trim_end_dots (codes "b.a.example.com."))
match_host-precedence_example = match_host-precedence whole listener (codes "b.a.example.com.")
