-- ===== src/Server/Range/Examples.antt =====
-- src/server/files.rs: runs of the range header, and its theorems at concrete inputs.
use oxi_serve.Base.{
  ℕ, ◌+◌, ◌-◌, ◌*◌, ◌≡◌, refl, [], ◌∷◌, Option, none, some, min, ltb, ◌≢◌, ◌<◌, if◌then◌else◌,
  arith,
}
use oxi_serve.Base.Bytes.{Bytes, codes}
use oxi_serve.Server.Range.{
  unsatisfiable, one, parse_range, bounds, last_bytes, bounded, first_bytes, split_once,
  strip_prefix, has_comma,
}
use oxi_serve.Server.Range.Meaning.{IsWithin, parse_range-IsWithin}
use oxi_serve.Server.Range.Exchange.{header, IsPlain, parse_range-header}

-- Decimal digits, and nothing trimmed.
abbrev decimal : ℕ → Bytes → Option ℕ
decimal n [] = some n
decimal n (c ∷ cs) =
    let rest = decimal (n * 10 + (c - 48)) cs in
    if ltb c 48 then none else if ltb 57 c then none else rest

abbrev as_is : Bytes → Bytes
as_is h = h

parse_range-header_example :
    parse_range as_is (decimal 0) (header (codes "10") (codes "99")) 50 ≡ one 10 (min (99 + 1) 50)
unfolding header IsPlain
parse_range-header_example =
    parse_range-header as_is (decimal 0) 49 (48 ∷ []) 57 (57 ∷ []) 10 99 50 refl refl
      (plain 49 (omega arith), (plain 48 (omega arith), tt))
      (plain 57 (omega arith), (plain 57 (omega arith), tt)) refl refl (omega arith) (omega arith)
      (omega arith)
  where
    plain : (c : ℕ) → 45 < c → (c ≢ 45) × (c ≢ 44)
    plain c h = (λ q. omega arith, λ q. omega arith)

parse_range-IsWithin_example : IsWithin 50 (parse_range as_is (decimal 0) (codes "bytes=-20") 50)
parse_range-IsWithin_example = parse_range-IsWithin as_is (decimal 0) (codes "bytes=-20") 50

-- The last byte that a `u64` can name: the sum wraps, and no part of the file is left.
last_position :
    parse_range as_is (decimal 0) (codes "bytes=0-18446744073709551615") 50 ≡ unsatisfiable
unfolding parse_range bounds last_bytes bounded first_bytes split_once strip_prefix has_comma
last_position = refl
