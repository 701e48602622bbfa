-- ===== src/Server/Range.antt =====
-- src/server/files.rs: the part of a file that a `Range` header asks for.
pub mod Meaning
pub mod Exchange
mod Examples
use oxi_serve.Base.{
  ℕ, zero, suc, ◌+◌, ◌-◌, ◌*◌, ◌%◌, ◌^◌, min, Bool, true, false, ◌&&◌, ◌||◌, List, [], ◌∷◌, ◌++◌,
  Option, none, some,
}
use oxi_serve.Base.{leb, ltb, ◌==◌, if◌then◌else◌}
use oxi_serve.Base.Bytes.{Bytes, codes}

-- The whole file, no part of it, or the bytes from a start up to an end.
pub data RangeSpec : Type 0 where
  whole unsatisfiable : RangeSpec
  one : ℕ → ℕ → RangeSpec

-- `-N`: the last bytes.
unfoldable pub last_bytes : Option ℕ → ℕ → RangeSpec
last_bytes none size = whole
last_bytes (some n) size = if n == 0 then unsatisfiable else one (size - n) size

unfoldable pub bounded : ℕ → ℕ → RangeSpec
bounded start end = if leb end start then unsatisfiable else one start end

-- The sum of a `u64` wraps.
unfoldable pub first_bytes : ℕ → Bytes → Option ℕ → ℕ → RangeSpec
unfolding bounded
first_bytes start [] n size = bounded start size
first_bytes start (c ∷ b) none size = whole
first_bytes start (c ∷ b) (some n) size = bounded start (min ((n + 1) % 2 ^ 64) size)

-- `split_once`: what stands before the first such byte and what stands behind it.
unfoldable pub split_once : ℕ → Bytes → Option (Bytes × Bytes)
split_once sep [] = none
split_once sep (c ∷ rest) =
    let later = split_once sep rest in
    if c == sep then some ([], rest) else elim later [ none ↦ none | some (a, b) ↦ some (c ∷ a, b) ]

unfoldable pub strip_prefix : Bytes → Bytes → Option Bytes
strip_prefix [] s = some s
strip_prefix (p ∷ ps) [] = none
strip_prefix (p ∷ ps) (c ∷ s) = let rest = strip_prefix ps s in if p == c then rest else none

-- Whether `split(',')` gives more than one part.
unfoldable pub has_comma : Bytes → Bool
has_comma [] = false
has_comma (c ∷ rest) = let later = has_comma rest in if c == 44 then true else later

module _ (trim : Bytes → Bytes) (parse_u64 : Bytes → Option ℕ) where
  unfoldable pub bounds : Option (Bytes × Bytes) → ℕ → RangeSpec
  bounds none size = whole
  bounds (some ([], b)) size = last_bytes (parse_u64 b) size
  bounds (some (c ∷ a, b)) size = elim (parse_u64 (c ∷ a)) [
    | none ↦ whole
    | some start ↦ if leb size start then unsatisfiable else first_bytes start b (parse_u64 b) size
  ]

  unfoldable pub parse_range : Bytes → ℕ → RangeSpec
  parse_range h size = elim (strip_prefix (codes "bytes=") (trim h)) [
    | none ↦ whole
    | some spec ↦ if has_comma spec then whole else bounds (split_once 45 (trim spec)) size
  ]
