-- ===== src/Server/Range/Meaning.antt =====
-- src/server/files.rs: what the range of `parse_range` is of the file.
use oxi_serve.Base.{
  ℕ, ◌+◌, ◌-◌, ◌%◌, ◌^◌, ◌<◌, ◌≤◌, min, false, [], ◌∷◌, ◌≡◌, inl, inr, ◌⊎◌, Bool-cases,
  Option-cases, Option, none, some, leb, ◌==◌, arith,
}
use oxi_serve.Base.Bytes.{Bytes, codes}
use oxi_serve.Server.Range.{
  RangeSpec, whole, unsatisfiable, one, last_bytes, bounded, first_bytes, split_once, strip_prefix,
  has_comma, bounds, parse_range,
}

-- A range lies within the file, and is not empty unless the file is.
unfoldable pub IsWithin : ℕ → RangeSpec → Type 0
IsWithin size whole = Unit
IsWithin size unsatisfiable = Unit
IsWithin size (one start end) = (start ≤ end) × ((end ≤ size) × ((start < end) ⊎ (size ≡ 0)))

leb→lt : (a b : ℕ) → leb a b ≡ false → b < a
leb→lt a b h = ground arith

last_bytes-IsWithin : (n : Option ℕ) (size : ℕ) → IsWithin size (last_bytes n size)
unfolding last_bytes IsWithin
last_bytes-IsWithin none size = tt
last_bytes-IsWithin (some n) size = elim (Bool-cases (n == 0)) [
  | inl e ↦ rw e tt
  | inr e ↦ rw e (omega arith, (omega arith, last_part n size e))
]
  where
    last_part : (n size : ℕ) → (n == 0) ≡ false → (size - n < size) ⊎ (size ≡ 0)
    last_part n size h = grind arith

bounded-IsWithin : (start end size : ℕ) → end ≤ size → IsWithin size (bounded start end)
unfolding bounded IsWithin
bounded-IsWithin start end size h = elim (Bool-cases (leb end start)) [
  | inl e ↦ rw e tt
  | inr e ↦ rw e (let lt = leb→lt end start e in (omega arith, (h, inl lt)))
]

first_bytes-IsWithin :
    (start : ℕ) (b : Bytes) (n : Option ℕ) (size : ℕ) → IsWithin size (first_bytes start b n size)
unfolding first_bytes IsWithin
first_bytes-IsWithin start [] n size = bounded-IsWithin start size size (omega arith)
first_bytes-IsWithin start (c ∷ b) none size = tt
first_bytes-IsWithin start (c ∷ b) (some n) size =
    bounded-IsWithin start (min ((n + 1) % 2 ^ 64) size) size (omega arith)

module _ (trim : Bytes → Bytes) (parse_u64 : Bytes → Option ℕ) where
  bounds-IsWithin :
      (o : Option (Bytes × Bytes)) (size : ℕ) → IsWithin size (bounds trim parse_u64 o size)
  unfolding bounds IsWithin
  bounds-IsWithin none size = tt
  bounds-IsWithin (some ([], b)) size = last_bytes-IsWithin (parse_u64 b) size
  bounds-IsWithin (some (c ∷ a, b)) size = elim (Option-cases (parse_u64 (c ∷ a))) [
    | inl e ↦ rw (bounds, e) tt
    | inr (start, e) ↦
        rw (bounds, e)
          (elim (Bool-cases (leb size start)) [
            | inl f ↦ rw f tt
            | inr f ↦ rw f (first_bytes-IsWithin start b (parse_u64 b) size)
          ])
  ]

  -- For any trimming and reading of numbers, any header and any size of the file: the range that
  -- `parse_range` returns begins no later than it ends, ends within the file, and holds a byte
  -- unless the file is empty.
  pub parse_range-IsWithin :
      (h : Bytes) (size : ℕ) → IsWithin size (parse_range trim parse_u64 h size)
  unfolding parse_range IsWithin
  parse_range-IsWithin h size = elim (Option-cases (strip_prefix (codes "bytes=") (trim h))) [
    | inl e ↦ rw (parse_range, e) tt
    | inr (spec, e) ↦
        rw (parse_range, e)
          (elim (Bool-cases (has_comma spec)) [
            | inl f ↦ rw f tt
            | inr f ↦ rw f (bounds-IsWithin (split_once 45 (trim spec)) size)
          ])
  ]
