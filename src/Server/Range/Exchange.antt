-- ===== src/Server/Range/Exchange.antt =====
-- src/server/files.rs: a range as a client writes it, and `parse_range`.
use oxi_serve.Base.{
  ℕ, ◌+◌, ◌%◌, ◌^◌, ◌<◌, ◌≤◌, min, false, [], ◌∷◌, ◌++◌, ◌≡◌, ◌≢◌, refl, Option, some, leb, ◌==◌,
  All, arith,
}
use oxi_serve.Base.Bytes.{Bytes, codes}
use oxi_serve.Server.Range.{
  one, bounded, first_bytes, split_once, strip_prefix, has_comma, bounds, parse_range,
}

unfoldable pub IsPlain : ℕ → Type 0
IsPlain c = (c ≢ 45) × (c ≢ 44)

other : (c d : ℕ) → c ≢ d → (c == d) ≡ false
other c d h = grind arith

split_once-append : (a b : Bytes) → All IsPlain a → split_once 45 (a ++ (45 ∷ b)) ≡ some (a, b)
unfolding split_once IsPlain
split_once-append [] b _ = refl
split_once-append (c ∷ a) b ((p, _), h) =
    let ih = split_once-append a b h in rw (other c 45 p, split_once, ih) refl

has_comma-append : (a b : Bytes) → All IsPlain a → All IsPlain b → has_comma (a ++ (45 ∷ b)) ≡ false
unfolding has_comma IsPlain
has_comma-append [] [] _ _ = refl
has_comma-append [] (c ∷ b) _ ((_, p), h) = rw (other c 44 p) (no_comma b h)
  where
    no_comma : (b : Bytes) → All IsPlain b → has_comma b ≡ false
    no_comma [] _ = refl
    no_comma (d ∷ ds) ((_, q), hs) = rw (other d 44 q) (no_comma ds hs)
has_comma-append (c ∷ a) b ((_, p), h) hb = rw (other c 44 p) (has_comma-append a b h hb)

unfoldable pub header : Bytes → Bytes → Bytes
header a b = codes "bytes=" ++ (a ++ (45 ∷ b))

bounded-one : (start end : ℕ) → start < end → bounded start end ≡ one start end
unfolding bounded
bounded-one start end h = rw (not_le start end h) refl
  where
    not_le : (a b : ℕ) → a < b → leb b a ≡ false
    not_le a b lt = ground arith

first_bytes-one :
    (start : ℕ) (c : ℕ) (b : Bytes) (n size : ℕ)
    → n + 1 < 2 ^ 64
    → start ≤ n
    → start < size
    → first_bytes start (c ∷ b) (some n) size ≡ one start (min (n + 1) size)
unfolding first_bytes
first_bytes-one start c b n size w le lt =
    let same : (n + 1) % 2 ^ 64 ≡ n + 1 = omega arith in
    rw same (bounded-one start (min (n + 1) size) (omega arith))

module _ (trim : Bytes → Bytes) (parse_u64 : Bytes → Option ℕ) where
  -- For a trimming that leaves the header and its value as they are, numbers `start` and `n` that the
  -- two texts around the dash read as, neither text empty or with a comma, the first without a dash:
  -- where `start` is at most `n` and lies within the file, and `n + 1` fits a `u64`, the range is the
  -- bytes from `start` to `n` as far as the file has them.
  pub parse_range-header :
      (c : ℕ) (a : Bytes) (d : ℕ) (b : Bytes) (start n size : ℕ)
      → trim (header (c ∷ a) (d ∷ b)) ≡ header (c ∷ a) (d ∷ b)
      → trim ((c ∷ a) ++ (45 ∷ d ∷ b)) ≡ (c ∷ a) ++ (45 ∷ d ∷ b)
      → All IsPlain (c ∷ a)
      → All IsPlain (d ∷ b)
      → parse_u64 (c ∷ a) ≡ some start
      → parse_u64 (d ∷ b) ≡ some n
      → n + 1 < 2 ^ 64
      → start ≤ n
      → start < size
      → parse_range trim parse_u64 (header (c ∷ a) (d ∷ b)) size ≡ one start (min (n + 1) size)
  unfolding header strip_prefix parse_range bounds
  parse_range-header c a d b start n size t1 t2 ha hb pa pb w le lt =
      rw (parse_range, t1)
        (rw (has_comma-append (c ∷ a) (d ∷ b) ha hb, t2, split_once-append (c ∷ a) (d ∷ b) ha)
          (rw (bounds, pa, pb, in_file size start lt) (first_bytes-one start d b n size w le lt)))
    where
      in_file : (size start : ℕ) → start < size → leb size start ≡ false
      in_file size start h = ground arith
