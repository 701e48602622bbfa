-- ===== src/Http3/Varint/RoundTrip.antt =====
-- src/http3/frame.rs: varints written and read.
use oxi_serve.Base.{ℕ, zero, suc, ◌+◌, ◌-◌, ◌*◌, ◌/◌, ◌%◌, ◌^◌, ◌≤◌, ◌<◌, ◌≡◌, refl, arith, ◌⊎◌}
use oxi_serve.Base.{
  [], ◌∷◌, ◌++◌, some, length, take, All, ltb, le→ltb, length-append, take-length-append,
  take-append, length-take, false,
}
use oxi_serve.Base.Bytes.{Bytes, IsByte, u16_be, u32_be, u64_be}
use oxi_serve.Base.Bits.{bit_and-mask, bit_or-disjoint, bit_or-high}
use oxi_serve.Http3.Varint.{varint_max, varint_len, put_varint, shift_in, get_varint}
use Prim.Native.Nat.{bit_and, bit_or}
use native.Mathlib.Nat.{pow-suc, one-le-pow}

-- The number that the bytes add up to, with no wrap.
be_value : ℕ → Bytes → ℕ
be_value v [] = v
be_value v (b ∷ bs) = be_value (v * 256 + b) bs

grows : (v b p : ℕ) → b < 256 → suc v * (256 * p) ≤ 2 ^ 62 → suc (v * 256 + b) * p ≤ 2 ^ 62
grows v b p hb h = grind arith

small : (v p : ℕ) → 1 ≤ p → suc v * (256 * p) ≤ 2 ^ 62 → v < 2 ^ 56
small v p hp h = grind arith

shift_in-be_value :
    (bs : Bytes) (v : ℕ)
    → All IsByte bs
    → suc v * 256 ^ length bs ≤ 2 ^ 62
    → (shift_in v bs ≡ be_value v bs) × (be_value v bs < 2 ^ 62)
unfolding shift_in be_value
shift_in-be_value [] v h r = (refl, omega arith)
shift_in-be_value (b ∷ bs) v h r = ground (
  arith,
  pow-suc 256 (length bs),
  small v (256 ^ length bs) (one-le-pow (length bs) 256 (omega arith)),
  grows v b (256 ^ length bs),
  bit_or-high 8 v b,
  shift_in-be_value bs (v * 256 + b),
)

-- A first byte of width tag `t` and top bits `g`, with the bytes that the tag asks for.
get_varint-tagged :
    (t g : ℕ) (bs rest : Bytes)
    → t < 4
    → g < 64
    → All IsByte bs
    → suc (length bs) ≡ 2 ^ t
    → suc g * 256 ^ length bs ≤ 2 ^ 62
    → get_varint ((t * 64 + g) ∷ (bs ++ rest)) ≡ some (be_value g bs, 2 ^ t)
unfolding get_varint
get_varint-tagged t g bs rest ht hg hb hl hr =
    let tag : (t * 64 + g) / 64 ≡ t = omega arith in
    let low : (t * 64 + g) % 2 ^ 6 ≡ g = omega arith in
    let n : suc (length bs) - 1 ≡ length bs = omega arith in
    let enough : ltb (suc (length (bs ++ rest))) (suc (length bs)) ≡ false =
      le→ltb _ _ (omega (arith, length-append bs rest)) in
    rw (tag, bit_and-mask 6 (t * 64 + g), low, ← hl, enough, n, take-length-append bs rest)
      (rw ((shift_in-be_value bs g hb hr).0) refl)

tagged_one : (v : ℕ) → v ≤ 0x3f → v % 256 ∷ [] ≡ (0 * 64 + v) ∷ []
tagged_one v h = ground arith

tagged_two :
    (v : ℕ) → v ≤ 0x3fff → u16_be (bit_or (v % 2 ^ 16) 0x4000) ≡ (1 * 64 + v / 256) ∷ (v % 256) ∷ []
tagged_two v h = ground (arith, bit_or-disjoint 14 (v % 2 ^ 16) 1)

tagged_four :
    (v : ℕ)
    → v ≤ 0x3fff_ffff
    → u32_be (bit_or (v % 2 ^ 32) 0x8000_0000)
      ≡ (2 * 64 + v / 2 ^ 24) ∷ (v / 2 ^ 16 % 256) ∷ (v / 256 % 256) ∷ (v % 256) ∷ []
tagged_four v h = ground (arith, bit_or-disjoint 30 (v % 2 ^ 32) 2)

tagged_eight :
    (v : ℕ)
    → v ≤ varint_max
    → u64_be (bit_or v 0xc000_0000_0000_0000)
      ≡ (3 * 64 + v / 2 ^ 56)
        ∷ (v / 2 ^ 48 % 256)
        ∷ (v / 2 ^ 40 % 256)
        ∷ (v / 2 ^ 32 % 256)
        ∷ (v / 2 ^ 24 % 256)
        ∷ (v / 2 ^ 16 % 256)
        ∷ (v / 256 % 256)
        ∷ (v % 256)
        ∷ []
tagged_eight v h = ground (arith, bit_or-disjoint 62 v 3)

-- A varint that `put_varint` wrote is read back whole, whatever bytes follow it.
pub get_varint-put_varint :
    (v : ℕ) (rest : Bytes)
    → v ≤ varint_max
    → get_varint (put_varint v [] ++ rest) ≡ some (v, varint_len v)
unfolding put_varint be_value
get_varint-put_varint v rest h = ground (
  arith,
  tagged_one v,
  tagged_two v,
  tagged_four v,
  tagged_eight v,
  get_varint-tagged 0 v [] rest,
  get_varint-tagged 1 (v / 256) (v % 256 ∷ []) rest,
  get_varint-tagged 2 (v / 2 ^ 24) ((v / 2 ^ 16 % 256) ∷ (v / 256 % 256) ∷ (v % 256) ∷ []) rest,
  get_varint-tagged 3 (v / 2 ^ 56)
      ((v / 2 ^ 48 % 256)
        ∷ (v / 2 ^ 40 % 256)
        ∷ (v / 2 ^ 32 % 256)
        ∷ (v / 2 ^ 24 % 256)
        ∷ (v / 2 ^ 16 % 256)
        ∷ (v / 256 % 256)
        ∷ (v % 256)
        ∷ [])
      rest,
)

digit_le : (v b p : ℕ) → b < 256 → suc (v * 256 + b) * p ≤ suc v * (256 * p)
digit_le v b p h = grind arith

be_value-lt : (bs : Bytes) (v : ℕ) → All IsByte bs → be_value v bs < suc v * 256 ^ length bs
unfolding be_value
be_value-lt [] v h = omega arith
be_value-lt (b ∷ bs) v (hb, hbs) = ground (
  arith,
  pow-suc 256 (length bs),
  digit_le v b (256 ^ length bs),
  be_value-lt bs (v * 256 + b) hbs,
)

-- Writing appends: what stood in the buffer before stays.
pub put_varint-append : (v : ℕ) (out : Bytes) → put_varint v out ≡ out ++ put_varint v []
unfolding put_varint
put_varint-append v out = ground arith

pub length-put_varint : (v : ℕ) → length (put_varint v []) ≡ varint_len v
unfolding put_varint varint_len
length-put_varint v = ground arith

pub varint_len_bounds : (v : ℕ) → (1 ≤ varint_len v) × (varint_len v ≤ 8)
unfolding varint_len
varint_len_bounds v = ground arith

-- Bytes that arrive later do not change a number that has been read.
pub get_varint-append :
    (buf more : Bytes) (v n : ℕ)
    → get_varint buf ≡ some (v, n)
    → get_varint (buf ++ more) ≡ some (v, n)
unfolding get_varint
get_varint-append [] more v n e = cc
get_varint-append (first ∷ rest) more v n e =
    ground (arith, length-append rest more, take-append (2 ^ (first / 64) - 1) rest more)

All-take : (n : ℕ) (xs : Bytes) → All IsByte xs → All IsByte (take n xs)
All-take zero xs h = tt
All-take (suc n) [] h = tt
All-take (suc n) (x ∷ xs) h = (h.0, All-take n xs h.1)

-- The number that the loop reads, from what its first byte left and the bytes behind.
tail_value :
    (n g : ℕ) (rest : Bytes)
    → 64 * 256 ^ n ≤ 2 ^ 62
    → g < 64
    → All IsByte rest
    → n ≤ length rest
    → shift_in g (take n rest) < 64 * 256 ^ n
tail_value n g rest hn hg hb hl =
    let bytes = All-take n rest hb in
    let len : length (take n rest) ≡ n = omega (arith, length-take n rest) in
    let room : suc g * 256 ^ n ≤ 64 * 256 ^ n = grind arith in
    let fits : suc g * 256 ^ length (take n rest) ≤ 2 ^ 62 = rw len (omega arith) in
    let below : be_value g (take n rest) < suc g * 256 ^ n =
      rw len at (be_value-lt (take n rest) g bytes) in
    rw ((shift_in-be_value (take n rest) g bytes fits).0) (omega arith)

width_cases :
    (first : ℕ)
    → first < 256
    → (first / 64 ≡ 0) ⊎ (first / 64 ≡ 1) ⊎ (first / 64 ≡ 2) ⊎ (first / 64 ≡ 3)
width_cases first h = grind arith

-- A number that is read off bytes fits 62 bits, lies within the buffer, and takes at least as many
-- bytes as `varint_len` gives for it: no input is shorter than what `put_varint` writes.
pub get_varint_bounds :
    (buf : Bytes) (v n : ℕ)
    → All IsByte buf
    → get_varint buf ≡ some (v, n)
    → (v ≤ varint_max) × (varint_len v ≤ n) × (1 ≤ n) × (n ≤ length buf)
unfolding get_varint varint_len
get_varint_bounds [] v n hb e = cc
get_varint_bounds (first ∷ rest) v n hb e =
    let low : bit_and first 0x3f < 64 = omega (arith, bit_and-mask 6 first) in
    ground (
      arith,
      width_cases first hb.0,
      tail_value 0 (bit_and first 0x3f) rest (omega arith) low hb.1,
      tail_value 1 (bit_and first 0x3f) rest (omega arith) low hb.1,
      tail_value 3 (bit_and first 0x3f) rest (omega arith) low hb.1,
      tail_value 7 (bit_and first 0x3f) rest (omega arith) low hb.1,
    )

pub All-put_varint : (v : ℕ) → All IsByte (put_varint v [])
unfolding put_varint
All-put_varint v = ground arith
