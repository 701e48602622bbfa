-- ===== src/Server/LimitConn/Word.antt =====
-- src/server/limit_conn.rs: the packed word of a slot.
use Prim.Native.Nat.{bit_and, bit_xor}
use oxi_serve.Base.{ℕ, ◌+◌, ◌-◌, ◌*◌, ◌/◌, ◌%◌, ◌^◌, ◌<◌, ◌≡◌, refl, arith, inl, inr}
use oxi_serve.Base.{◌==◌, Bool-cases}
use oxi_serve.Base.Bits.{bit_and-mask, bit_or-high}
use oxi_serve.Base.Bytes.{Bytes}
use oxi_serve.Server.LimitConn.{Zone, pack, tag_of, count_of, fold_tag, hash_bytes, tag}

packed : (t c : ℕ) → t < 2 ^ 48 → c < 2 ^ 16 → pack t c ≡ t * 2 ^ 16 + c
unfolding pack
packed t c small few =
    let top : t * 2 ^ 16 % 2 ^ 64 ≡ t * 2 ^ 16 = omega arith in
    let low : bit_and c (2 ^ 16 - 1) ≡ c = omega (arith, bit_and-mask 16 c) in
    rw (top, low, bit_or-high 16 t c few) refl

pub tag_of-pack : (t c : ℕ) → t < 2 ^ 48 → c < 2 ^ 16 → tag_of (pack t c) ≡ t
unfolding tag_of
tag_of-pack t c small few = rw (packed t c small few) (omega (arith, small, few))

pub count_of-pack : (t c : ℕ) → t < 2 ^ 48 → c < 2 ^ 16 → count_of (pack t c) ≡ c
unfolding count_of
count_of-pack t c small few =
    rw (packed t c small few) (omega (arith, small, few, bit_and-mask 16 (t * 2 ^ 16 + c)))

pub count_of_zero : count_of 0 ≡ 0
unfolding count_of
count_of_zero = refl

pub fold_tag_bounds : (h : ℕ) → (0 < fold_tag h) × (fold_tag h < 2 ^ 48)
unfolding fold_tag
fold_tag_bounds h =
    let t = bit_and (bit_xor h (h / 2 ^ 48)) (2 ^ 48 - 1) in
    let e = bit_and-mask 48 (bit_xor h (h / 2 ^ 48)) in
    elim (Bool-cases (t == 0)) [
      | inl z ↦ rw z (omega arith, omega arith)
      | inr nz ↦ rw nz (ground (arith, nz), omega (arith, e))
    ]

pub tag_bounds : (z : Zone) (key : Bytes) → (0 < tag z key) × (tag z key < 2 ^ 48)
unfolding tag
tag_bounds z key = fold_tag_bounds (hash_bytes (bit_xor 0xcbf29ce484222325 z.seed) key)
