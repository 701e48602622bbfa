-- ===== src/Server/LimitReq/Word.antt =====
-- src/server/limit_req.rs: the packed state word of a bucket.
use Prim.Native.Nat.{min, bit_and, bit_or}
use oxi_serve.Base.{ℕ, ◌+◌, ◌-◌, ◌*◌, ◌/◌, ◌%◌, ◌^◌, ◌<◌, ◌≡◌, ◌≢◌, arith}
use oxi_serve.Base.Bits.{bit_and-mask, bit_or-high}
use oxi_serve.Server.LimitReq.{pack, unpack}

pack_sum :
    (last_ms excess : ℕ)
    → pack last_ms excess ≡ 2 ^ 63 + last_ms % 2 ^ 39 * 2 ^ 24 + min excess (2 ^ 24 - 1)
unfolding pack
pack_sum last_ms excess =
    let x = last_ms % 2 ^ 39 in
    let e = min excess (2 ^ 24 - 1) in
    let low : x < 2 ^ 39 = omega arith in
    let m : bit_and last_ms (2 ^ 39 - 1) ≡ x = bit_and-mask 39 last_ms in
    let high : bit_or (1 * 2 ^ 63) (x * 2 ^ 24) ≡ 1 * 2 ^ 63 + x * 2 ^ 24 =
      bit_or-high 63 1 (x * 2 ^ 24) (omega arith) in
    let all : bit_or ((2 ^ 39 + x) * 2 ^ 24) e ≡ (2 ^ 39 + x) * 2 ^ 24 + e =
      bit_or-high 24 (2 ^ 39 + x) e (omega arith) in
    let shape : 1 * 2 ^ 63 + x * 2 ^ 24 ≡ (2 ^ 39 + x) * 2 ^ 24 = omega arith in
    rw (m, high, shape, all) (omega arith)

-- A word unpacks to the time, cut to 39 bits, and to the excess, held at 24 bits; and it is never
-- the zero of a slot just claimed.
pub unpack-pack :
    (last_ms excess : ℕ)
    → (unpack (pack last_ms excess) ≡ (last_ms % 2 ^ 39, min excess (2 ^ 24 - 1)))
      × (pack last_ms excess ≢ 0)
unfolding unpack
unpack-pack last_ms excess =
    let p = pack_sum last_ms excess in
    let hi : bit_and (pack last_ms excess / 2 ^ 24) (2 ^ 39 - 1)
        ≡ pack last_ms excess / 2 ^ 24 % 2 ^ 39 =
      bit_and-mask 39 (pack last_ms excess / 2 ^ 24) in
    let lo : bit_and (pack last_ms excess) (2 ^ 24 - 1) ≡ pack last_ms excess % 2 ^ 24 =
      bit_and-mask 24 (pack last_ms excess) in
    (rw (hi, lo) (×-eq (omega (arith, p)) (omega (arith, p))), omega (arith, p))
  where
    ×-eq : {a b c d : ℕ} → a ≡ c → b ≡ d → ◌≡◌ {A = ℕ × ℕ} (a, b) (c, d)
    ×-eq p q = cc
