-- ===== src/Http3/Varint.antt =====
-- src/http3/frame.rs: QUIC variable-length integers. A byte slice is a list of numbers.
pub mod RoundTrip
use oxi_serve.Base.{ℕ, zero, suc, ◌+◌, ◌-◌, ◌*◌, ◌/◌, ◌%◌, ◌^◌, List, [], ◌∷◌, ◌++◌}
use oxi_serve.Base.{Option, none, some, ltb, leb, ◌==◌, if◌then◌else◌, length, take}
use oxi_serve.Base.Bytes.{Bytes, u16_be, u32_be, u64_be}
use Prim.Native.Nat.{bit_and, bit_or}

abbrev pub varint_max : ℕ
varint_max = 2 ^ 62 - 1

pub varint_len : ℕ → ℕ
varint_len v =
    if leb v 0x3f then 1 else if leb v 0x3fff then 2 else if leb v 0x3fff_ffff then 4 else 8

-- The casts `as u8`, `as u16`, `as u32` are remainders.
unfoldable pub put_varint : ℕ → Bytes → Bytes
unfolding varint_len
put_varint v out =
    let n = varint_len v in
    if n == 1
    then out ++ (v % 256 ∷ [])
    else if n == 2
    then out ++ u16_be (bit_or (v % 2 ^ 16) 0x4000)
    else if n == 4
    then out ++ u32_be (bit_or (v % 2 ^ 32) 0x8000_0000)
    else out ++ u64_be (bit_or v 0xc000_0000_0000_0000)

-- `for b in &buf[1..len] { v = (v << 8) | *b as u64; }`, with the wrap of `<<`.
pub shift_in : ℕ → Bytes → ℕ
shift_in v [] = v
shift_in v (b ∷ bs) = shift_in (bit_or (v * 256 % 2 ^ 64) b) bs

unfoldable pub get_varint : Bytes → Option (ℕ × ℕ)
unfolding shift_in
get_varint [] = none
get_varint (first ∷ rest) =
    let len = 2 ^ (first / 64) in
    if ltb (suc (length rest)) len
    then none
    else some (shift_in (bit_and first 0x3f) (take (len - 1) rest), len)
