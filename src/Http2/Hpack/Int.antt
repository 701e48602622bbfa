-- ===== src/Http2/Hpack/Int.antt =====
-- src/http2/hpack.rs: prefixed integers (RFC 7541 section 5.1).
pub mod RoundTrip
use Prim.Native.Nat.{bit_and, bit_or}
use mathlib.Core.Logic.{dite}
use mathlib.Core.WellFounded.{Acc}
use native.Mathlib.Decide.{dec_lt}
use oxi_serve.Base.{ℕ, ◌+◌, ◌-◌, ◌*◌, ◌/◌, ◌%◌, ◌^◌, ◌<◌, arith, List, [], ◌∷◌, ◌++◌}
use oxi_serve.Base.{ltb, leb, ◌==◌, if◌then◌else◌}
use oxi_serve.Base.Bytes.{Bytes}
use oxi_serve.Base.Order.{lt_wf}
use oxi_serve.Base.Result.{Result, ok, err}

pub data HpackError : Type 0 where
  compression too_large : HpackError

-- The continuation bytes: `shift` is refused from 63 on, and the sum is checked against 64 bits.
unfoldable pub int_loop : Bytes → ℕ → ℕ → Result HpackError (ℕ × Bytes)
int_loop [] value shift = err compression
int_loop (b ∷ rest) value shift =
    let value' = value + bit_and b 0x7f * 2 ^ shift % 2 ^ 64 in
    let more = int_loop rest value' (shift + 7) in
    if leb 63 shift
    then err compression
    else if leb (2 ^ 64) value'
    then err compression
    else if bit_and b 0x80 == 0
    then ok (value', rest)
    else more

unfoldable pub int : Bytes → ℕ → Result HpackError (ℕ × Bytes)
unfolding int_loop
int [] prefix = err compression
int (b ∷ rest) prefix =
    let mask = 2 ^ prefix - 1 in
    let first = bit_and b mask in if ltb first mask then ok (first, rest) else int_loop rest mask 0

pub shrinks : (v : ℕ) → 127 < v → v / 128 < v
shrinks v h = omega arith

-- `while v >= 0x80 { … }`
pub write_loop : (v : ℕ) → Acc ◌<◌ v → Bytes → Bytes
write_loop v (Acc.intro _ smaller) out =
    dite (dec_lt 127 v)
      (λ big.
        write_loop (v / 128) (smaller (v / 128) (shrinks v big))
          (out ++ (bit_or (bit_and v 0x7f) 0x80 ∷ [])))
      (λ _. out ++ (v % 256 ∷ []))

unfoldable pub write_int : ℕ → ℕ → ℕ → Bytes → Bytes
write_int v prefix flags out =
    let mask = 2 ^ prefix - 1 in
    if ltb v mask
    then out ++ (bit_or flags (v % 256) ∷ [])
    else write_loop (v - mask) (lt_wf.apply (v - mask)) (out ++ (bit_or flags (mask % 256) ∷ []))
