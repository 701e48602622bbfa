-- ===== src/Server/LimitReq.antt =====
-- src/server/limit_req.rs: the leaky bucket of `limit_req`, its packed state word, and the probed
-- table of a zone. The table is a function from slots to pairs of a key's hash and its state word;
-- one worker runs at a time, so each compare-and-exchange succeeds. `Instant` is milliseconds from
-- the zone's origin.
pub mod Word
pub mod Rate
pub mod Table
use Prim.Native.Nat.{min, max, bit_and, bit_or, bit_xor}
use oxi_serve.Base.{
  ℕ, zero, suc, ◌+◌, ◌-◌, ◌*◌, ◌/◌, ◌%◌, ◌^◌, Bool, true, false, ◌||◌, List, [], ◌∷◌, Option, none,
  some,
}
use oxi_serve.Base.{leb, ltb, ◌==◌, if◌then◌else◌}
use oxi_serve.Base.Bytes.{Bytes}

abbrev pub scale : ℕ
scale = 1000

abbrev pub u64_max : ℕ
u64_max = 2 ^ 64 - 1

abbrev i128_max : ℕ
i128_max = 2 ^ 127 - 1

pub data Decision : Type 0 where
  pass reject : Decision
  delay : ℕ → Decision

-- The arguments of one request: the zone's rate, and `burst`, `nodelay` and `delay_after` of the
-- location.
pub record Limits : Type 0 where
  pub rate : ℕ
  pub burst : ℕ
  pub nodelay : Bool
  pub delay_after : ℕ

-- `rate.saturating_mul(elapsed) / SCALE` on `i128`
unfoldable pub drained : ℕ → ℕ → ℕ
drained rate elapsed_ms = min (rate * elapsed_ms) i128_max / scale

-- `(prev - drained + SCALE).max(0) as u64`: the sum stops at zero.
unfoldable pub excess_after : ℕ → ℕ → ℕ → ℕ
unfolding drained
excess_after prev elapsed_ms rate = (prev + scale - drained rate elapsed_ms) % 2 ^ 64

unfoldable pub step : Limits → ℕ → ℕ → ℕ × Decision
unfolding excess_after
step l prev_excess elapsed_ms =
    let excess = excess_after prev_excess elapsed_ms l.rate in
    if ltb l.burst excess
    then (prev_excess, reject)
    else if excess == 0 || (l.nodelay || leb excess l.delay_after)
    then (excess, pass)
    else (excess, delay (min ((excess - l.delay_after) * scale) u64_max / max l.rate 1))

abbrev pub excess_mask : ℕ
excess_mask = 2 ^ 24 - 1

abbrev pub ms_mask : ℕ
ms_mask = 2 ^ 39 - 1

abbrev pub present : ℕ
present = 2 ^ 63

-- The shift stays within 64 bits: 39 bits are moved by 24.
unfoldable pub pack : ℕ → ℕ → ℕ
pack last_ms excess =
    bit_or (bit_or present (bit_and last_ms ms_mask * 2 ^ 24)) (min excess excess_mask)

unfoldable pub unpack : ℕ → ℕ × ℕ
unpack w = (bit_and (w / 2 ^ 24) ms_mask, bit_and w excess_mask)

-- The excess and the time since it was stored; a word of zero is a bucket never used.
unfoldable pub previous : ℕ → ℕ → ℕ × ℕ
previous now_ms cur =
    if cur == 0 then (0, u64_max / scale) else ((unpack cur).1, now_ms - (unpack cur).0)

unfoldable pub store : ℕ → ℕ → ℕ × Decision → ℕ × Decision
store now_ms cur (excess, reject) = (cur, reject)
store now_ms cur (excess, pass) = (pack now_ms excess, pass)
store now_ms cur (excess, delay ms) = (pack now_ms excess, delay ms)

-- One pass of the loop of `bump` on the state word: the word that is stored, and the decision.
unfoldable pub bump_word : Limits → ℕ → ℕ → ℕ × Decision
unfolding previous store
bump_word l now_ms cur = store now_ms cur (step l (previous now_ms cur).0 (previous now_ms cur).1)

-- Zones ------------------------------------------------------------------------------------------
pub record Slot : Type 0 where
  pub hash : ℕ
  pub word : ℕ

pub record Zone : Type 0 where
  pub slots : ℕ
  pub seed : ℕ
  pub mem : ℕ → Slot

abbrev pub probe_len : ℕ
probe_len = 16

unfoldable pub write_slot : Zone → ℕ → Slot → Zone
write_slot z i s = record z { mem = λ j. if i == j then s else z.mem j }

hash_bytes : ℕ → Bytes → ℕ
hash_bytes h [] = h
hash_bytes h (b ∷ key) = hash_bytes (bit_xor h b * 0x100000001b3 % 2 ^ 64) key

unfoldable pub hash_key : Zone → Bytes → ℕ
unfolding hash_bytes
hash_key z key =
    let h = hash_bytes (bit_xor 0xcbf29ce484222325 z.seed) key in if h == 0 then 1 else h

put_word : Zone → ℕ → ℕ → ℕ × Decision → Zone × Decision
unfolding write_slot
put_word z i h (word, decision) = (write_slot z i (record { hash = h; word = word }), decision)

unfoldable pub bump : Limits → Zone → ℕ → ℕ → ℕ → Zone × Decision
unfolding put_word
bump l z i h now_ms =
    if (z.mem i).hash == h
    then put_word z i h (bump_word l now_ms (z.mem i).word)
    else (z, (step l 0 (u64_max / scale)).1)

-- `stalest.map_or(true, |(_, l)| last < l)`
staler : Option (ℕ × ℕ) → ℕ → ℕ → Option (ℕ × ℕ)
staler none i last = some (i, last)
staler (some (j, l)) i last = if ltb last l then some (i, last) else some (j, l)

-- Claiming a slot stores its hash and a zero word, and bumps it.
claim : Limits → Zone → ℕ → ℕ → ℕ → Zone × Decision
claim l z i h now_ms = bump l (write_slot z i (record { hash = h; word = 0 })) i h now_ms

-- `none` stands for the failed `expect`.
evict : Limits → Zone → ℕ → ℕ → Option (ℕ × ℕ) → Option (Zone × Decision)
evict l z h now_ms none = none
evict l z h now_ms (some (i, last)) = some (claim l z i h now_ms)

-- `left` probes are still to come, from the probe `p` on.
probe : Limits → Zone → ℕ → ℕ → ℕ → ℕ → Option (ℕ × ℕ) → Option (Zone × Decision)
probe l z h now_ms zero p stalest = evict l z h now_ms stalest
probe l z h now_ms (suc left) p stalest =
    let i = bit_and ((h + p) % 2 ^ 64) (z.slots - 1) in
    let rest = probe l z h now_ms left (suc p) (staler stalest i (unpack (z.mem i).word).0) in
    if (z.mem i).hash == h
    then some (bump l z i h now_ms)
    else if (z.mem i).hash == 0
    then some (claim l z i h now_ms)
    else rest

unfoldable pub check : Limits → Zone → Bytes → ℕ → Option (Zone × Decision)
unfolding probe evict staler claim
check l z key now_ms = probe l z (hash_key z key) now_ms probe_len 0 none
