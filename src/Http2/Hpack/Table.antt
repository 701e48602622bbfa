-- ===== src/Http2/Hpack/Table.antt =====
-- src/http2/hpack.rs: the decoder's dynamic table.
pub mod Bounds
pub mod Recency
use oxi_serve.Base.{ℕ, ◌+◌, ◌-◌, ◌*◌, ◌^◌, min, List, [], ◌∷◌, Option, none, some}
use oxi_serve.Base.{ltb, leb, ◌==◌, if◌then◌else◌, length, get_elem?}
use oxi_serve.Base.Result.{Result, ok, err}
use oxi_serve.Http2.Hpack.Int.{HpackError, compression, too_large}
use oxi_serve.Http2.Hpack.Static.{Header, static_table}
use mathlib.Core.List.{reverse}

abbrev pub entry_overhead : ℕ
entry_overhead = 32

unfoldable pub entry_size : Header → ℕ
entry_size h = length h.name + length h.value + entry_overhead

-- The most recent entry stands first.
pub record Decoder : Type 0 where
  pub dynamic : List Header
  pub size : ℕ
  pub max_size : ℕ
  pub settings_max : ℕ

unfoldable pub new : ℕ → Decoder
new max_size = record { dynamic = []; size = 0; max_size = max_size; settings_max = max_size }

-- `while self.size > self.max_size { match self.dynamic.pop_back() … }`, oldest entry first.
unfoldable pub evict_loop : List Header → ℕ → ℕ → List Header × ℕ
evict_loop [] size max_size = ([], if ltb max_size size then 0 else size)
evict_loop (h ∷ older) size max_size =
    let more = evict_loop older (size - entry_size h) max_size in
    if ltb max_size size then more else (h ∷ older, size)

unfoldable pub evict : Decoder → Decoder
unfolding evict_loop
evict d =
    let (kept, size) = evict_loop (reverse d.dynamic) d.size d.max_size in
    record d { dynamic = reverse kept; size = size }

unfoldable pub set_max_size : Decoder → ℕ → Decoder
set_max_size d n =
    if ltb n d.max_size
    then evict (record d { settings_max = n; max_size = n })
    else record d { settings_max = n }

unfoldable pub insert : Decoder → Header → Decoder
insert d h =
    let cost = entry_size h in
    if ltb d.max_size cost
    then record d { dynamic = []; size = 0 }
    else evict (record d { size = d.size + cost; dynamic = h ∷ d.dynamic })

-- `.ok_or(HpackError::Compression)`
or_compression {ℓ} : {A : Type ℓ} → Option A → Result HpackError A
or_compression none = err compression
or_compression (some a) = ok a

-- `idx` counts from 1, across the static table and then the dynamic one.
unfoldable pub lookup : Decoder → ℕ → Result HpackError Header
unfolding or_compression static_table
lookup d idx =
    if idx == 0
    then err compression
    else if leb idx (length static_table)
    then or_compression (get_elem? static_table (idx - 1))
    else or_compression (get_elem? d.dynamic (idx - length static_table - 1))

-- `saturating_add` stops at the largest `usize`.
unfoldable pub charge : ℕ → Header → ℕ → Result HpackError ℕ
unfolding entry_size
charge listed h max =
    let n = min (listed + entry_size h) (2 ^ 64 - 1) in if ltb max n then err too_large else ok n
