-- ===== src/Http2/Hpack/Encoder.antt =====
-- src/http2/hpack.rs: the encoder, which keeps no dynamic table.
use oxi_serve.Base.{ℕ, suc, ◌+◌, Bool, true, false, ◌&&◌, List, [], ◌∷◌, ◌++◌, Option, none, some}
use oxi_serve.Base.{ltb, ◌==◌, if◌then◌else◌, length}
use oxi_serve.Base.Bytes.{Bytes, same_bytes}
use oxi_serve.Http2.Huffman
use oxi_serve.Http2.Hpack.Static.{Header, static_table}
use oxi_serve.Http2.Hpack.Int.{write_int}

pub record Encoder : Type 0 where
  pub peer_max : ℕ
  pub announced : Bool

unfoldable pub new : ℕ → Encoder
new peer_max = record { peer_max = peer_max; announced = false }

unfoldable pub set_peer_max : Encoder → ℕ → Encoder
set_peer_max e n = if n == e.peer_max then e else record { peer_max = n; announced = false }

unfoldable pub begin_block : Encoder → Bytes → Encoder × Bytes
begin_block e out =
    if e.announced then (e, out) else (record e { announced = true }, write_int 0 5 0x20 out)

-- `iter().position(test)`, counted from `i`
unfoldable pub position : (Header → Bool) → ℕ → List Header → Option ℕ
position test i [] = none
position test i (h ∷ hs) = let rest = position test (suc i) hs in if test h then some i else rest

unfoldable pub write_string : Bytes → Bytes → Bytes
write_string s out =
    if ltb (Huffman.encoded_len s) (length s)
    then Huffman.encode s (write_int (Huffman.encoded_len s) 7 0x80 out)
    else write_int (length s) 7 0x00 out ++ s

name_bytes : Bytes → Option ℕ → Bytes → Bytes
name_bytes name (some i) out = write_int (i + 1) 4 0x00 out
name_bytes name none out = write_string name (out ++ (0x00 ∷ []))

encode_found : Bytes → Bytes → Option ℕ → Bytes → Bytes
encode_found name value (some i) out = write_int (i + 1) 7 0x80 out
encode_found name value none out =
    write_string value (name_bytes name (position (λ h. same_bytes h.name name) 0 static_table) out)

-- `encode` reads none of the encoder's own fields.
unfoldable pub encode : Bytes → Bytes → Bytes → Bytes
unfolding encode_found name_bytes
encode name value out =
    encode_found name value
      (position (λ h. same_bytes h.name name && same_bytes h.value value) 0 static_table) out
