-- ===== src/Http2/Frame/Flag.antt =====
-- src/http2/frame.rs: `mod flag`.
use Prim.Native.Nat.{ℕ}

abbrev pub end_stream : ℕ
end_stream = 0x1

abbrev pub ack : ℕ
ack = 0x1

abbrev pub end_headers : ℕ
end_headers = 0x4

abbrev pub padded : ℕ
padded = 0x8

abbrev pub priority : ℕ
priority = 0x20
