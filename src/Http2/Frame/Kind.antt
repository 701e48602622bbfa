-- ===== src/Http2/Frame/Kind.antt =====
-- src/http2/frame.rs: `mod kind`.
use Prim.Native.Nat.{ℕ}

abbrev pub data_frame : ℕ
data_frame = 0x0

abbrev pub headers : ℕ
headers = 0x1

abbrev pub priority : ℕ
priority = 0x2

abbrev pub rst_stream : ℕ
rst_stream = 0x3

abbrev pub settings : ℕ
settings = 0x4

abbrev pub push_promise : ℕ
push_promise = 0x5

abbrev pub ping : ℕ
ping = 0x6

abbrev pub goaway : ℕ
goaway = 0x7

abbrev pub window_update : ℕ
window_update = 0x8

abbrev pub continuation : ℕ
continuation = 0x9
