-- ===== src/Http2/Frame.antt =====
-- src/http2/frame.rs: the nine-byte frame header, padding, and the frames of fixed shape.
-- Numbers stand for the source's `u8`, `u16` and `u32`; a cast is a remainder.
pub mod Kind
pub mod Flag
pub mod Laws
use Prim.Native.Nat.{bit_and}
use oxi_serve.Base.{ℕ, ◌-◌, ◌/◌, ◌%◌, ◌^◌, Bool, true, false, not, List, [], ◌∷◌, ◌++◌}
use oxi_serve.Base.{Option, none, some, ltb, ◌==◌, if◌then◌else◌, length, take, drop}
use oxi_serve.Base.Bytes.{Bytes, u16_be, u32_be, from_be32}

abbrev pub default_max_frame : ℕ
default_max_frame = 16_384

abbrev pub max_frame_limit : ℕ
max_frame_limit = 16_777_215

-- The windows are `i64`; these two are not negative.
abbrev pub default_window : ℕ
default_window = 65_535

abbrev pub max_window : ℕ
max_window = 2_147_483_647

pub data Code : Type 0 where
  no_error protocol internal flow_control settings_timeout stream_closed frame_size : Code
  refused_stream cancel compression connect enhance_your_calm inadequate_security : Code
  http11_required : Code

-- `code as u32`
unfoldable pub code_value : Code → ℕ
code_value no_error = 0x0
code_value protocol = 0x1
code_value internal = 0x2
code_value flow_control = 0x3
code_value settings_timeout = 0x4
code_value stream_closed = 0x5
code_value frame_size = 0x6
code_value refused_stream = 0x7
code_value cancel = 0x8
code_value compression = 0x9
code_value connect = 0xa
code_value enhance_your_calm = 0xb
code_value inadequate_security = 0xc
code_value http11_required = 0xd

pub record Head : Type 0 where
  pub len : ℕ
  pub kind : ℕ
  pub flags : ℕ
  pub stream : ℕ

-- `&[u8; HEADER_LEN]`
abbrev pub HeaderBytes : Type 0
HeaderBytes = ℕ × ℕ × ℕ × ℕ × ℕ × ℕ × ℕ × ℕ × ℕ

unfoldable pub parse : HeaderBytes → Head
parse (b0, b1, b2, b3, b4, b5, b6, b7, b8) = record {
  len = from_be32 0 b0 b1 b2;
  kind = b3;
  flags = b4;
  stream = bit_and (from_be32 b5 b6 b7 b8) 0x7fff_ffff;
}

unfoldable pub has : Head → ℕ → Bool
has h f = not (bit_and h.flags f == 0)

unfoldable pub write : Head → Bytes → Bytes
write h out = out ++ (drop 1 (u32_be h.len) ++ (h.kind ∷ h.flags ∷ u32_be h.stream))

unfoldable pub write_frame : ℕ → ℕ → ℕ → Bytes → Bytes → Bytes
unfolding write
write_frame kind flags stream payload out =
    write (record { len = length payload % 2 ^ 32; kind = kind; flags = flags; stream = stream })
      out
    ++ payload

unfoldable pub unpad : Bytes → Bool → Option Bytes
unpad payload false = some payload
unpad [] true = none
unpad (pad ∷ rest) true =
    if ltb (length rest) pad then none else some (take (length rest - pad) rest)

unfoldable pub goaway : ℕ → Code → Bytes → Bytes → Bytes
unfolding write_frame code_value
goaway last_stream code debug out =
    write_frame Kind.goaway 0 0 (u32_be last_stream ++ (u32_be (code_value code) ++ debug)) out

unfoldable pub rst : ℕ → Code → Bytes → Bytes
unfolding write_frame code_value
rst stream code out = write_frame Kind.rst_stream 0 stream (u32_be (code_value code)) out

unfoldable pub window_update : ℕ → ℕ → Bytes → Bytes
unfolding write_frame
window_update stream increment out = write_frame Kind.window_update 0 stream (u32_be increment) out

unfoldable pub settings_payload : List (ℕ × ℕ) → Bytes
settings_payload [] = []
settings_payload ((id, v) ∷ pairs) = u16_be id ++ (u32_be v ++ settings_payload pairs)

unfoldable pub settings : List (ℕ × ℕ) → Bytes → Bytes
unfolding write_frame settings_payload
settings pairs out = write_frame Kind.settings 0 0 (settings_payload pairs) out

unfoldable pub settings_ack : Bytes → Bytes
unfolding write_frame
settings_ack out = write_frame Kind.settings Flag.ack 0 [] out

-- `b.get(off..off + 4)`
four : Bytes → Option ℕ
four (a ∷ b ∷ c ∷ d ∷ rest) = some (from_be32 a b c d)
four short = none

unfoldable pub u32_at : Bytes → ℕ → Option ℕ
unfolding four
u32_at b off = four (drop off b)
