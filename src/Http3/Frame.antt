-- ===== src/Http3/Frame.antt =====
-- src/http3/frame.rs: frame headers. Two varints, type and length, stand before each payload.
pub mod Laws
use oxi_serve.Base.{ℕ, ◌+◌, ◌-◌, ◌%◌, Bool, ◌||◌, ◌&&◌, ◌++◌, Option, none, some}
use oxi_serve.Base.{leb, ◌==◌, if◌then◌else◌, length, drop}
use oxi_serve.Base.Bytes.{Bytes}
use oxi_serve.Base.Result.{Result, ok, err}
use oxi_serve.Http3.Varint.{put_varint, get_varint}

-- `FrameError` carries a code of `mod code`.
pub record FrameError : Type 0 where
  pub code : ℕ

abbrev pub frame_unexpected : ℕ
frame_unexpected = 0x0105

pub record Head : Type 0 where
  pub kind : ℕ
  pub len : ℕ
  pub head_len : ℕ

unfoldable pub is_reserved_h2 : ℕ → Bool
is_reserved_h2 kind = kind == 0x02 || kind == 0x06 || kind == 0x08 || kind == 0x09

unfoldable pub is_grease : ℕ → Bool
is_grease v = leb 0x21 v && (v - 0x21) % 0x1f == 0

-- The second half of `parse_head`, with the type read.
parse_len : ℕ → ℕ → Option (ℕ × ℕ) → Result FrameError (Option Head)
parse_len kind a none = ok none
parse_len kind a (some (len, b)) =
    if is_reserved_h2 kind
    then err (record { code = frame_unexpected })
    else ok (some (record { kind = kind; len = len; head_len = a + b }))

parse_kind : Bytes → Option (ℕ × ℕ) → Result FrameError (Option Head)
unfolding parse_len
parse_kind buf none = ok none
parse_kind buf (some (kind, a)) = parse_len kind a (get_varint (drop a buf))

unfoldable pub parse_head : Bytes → Result FrameError (Option Head)
unfolding parse_kind
parse_head buf = parse_kind buf (get_varint buf)

pub put_frame : ℕ → Bytes → Bytes → Bytes
put_frame kind payload out = put_varint (length payload) (put_varint kind out) ++ payload

abbrev pub data_kind : ℕ
data_kind = 0

pub put_data_head : ℕ → Bytes → Bytes
put_data_head len out = put_varint len (put_varint data_kind out)
