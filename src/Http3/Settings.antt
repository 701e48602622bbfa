-- ===== src/Http3/Settings.antt =====
-- src/http3/frame.rs: the SETTINGS payload, pairs of varints.
pub mod Laws
pub mod Exchange
use oxi_serve.Base.{ℕ, zero, suc, ◌*◌, Bool, ◌&&◌, List, [], ◌∷◌, ◌++◌}
use oxi_serve.Base.{Option, none, some, leb, ◌==◌, if◌then◌else◌, length, drop}
use oxi_serve.Base.Bytes.{Bytes}
use oxi_serve.Base.Result.{Result, ok, err}
use oxi_serve.Http3.Varint.{put_varint, get_varint}
use oxi_serve.Http3.Frame.{FrameError}

pub record Settings : Type 0 where
  pub qpack_max_table_capacity : ℕ
  pub qpack_blocked_streams : ℕ
  pub max_field_section_size : ℕ

abbrev pub default : Settings
default = record {
  qpack_max_table_capacity = 0;
  qpack_blocked_streams = 0;
  max_field_section_size = 64 * 1024;
}

abbrev pub settings_error : FrameError
settings_error = record { code = 0x0109 }

put_pairs : List (ℕ × ℕ) → Bytes → Bytes
put_pairs [] out = out
put_pairs ((id, v) ∷ ps) out = put_pairs ps (put_varint v (put_varint id out))

pub encode : Settings → Bytes → Bytes
unfolding put_pairs
encode s = put_pairs (
    (0x01, s.qpack_max_table_capacity)
    ∷ (0x07, s.qpack_blocked_streams)
    ∷ (0x06, s.max_field_section_size)
    ∷ [])

-- The identifiers that HTTP/2 used.
abbrev pub is_reserved : ℕ → Bool
is_reserved id = leb 0x02 id && leb id 0x05

pub assign : ℕ → ℕ → Settings → Settings
assign id v s =
    if id == 0x01
    then record s { qpack_max_table_capacity = v }
    else if id == 0x07
    then record s { qpack_blocked_streams = v }
    else if id == 0x06
    then record s { max_field_section_size = v }
    else s

-- The outcome of the loop; `none` is the end of the fuel.
abbrev pub Outcome : Type 0
Outcome = Option (Result FrameError Settings)

-- The body of the loop in three steps, with the rest of the loop as `next`.
decode_value : Settings → (Bytes → Settings → Outcome) → ℕ → Bytes → Option (ℕ × ℕ) → Outcome
decode_value s next id buf none = some (err settings_error)
decode_value s next id buf (some (v, m)) =
    if is_reserved id then some (err settings_error) else next (drop m buf) (assign id v s)

decode_id : Settings → (Bytes → Settings → Outcome) → Bytes → Option (ℕ × ℕ) → Outcome
decode_id s next buf none = some (err settings_error)
decode_id s next buf (some (id, n)) = decode_value s next id (drop n buf) (get_varint (drop n buf))

decode_pair : Bytes → Settings → (Bytes → Settings → Outcome) → Outcome
unfolding decode_id decode_value
decode_pair buf s next = decode_id s next buf (get_varint buf)

pub decode_loop : ℕ → Bytes → Settings → Outcome
decode_loop fuel [] s = some (ok s)
decode_loop zero (b ∷ bs) s = none
decode_loop (suc fuel) (b ∷ bs) s = decode_pair (b ∷ bs) s (decode_loop fuel)

-- Each round takes two bytes at least, so the length of the payload is fuel enough.
pub decode : Bytes → Outcome
unfolding decode_loop decode_pair
decode buf = decode_loop (length buf) buf default
