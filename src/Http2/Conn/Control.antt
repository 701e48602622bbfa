-- ===== src/Http2/Conn/Control.antt =====
-- src/http2/conn.rs: the handlers of the frames that carry no request.
pub mod Keeps
use Prim.Native.Nat.{bit_and}
use oxi_serve.Base.{ℕ, ◌+◌, ◌%◌, not, ◌&&◌, Bool, true, false, List, [], ◌∷◌, Option, none, some}
use oxi_serve.Base.{leb, ltb, ◌==◌, if◌then◌else◌}
use oxi_serve.Base.Bytes.{Bytes, from_be16, from_be32}
use oxi_serve.Base.Int.{ℤ, pos, ltb_ℤ, ◌+ℤ◌, ◌-ℤ◌}
use oxi_serve.Base.Result.{Result, ok, err, ◌>>=◌}
use oxi_serve.Http2.Frame.{Code, protocol, flow_control, frame_size}
use oxi_serve.Http2.Frame.{
  Head, has, u32_at, rst, settings_ack, write_frame, max_window, default_max_frame, max_frame_limit,
}
use oxi_serve.Http2.Frame.Kind
use oxi_serve.Http2.Frame.Flag
use oxi_serve.Http2.Hpack.Table.{set_max_size}
use oxi_serve.Http2.Conn.Streams.{
  Stream, was_reset, Conn, get, update, map_values, state_of, Where, idle, open_, half_closed,
  closed, reset_, reset_stream, Next, again, dispatch, finish, fail, crash,
}

-- `frame::u32_at(payload, 0).unwrap_or(0) & 0x7fff_ffff`
word : Option ℕ → ℕ
word none = bit_and 0 0x7fff_ffff
word (some v) = bit_and v 0x7fff_ffff

is_idle : Where → Bool
is_idle idle = true
is_idle open_ = false
is_idle half_closed = false
is_idle closed = false
is_idle reset_ = false

unfoldable pub on_priority : Conn → Head → Bytes → Next
unfolding word
on_priority c head payload =
    if head.len == 5
    then if head.stream == 0
      then fail c protocol
      else if word (u32_at payload 0) == head.stream
      then dispatch (record c { sent = rst head.stream protocol c.sent })
      else dispatch c
    else fail c frame_size

unfoldable pub on_rst_stream : Conn → Head → Next
unfolding is_idle
on_rst_stream c head =
    if head.stream == 0
    then fail c protocol
    else if head.len == 4
    then if is_idle (state_of c.streams head.stream c.highest)
      then fail c protocol
      else dispatch (record c {
        streams = update head.stream (λ s. record s { state = was_reset; reset = true }) c.streams;
      })
    else fail c frame_size

-- One setting. The values of `mod setting` are 1 HEADER_TABLE_SIZE, 2 ENABLE_PUSH,
-- 4 INITIAL_WINDOW_SIZE and 5 MAX_FRAME_SIZE.
unfoldable pub apply_setting : Conn → ℕ → ℕ → Result Code Conn
apply_setting c id v =
    if id == 0x4
    then if ltb max_window v then err flow_control else ok (record c { peer_initial_window = v })
    else if id == 0x5
    then if ltb v default_max_frame
      then err protocol
      else if ltb max_frame_limit v
      then err protocol
      else ok (record c { max_frame = v })
    else if id == 0x2
    then if ltb 1 v then err protocol else ok c
    else if id == 0x1
    then ok (record c { dec = set_max_size c.dec v })
    else ok c

-- `for c in payload.chunks_exact(6)`: a shorter chunk at the end is left out.
unfoldable pub apply_settings : Bytes → Conn → Result Code Conn
apply_settings (i0 ∷ i1 ∷ v0 ∷ v1 ∷ v2 ∷ v3 ∷ rest) c = do
  c' ← apply_setting c (from_be16 i0 i1) (from_be32 v0 v1 v2 v3)
  apply_settings rest c'
apply_settings short c = ok c

-- A changed initial window moves the window of every entry by the difference.
unfoldable pub shift_windows : ℤ → List (ℕ × Stream) → List (ℕ × Stream)
shift_windows delta streams = map_values (λ s. record s { window = s.window +ℤ delta }) streams

settled : ℕ → Conn → Result Code Conn → Next
settled old_initial before (err e) = fail before e
settled old_initial before (ok c) = dispatch (record c {
  streams = shift_windows (pos c.peer_initial_window -ℤ pos old_initial) c.streams;
  sent = settings_ack c.sent;
})

unfoldable pub on_settings : Conn → Head → Bytes → Next
unfolding settled
on_settings c head payload =
    if head.stream == 0
    then if has head Flag.ack
      then if head.len == 0 then again c else fail c frame_size
      else if head.len % 6 == 0
      then settled c.peer_initial_window c (apply_settings payload c)
      else fail c frame_size
    else fail c protocol

unfoldable pub on_ping : Conn → Head → Bytes → Next
on_ping c head payload =
    if head.stream == 0
    then if head.len == 8
      then if has head Flag.ack
        then dispatch c
        else dispatch (record c { sent = write_frame Kind.ping Flag.ack 0 payload c.sent })
      else fail c frame_size
    else fail c protocol

grow_stream : Conn → ℕ → ℕ → Option Stream → Next
grow_stream c id inc none = dispatch c
grow_stream c id inc (some s) =
    if ltb_ℤ (pos max_window) (s.window +ℤ pos inc)
    then again (reset_stream c id flow_control)
    else dispatch (record c {
      streams = update id (λ t. record t { window = s.window +ℤ pos inc }) c.streams;
    })

grow : Conn → ℕ → ℕ → Next
unfolding grow_stream
grow c id inc =
    if inc == 0
    then if id == 0 then fail c protocol else again (reset_stream c id protocol)
    else if id == 0
    then if ltb max_window (c.conn_window + inc)
      then fail c flow_control
      else dispatch (record c { conn_window = c.conn_window + inc })
    else grow_stream c id inc (get id c.streams)

unfoldable pub on_window_update : Conn → Head → Bytes → Next
unfolding word is_idle grow
on_window_update c head payload =
    if head.len == 4
    then if not (head.stream == 0) && is_idle (state_of c.streams head.stream c.highest)
      then fail c protocol
      else grow c head.stream (word (u32_at payload 0))
    else fail c frame_size
