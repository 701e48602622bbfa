-- ===== src/Http2/Conn/Handlers.antt =====
-- src/http2/conn.rs: one handler for each frame kind of `read_loop`. The debug texts of errors are
-- left out.
pub mod Keeps
use Prim.Native.Nat.{bit_and}
use oxi_serve.Base.{
  ℕ, ◌+◌, ◌*◌, ◌%◌, ◌^◌, Bool, true, false, not, ◌&&◌, ◌||◌, List, [], ◌∷◌, ◌++◌, Option, none,
  some,
}
use oxi_serve.Base.{leb, ltb, ◌==◌, if◌then◌else◌, length, drop}
use oxi_serve.Base.Bytes.{Bytes, codes, same_bytes, from_be16, from_be32}
use oxi_serve.Base.Int.{pos, ltb_ℤ, ◌+ℤ◌, ◌-ℤ◌}
use oxi_serve.Base.Result.{Result, ok, err}
use oxi_serve.Http2.Frame.{
  Code, protocol, flow_control, stream_closed, frame_size, refused_stream, compression,
  enhance_your_calm,
}
use oxi_serve.Http2.Frame.{
  Head, has, unpad, u32_at, rst, settings_ack, write_frame, max_window, default_max_frame,
  max_frame_limit,
}
use oxi_serve.Http2.Frame.Kind
use oxi_serve.Http2.Frame.Flag
use oxi_serve.Http2.Hpack.Static.{Header}
use oxi_serve.Http2.Hpack.Int.{HpackError, too_large}
use oxi_serve.Http2.Hpack.Table.{set_max_size}
use oxi_serve.Http2.Hpack.Decoder.{Progress, End, complete, failed, stuck, decode}
use oxi_serve.Http2.Conn.Streams.{
  State, opened, half_closed_remote, was_reset, Stream, new_stream, Env, Conn, get, update,
  map_values, retain, count, state_of, idle, open_, half_closed, closed, reset_, reset_stream,
  replenish, max_concurrent, max_header_list, Where, Next, again, dispatch, finish, fail, crash,
}

module _ (env : Env) where
  -- DATA -----------------------------------------------------------------------------------------
  push_data : Conn → Head → Bytes → Option Stream → Next
  push_data c head body none = crash
  push_data c head body (some st) =
      if ltb env.client_max_body_size (length st.body + length body)
      then again (reset_stream c head.stream enhance_your_calm)
      else dispatch (record c {
        streams =
            update head.stream
              (λ s. record s {
                body = s.body ++ body;
                state = if has head Flag.end_stream then half_closed_remote else s.state;
              })
              c.streams;
      })

  place_data : Conn → Head → Bytes → Where → Next
  place_data c head body idle = fail c protocol
  place_data c head body closed = fail c stream_closed
  place_data c head body reset_ = again (reset_stream c head.stream stream_closed)
  place_data c head body half_closed = again (reset_stream c head.stream stream_closed)
  place_data c head body open_ = push_data c head body (get head.stream c.streams)

  unpadded_data : Conn → Head → Option Bytes → Next
  unpadded_data c head none = fail c protocol
  unpadded_data c head (some body) =
      place_data (replenish c) head body (state_of c.streams head.stream c.highest)

  pub on_data : Conn → Head → Bytes → Next
  on_data c head payload =
      if head.stream == 0
      then fail c protocol
      else unpadded_data (record c { recv_window = c.recv_window -ℤ pos head.len }) head
          (unpad payload (has head Flag.padded))

  -- Header blocks --------------------------------------------------------------------------------
  abbrev content_length_name : Bytes
  content_length_name = codes "content-length"

  -- `find` the first field of the name, and parse its value.
  declared_length : List Header → Option ℕ
  declared_length [] = none
  declared_length (h ∷ hs) =
      if same_bytes h.name content_length_name then env.parse_u64 h.value else declared_length hs

  is_pseudo : Bytes → Bool
  is_pseudo [] = false
  is_pseudo (b ∷ bs) = b == b':'

  any_pseudo : List Header → Bool
  any_pseudo [] = false
  any_pseudo (h ∷ hs) = is_pseudo h.name || any_pseudo hs

  finish_decoded : Conn → ℕ → Bool → List Header → End → Next
  finish_decoded c id trailers out (failed HpackError.compression) = fail c compression
  finish_decoded c id trailers out (failed too_large) =
      dispatch (reset_stream c id enhance_your_calm)
  finish_decoded c id trailers out stuck = crash
  finish_decoded c id true out complete =
      dispatch (if any_pseudo out then reset_stream c id protocol else c)
  finish_decoded c id false out complete = dispatch (record c {
    streams =
        update id
          (λ s. record s {
            content_length = declared_length out;
            headers = out;
            headers_done = true;
          })
          c.streams;
  })

  finish_found : Conn → ℕ → Option Stream → Next
  finish_found c id none = dispatch c
  finish_found c id (some st) =
      let (p, end) = decode env.text c.dec st.pending max_header_list [] in
      finish_decoded
        (record c {
          dec = p.decoder;
          streams = update id (λ s. record s { pending = [] }) c.streams;
        })
        id st.pending_is_trailers p.out end

  pub finish_block : Conn → ℕ → Next
  finish_block c id = finish_found c id (get id c.streams)

  -- `if open_block { … }` of HEADERS.
  after_block : Conn → Head → Next
  after_block c head =
      if has head Flag.end_headers
      then finish_block c head.stream
      else dispatch (record c { expect_continuation = some head.stream })

  -- HEADERS --------------------------------------------------------------------------------------
  store_trailers : Conn → Head → Bytes → Option Stream → Next
  store_trailers c head block none = crash
  store_trailers c head block (some st) =
      after_block
        (record c {
          streams =
              update head.stream
                (λ s. record s {
                  pending = block;
                  pending_is_trailers = true;
                  state = half_closed_remote;
                })
                c.streams;
        })
        head

  trailers : Conn → Head → Bytes → Next
  trailers c head block =
      if has head Flag.end_stream
      then store_trailers c head block (get head.stream c.streams)
      else dispatch (reset_stream c head.stream protocol)

  -- `streams.retain(|_, s| !(s.dispatched && s.flow.done.get()))`
  pub prune : Conn → Conn
  prune c = record c { streams = retain (λ s. not (s.dispatched && s.done)) c.streams }

  pub active : Conn → ℕ
  active c = count (λ s. not s.done) c.streams

  admit : Conn → Head → Bytes → Next
  admit c head block =
      if leb max_concurrent (active c)
      then dispatch (record c { sent = rst head.stream refused_stream c.sent })
      else after_block
          (record c {
            streams =
                (
                  head.stream,
                  record (new_stream (pos c.peer_initial_window)) {
                    state = if has head Flag.end_stream then half_closed_remote else opened;
                    pending = block;
                  },
                )
                ∷ c.streams;
          })
          head

  open_new : Conn → Head → Bytes → Next
  open_new c head block =
      if leb head.stream c.highest
      then fail c protocol
      else admit (prune (record c { highest = head.stream; last_stream = head.stream })) head block

  place_block : Conn → Head → Bytes → Where → Next
  place_block c head block open_ = trailers c head block
  place_block c head block half_closed = trailers c head block
  place_block c head block closed = fail c stream_closed
  place_block c head block reset_ = fail c stream_closed
  place_block c head block idle = open_new c head block

  -- `frame::u32_at(block, 0).unwrap_or(0) & 0x7fff_ffff`
  stream_word : Option ℕ → ℕ
  stream_word none = bit_and 0 0x7fff_ffff
  stream_word (some v) = bit_and v 0x7fff_ffff

  strip_priority : Conn → Head → Bytes → Next
  strip_priority c head block =
      if has head Flag.priority
      then if ltb (length block) 5
        then fail c frame_size
        else if stream_word (u32_at block 0) == head.stream
        then again (record c { sent = rst head.stream protocol c.sent })
        else place_block c head (drop 5 block) (state_of c.streams head.stream c.highest)
      else place_block c head block (state_of c.streams head.stream c.highest)

  unpadded_block : Conn → Head → Option Bytes → Next
  unpadded_block c head none = fail c protocol
  unpadded_block c head (some block) = strip_priority c head block

  pub on_headers : Conn → Head → Bytes → Next
  on_headers c head payload =
      if head.stream == 0
      then fail c protocol
      else if head.stream % 2 == 0
      then fail c protocol
      else unpadded_block c head (unpad payload (has head Flag.padded))

  -- CONTINUATION ---------------------------------------------------------------------------------
  is_open_on : Option ℕ → ℕ → Bool
  is_open_on none id = false
  is_open_on (some waiting) id = waiting == id

  extend_block : Conn → Head → Bytes → Option Stream → Next
  extend_block c head payload none = crash
  extend_block c head payload (some st) =
      if ltb (max_header_list * 2) (length st.pending + length payload)
      then fail c protocol
      else let grown =
          update head.stream (λ s. record s { pending = s.pending ++ payload }) c.streams in
        if has head Flag.end_headers
        then finish_block (record c { streams = grown; expect_continuation = none }) head.stream
        else dispatch (record c { streams = grown })

  pub on_continuation : Conn → Head → Bytes → Next
  on_continuation c head payload =
      if is_open_on c.expect_continuation head.stream
      then extend_block c head payload (get head.stream c.streams)
      else fail c protocol
