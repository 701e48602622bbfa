-- ===== src/Http2/Conn/Receive.antt =====
-- src/http2/conn.rs: a whole round of `read_loop`, from the frame to the dispatch step.
pub mod Keeps
use oxi_serve.Base.{ℕ, ◌^◌, Bool, true, false, not, ◌&&◌, List, [], ◌∷◌, ◌++◌, Option, none, some}
use oxi_serve.Base.{ltb, ◌==◌, if◌then◌else◌, length}
use oxi_serve.Base.Bytes.{Bytes}
use oxi_serve.Base.Int.{pos}
use oxi_serve.Base.Opt.{◌>>=◌}
use oxi_serve.Http2.Frame.{Head, Code, protocol, frame_size, default_max_frame, default_window}
use oxi_serve.Http2.Frame.Kind
use oxi_serve.Http2.Hpack.Table.{new}
use oxi_serve.Http2.Conn.Streams.{
  State, opened, half_closed_remote, was_reset, Stream, Env, Request, Conn, get, update,
  reset_stream, our_initial_window, Next, again, dispatch, finish, fail, crash,
}
use oxi_serve.Http2.Conn.Handlers.{on_data, on_headers, on_continuation}
use oxi_serve.Http2.Conn.Control.{
  on_priority, on_rst_stream, on_settings, on_ping, on_window_update,
}

is_half_closed : State → Bool
is_half_closed opened = false
is_half_closed half_closed_remote = true
is_half_closed was_reset = false

abbrev ready : Stream → Bool
unfolding is_half_closed
ready s = not s.dispatched && (s.headers_done && is_half_closed s.state)

-- The map's order is not specified in the source; here it is that of the list.
ready_ids : List (ℕ × Stream) → List ℕ
ready_ids [] = []
ready_ids ((id, s) ∷ m) = if ready s then id ∷ ready_ids m else ready_ids m

spawn : Conn → ℕ → Stream → Conn
spawn c id s = record c {
  streams = update id (λ t. record t { dispatched = true; headers = []; body = [] }) c.streams;
  spawned = c.spawned ++ (record { id = id; headers = s.headers; body = s.body } ∷ []);
}

refuse : Conn → ℕ → Conn
refuse c id =
    reset_stream
      (record c {
        streams = update id (λ t. record t { dispatched = true; done = true }) c.streams;
      })
      id protocol

-- A declared length that is not the body's is refused.
length_matches : Option ℕ → ℕ → Bool
length_matches none n = true
length_matches (some m) n = m == n

-- `none` stands for the failed `expect`.
dispatch_found : Conn → ℕ → Option Stream → Option Conn
dispatch_found c id none = none
dispatch_found c id (some s) =
    some (if length_matches s.content_length (length s.body) then spawn c id s else refuse c id)

dispatch_ids : List ℕ → Conn → Option Conn
dispatch_ids [] c = some c
dispatch_ids (id ∷ ids) c = dispatch_found c id (get id c.streams) >>= dispatch_ids ids

pub dispatch_ready : Conn → Option Conn
unfolding dispatch_ids dispatch_found
dispatch_ready c = dispatch_ids (ready_ids c.streams) c

end_round : Option Conn → Next
end_round none = crash
end_round (some c) = again c

-- What stands behind the `match` on the frame's kind.
settle : Next → Next
settle (dispatch c) = end_round (dispatch_ready c)
settle (again c) = again c
settle (finish c) = finish c
settle (fail c e) = fail c e
settle crash = crash

breaks_block : Option ℕ → Head → Bool
breaks_block none head = false
breaks_block (some waiting) head = not (head.kind == Kind.continuation && head.stream == waiting)

module _ (env : Env) where
  handle : Conn → Head → Bytes → Next
  handle c head payload =
      if head.kind == Kind.data_frame
      then on_data env c head payload
      else if head.kind == Kind.headers
      then on_headers env c head payload
      else if head.kind == Kind.continuation
      then on_continuation env c head payload
      else if head.kind == Kind.priority
      then on_priority c head payload
      else if head.kind == Kind.rst_stream
      then on_rst_stream c head
      else if head.kind == Kind.settings
      then on_settings c head payload
      else if head.kind == Kind.ping
      then on_ping c head payload
      else if head.kind == Kind.window_update
      then on_window_update c head payload
      else if head.kind == Kind.goaway
      then finish c
      else if head.kind == Kind.push_promise
      then fail c protocol
      else dispatch c

  -- One round; `payload` is the `head.len` bytes that follow the header.
  unfoldable pub receive : Conn → Head → Bytes → Next
  unfolding breaks_block handle settle end_round dispatch_ready ready_ids length_matches spawn
      refuse ready
  receive c head payload =
      if ltb default_max_frame head.len
      then fail c frame_size
      else if breaks_block c.expect_continuation head
      then fail c protocol
      else settle (handle c head payload)

-- The state before the first frame.
abbrev pub start : Conn
start = record {
  dec = record { dynamic = []; size = 0; max_size = 4096; settings_max = 4096 };
  streams = [];
  peer_initial_window = default_window;
  recv_window = pos our_initial_window;
  highest = 0;
  expect_continuation = none;
  conn_window = default_window;
  max_frame = default_max_frame;
  last_stream = 0;
  sent = [];
  spawned = [];
}
