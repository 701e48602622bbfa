-- ===== src/Http2/Conn/Streams.antt =====
-- src/http2/conn.rs: the connection's state, and what its handlers share. A `HashMap` from stream
-- ids is an association list. A stream's `StreamFlow` is part of its entry.
use oxi_serve.Base.{ℕ, ◌+◌, ◌*◌, Bool, true, false, List, [], ◌∷◌, Option, none, some}
use oxi_serve.Base.{leb, ◌==◌, if◌then◌else◌}
use oxi_serve.Base.Bytes.{Bytes}
use oxi_serve.Base.Int.{ℤ, pos, ltb_ℤ, ◌-ℤ◌, pos_part}
use oxi_serve.Http2.Frame.{Code, rst, window_update}
use oxi_serve.Http2.Hpack.Static.{Header}
use oxi_serve.Http2.Hpack.Table.{Decoder}
use oxi_serve.Http2.Hpack.Decoder.{Text}

abbrev pub our_initial_window : ℕ
our_initial_window = 1024 * 1024

abbrev pub max_concurrent : ℕ
max_concurrent = 128

abbrev pub max_header_list : ℕ
max_header_list = 64 * 1024

abbrev pub window_refill_at : ℕ
window_refill_at = 512 * 1024

pub data State : Type 0 where
  opened half_closed_remote was_reset : State

pub record Stream : Type 0 where
  pub state : State
  pub window : ℤ
  pub reset : Bool
  pub done : Bool
  pub pending : Bytes
  pub pending_is_trailers : Bool
  pub headers : List Header
  pub headers_done : Bool
  pub body : Bytes
  pub content_length : Option ℕ
  pub dispatched : Bool

unfoldable pub new_stream : ℤ → Stream
new_stream initial_window = record {
  state = opened;
  window = initial_window;
  reset = false;
  done = false;
  pending = [];
  pending_is_trailers = false;
  headers = [];
  headers_done = false;
  body = [];
  content_length = none;
  dispatched = false;
}

-- What the reader needs of its surroundings: text handling, `str::parse::<u64>`, and the
-- configured `client_max_body_size`.
pub record Env : Type 0 where
  pub text : Text
  pub parse_u64 : Bytes → Option ℕ
  pub client_max_body_size : ℕ

-- A request handed to a stream task.
pub record Request : Type 0 where
  pub id : ℕ
  pub headers : List Header
  pub body : Bytes

-- The variables of `read_loop` and of `Flow`. `sent` and `spawned` collect what went to the
-- writer and to the tasks.
pub record Conn : Type 0 where
  pub dec : Decoder
  pub streams : List (ℕ × Stream)
  pub peer_initial_window : ℕ
  pub recv_window : ℤ
  pub highest : ℕ
  pub expect_continuation : Option ℕ
  pub conn_window : ℕ
  pub max_frame : ℕ
  pub last_stream : ℕ
  pub sent : Bytes
  pub spawned : List Request

module _ {ℓ} {A : Type ℓ} where
  unfoldable pub get : ℕ → List (ℕ × A) → Option A
  get id [] = none
  get id ((k, a) ∷ m) = if k == id then some a else get id m

  -- `get_mut`: the entry is changed in place, and a missing one is left missing.
  unfoldable pub update : ℕ → (A → A) → List (ℕ × A) → List (ℕ × A)
  update id f [] = []
  update id f ((k, a) ∷ m) = if k == id then (k, f a) ∷ m else (k, a) ∷ update id f m

  unfoldable pub map_values : (A → A) → List (ℕ × A) → List (ℕ × A)
  map_values f [] = []
  map_values f ((k, a) ∷ m) = (k, f a) ∷ map_values f m

  unfoldable pub retain : (A → Bool) → List (ℕ × A) → List (ℕ × A)
  retain keep [] = []
  retain keep ((k, a) ∷ m) = let rest = retain keep m in if keep a then (k, a) ∷ rest else rest

  unfoldable pub count : (A → Bool) → List (ℕ × A) → ℕ
  count test [] = 0
  count test ((k, a) ∷ m) = (if test a then 1 else 0) + count test m

pub data Where : Type 0 where
  idle open_ half_closed closed reset_ : Where

unfoldable pub where_entry : Option Stream → ℕ → ℕ → Where
where_entry none id highest = if leb id highest then closed else idle
where_entry (some s) id highest = elim s.state [
  | opened ↦ open_
  | half_closed_remote ↦ if s.dispatched then closed else half_closed
  | was_reset ↦ reset_
]

unfoldable pub state_of : List (ℕ × Stream) → ℕ → ℕ → Where
unfolding where_entry
state_of streams id highest = where_entry (get id streams) id highest

abbrev pub mark_reset : Stream → Stream
mark_reset s = record s { state = was_reset; reset = true; done = true }

unfoldable pub reset_stream : Conn → ℕ → Code → Conn
reset_stream c id code = record c {
  sent = rst id code c.sent;
  streams = update id mark_reset c.streams;
}

-- `used` is not negative when it is at least `window_refill_at`.
unfoldable pub replenish : Conn → Conn
replenish c =
    let used = pos our_initial_window -ℤ c.recv_window in
    if ltb_ℤ used (pos window_refill_at) then c else record c {
      sent = window_update 0 (pos_part used) c.sent;
      recv_window = pos our_initial_window;
    }

-- What a handler leads to: `again` is `continue`, `dispatch` falls through to the dispatch step,
-- `finish` is a clean return and `fail` a connection error. `crash` stands for a failed `expect`.
pub data Next : Type 0 where
  again dispatch finish : Conn → Next
  fail : Conn → Code → Next
  crash : Next
