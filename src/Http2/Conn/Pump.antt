-- ===== src/Http2/Conn/Pump.antt =====
-- src/http2/conn.rs: `pump`, by which a stream task writes its body as DATA frames, and the end of
-- a task. One step of the loop stands here; waiting is `blocked`. The reader's rounds may come
-- between any two steps.
use Prim.Native.Nat.{min}
use mathlib.Core.Path.{subst}
use oxi_serve.Base.{
  ℕ, ◌+◌, ◌-◌, ◌≤◌, ◌<◌, ◌≡◌, ◌≢◌, inl, inr, refl, sym, arith, true, false, ◌++◌, Option, none,
  some,
}
use oxi_serve.Base.{
  ◌==◌, if◌then◌else◌, Bool-cases, length, take, drop, length-take, take-append-drop,
}
use oxi_serve.Base.Bytes.{Bytes}
use oxi_serve.Base.Int.{pos, ◌-ℤ◌, pos_part}
use oxi_serve.Http2.Frame.{write_frame}
use oxi_serve.Http2.Frame.Kind
use oxi_serve.Http2.Conn.Streams.{Stream, Conn, get, update}
use oxi_serve.Http2.Conn.Invariant.{IsValid, Facts-update, Facts-conn}

-- `stopped` is a reset stream, `progress` a frame written, with the data that is left.
pub data Pump : Type 0 where
  stopped blocked : Pump
  progress : Conn → Bytes → Pump

allowance : Conn → Stream → ℕ
allowance c s = min c.conn_window (pos_part s.window)

frame_size : Conn → Stream → Bytes → ℕ
frame_size c s rest = min (min (allowance c s) c.max_frame) (length rest)

charge : Conn → ℕ → Bytes → ℕ → Conn
charge c id chunk n = record c {
  sent = write_frame Kind.data_frame 0 id chunk c.sent;
  conn_window = c.conn_window - n;
  streams = update id (λ s. record s { window = s.window -ℤ pos n }) c.streams;
}

pump_found : Conn → ℕ → Bytes → Option Stream → Pump
pump_found c id rest none = stopped
pump_found c id rest (some s) =
    if s.reset
    then stopped
    else if allowance c s == 0
    then blocked
    else let n = frame_size c s rest in progress (charge c id (take n rest) n) (drop n rest)

unfoldable pub pump_once : Conn → ℕ → Bytes → Pump
unfolding pump_found frame_size allowance charge
pump_once c id rest = pump_found c id rest (get id c.streams)

-- `DoneGuard`
pub task_done : Conn → ℕ → Conn
task_done c id = record c { streams = update id (λ s. record s { done = true }) c.streams }

pub task_done-IsValid : (c : Conn) (id : ℕ) → IsValid c → IsValid (task_done c id)
unfolding task_done
task_done-IsValid c id v = Facts-update id (λ s. record s { done = true }) (λ s w. cc) v

charge-IsValid :
    (c : Conn) (id : ℕ) (chunk : Bytes) (n : ℕ) → IsValid c → IsValid (charge c id chunk n)
unfolding charge
charge-IsValid c id chunk n v =
    Facts-conn (omega (arith, v.conn))
      (Facts-update id (λ s. record s { window = s.window -ℤ pos n }) (λ s w. w) v)

-- A step of the body's writer: the frame has the next bytes of the body, and is within the limit.
pub record Written (c : Conn) (id : ℕ) (whole : Bytes) (c' : Conn) (rest : Bytes) : Type 0 where
  pub stream : Stream
  pub chunk : Bytes
  pub entry : get id c.streams ≡ some stream
  pub running : stream.reset ≡ false
  pub split : whole ≡ chunk ++ rest
  pub some_bytes : 0 < length chunk
  pub frame : length chunk ≤ c.max_frame
  pub stream_window : length chunk ≤ pos_part stream.window
  pub conn_window : c'.conn_window + length chunk ≡ c.conn_window
  pub wire : c'.sent ≡ write_frame Kind.data_frame 0 id chunk c.sent
  pub valid : IsValid c'

charge-Written :
    (c : Conn) (id : ℕ) (whole : Bytes) (s : Stream)
    → get id c.streams ≡ some s
    → s.reset ≡ false
    → (allowance c s == 0) ≡ false
    → IsValid c
    → 0 < length whole
    → Written c id whole
        (charge c id (take (frame_size c s whole) whole) (frame_size c s whole))
        (drop (frame_size c s whole) whole)
unfolding charge frame_size allowance
charge-Written c id whole s e running open_ v some_data =
    let n = min (min (min c.conn_window (pos_part s.window)) c.max_frame) (length whole) in
    let size : length (take n whole) ≡ n = omega (arith, length-take n whole) in
    let lo : 16384 ≤ c.max_frame = v.frame_lo in
    let room : min c.conn_window (pos_part s.window) ≢ 0 = ground arith in
    record {
      stream = s;
      chunk = take n whole;
      entry = e;
      running = running;
      split = sym (take-append-drop n whole);
      some_bytes = omega (arith, size, lo, room, some_data);
      frame = omega (arith, size);
      stream_window = omega (arith, size);
      conn_window = omega (arith, size);
      wire = refl;
      valid = charge-IsValid c id (take n whole) n v;
    }

found-Written :
    (c : Conn) (id : ℕ) (whole : Bytes) (o : Option Stream) (c' : Conn) (rest : Bytes)
    → get id c.streams ≡ o
    → IsValid c
    → 0 < length whole
    → pump_found c id whole o ≡ progress c' rest
    → Written c id whole c' rest
unfolding pump_found allowance frame_size
found-Written c id whole none c' rest e v some_data q = cc
found-Written c id whole (some s) c' rest e v some_data q = elim (Bool-cases s.reset) [
  | inl reset ↦ (let p : stopped ≡ progress c' rest = rw reset at q in cc)
  | inr running ↦ elim (Bool-cases (allowance c s == 0)) [
    | inl shut ↦ (let p : blocked ≡ progress c' rest = rw (running, shut) at q in cc)
    | inr open_ ↦
        let n = frame_size c s whole in
        let p : progress (charge c id (take n whole) n) (drop n whole) ≡ progress c' rest =
          rw (running, open_) at q in
        let pc : charge c id (take n whole) n ≡ c' = cc in
        let pr : drop n whole ≡ rest = cc in
        subst (λ t. Written c id whole t rest) pc
          (subst (λ t. Written c id whole (charge c id (take n whole) n) t) pr
            (charge-Written c id whole s e running open_ v some_data))
  ]
]

-- When a step of a body's writer writes, on a valid connection and with bytes left, it writes one DATA frame of the stream with
-- the next bytes of the body, at least one and no more than the frame limit and the stream's
-- window, on a stream that was not reset. The connection's window, which was large enough, goes
-- down by exactly those bytes, and the connection stays valid.
pub pump_once-Written :
    (c : Conn) (id : ℕ) (whole : Bytes) (c' : Conn) (rest : Bytes)
    → IsValid c
    → 0 < length whole
    → pump_once c id whole ≡ progress c' rest
    → Written c id whole c' rest
unfolding pump_once
pump_once-Written c id whole c' rest v some_data q =
    found-Written c id whole (get id c.streams) c' rest refl v some_data q
