-- ===== src/Http2/Conn/Reach.antt =====
-- src/http2/conn.rs: the connections that `read_loop` comes through from its start.
use oxi_serve.Base.{ℕ, ◌<◌, length, ◌≡◌, ◌≢◌, refl, arith}
use mathlib.Core.Path.{subst}
use oxi_serve.Base.Bytes.{Bytes}
use oxi_serve.Http2.Frame.{Head}
use oxi_serve.Http2.Conn.Streams.{Env, Conn, count, again, crash}
use oxi_serve.Http2.Conn.Invariant.{IsValid}
use oxi_serve.Http2.Conn.Pump.{progress, pump_once, pump_once-Written, task_done, task_done-IsValid}
use oxi_serve.Http2.Conn.Receive.{start, receive}
use oxi_serve.Http2.Conn.Receive.Keeps.{IsSettled, receive-IsSettled}

-- `Reaches env c d`: rounds of the reader that do not end the connection, steps of the writers of
-- bodies, and ends of stream tasks lead from `c` to `d`, in any order.
pub data Reaches (env : Env) : Conn → Conn → Type 0 where
  here : {c : Conn} → Reaches env c c
  round :
      {c d e : Conn} (head : Head) (payload : Bytes)
      → receive env c head payload ≡ again d
      → Reaches env d e
      → Reaches env c e
  pumped :
      {c d e : Conn} (id : ℕ) (whole rest : Bytes)
      → 0 < length whole
      → pump_once c id whole ≡ progress d rest
      → Reaches env d e
      → Reaches env c e
  ended : {c e : Conn} (id : ℕ) → Reaches env (task_done c id) e → Reaches env c e

pub start-IsValid : IsValid start
unfolding count
start-IsValid = record {
  table = record { exact = refl; within = omega arith; agreed = omega arith };
  window = omega arith;
  frame_lo = omega arith;
  frame_hi = omega arith;
  conn = omega arith;
  ids = tt;
  waiting = λ id e. cc;
  crowd = omega arith;
}

Reaches-IsValid : (env : Env) (c d : Conn) → Reaches env c d → IsValid c → IsValid d
unfolding IsSettled
Reaches-IsValid env c _ here v = v
Reaches-IsValid env _ e (round {c} {d} head payload q r) v =
    Reaches-IsValid env d e r (subst IsSettled q (receive-IsSettled env c head payload v))
Reaches-IsValid env _ e (pumped {c} {d} id whole rest more q r) v =
    Reaches-IsValid env d e r (pump_once-Written c id whole d rest v more q).valid
Reaches-IsValid env _ e (ended {c} id r) v =
    Reaches-IsValid env (task_done c id) e r (task_done-IsValid c id v)

-- Every connection that frames, writes of stream tasks and ends of them reach from the start of
-- `read_loop`, in any order, is valid: header table, the connection's send window, the initial window
-- of streams and the frame size within their limits, odd stream ids up to the highest seen, an entry
-- for an open header block, and at most `max_concurrent` streams at work.
pub reached-IsValid : (env : Env) (c : Conn) → Reaches env start c → IsValid c
reached-IsValid env c r = Reaches-IsValid env start c r start-IsValid

-- After any such sequence, no frame makes an `expect` of the reader fail.
pub reached-ne-crash :
    (env : Env) (c : Conn) (head : Head) (payload : Bytes)
    → Reaches env start c
    → receive env c head payload ≢ crash
unfolding IsSettled
reached-ne-crash env c head payload r q =
    subst IsSettled q (receive-IsSettled env c head payload (reached-IsValid env c r))
