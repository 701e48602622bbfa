-- ===== src/Http2/Conn/Control/Keeps.antt =====
-- src/http2/conn.rs: the handlers of the frames that carry no request, under the invariant.
use oxi_serve.Base.{ℕ, ◌+◌, ◌%◌, inl, inr, arith, true, not, ◌&&◌, [], ◌∷◌, Option, none, some}
use oxi_serve.Base.{◌==◌, ltb, Bool-cases}
use oxi_serve.Base.Bytes.{Bytes, from_be16, from_be32}
use oxi_serve.Base.Int.{pos, ltb_ℤ, ◌+ℤ◌, ◌-ℤ◌}
use oxi_serve.Base.Result.{Result, ok, err, ◌>>=◌}
use oxi_serve.Http2.Frame.{
  Head, has, u32_at, Code, max_window, default_max_frame, max_frame_limit, protocol, flow_control,
}
use oxi_serve.Http2.Frame.Flag
use oxi_serve.Http2.Hpack.Table.Bounds
use oxi_serve.Http2.Conn.Streams.{Stream, was_reset, Conn, get, state_of, mark_reset, reset_stream}
use oxi_serve.Http2.Conn.Invariant.{
  IsValid, Keeps, on_again, on_dispatch, on_fail, Facts-map_values, Facts-dec, Facts-update,
  Facts-window, Facts-frame, Facts-conn,
}
use oxi_serve.Http2.Conn.Control.{
  word, is_idle, on_priority, on_rst_stream, apply_setting, apply_settings, shift_windows, settled,
  on_settings, on_ping, grow_stream, grow, on_window_update,
}

-- A result is valid when the connection it holds is.
IsSound : Result Code Conn → Type 0
IsSound (ok c) = IsValid c
IsSound (err e) = Unit

reset_stream-IsValid :
    (c : Conn) (id : ℕ) (code : Code) → IsValid c → IsValid (reset_stream c id code)
unfolding reset_stream
reset_stream-IsValid c id code v = Facts-update id mark_reset (λ s w. cc) v

pub on_priority-Keeps :
    (c : Conn) (head : Head) (payload : Bytes) → IsValid c → Keeps (on_priority c head payload)
unfolding on_priority
on_priority-Keeps c head payload v = elim (Bool-cases (head.len == 5)) [
  | inr odd_size ↦ rw odd_size on_fail
  | inl five ↦ elim (Bool-cases (head.stream == 0)) [
    | inl zeroth ↦ rw (five, zeroth) on_fail
    | inr other ↦ elim (Bool-cases (word (u32_at payload 0) == head.stream)) [
      | inl itself ↦ rw (five, other, itself) (on_dispatch v)
      | inr fine ↦ rw (five, other, fine) (on_dispatch v)
    ]
  ]
]

pub on_rst_stream-Keeps : (c : Conn) (head : Head) → IsValid c → Keeps (on_rst_stream c head)
unfolding on_rst_stream
on_rst_stream-Keeps c head v = elim (Bool-cases (head.stream == 0)) [
  | inl zeroth ↦ rw zeroth on_fail
  | inr other ↦ elim (Bool-cases (head.len == 4)) [
    | inr odd_size ↦ rw (other, odd_size) on_fail
    | inl four ↦ elim (Bool-cases (is_idle (state_of c.streams head.stream c.highest))) [
      | inl idle ↦ rw (other, four, idle) on_fail
      | inr used ↦
          rw (other, four, used)
            (on_dispatch (
              Facts-update head.stream (λ s. record s { state = was_reset; reset = true })
                (λ s w. w) v))
    ]
  ]
]

apply_setting-IsSound : (c : Conn) (id v : ℕ) → IsValid c → IsSound (apply_setting c id v)
unfolding apply_setting IsSound
apply_setting-IsSound c id v valid = elim (Bool-cases (id == 0x4)) [
  | inl window ↦ elim (Bool-cases (ltb max_window v)) [
    | inl over ↦ rw (window, over) tt
    | inr within ↦ rw (window, within) (Facts-window (ground arith) valid)
  ]
  | inr not_window ↦ elim (Bool-cases (id == 0x5)) [
    | inl frame ↦ elim (Bool-cases (ltb v default_max_frame)) [
      | inl under ↦ rw (not_window, frame, under) tt
      | inr above ↦ elim (Bool-cases (ltb max_frame_limit v)) [
        | inl over ↦ rw (not_window, frame, above, over) tt
        | inr within ↦
            rw (not_window, frame, above, within) (Facts-frame (ground arith) (ground arith) valid)
      ]
    ]
    | inr not_frame ↦ elim (Bool-cases (id == 0x2)) [
      | inl push ↦ elim (Bool-cases (ltb 1 v)) [
        | inl over ↦ rw (not_window, not_frame, push, over) tt
        | inr within ↦ rw (not_window, not_frame, push, within) valid
      ]
      | inr not_push ↦ elim (Bool-cases (id == 0x1)) [
        | inl table ↦
            rw (not_window, not_frame, not_push, table)
              (Facts-dec (Bounds.set_max_size-IsValid c.dec v valid.table) valid)
        | inr unknown ↦ rw (not_window, not_frame, not_push, unknown) valid
      ]
    ]
  ]
]

bind-IsSound :
    (r : Result Code Conn) (f : Conn → Result Code Conn)
    → IsSound r
    → ((c : Conn) → IsValid c → IsSound (f c))
    → IsSound (r >>= f)
unfolding IsSound
bind-IsSound (ok c) f s k = k c s
bind-IsSound (err e) f s k = tt

apply_settings-IsSound :
    (payload : Bytes) (c : Conn) → IsValid c → IsSound (apply_settings payload c)
unfolding apply_settings
apply_settings-IsSound (i0 ∷ i1 ∷ v0 ∷ v1 ∷ v2 ∷ v3 ∷ rest) c v =
    bind-IsSound (apply_setting c (from_be16 i0 i1) (from_be32 v0 v1 v2 v3)) (apply_settings rest)
      (apply_setting-IsSound c (from_be16 i0 i1) (from_be32 v0 v1 v2 v3) v)
      (λ c' v'. apply_settings-IsSound rest c' v')
apply_settings-IsSound [] c v = unfold IsSound in v
apply_settings-IsSound (a ∷ []) c v = unfold IsSound in v
apply_settings-IsSound (a ∷ b ∷ []) c v = unfold IsSound in v
apply_settings-IsSound (a ∷ b ∷ d ∷ []) c v = unfold IsSound in v
apply_settings-IsSound (a ∷ b ∷ d ∷ e ∷ []) c v = unfold IsSound in v
apply_settings-IsSound (a ∷ b ∷ d ∷ e ∷ f ∷ []) c v = unfold IsSound in v

settled-Keeps :
    (old : ℕ) (before : Conn) (r : Result Code Conn) → IsSound r → Keeps (settled old before r)
unfolding settled IsSound shift_windows
settled-Keeps old before (err e) s = on_fail
settled-Keeps old before (ok c) s = on_dispatch (
    Facts-map_values (λ t. record t { window = t.window +ℤ (pos c.peer_initial_window -ℤ pos old) })
      (λ t w. w) s)

pub on_settings-Keeps :
    (c : Conn) (head : Head) (payload : Bytes) → IsValid c → Keeps (on_settings c head payload)
unfolding on_settings
on_settings-Keeps c head payload v = elim (Bool-cases (head.stream == 0)) [
  | inr other ↦ rw other on_fail
  | inl zeroth ↦ elim (Bool-cases (has head Flag.ack)) [
    | inl ack ↦ elim (Bool-cases (head.len == 0)) [
      | inl empty ↦ rw (zeroth, ack, empty) (on_again v)
      | inr full ↦ rw (zeroth, ack, full) on_fail
    ]
    | inr set ↦ elim (Bool-cases (head.len % 6 == 0)) [
      | inl whole ↦
          rw (zeroth, set, whole)
            (settled-Keeps c.peer_initial_window c (apply_settings payload c)
              (apply_settings-IsSound payload c v))
      | inr broken ↦ rw (zeroth, set, broken) on_fail
    ]
  ]
]

pub on_ping-Keeps :
    (c : Conn) (head : Head) (payload : Bytes) → IsValid c → Keeps (on_ping c head payload)
unfolding on_ping
on_ping-Keeps c head payload v = elim (Bool-cases (head.stream == 0)) [
  | inr other ↦ rw other on_fail
  | inl zeroth ↦ elim (Bool-cases (head.len == 8)) [
    | inr odd_size ↦ rw (zeroth, odd_size) on_fail
    | inl eight ↦ elim (Bool-cases (has head Flag.ack)) [
      | inl ack ↦ rw (zeroth, eight, ack) (on_dispatch v)
      | inr ask ↦ rw (zeroth, eight, ask) (on_dispatch v)
    ]
  ]
]

grow_stream-Keeps :
    (c : Conn) (id inc : ℕ) (o : Option Stream) → IsValid c → Keeps (grow_stream c id inc o)
unfolding grow_stream
grow_stream-Keeps c id inc none v = on_dispatch v
grow_stream-Keeps c id inc (some s) v =
    elim (Bool-cases (ltb_ℤ (pos max_window) (s.window +ℤ pos inc))) [
      | inl over ↦ rw over (on_again (reset_stream-IsValid c id flow_control v))
      | inr within ↦ rw within (
          on_dispatch
            (Facts-update id (λ t. record t { window = s.window +ℤ pos inc }) (λ t w. w) v))
    ]

grow-Keeps : (c : Conn) (id inc : ℕ) → IsValid c → Keeps (grow c id inc)
unfolding grow
grow-Keeps c id inc v = elim (Bool-cases (inc == 0)) [
  | inl none_at_all ↦ elim (Bool-cases (id == 0)) [
    | inl zeroth ↦ rw (none_at_all, zeroth) on_fail
    | inr other ↦ rw (none_at_all, other) (on_again (reset_stream-IsValid c id protocol v))
  ]
  | inr more ↦ elim (Bool-cases (id == 0)) [
    | inr other ↦ rw (more, other) (grow_stream-Keeps c id inc (get id c.streams) v)
    | inl zeroth ↦ elim (Bool-cases (ltb max_window (c.conn_window + inc))) [
      | inl over ↦ rw (more, zeroth, over) on_fail
      | inr within ↦ rw (more, zeroth, within) (on_dispatch (Facts-conn (ground arith) v))
    ]
  ]
]

pub on_window_update-Keeps :
    (c : Conn) (head : Head) (payload : Bytes) → IsValid c → Keeps (on_window_update c head payload)
unfolding on_window_update
on_window_update-Keeps c head payload v = elim (Bool-cases (head.len == 4)) [
  | inr odd_size ↦ rw odd_size on_fail
  | inl four ↦
      elim (Bool-cases
        (not (head.stream == 0) && is_idle (state_of c.streams head.stream c.highest))) [
          | inl idle ↦ rw (four, idle) on_fail
          | inr used ↦ rw (four, used) (grow-Keeps c head.stream (word (u32_at payload 0)) v)
        ]
]
