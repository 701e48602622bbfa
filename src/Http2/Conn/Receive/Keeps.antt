-- ===== src/Http2/Conn/Receive/Keeps.antt =====
-- src/http2/conn.rs: a whole round of `read_loop`, under the invariant.
use oxi_serve.Base.{
  ℕ, ◌≡◌, inl, inr, refl, arith, true, false, List, [], ◌∷◌, Option, none, some, All,
}
use oxi_serve.Base.{◌==◌, ltb, Bool-cases, length}
use oxi_serve.Base.Bytes.{Bytes}
use oxi_serve.Base.Opt.{◌>>=◌}
use oxi_serve.Http2.Frame.{Head, default_max_frame}
use oxi_serve.Http2.Frame.Kind
use oxi_serve.Http2.Conn.Streams.{
  Stream, Env, Conn, get, update, mark_reset, reset_stream, Next, again, dispatch, finish, fail,
  crash,
}
use oxi_serve.Http2.Conn.Invariant.{
  IsValid, Keeps, on_again, on_dispatch, on_finish, on_fail, Has, Has-update, Facts-update, new_Has,
  Has-cons, Facts-update,
}
use oxi_serve.Http2.Conn.Handlers.Keeps.{on_data-Keeps, on_headers-Keeps, on_continuation-Keeps}
use oxi_serve.Http2.Conn.Control.Keeps.{
  on_priority-Keeps, on_rst_stream-Keeps, on_settings-Keeps, on_ping-Keeps, on_window_update-Keeps,
}
use oxi_serve.Http2.Conn.Receive.{
  ready, ready_ids, spawn, refuse, length_matches, dispatch_found, dispatch_ids, dispatch_ready,
  end_round, settle, breaks_block, handle, receive,
}

-- How a round ends well: in a valid connection, or in a connection error. The dispatch step is
-- over, and no `expect` failed.
unfoldable pub IsSettled : Next → Type 0
IsSettled (again c) = IsValid c
IsSettled (dispatch c) = ⊥
IsSettled (finish c) = IsValid c
IsSettled (fail c e) = Unit
IsSettled crash = ⊥

HasAll : List (ℕ × Stream) → List ℕ → Type 0
HasAll m ids = All (λ id. Has id m) ids

HasAll-update :
    (id : ℕ) (f : Stream → Stream) (m : List (ℕ × Stream)) (ids : List ℕ)
    → HasAll m ids
    → HasAll (update id f m) ids
unfolding HasAll
HasAll-update id f m [] a = tt
HasAll-update id f m (j ∷ ids) (h, a) = (Has-update id j f m h, HasAll-update id f m ids a)

HasAll-cons :
    (id : ℕ) (s : Stream) (m : List (ℕ × Stream)) (ids : List ℕ)
    → HasAll m ids
    → HasAll ((id, s) ∷ m) ids
unfolding HasAll
HasAll-cons id s m [] a = tt
HasAll-cons id s m (j ∷ ids) (h, a) = (Has-cons id s j m h, HasAll-cons id s m ids a)

ready_ids-HasAll : (m : List (ℕ × Stream)) → HasAll m (ready_ids m)
unfolding HasAll ready_ids
ready_ids-HasAll [] = tt
ready_ids-HasAll ((id, s) ∷ m) =
    let rest : HasAll ((id, s) ∷ m) (ready_ids m) =
      HasAll-cons id s m (ready_ids m) (ready_ids-HasAll m) in
    elim (Bool-cases (ready s)) [
      | inl here ↦ rw here (new_Has id s m, rest)
      | inr absent ↦ rw absent rest
    ]

-- What dispatching one stream leaves: a valid connection with an entry wherever there was one.
Dispatched : Conn → Option Conn → Type 0
Dispatched c none = ⊥
Dispatched c (some c') =
    IsValid c' × ((ids : List ℕ) → HasAll c.streams ids → HasAll c'.streams ids)

spawn-Dispatched : (c : Conn) (id : ℕ) (s : Stream) → IsValid c → Dispatched c (some (spawn c id s))
unfolding Dispatched spawn
spawn-Dispatched c id s v =
    let f : Stream → Stream = λ t. record t { dispatched = true; headers = []; body = [] } in
    (Facts-update id f (λ t w. w) v, λ ids a. HasAll-update id f c.streams ids a)

refuse-Dispatched : (c : Conn) (id : ℕ) → IsValid c → Dispatched c (some (refuse c id))
unfolding Dispatched refuse reset_stream
refuse-Dispatched c id v =
    let f : Stream → Stream = λ t. record t { dispatched = true; done = true } in
    (
      Facts-update id mark_reset (λ t w. cc) (Facts-update id f (λ t w. cc) v),
      λ ids a.
          HasAll-update id mark_reset (update id f c.streams) ids
            (HasAll-update id f c.streams ids a),
    )

dispatch_found-Dispatched :
    (c : Conn) (id : ℕ)
    → Has id c.streams
    → IsValid c
    → Dispatched c (dispatch_found c id (get id c.streams))
unfolding dispatch_found
dispatch_found-Dispatched c id (s, e) v =
    elim (Bool-cases (length_matches s.content_length (length s.body))) [
      | inl fits ↦ rw (e, fits) (spawn-Dispatched c id s v)
      | inr lies ↦ rw (e, lies) (refuse-Dispatched c id v)
    ]

end_bind :
    (c : Conn) (r : Option Conn) (ids : List ℕ)
    → Dispatched c r
    → HasAll c.streams ids
    → ((c' : Conn)
        → HasAll c'.streams ids
        → IsValid c'
        → IsSettled (end_round (dispatch_ids ids c')))
    → IsSettled (end_round (r >>= dispatch_ids ids))
unfolding Dispatched
end_bind c none ids d a k = absurd d
end_bind c (some c') ids (v, keep) a k = k c' (keep ids a) v

dispatch_ids-IsSettled :
    (ids : List ℕ) (c : Conn)
    → HasAll c.streams ids
    → IsValid c
    → IsSettled (end_round (dispatch_ids ids c))
unfolding dispatch_ids HasAll
dispatch_ids-IsSettled [] c a v = unfold end_round IsSettled in v
dispatch_ids-IsSettled (id ∷ ids) c (h, a) v =
    end_bind c (dispatch_found c id (get id c.streams)) ids (dispatch_found-Dispatched c id h v) a
      (λ c' a' v'. dispatch_ids-IsSettled ids c' a' v')

settle-IsSettled : (n : Next) → Keeps n → IsSettled (settle n)
unfolding settle IsSettled dispatch_ready
settle-IsSettled _ (on_again v) = v
settle-IsSettled _ (on_finish v) = v
settle-IsSettled _ on_fail = tt
settle-IsSettled _ (on_dispatch {c} v) =
    dispatch_ids-IsSettled (ready_ids c.streams) c (ready_ids-HasAll c.streams) v

module _ (env : Env) where
  -- A HEADERS frame that breaks no open header block finds none open.
  no_block :
      (expect : Option ℕ) (head : Head)
      → (head.kind == Kind.headers) ≡ true
      → breaks_block expect head ≡ false
      → expect ≡ none
  unfolding breaks_block
  no_block none head kind whole = refl
  no_block (some waiting) head kind whole = absurd (ground arith)

  handle-Keeps :
      (c : Conn) (head : Head) (payload : Bytes)
      → breaks_block c.expect_continuation head ≡ false
      → IsValid c
      → Keeps (handle env c head payload)
  unfolding handle
  handle-Keeps c head payload whole v = elim (Bool-cases (head.kind == Kind.data_frame)) [
    | inl it ↦ rw it (on_data-Keeps env c head payload v)
    | inr n0 ↦ elim (Bool-cases (head.kind == Kind.headers)) [
      | inl it ↦
          rw (n0, it)
            (on_headers-Keeps env c head payload (no_block c.expect_continuation head it whole) v)
      | inr n1 ↦ elim (Bool-cases (head.kind == Kind.continuation)) [
        | inl it ↦ rw (n0, n1, it) (on_continuation-Keeps env c head payload v)
        | inr n2 ↦ elim (Bool-cases (head.kind == Kind.priority)) [
          | inl it ↦ rw (n0, n1, n2, it) (on_priority-Keeps c head payload v)
          | inr n3 ↦ elim (Bool-cases (head.kind == Kind.rst_stream)) [
            | inl it ↦ rw (n0, n1, n2, n3, it) (on_rst_stream-Keeps c head v)
            | inr n4 ↦ elim (Bool-cases (head.kind == Kind.settings)) [
              | inl it ↦ rw (n0, n1, n2, n3, n4, it) (on_settings-Keeps c head payload v)
              | inr n5 ↦ elim (Bool-cases (head.kind == Kind.ping)) [
                | inl it ↦ rw (n0, n1, n2, n3, n4, n5, it) (on_ping-Keeps c head payload v)
                | inr n6 ↦ elim (Bool-cases (head.kind == Kind.window_update)) [
                  | inl it ↦
                      rw (n0, n1, n2, n3, n4, n5, n6, it) (on_window_update-Keeps c head payload v)
                  | inr n7 ↦ elim (Bool-cases (head.kind == Kind.goaway)) [
                    | inl it ↦ rw (n0, n1, n2, n3, n4, n5, n6, n7, it) (on_finish v)
                    | inr n8 ↦ elim (Bool-cases (head.kind == Kind.push_promise)) [
                      | inl it ↦ rw (n0, n1, n2, n3, n4, n5, n6, n7, n8, it) (on_fail)
                      | inr n9 ↦ rw (n0, n1, n2, n3, n4, n5, n6, n7, n8, n9) (on_dispatch v)
                    ]
                  ]
                ]
              ]
            ]
          ]
        ]
      ]
    ]
  ]

  -- From a valid connection, a frame whatsoever leads to a valid connection or to a connection
  -- error: no `expect` fails, and the header table, the connection's send window, the initial window
  -- that streams are opened with (not the windows of the streams that are open), the frame size, the
  -- stream ids, the open header block and the number of live streams stay within their limits.
  pub receive-IsSettled :
      (c : Conn) (head : Head) (payload : Bytes)
      → IsValid c
      → IsSettled (receive env c head payload)
  unfolding receive
  receive-IsSettled c head payload v = elim (Bool-cases (ltb default_max_frame head.len)) [
    | inl large ↦ rw large (unfold IsSettled in tt)
    | inr fits ↦ elim (Bool-cases (breaks_block c.expect_continuation head)) [
      | inl broken ↦ rw (fits, broken) (unfold IsSettled in tt)
      | inr whole ↦
          rw (fits, whole)
            (settle-IsSettled (handle env c head payload) (handle-Keeps c head payload whole v))
    ]
  ]
