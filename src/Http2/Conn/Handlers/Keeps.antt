-- ===== src/Http2/Conn/Handlers/Keeps.antt =====
-- src/http2/conn.rs: the handlers of DATA, HEADERS and CONTINUATION, under the invariant.
use oxi_serve.Base.{
  ℕ, ◌+◌, ◌++◌, ◌*◌, ◌%◌, ◌≤◌, ◌≡◌, ◌≢◌, inl, inr, refl, ap, arith, Bool, true, false, not, ◌&&◌,
  List, [], ◌∷◌, Option, none, some,
}
use oxi_serve.Base.{◌==◌, leb, ltb, if◌then◌else◌, Bool-cases, Option-cases, length, drop}
use oxi_serve.Base.Bytes.{Bytes}
use oxi_serve.Base.Int.{pos, ltb_ℤ, ◌-ℤ◌}
use oxi_serve.Http2.Frame.{
  Head, has, unpad, u32_at, Code, protocol, stream_closed, enhance_your_calm,
}
use oxi_serve.Http2.Frame.Flag
use oxi_serve.Http2.Hpack.Static.{Header}
use oxi_serve.Http2.Hpack.Int.{HpackError, too_large}
use oxi_serve.Http2.Hpack.Decoder.{End, complete, failed, stuck}
use oxi_serve.Http2.Hpack.Decoder.Safety.{decode_safe}
use oxi_serve.Http2.Conn.Streams.{
  Stream, opened, half_closed_remote, new_stream, Env, Conn, get, update, count, state_of,
  where_entry, mark_reset, reset_stream, replenish, our_initial_window, window_refill_at,
  max_concurrent, max_header_list, Where, idle, open_, half_closed, closed, reset_,
}
use oxi_serve.Http2.Conn.Invariant.{
  IsValid, Keeps, on_again, on_dispatch, on_fail, new_Has, Facts-cons, Facts-shut, Has, live,
  Facts-dec, Facts-expect, Has-update, Facts-update, Facts-retain,
}
use oxi_serve.Http2.Conn.Handlers.{
  push_data, place_data, unpadded_data, on_data, finish_decoded, finish_found, finish_block,
  after_block, store_trailers, trailers, prune, active, admit, open_new, place_block,
  strip_priority, unpadded_block, on_headers, is_open_on, extend_block, on_continuation, any_pseudo,
  declared_length, stream_word,
}

reset_stream-IsValid :
    (c : Conn) (id : ℕ) (code : Code) → IsValid c → IsValid (reset_stream c id code)
unfolding reset_stream
reset_stream-IsValid c id code v = Facts-update id mark_reset (λ s w. cc) v

replenish-kept :
    (c : Conn) → (IsValid c → IsValid (replenish c)) × ((replenish c).streams ≡ c.streams)
unfolding replenish
replenish-kept c =
    elim (Bool-cases (ltb_ℤ (pos our_initial_window -ℤ c.recv_window) (pos window_refill_at))) [
      | inl most ↦ rw most ((λ v. v), refl)
      | inr half ↦ rw half ((λ v. v), refl)
    ]

-- `state_of` says open or half closed only of an entry.
Has-open :
    (m : List (ℕ × Stream)) (id highest : ℕ)
    → state_of m id highest ≢ idle
    → state_of m id highest ≢ closed
    → Has id m
unfolding state_of
Has-open m id highest not_idle not_closed = elim (Option-cases (get id m)) [
  | inl e ↦ absurd (absent e)
  | inr h ↦ h
]
  where
    absent : get id m ≡ none → ⊥
    absent e = elim (Bool-cases (leb id highest)) [
      | inl below ↦ not_closed (rw (e, where_entry, below) refl)
      | inr above ↦ not_idle (rw (e, where_entry, above) refl)
    ]

module _ (env : Env) where
  push_data-Keeps :
      (c : Conn) (head : Head) (body : Bytes)
      → Has head.stream c.streams
      → IsValid c
      → Keeps (push_data env c head body (get head.stream c.streams))
  unfolding push_data
  push_data-Keeps c head body (s, e) v =
      rw e (elim (Bool-cases (ltb env.client_max_body_size (length s.body + length body))) [
        | inl large ↦ rw large (on_again (reset_stream-IsValid c head.stream enhance_your_calm v))
        | inr fits ↦ rw fits (
            on_dispatch (
              Facts-update head.stream
                (λ t. record t {
                  body = t.body ++ body;
                  state = if has head Flag.end_stream then half_closed_remote else t.state;
                })
                (λ t w. w) v))
      ])

  place_data-Keeps :
      (c : Conn) (head : Head) (body : Bytes) (w : Where)
      → (w ≡ open_ → Has head.stream c.streams)
      → IsValid c
      → Keeps (place_data env c head body w)
  unfolding place_data
  place_data-Keeps c head body idle e v = on_fail
  place_data-Keeps c head body closed e v = on_fail
  place_data-Keeps c head body reset_ e v =
      on_again (reset_stream-IsValid c head.stream stream_closed v)
  place_data-Keeps c head body half_closed e v =
      on_again (reset_stream-IsValid c head.stream stream_closed v)
  place_data-Keeps c head body open_ e v = push_data-Keeps c head body (e refl) v

  unpadded_data-Keeps :
      (c : Conn) (head : Head) (body : Option Bytes)
      → IsValid c
      → Keeps (unpadded_data env c head body)
  unfolding unpadded_data
  unpadded_data-Keeps c head none v = on_fail
  unpadded_data-Keeps c head (some body) v =
      let (valid, same) = replenish-kept c in
      place_data-Keeps (replenish c) head body (state_of c.streams head.stream c.highest)
        (λ e. rw same (Has-open c.streams head.stream c.highest (λ q. cc) (λ q. cc))) (valid v)

  pub on_data-Keeps :
      (c : Conn) (head : Head) (payload : Bytes) → IsValid c → Keeps (on_data env c head payload)
  unfolding on_data
  on_data-Keeps c head payload v = elim (Bool-cases (head.stream == 0)) [
    | inl zeroth ↦ rw zeroth on_fail
    | inr other ↦ rw other (
        unpadded_data-Keeps (record c { recv_window = c.recv_window -ℤ pos head.len }) head
          (unpad payload (has head Flag.padded)) v)
  ]

  finish_decoded-Keeps :
      (c : Conn) (id : ℕ) (trailing : Bool) (out : List Header) (end : End)
      → end ≢ stuck
      → IsValid c
      → Keeps (finish_decoded env c id trailing out end)
  unfolding finish_decoded
  finish_decoded-Keeps c id trailing out (failed HpackError.compression) ends v = on_fail
  finish_decoded-Keeps c id trailing out (failed too_large) ends v =
      on_dispatch (reset_stream-IsValid c id enhance_your_calm v)
  finish_decoded-Keeps c id trailing out stuck ends v = absurd (ends refl)
  finish_decoded-Keeps c id true out complete ends v = elim (Bool-cases (any_pseudo env out)) [
    | inl pseudo ↦ rw pseudo (on_dispatch (reset_stream-IsValid c id protocol v))
    | inr fine ↦ rw fine (on_dispatch v)
  ]
  finish_decoded-Keeps c id false out complete ends v = on_dispatch (
      Facts-update id
        (λ s. record s {
          content_length = declared_length env out;
          headers = out;
          headers_done = true;
        })
        (λ s w. w) v)

  finish_block-Keeps : (c : Conn) (id : ℕ) → IsValid c → Keeps (finish_block env c id)
  unfolding finish_block finish_found
  finish_block-Keeps c id v = elim (Option-cases (get id c.streams)) [
    | inl e ↦ rw e (on_dispatch v)
    | inr (st, e) ↦
        let (table, bound, ends) =
          decode_safe env.text c.dec st.pending max_header_list [] v.table (omega arith) in
        rw e (
          finish_decoded-Keeps _ id st.pending_is_trailers _ _ ends
            (Facts-update id (λ s. record s { pending = [] }) (λ s w. w) (Facts-dec table v)))
  ]

  after_block-Keeps :
      (c : Conn) (head : Head)
      → Has head.stream c.streams
      → IsValid c
      → Keeps (after_block env c head)
  unfolding after_block
  after_block-Keeps c head h v = elim (Bool-cases (has head Flag.end_headers)) [
    | inl whole ↦ rw whole (finish_block-Keeps c head.stream v)
    | inr more ↦ rw more (on_dispatch (Facts-expect head.stream h v))
  ]

  trailers-Keeps :
      (c : Conn) (head : Head) (block : Bytes)
      → Has head.stream c.streams
      → IsValid c
      → Keeps (trailers env c head block)
  unfolding trailers store_trailers
  trailers-Keeps c head block (s, e) v = elim (Bool-cases (has head Flag.end_stream)) [
    | inl last ↦
        let f : Stream → Stream = λ s. record s {
          pending = block;
          pending_is_trailers = true;
          state = half_closed_remote;
        } in
        rw (last, e)
          (after_block-Keeps (record c { streams = update head.stream f c.streams }) head
            (Has-update head.stream head.stream f c.streams (s, e))
            (Facts-update head.stream f (λ s w. w) v))
    | inr endless ↦ rw endless (on_dispatch (reset_stream-IsValid c head.stream protocol v))
  ]

  -- A new stream under an odd id above all others, with room for it.
  admit-Keeps :
      (c : Conn) (head : Head) (block : Bytes)
      → head.stream ≤ c.highest
      → head.stream % 2 ≡ 1
      → IsValid c
      → Keeps (admit env c head block)
  unfolding admit active
  admit-Keeps c head block le odd v =
      elim (Bool-cases (leb max_concurrent (count live c.streams))) [
        | inl full ↦ rw full (on_dispatch v)
        | inr room ↦
            let st : Stream = record (new_stream (pos c.peer_initial_window)) {
              state = if has head Flag.end_stream then half_closed_remote else opened;
              pending = block;
            } in
            rw room (
              after_block-Keeps (record c { streams = (head.stream, st) ∷ c.streams }) head
                (new_Has head.stream st c.streams)
                (Facts-cons head.stream st (le, odd) (ground arith) v))
      ]

  open_new-Keeps :
      (c : Conn) (head : Head) (block : Bytes)
      → c.expect_continuation ≡ none
      → head.stream % 2 ≡ 1
      → IsValid c
      → Keeps (open_new env c head block)
  unfolding open_new prune
  open_new-Keeps c head block shut odd v = elim (Bool-cases (leb head.stream c.highest)) [
    | inl back ↦ rw back on_fail
    | inr ahead ↦ rw ahead (
        admit-Keeps (prune env (record c { highest = head.stream; last_stream = head.stream })) head
          block (omega arith) odd
          (Facts-retain (λ s. not (s.dispatched && s.done)) head.stream (ground arith) shut v))
  ]

  place_block-Keeps :
      (c : Conn) (head : Head) (block : Bytes) (w : Where)
      → (w ≡ open_ → Has head.stream c.streams)
      → (w ≡ half_closed → Has head.stream c.streams)
      → c.expect_continuation ≡ none
      → head.stream % 2 ≡ 1
      → IsValid c
      → Keeps (place_block env c head block w)
  unfolding place_block
  place_block-Keeps c head block open_ ho hh shut odd v = trailers-Keeps c head block (ho refl) v
  place_block-Keeps c head block half_closed ho hh shut odd v =
      trailers-Keeps c head block (hh refl) v
  place_block-Keeps c head block closed ho hh shut odd v = on_fail
  place_block-Keeps c head block reset_ ho hh shut odd v = on_fail
  place_block-Keeps c head block idle ho hh shut odd v = open_new-Keeps c head block shut odd v

  placed :
      (c : Conn) (head : Head) (block : Bytes)
      → c.expect_continuation ≡ none
      → head.stream % 2 ≡ 1
      → IsValid c
      → Keeps (place_block env c head block (state_of c.streams head.stream c.highest))
  placed c head block shut odd v =
      place_block-Keeps c head block _
        (λ e. Has-open c.streams head.stream c.highest (λ q. cc) (λ q. cc))
        (λ e. Has-open c.streams head.stream c.highest (λ q. cc) (λ q. cc)) shut odd v

  strip_priority-Keeps :
      (c : Conn) (head : Head) (block : Bytes)
      → c.expect_continuation ≡ none
      → head.stream % 2 ≡ 1
      → IsValid c
      → Keeps (strip_priority env c head block)
  unfolding strip_priority
  strip_priority-Keeps c head block shut odd v = elim (Bool-cases (has head Flag.priority)) [
    | inr bare ↦ rw bare (placed c head block shut odd v)
    | inl priority ↦ elim (Bool-cases (ltb (length block) 5)) [
      | inl short ↦ rw (priority, short) on_fail
      | inr long ↦ elim (Bool-cases (stream_word env (u32_at block 0) == head.stream)) [
        | inl itself ↦ rw (priority, long, itself) (on_again v)
        | inr other ↦ rw (priority, long, other) (placed c head (drop 5 block) shut odd v)
      ]
    ]
  ]

  unpadded_block-Keeps :
      (c : Conn) (head : Head) (block : Option Bytes)
      → c.expect_continuation ≡ none
      → head.stream % 2 ≡ 1
      → IsValid c
      → Keeps (unpadded_block env c head block)
  unfolding unpadded_block
  unpadded_block-Keeps c head none shut odd v = on_fail
  unpadded_block-Keeps c head (some block) shut odd v = strip_priority-Keeps c head block shut odd v

  pub on_headers-Keeps :
      (c : Conn) (head : Head) (payload : Bytes)
      → c.expect_continuation ≡ none
      → IsValid c
      → Keeps (on_headers env c head payload)
  unfolding on_headers
  on_headers-Keeps c head payload shut v = elim (Bool-cases (head.stream == 0)) [
    | inl zeroth ↦ rw zeroth on_fail
    | inr other ↦ elim (Bool-cases (head.stream % 2 == 0)) [
      | inl even ↦ rw (other, even) on_fail
      | inr uneven ↦
          rw (other, uneven)
            (unpadded_block-Keeps c head (unpad payload (has head Flag.padded)) shut (ground arith)
              v)
    ]
  ]

  is_open_on-eq : (o : Option ℕ) (id : ℕ) → is_open_on env o id ≡ true → o ≡ some id
  unfolding is_open_on
  is_open_on-eq none id e = cc
  is_open_on-eq (some w) id e = ap some (ground arith)

  extend_block-Keeps :
      (c : Conn) (head : Head) (payload : Bytes)
      → Has head.stream c.streams
      → IsValid c
      → Keeps (extend_block env c head payload (get head.stream c.streams))
  unfolding extend_block
  extend_block-Keeps c head payload (s, e) v =
      let f : Stream → Stream = λ t. record t { pending = t.pending ++ payload } in
      elim (Bool-cases (ltb (max_header_list * 2) (length s.pending + length payload))) [
        | inl large ↦ rw (e, large) on_fail
        | inr fits ↦ elim (Bool-cases (has head Flag.end_headers)) [
          | inl whole ↦
              rw (e, fits, whole)
                (finish_block-Keeps
                  (record c {
                    streams = update head.stream f c.streams;
                    expect_continuation = none;
                  })
                  head.stream (Facts-shut (Facts-update head.stream f (λ t w. w) v)))
          | inr more ↦ rw (e, fits, more) (on_dispatch (Facts-update head.stream f (λ t w. w) v))
        ]
      ]

  pub on_continuation-Keeps :
      (c : Conn) (head : Head) (payload : Bytes)
      → IsValid c
      → Keeps (on_continuation env c head payload)
  unfolding on_continuation
  on_continuation-Keeps c head payload v =
      elim (Bool-cases (is_open_on env c.expect_continuation head.stream)) [
        | inl here ↦ rw here (
            extend_block-Keeps c head payload
              (v.waiting head.stream (is_open_on-eq c.expect_continuation head.stream here)) v)
        | inr elsewhere ↦ rw elsewhere on_fail
      ]
