-- ===== src/Http3/Frame/Laws.antt =====
-- src/http3/frame.rs: frame headers written and read, and headers cut short.
use oxi_serve.Base.{ℕ, ◌+◌, ◌≤◌, ◌≡◌, refl, true, false, [], ◌++◌, append_assoc, ◌≢◌}
use oxi_serve.Base.{
  none, some, length, drop, drop-append, drop-length-append, All, Option-cases, inl, inr,
}
use oxi_serve.Base.Bytes.{Bytes, IsByte}
use oxi_serve.Base.Result.{ok, err}
use oxi_serve.Http3.Varint.{varint_max, varint_len, put_varint, get_varint}
use oxi_serve.Http3.Varint.RoundTrip.{
  get_varint-put_varint, put_varint-append, length-put_varint, get_varint-append, get_varint_bounds,
}
use oxi_serve.Http3.Frame.{is_reserved_h2, parse_head, parse_kind, put_frame, frame_unexpected}

-- The bytes behind a varint that was written are what `drop` by its length leaves.
pub drop-put_varint : (v : ℕ) (rest : Bytes) → drop (varint_len v) (put_varint v [] ++ rest) ≡ rest
drop-put_varint v rest = rw (← length-put_varint v) (drop-length-append (put_varint v []) rest)

put_frame-append :
    (kind : ℕ) (payload rest : Bytes)
    → put_frame kind payload [] ++ rest
      ≡ put_varint kind [] ++ (put_varint (length payload) [] ++ (payload ++ rest))
unfolding put_frame
put_frame-append kind payload rest =
    rw (put_varint-append (length payload) (put_varint kind [])) (simp append_assoc)

-- A header is read back from a frame with its type, its payload's length and its own size, and
-- behind the header stand the payload and what follows it. The reserved HTTP/2 types are refused.
pub parse_head-put_frame :
    (kind : ℕ) (payload rest : Bytes)
    → kind ≤ varint_max
    → length payload ≤ varint_max
    → (is_reserved_h2 kind ≡ false
        → (parse_head (put_frame kind payload [] ++ rest)
            ≡ ok (
                some (record {
                  kind = kind;
                  len = length payload;
                  head_len = varint_len kind + varint_len (length payload);
                }))))
      × (is_reserved_h2 kind ≡ true
          → parse_head (put_frame kind payload [] ++ rest)
            ≡ err (record { code = frame_unexpected }))
unfolding parse_head
parse_head-put_frame kind payload rest hk hp =
    rw
      (
        put_frame-append kind payload rest,
        get_varint-put_varint kind (put_varint (length payload) [] ++ (payload ++ rest)) hk,
        drop-put_varint kind (put_varint (length payload) [] ++ (payload ++ rest)),
        get_varint-put_varint (length payload) (payload ++ rest) hp,
      )
      ((λ h. rw (h)), (λ h. rw (h)))

parse_kind-append :
    (buf more : Bytes) (kind a : ℕ)
    → a ≤ length buf
    → parse_kind buf (some (kind, a)) ≢ ok none
    → parse_kind (buf ++ more) (some (kind, a)) ≡ parse_kind buf (some (kind, a))
unfolding parse_kind
parse_kind-append buf more kind a ha h = elim (Option-cases (get_varint (drop a buf))) [
  | inl e ↦ absurd (h (rw (e)))
  | inr ((len, b), e) ↦
      rw (drop-append a buf more ha, get_varint-append (drop a buf) more len b e, e) refl
]

-- More bytes do not change a header or a refusal: only "incomplete" may become something else.
pub parse_head-append :
    (buf more : Bytes)
    → All IsByte buf
    → parse_head buf ≢ ok none
    → parse_head (buf ++ more) ≡ parse_head buf
unfolding parse_head
parse_head-append buf more hb h = elim (Option-cases (get_varint buf)) [
  | inl e ↦ absurd (h (rw (e, parse_kind)))
  | inr ((kind, a), e) ↦
      rw (get_varint-append buf more kind a e, e)
        (parse_kind-append buf more kind a ((get_varint_bounds buf kind a hb e).3)
          (λ q. h (rw (e) q)))
]
