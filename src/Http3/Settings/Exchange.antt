-- ===== src/Http3/Settings/Exchange.antt =====
-- What a peer's SETTINGS payload makes of ours: the round trip, and what unknown and reserved
-- identifiers do.
use oxi_serve.Base.{
  ℕ, suc, ◌≤◌, ◌<◌, ◌≡◌, ◌≢◌, refl, ◌∙◌, ap, arith, true, false, List, [], ◌∷◌, ◌++◌, append_assoc,
  append-nil,
}
use oxi_serve.Base.{some, length, All, All-append, length-append, if◌then◌else◌}
use oxi_serve.Base.Bytes.{Bytes, IsByte}
use oxi_serve.Base.Result.{ok, err}
use oxi_serve.Http3.Varint.{varint_max, put_varint}
use oxi_serve.Http3.Varint.RoundTrip.{
  put_varint-append, All-put_varint, length-put_varint, varint_len_bounds,
}
use oxi_serve.Http3.Settings.{
  Settings, default, encode, put_pairs, decode, decode_loop, assign, is_reserved, settings_error,
}
use oxi_serve.Http3.Settings.Laws.{decode_loop-put, decode_loop-enough}

abbrev pair : ℕ → ℕ → Bytes → Bytes
pair id v rest = put_varint id [] ++ (put_varint v [] ++ rest)

All-pair : (id v : ℕ) (rest : Bytes) → All IsByte rest → All IsByte (pair id v rest)
All-pair id v rest h =
    All-append IsByte (put_varint id []) _ (All-put_varint id)
      (All-append IsByte (put_varint v []) rest (All-put_varint v) h)

length-pair : (id v : ℕ) (rest : Bytes) → length rest < length (pair id v rest)
length-pair id v rest = omega (
  arith,
  length-append (put_varint id []) (put_varint v [] ++ rest),
  length-append (put_varint v []) rest,
  length-put_varint id,
  varint_len_bounds id,
)

put_pairs-cons :
    (id v : ℕ) (ps : List (ℕ × ℕ)) (out : Bytes)
    → put_pairs ((id, v) ∷ ps) out ≡ put_pairs ps (out ++ (put_varint id [] ++ put_varint v []))
unfolding put_pairs
put_pairs-cons id v ps out =
    ap (put_pairs ps) (
      put_varint-append v (put_varint id out)
      ∙ rw (put_varint-append id out) (append_assoc out _ _))

encode-pairs :
    (s : Settings)
    → encode s []
      ≡ pair 0x01 s.qpack_max_table_capacity
          (pair 0x07 s.qpack_blocked_streams (pair 0x06 s.max_field_section_size []))
unfolding encode
encode-pairs s = simp put_pairs-cons (simp (append_assoc, append-nil))

-- One pair in front, with any fuel that is enough.
decode_loop-pair :
    (f id v : ℕ) (rest : Bytes) (s : Settings)
    → id ≤ varint_max
    → v ≤ varint_max
    → All IsByte rest
    → length (pair id v rest) ≤ f
    → decode_loop f (pair id v rest) s ≡ (
        if is_reserved id
        then some (err settings_error)
        else decode_loop (length rest) rest (assign id v s))
decode_loop-pair f id v rest s hi hv hr hf =
    let n = length (pair id v rest) in
    decode_loop-enough f (suc n) (pair id v rest) s (All-pair id v rest hr) hf (omega arith)
    ∙ decode_loop-put n id v rest s hi hv
    ∙ rw
        (decode_loop-enough n (length rest) rest (assign id v s) hr
          (omega (arith, length-pair id v rest)) (omega arith))
        refl

unknown_kept : (id v : ℕ) (s : Settings) → id ≢ 0x01 → id ≢ 0x06 → id ≢ 0x07 → assign id v s ≡ s
unfolding assign
unknown_kept id v s h1 h6 h7 = ground arith

reserved_small : (id : ℕ) → is_reserved id ≡ true → id ≤ varint_max
reserved_small id h = ground arith

-- A pair of an identifier that nobody gave a meaning leaves the settings as they are: the rest is
-- read as if the pair were not there.
pub decode_unknown :
    (id v : ℕ) (rest : Bytes)
    → id ≤ varint_max
    → v ≤ varint_max
    → All IsByte rest
    → is_reserved id ≡ false
    → id ≢ 0x01
    → id ≢ 0x06
    → id ≢ 0x07
    → decode (put_varint id [] ++ (put_varint v [] ++ rest)) ≡ decode rest
unfolding decode
decode_unknown id v rest hi hv hr known h1 h6 h7 =
    decode_loop-pair _ id v rest default hi hv hr (omega arith)
    ∙ rw (known, unknown_kept id v default h1 h6 h7) refl

-- A pair of an identifier that HTTP/2 used is refused, whatever follows it.
pub decode_reserved :
    (id v : ℕ) (rest : Bytes)
    → v ≤ varint_max
    → All IsByte rest
    → is_reserved id ≡ true
    → decode (put_varint id [] ++ (put_varint v [] ++ rest)) ≡ some (err settings_error)
unfolding decode
decode_reserved id v rest hv hr reserved =
    decode_loop-pair _ id v rest default (reserved_small id reserved) hv hr (omega arith)
    ∙ rw reserved refl

-- What `encode` writes, `decode` reads back, whole.
pub decode-encode :
    (s : Settings)
    → s.qpack_max_table_capacity ≤ varint_max
    → s.qpack_blocked_streams ≤ varint_max
    → s.max_field_section_size ≤ varint_max
    → decode (encode s []) ≡ some (ok s)
unfolding decode
decode-encode s h1 h2 h3 =
    let p3 = pair 0x06 s.max_field_section_size [] in
    let p2 = pair 0x07 s.qpack_blocked_streams p3 in
    let a3 = All-pair 0x06 s.max_field_section_size [] tt in
    let a2 = All-pair 0x07 s.qpack_blocked_streams p3 a3 in
    rw (encode-pairs s) (
      decode_loop-pair _ 0x01 s.qpack_max_table_capacity p2 default (omega arith) h1 a2
        (omega arith)
      ∙ decode_loop-pair _ 0x07 s.qpack_blocked_streams p3 _ (omega arith) h2 a3 (omega arith)
      ∙ decode_loop-pair _ 0x06 s.max_field_section_size [] _ (omega arith) h3 tt (omega arith)
      ∙ unfold assign decode_loop in refl)
