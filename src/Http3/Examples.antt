-- ===== src/Http3/Examples.antt =====
-- Runs of the HTTP/3 framing, and its theorems at concrete inputs.
use oxi_serve.Base.{◌≤◌, ◌≡◌, ◌≢◌, refl, arith, [], ◌∷◌, ◌++◌, none, some}
use oxi_serve.Base.Result.{ok, err}
use oxi_serve.Http3.Varint.{varint_max, varint_len, put_varint, get_varint}
use oxi_serve.Http3.Varint.RoundTrip.{get_varint-put_varint, get_varint_bounds}
use oxi_serve.Http3.Frame.{parse_head, put_frame, frame_unexpected, is_reserved_h2}
use oxi_serve.Http3.Frame.Laws.{parse_head-put_frame, parse_head-append}
use oxi_serve.Http3.Settings.{default, encode, decode, settings_error}
use oxi_serve.Http3.Settings.Laws.{decode-ne-none}
use oxi_serve.Http3.Settings.Exchange.{decode_unknown, decode_reserved, decode-encode}

-- The four widths of RFC 9000, A.1.
read_eight :
    get_varint (0xc2 ∷ 0x19 ∷ 0x7c ∷ 0x5e ∷ 0xff ∷ 0x14 ∷ 0xe8 ∷ 0x8c ∷ [])
    ≡ some (151_288_809_941_952_652, 8)
unfolding get_varint
read_eight = refl

write_four : put_varint 494_878_333 [] ≡ 0x9d ∷ 0x7f ∷ 0x3e ∷ 0x7d ∷ []
unfolding put_varint
write_four = refl

read_padded : get_varint (0x40 ∷ 0x25 ∷ []) ≡ some (37, 2)
unfolding get_varint
read_padded = refl

get_varint-put_varint_example :
    get_varint (put_varint 15_293 [] ++ 7 ∷ []) ≡ some (15_293, varint_len 15_293)
get_varint-put_varint_example = get_varint-put_varint 15_293 (7 ∷ []) (omega arith)

get_varint_bounds_example : (37 ≤ varint_max) × (varint_len 37 ≤ 2) × (1 ≤ 2) × (2 ≤ 2)
get_varint_bounds_example = get_varint_bounds (0x40 ∷ 0x25 ∷ []) 37 2 (omega arith) read_padded

parse_head-put_frame_example :
    parse_head (put_frame 2 (1 ∷ 2 ∷ []) [] ++ []) ≡ err (record { code = frame_unexpected })
unfolding is_reserved_h2
parse_head-put_frame_example =
    (parse_head-put_frame 2 (1 ∷ 2 ∷ []) [] (omega arith) (omega arith)).1 refl

head_read : parse_head (1 ∷ 2 ∷ []) ≢ ok none
unfolding parse_head get_varint is_reserved_h2
head_read = λ e. cc

parse_head-append_example : parse_head (1 ∷ 2 ∷ 9 ∷ []) ≡ parse_head (1 ∷ 2 ∷ [])
parse_head-append_example = parse_head-append (1 ∷ 2 ∷ []) (9 ∷ []) (omega arith) head_read

decode-ne-none_example : decode (1 ∷ 0xc0 ∷ []) ≢ none
decode-ne-none_example = decode-ne-none (1 ∷ 0xc0 ∷ []) (omega arith)

decode_unknown_example : decode (put_varint 0x21 [] ++ (put_varint 5 [] ++ [])) ≡ decode []
decode_unknown_example =
    decode_unknown 0x21 5 [] (omega arith) (omega arith) tt refl (omega arith) (omega arith)
      (omega arith)

decode_reserved_example :
    decode (put_varint 4 [] ++ (put_varint 5 [] ++ [])) ≡ some (err settings_error)
decode_reserved_example = decode_reserved 4 5 [] (omega arith) tt refl

decode-encode_example : decode (encode default []) ≡ some (ok default)
decode-encode_example = decode-encode default (omega arith) (omega arith) (omega arith)
