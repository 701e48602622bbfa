-- ===== src/Http2/Examples.antt =====
-- Runs of the HTTP/2 layer, and its theorems at concrete inputs.
use oxi_serve.Base.{
  ◌*◌, ◌^◌, ◌≤◌, ◌≡◌, ◌≢◌, ◌↔◌, refl, arith, true, List, [], ◌∷◌, ◌++◌, none, some, length,
}
use oxi_serve.Base.Bytes.{Bytes, codes, same_bytes}
use oxi_serve.Base.Result.{ok}
use oxi_serve.Http2.Frame.{Head, HeaderBytes, parse, write, unpad}
use oxi_serve.Http2.Frame.Laws.{to_list, IsByteHeader, parse-write, write-parse, unpad_iff}
use oxi_serve.Http2.Hpack.Int.{int, write_int}
use oxi_serve.Http2.Hpack.Int.RoundTrip.{int-write_int}
use oxi_serve.Http2.Hpack.Static.{Header}
use oxi_serve.Http2.Hpack.Table.{Decoder, evict, insert, set_max_size, entry_size}
use oxi_serve.Http2.Hpack.Table.Bounds.{IsValid, total, insert-IsValid, set_max_size-IsValid}
use oxi_serve.Http2.Hpack.Table.Recency.{evict_longest}
use oxi_serve.Http2.Hpack.Decoder.{Text, decode, stuck}
use oxi_serve.Http2.Hpack.Decoder.Safety.{decode_safe}
use oxi_serve.Base.Int.{pos, ◌-ℤ◌}
use oxi_serve.Http2.Frame.{write_frame, has}
use oxi_serve.Http2.Frame.Kind
use oxi_serve.Http2.Frame.Flag
use oxi_serve.Http2.Conn.Streams.{Env, Conn, count, get, update, new_stream, again, crash}
use oxi_serve.Http2.Conn.Invariant
use oxi_serve.Http2.Conn.Control.{on_ping}
use oxi_serve.Http2.Conn.Fields.{Parsed, parse_headers, pseudo_of, is_refused}
use oxi_serve.Http2.Conn.Fields.Laws.{IsRequest, parse_headers-IsRequest}
use oxi_serve.Http2.Conn.Pump.{progress, pump_once, Written, pump_once-Written}
use oxi_serve.Http2.Conn.Receive.{start, receive}
use oxi_serve.Http2.Conn.Receive.Keeps.{IsSettled, receive-IsSettled}
use oxi_serve.Http2.Conn.Reach.{here, round, start-IsValid, reached-IsValid, reached-ne-crash}

abbrev head : Head
head = record { len = 1234; kind = 1; flags = 5; stream = 7 }

parse-write_example :
    (b : HeaderBytes) × (write head (9 ∷ []) ≡ (9 ∷ []) ++ to_list b)
    × IsByteHeader b
    × (parse b ≡ head)
parse-write_example = parse-write head (9 ∷ []) (omega arith)

write-parse_example :
    write (parse (0, 0, 4, 8, 0, 0x80, 0, 0, 5)) [] ≡ to_list (0, 0, 4, 8, 0, 0, 0, 0, 5)
write-parse_example = write-parse 0 0 4 8 0 0x80 0 0 5 (omega arith)

unpad_iff_example :
    (unpad (2 ∷ 7 ∷ 0 ∷ 0 ∷ []) true ≡ some (7 ∷ []))
    ↔ ((pad : Bytes) × (2 ∷ 7 ∷ 0 ∷ 0 ∷ [] ≡ length pad ∷ ((7 ∷ []) ++ pad)))
unpad_iff_example = unpad_iff (2 ∷ 7 ∷ 0 ∷ 0 ∷ []) (7 ∷ [])

-- RFC 7541, C.1.2.
int_rfc : int (0x1f ∷ 0x9a ∷ 0x0a ∷ []) 5 ≡ ok (1337, [])
unfolding int
int_rfc = refl

int-write_int_example : int (write_int 1337 5 (1 * 2 ^ 5) [] ++ 3 ∷ []) 5 ≡ ok (1337, 3 ∷ [])
int-write_int_example = int-write_int 1337 5 1 (3 ∷ []) (omega arith) (omega arith) (omega arith)

abbrev plain_text : Text
plain_text = record { is_utf8 = λ bytes. true }

abbrev custom : Header
custom = record { name = codes "k"; value = codes "v" }

abbrev table : Decoder
table = record { dynamic = custom ∷ custom ∷ []; size = 68; max_size = 100; settings_max = 4096 }

table-IsValid : IsValid table
unfolding entry_size
table-IsValid = omega arith

insert-IsValid_example : IsValid (insert table custom)
insert-IsValid_example = insert-IsValid table custom table-IsValid

set_max_size-IsValid_example : IsValid (set_max_size table 40)
set_max_size-IsValid_example = set_max_size-IsValid table 40 table-IsValid

abbrev crowded : Decoder
crowded = record table { max_size = 40 }

evict_longest_example :
    ((gone : List Header) × (crowded.dynamic ≡ (evict crowded).dynamic ++ gone))
    × (total (evict crowded).dynamic ≤ crowded.max_size)
    × ((evict crowded).size ≡ total (evict crowded).dynamic)
    × ((recent old : List Header)
        → crowded.dynamic ≡ recent ++ old
        → total recent ≤ crowded.max_size
        → length recent ≤ length (evict crowded).dynamic)
evict_longest_example = evict_longest crowded table-IsValid.exact

decode_safe_example :
    IsValid (decode plain_text table (0x82 ∷ 0xbe ∷ 0xff ∷ []) 1000 (custom ∷ [])).0.decoder
    × ((added : List Header) × ((decode plain_text table
            (0x82 ∷ 0xbe ∷ 0xff ∷ [])
            1000
            (custom ∷ [])).0.out
          ≡ (custom ∷ []) ++ added)
        × (total added ≤ 1000))
    × ((decode plain_text table (0x82 ∷ 0xbe ∷ 0xff ∷ []) 1000 (custom ∷ [])).1 ≢ stuck)
decode_safe_example =
    decode_safe plain_text table (0x82 ∷ 0xbe ∷ 0xff ∷ []) 1000 (custom ∷ []) table-IsValid
      (omega arith)

abbrev surroundings : Env
surroundings = record { text = plain_text; parse_u64 = λ digits. none; client_max_body_size = 1000 }

abbrev ping_head : Head
ping_head = record { len = 8; kind = Kind.ping; flags = 0; stream = 0 }

abbrev eight : Bytes
eight = 1 ∷ 2 ∷ 3 ∷ 4 ∷ 5 ∷ 6 ∷ 7 ∷ 8 ∷ []

abbrev get_head : Head
get_head = record { len = 1; kind = Kind.headers; flags = 5; stream = 1 }

pinged :
    receive surroundings start ping_head eight
    ≡ again (record start { sent = write_frame Kind.ping Flag.ack 0 eight [] })
unfolding receive on_ping has
pinged = refl

receive-IsSettled_example : IsSettled (receive surroundings start get_head (0x82 ∷ []))
receive-IsSettled_example = receive-IsSettled surroundings start get_head (0x82 ∷ []) start-IsValid

reached-IsValid_example :
    Invariant.IsValid (record start { sent = write_frame Kind.ping Flag.ack 0 eight [] })
reached-IsValid_example =
    reached-IsValid surroundings (record start { sent = write_frame Kind.ping Flag.ack 0 eight [] })
      (round ping_head eight pinged here)

reached-ne-crash_example : receive surroundings start get_head (0x82 ∷ []) ≢ crash
reached-ne-crash_example = reached-ne-crash surroundings start get_head (0x82 ∷ []) here

abbrev busy : Conn
busy = record start { highest = 1; streams = (1, new_stream (pos 2)) ∷ [] }

busy-IsValid : Invariant.IsValid busy
unfolding count new_stream
busy-IsValid = record {
  table = start-IsValid.table;
  window = start-IsValid.window;
  frame_lo = start-IsValid.frame_lo;
  frame_hi = start-IsValid.frame_hi;
  conn = start-IsValid.conn;
  ids = ((omega arith, refl), tt);
  waiting = λ id e. cc;
  crowd = omega arith;
}

abbrev pumped_once : Conn
pumped_once = record busy {
  sent = write_frame Kind.data_frame 0 1 (7 ∷ 8 ∷ []) [];
  conn_window = 65533;
  streams = (1, new_stream (pos 0)) ∷ [];
}

pumped_two : pump_once busy 1 (7 ∷ 8 ∷ 9 ∷ []) ≡ progress pumped_once (9 ∷ [])
unfolding pump_once get new_stream update ◌-ℤ◌
pumped_two = refl

pump_once-Written_example : Written busy 1 (7 ∷ 8 ∷ 9 ∷ []) pumped_once (9 ∷ [])
pump_once-Written_example =
    pump_once-Written busy 1 (7 ∷ 8 ∷ 9 ∷ []) pumped_once (9 ∷ []) busy-IsValid (omega arith)
      pumped_two

abbrev request : List Header
request =
    record { name = codes ":method"; value = codes "GET" }
    ∷ record { name = codes ":scheme"; value = codes "https" }
    ∷ record { name = codes ":path"; value = codes "/" }
    ∷ record { name = codes "accept"; value = codes "*" }
    ∷ []

abbrev accepted : Parsed
accepted = record {
  method = codes "GET";
  path = codes "/";
  authority = [];
  ordinary = record { name = codes "accept"; value = codes "*" } ∷ [];
}

request_parsed : parse_headers request ≡ ok accepted
unfolding parse_headers pseudo_of same_bytes is_refused
request_parsed = refl

parse_headers-IsRequest_example : IsRequest request accepted
parse_headers-IsRequest_example = parse_headers-IsRequest request accepted request_parsed
