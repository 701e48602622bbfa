-- ===== src/Server/Body/Examples.antt =====
-- src/server/conn.rs: runs of the body's reading, and its theorems at concrete inputs.
use oxi_serve.Base.{◌≡◌, refl, true, [], ◌∷◌, List, ◌++◌, none, some, arith}
use oxi_serve.Base.Bytes.{Bytes, codes, same_bytes}
use oxi_serve.Base.Result.{err}
use oxi_serve.Server.Body.{
  Conn, panic, got, read_chunked_body, read_data, take_data, await_line, await_bytes, after_line,
  parse_hex, hex_from, hex_digit, push_digit, before_extension, find_crlf, find_from, fill,
  too_long,
}
use oxi_serve.Server.Body.Crlf.{first_index, bump}
use oxi_serve.Server.Body.Stream.{gots, joined, IsPiece}
use oxi_serve.Server.Body.Steps.{At}
use oxi_serve.Server.Body.RoundTrip.{Chunk}
use oxi_serve.Server.Body.Exact.{Received, read_body, sized, read_body-Received}

abbrev cr_lf : Bytes
cr_lf = 13 ∷ 10 ∷ []

abbrev one_byte : Bytes
one_byte = codes "1\r\na\r\nffffffffffffffff\r\n"

-- A chunk of one byte and a size of 2^64 - 1: the sum with the body wraps to 0, the length to wait
-- for to 1, and the slice is out of range.
huge_size :
    read_chunked_body first_index 5
      (record { unread = one_byte; pos = 0; body = []; input = got (98 ∷ []) ∷ [] })
      100
    ≡ err panic
unfolding read_chunked_body read_data take_data await_line await_bytes after_line parse_hex hex_from
    hex_digit push_digit before_extension find_crlf find_from first_index bump fill too_long
    same_bytes
huge_size = refl

-- A space inside a size is passed over.
space_in_size : parse_hex (codes "1 0") ≡ some 16
unfolding parse_hex hex_from hex_digit push_digit
space_in_size = refl

abbrev two_chunks : List Chunk
two_chunks =
    record { bytes = codes "Wiki"; width = 1; ext = none }
    ∷ record { bytes = codes "pedia in chunks."; width = 2; ext = some (codes "a=b") }
    ∷ []

abbrev wire : Bytes
wire = codes "4\r\nWiki\r\n10;a=b\r\npedia in chunks.\r\n0\r\nX: y\r\n\r\nGET"

abbrev split : Conn
split = record {
  unread = codes "4\r\nWi";
  pos = 90;
  body = [];
  input =
      gots (
        codes "ki\r"
        ∷ codes "\n10;a=b\r\npedia in chunks.\r\n0\r\nX: y\r\n\r"
        ∷ codes "\nGET"
        ∷ []);
}

abbrev early : Conn
early = record {
  unread = codes "na";
  pos = 40;
  body = [];
  input = gots (codes "me=x" ∷ codes "yzGET" ∷ []);
}

early-At : At early (codes "name=xyz" ++ codes "GET")
unfolding gots joined IsPiece
early-At = record {
  pieces = codes "me=x" ∷ codes "yzGET" ∷ [];
  all = (omega arith, (omega arith, tt));
  input = refl;
  same = refl;
}

read_body-Received_example :
    Received early
      (codes "name=xyz")
      (codes "GET")
      ((read_body first_index 0 true (sized 8) early 8).0)
read_body-Received_example =
    read_body-Received first_index 0 true early 8 (codes "name=xyz") (codes "GET") refl
      (omega arith) early-At
