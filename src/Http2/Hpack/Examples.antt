-- ===== src/Http2/Hpack/Examples.antt =====
-- A string literal between the encoder and the decoder.
use oxi_serve.Base.{◌≡◌, ◌++◌, [], ◌∷◌, refl, arith, true}
use oxi_serve.Base.Bytes.{codes}
use oxi_serve.Base.Result.{ok}
use oxi_serve.Http2.Hpack.Encoder.{write_string}
use oxi_serve.Http2.Hpack.Decoder.{Text, string}
use oxi_serve.Http2.Hpack.Decoder.Strings.{string-write_string}

abbrev any_text : Text
any_text = record { is_utf8 = λ bytes. true }

string-write_string_example :
    string any_text (write_string (codes "gzip") [] ++ (0x82 ∷ [])) ≡ ok (codes "gzip", 0x82 ∷ [])
string-write_string_example =
    string-write_string any_text (codes "gzip") (0x82 ∷ [])
      (omega arith, (omega arith, (omega arith, (omega arith, tt)))) (omega arith) refl
