-- ===== src/Http2/Huffman/Examples.antt =====
-- A string of RFC 7541, appendix C, in Huffman code, and the theorem at it.
use oxi_serve.Base.{◌≡◌, refl, arith, [], ◌∷◌, some}
use oxi_serve.Base.{length}
use oxi_serve.Base.Bytes.{Bytes, codes}
use oxi_serve.Http2.Huffman.{
  encode, encoded_len, decode, encode_from, drain, shift_in, flush, entry,
}
use oxi_serve.Http2.Huffman.{
  feed, feed_byte, advance, arrive, child, tree, plant_all, plant, bit, finish, is_all_ones_prefix,
  ones_from,
}
use oxi_serve.Http2.Huffman.Unique.{decode_injective}
use oxi_serve.Http2.Huffman.RoundTrip.{decode-encode_string}

example_com :
    encode (codes "www.example.com") []
    ≡ 0xf1 ∷ 0xe3 ∷ 0xc2 ∷ 0xe5 ∷ 0xf2 ∷ 0x3a ∷ 0x6b ∷ 0xa0 ∷ 0xab ∷ 0x90 ∷ 0xf4 ∷ 0xff ∷ []
unfolding encode encode_from drain shift_in flush entry
example_com = refl

decode-encode_string_example :
    (decode (encode (codes "ok!") []) 64 [] ≡ some (codes "ok!"))
    × (length (encode (codes "ok!") []) ≡ encoded_len (codes "ok!"))
decode-encode_string_example =
    decode-encode_string (codes "ok!") 64 (omega arith, (omega arith, (omega arith, tt)))
      (omega arith)

-- The five zero bits of `0`, and padding.
abbrev zero_code : Bytes
zero_code = 0x07 ∷ []

decode_zero : decode zero_code 64 [] ≡ some (codes "0")
unfolding decode feed feed_byte advance arrive child tree plant_all plant bit finish
    is_all_ones_prefix ones_from
decode_zero = refl

decode_injective_example : zero_code ≡ zero_code
decode_injective_example =
    decode_injective zero_code zero_code 64 (codes "0") (omega arith, tt) (omega arith, tt)
      decode_zero decode_zero
