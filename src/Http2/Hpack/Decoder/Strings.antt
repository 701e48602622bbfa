-- ===== src/Http2/Hpack/Decoder/Strings.antt =====
-- src/http2/hpack.rs: string literals, between `Encoder::write_string` and `string`.
use Prim.Native.Nat.{bit_and}
use oxi_serve.Base.{
  ℕ, ◌*◌, ◌^◌, ◌≤◌, ◌<◌, ◌≡◌, refl, sym, ap, ◌∙◌, arith, Bool, true, false, [], ◌∷◌, ◌++◌,
  append_assoc, inl, inr, All,
}
use oxi_serve.Base.{
  ltb, ltb→lt, ◌==◌, if◌then◌else◌, Bool-cases, length, length-append, take-length-append,
  drop-length-append,
}
use oxi_serve.Base.Bytes.{Bytes, IsByte}
use oxi_serve.Base.Result.{ok}
use oxi_serve.Http2.Huffman.{encode, encoded_len}
use oxi_serve.Http2.Huffman.Append.{encode-append}
use oxi_serve.Http2.Huffman.RoundTrip.{decode-encode_string}
use oxi_serve.Http2.Hpack.Int.{int, write_int}
use oxi_serve.Http2.Hpack.Int.RoundTrip.{int-write_int, write_int_head}
use oxi_serve.Http2.Hpack.Encoder.{write_string}
use oxi_serve.Http2.Hpack.Decoder.{Text, max_string, literal_bytes, string_body, string}

-- The flag of a string's first byte, and its number, as they were written, lead to the string's body.
string-flagged :
    (text : Text) (v flag : ℕ) (rest : Bytes)
    → flag < 2
    → v < 2 ^ 63
    → string text (write_int v 7 (flag * 2 ^ 7) [] ++ rest)
      ≡ string_body text (if flag == 0 then false else true) (v, rest)
unfolding string
string-flagged text v flag rest few small =
    let (b, bs, e, top) = write_int_head v flag few in
    let whole : int (b ∷ (bs ++ rest)) 7 ≡ ok (v, rest) =
      ap (λ t. int (t ++ rest) 7) (sym e)
      ∙ int-write_int v 7 flag rest small (omega arith) (omega arith) in
    let same : (bit_and b 0x80 == 0) ≡ (flag == 0) = rw top (scaled flag) in
    rw (e, whole, same) refl
  where
    scaled : (n : ℕ) → (n * 2 ^ 7 == 0) ≡ (n == 0)
    scaled n = ground arith

-- A body whose bytes stand for a string is that string, and what follows it.
string_body-whole :
    (text : Text) (coded : Bool) (raw rest s : Bytes)
    → literal_bytes text coded raw ≡ ok s
    → text.is_utf8 s ≡ true
    → string_body text coded (length raw, raw ++ rest) ≡ ok (s, rest)
unfolding string_body
string_body-whole text coded raw rest s read utf8 =
    let enough : ltb (length (raw ++ rest)) (length raw) ≡ false =
      ground (arith, length-append raw rest) in
    rw (enough, take-length-append raw rest, drop-length-append raw rest, read, utf8) refl

-- A string that `write_string` wrote, in Huffman code or as it is, is read back with what follows
-- it, if it is made of bytes, is UTF-8 and within the decoder's bound.
pub string-write_string :
    (text : Text) (s rest : Bytes)
    → All IsByte s
    → length s ≤ max_string
    → text.is_utf8 s ≡ true
    → string text (write_string s [] ++ rest) ≡ ok (s, rest)
unfolding write_string literal_bytes
string-write_string text s rest bytes bounded utf8 =
    let (back, size) = decode-encode_string s max_string bytes bounded in
    elim (Bool-cases (ltb (encoded_len s) (length s))) [
      | inl shorter ↦
          let raw = encode s [] in
          let head = write_int (encoded_len s) 7 (1 * 2 ^ 7) [] in
          let e : encode s head ++ rest ≡ head ++ (raw ++ rest) =
            rw (encode-append s head) (append_assoc head raw rest) in
          let small : encoded_len s < 2 ^ 63 =
            omega (arith, ltb→lt (encoded_len s) (length s) shorter, bounded) in
          rw (shorter, e)
            (string-flagged text (encoded_len s) 1 (raw ++ rest) (omega arith) small
              ∙ ap (λ n. string_body text true (n, raw ++ rest)) (sym size)
              ∙ string_body-whole text true raw rest s (rw (literal_bytes, back) refl) utf8)
      | inr longer ↦
          let head = write_int (length s) 7 (0 * 2 ^ 7) [] in
          rw (longer, append_assoc head s rest)
            (string-flagged text (length s) 0 (s ++ rest) (omega arith) (omega (arith, bounded))
              ∙ string_body-whole text false s rest s (unfold literal_bytes in refl) utf8)
    ]
