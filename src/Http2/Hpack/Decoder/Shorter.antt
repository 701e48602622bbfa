-- ===== src/Http2/Hpack/Decoder/Shorter.antt =====
-- src/http2/hpack.rs: every field of a block takes a byte at least.
use oxi_serve.Base.{ℕ, ◌+◌, ◌*◌, ◌^◌, ◌≤◌, ◌<◌, ◌≡◌, arith, [], ◌∷◌, ◌-◌, ◌%◌}
use Prim.Native.Nat.{bit_and}
use oxi_serve.Base.{Bool-cases, inl, inr, length, ◌==◌, length-drop}
use oxi_serve.Base.Bytes.{Bytes}
use oxi_serve.Base.Result.{ok, >>=-eq-ok}
use oxi_serve.Http2.Hpack.Static.{Header}
use oxi_serve.Http2.Hpack.Int.{int, int_loop}
use oxi_serve.Http2.Hpack.Table.{Decoder, lookup, charge}
use oxi_serve.Http2.Hpack.Decoder.{Text, Progress}
use oxi_serve.Http2.Hpack.Decoder.{
  string, string_body, literal, name_of, resize, indexed, indexing, size_update, plain, field,
}

int_loop-shorter :
    (buf : Bytes) (value shift v : ℕ) (rest : Bytes)
    → int_loop buf value shift ≡ ok (v, rest)
    → length rest < length buf
unfolding int_loop
int_loop-shorter [] value shift v rest e = cc
int_loop-shorter (b ∷ bs) value shift v rest e =
    ground
      (arith, int_loop-shorter bs (value + bit_and b 0x7f * 2 ^ shift % 2 ^ 64) (shift + 7) v rest)

int-shorter :
    (buf : Bytes) (p v : ℕ) (rest : Bytes) → int buf p ≡ ok (v, rest) → length rest < length buf
unfolding int
int-shorter [] p v rest e = cc
int-shorter (b ∷ bs) p v rest e = ground (arith, int_loop-shorter bs (2 ^ p - 1) 0 v rest)

module _ (text : Text) where
  string-shorter :
      (buf bytes rest : Bytes) → string text buf ≡ ok (bytes, rest) → length rest < length buf
  unfolding string string_body
  string-shorter [] bytes rest e = cc
  string-shorter (b ∷ bs) bytes rest e =
      let ((len, tail), i, q) = >>=-eq-ok (int (b ∷ bs) 7) _ e in
      ground (arith, int-shorter (b ∷ bs) 7 len tail i, length-drop len tail)

  name_of-le :
      (d : Decoder) (idx : ℕ) (buf name rest : Bytes)
      → name_of text d idx buf ≡ ok (name, rest)
      → length rest ≤ length buf
  unfolding name_of
  name_of-le d idx buf name rest e = elim (Bool-cases (idx == 0)) [
    | inl inline ↦ let h = string-shorter buf name rest (rw inline at e) in omega arith
    | inr tabled ↦ let (h, l, q) = >>=-eq-ok (lookup d idx) _ (rw tabled at e) in ground arith
  ]

  literal-shorter :
      (d : Decoder) (idx : ℕ) (buf : Bytes) (h : Header) (rest : Bytes)
      → literal text d idx buf ≡ ok (h, rest)
      → length rest < length buf
  unfolding literal
  literal-shorter d idx buf h rest e =
      let ((name, tail), i, q) = >>=-eq-ok (name_of text d idx buf) _ e in
      let ((value, end), j, r) = >>=-eq-ok (string text tail) _ q in
      ground (arith, name_of-le d idx buf name tail i, string-shorter tail value end j)

  indexed-shorter :
      (max_list : ℕ) (s t : Progress) → indexed text max_list s ≡ ok t → length t.buf < length s.buf
  unfolding indexed
  indexed-shorter max_list s t e =
      let ((idx, rest), i, q) = >>=-eq-ok (int s.buf 7) _ e in
      let (h, l, r) = >>=-eq-ok (lookup s.decoder idx) _ q in
      let (n, c, u) = >>=-eq-ok (charge s.listed h max_list) _ r in
      ground (arith, int-shorter s.buf 7 idx rest i)

  indexing-shorter :
      (max_list : ℕ) (s t : Progress)
      → indexing text max_list s ≡ ok t
      → length t.buf < length s.buf
  unfolding indexing
  indexing-shorter max_list s t e =
      let ((idx, rest), i, q) = >>=-eq-ok (int s.buf 6) _ e in
      let ((h, tail), l, r) = >>=-eq-ok (literal text s.decoder idx rest) _ q in
      let (n, c, u) = >>=-eq-ok (charge s.listed h max_list) _ r in
      ground (arith, int-shorter s.buf 6 idx rest i, literal-shorter s.decoder idx rest h tail l)

  plain-shorter :
      (max_list : ℕ) (s t : Progress) → plain text max_list s ≡ ok t → length t.buf < length s.buf
  unfolding plain
  plain-shorter max_list s t e =
      let ((idx, rest), i, q) = >>=-eq-ok (int s.buf 4) _ e in
      let ((h, tail), l, r) = >>=-eq-ok (literal text s.decoder idx rest) _ q in
      let (n, c, u) = >>=-eq-ok (charge s.listed h max_list) _ r in
      ground (arith, int-shorter s.buf 4 idx rest i, literal-shorter s.decoder idx rest h tail l)

  size_update-shorter : (s t : Progress) → size_update text s ≡ ok t → length t.buf < length s.buf
  unfolding size_update resize
  size_update-shorter s t e = elim (Bool-cases s.seen_field) [
    | inl late ↦ cc (rw late at e)
    | inr early ↦
        let ((n, rest), i, q) = >>=-eq-ok (int s.buf 5) _ (rw early at e) in
        ground (arith, int-shorter s.buf 5 n rest i)
  ]

  pub field-shorter :
      (max_list first : ℕ) (s t : Progress)
      → field text max_list first s ≡ ok t
      → length t.buf < length s.buf
  unfolding field
  field-shorter max_list first s t e = ground (
    arith,
    indexed-shorter max_list s t,
    indexing-shorter max_list s t,
    plain-shorter max_list s t,
    size_update-shorter s t,
  )
