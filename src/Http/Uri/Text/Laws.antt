-- ===== src/Http/Uri/Text/Laws.antt =====
-- src/http/uri.rs: escaped paths read back, and what escaped HTML can hold.
use Prim.Native.Nat.{bit_and, bit_or}
use oxi_serve.Base.{
  ℕ, ◌-◌, ◌*◌, ◌/◌, ◌%◌, ◌^◌, ◌<◌, ◌≡◌, ◌≢◌, ◌⊎◌, inl, inr, refl, sym, ap, ◌∙◌, arith, true, false,
  [], ◌∷◌, ◌++◌, Option, none, some, append-nil, append_assoc, All, All-append,
}
use oxi_serve.Base.{◌==◌, Bool-cases, get_elem?}
use oxi_serve.Base.Bits.{bit_and-mask, bit_or-high, agree, agree→eq}
use oxi_serve.Base.Bytes.{Bytes, IsByte}
use oxi_serve.Base.Result.{Result, ok}
use oxi_serve.Http.Uri.{UriError, hex, between, accept}
use oxi_serve.Http.Uri.Segments.{decode}
use oxi_serve.Http.Uri.Safety.{IsName}
use oxi_serve.Http.Uri.Text.{
  hex_table, hex_char, is_safe, encode_byte, encode_path, escape_char, escape_html,
}

or_sixteen : Option ℕ → ℕ
or_sixteen none = 16
or_sixteen (some v) = v

digit_value : ℕ → ℕ
unfolding or_sixteen
digit_value d = or_sixteen (hex (hex_char (get_elem? hex_table d)))

hex-hex_char : (d : ℕ) → d < 16 → hex (hex_char (get_elem? hex_table d)) ≡ some d
unfolding agree hex hex_char digit_value or_sixteen
hex-hex_char d h =
    back (hex (hex_char (get_elem? hex_table d))) (agree→eq digit_value (λ n. n) 16 d refl h)
  where
    back : (o : Option ℕ) → or_sixteen o ≡ d → o ≡ some d
    back none q = absurd (omega arith)
    back (some v) q = ap some q

accept-IsName {ℓ} :
    {A : Type ℓ} (c : ℕ) (seg : Bytes) (k : Bytes → Result UriError A)
    → IsName c
    → accept c seg k ≡ k (seg ++ (c ∷ []))
unfolding accept
accept-IsName c seg k (s, z) =
    let ns : (c == b'/') ≡ false = ground arith in
    let nz : (c == 0) ≡ false = ground arith in rw (nz, ns) refl

decode-two :
    (a b h l : ℕ) (rest seg : Bytes)
    → hex a ≡ some h
    → hex b ≡ some l
    → decode between (b'%' ∷ a ∷ b ∷ rest) seg
      ≡ accept (bit_or (h * 16) l) seg (decode between rest)
unfolding decode
decode-two a b h l rest seg p q = rw (decode, p, q) refl

decode-encode_byte :
    (c : ℕ) (rest seg : Bytes)
    → IsByte c
    → IsName c
    → decode between (encode_byte c ++ rest) seg ≡ decode between rest (seg ++ (c ∷ []))
unfolding encode_byte decode
decode-encode_byte c rest seg byte name = elim (Bool-cases (is_safe c)) [
  | inl safe ↦
      let plain : (c == b'%') ≡ false = not_percent (Bool-cases (c == b'%')) safe in
      rw (safe, decode, plain) (accept-IsName c seg (decode between rest) name)
  | inr other ↦
      let low : bit_and c (2 ^ 4 - 1) ≡ c % 16 = bit_and-mask 4 c in
      let first = hex-hex_char (c / 16) (omega arith) in
      let second = hex-hex_char (c % 16) (omega arith) in
      let joined : bit_or (c / 16 * 16) (c % 16) ≡ c =
        bit_or-high 4 (c / 16) (c % 16) (omega arith) ∙ omega arith in
      rw (other, low)
        (decode-two (hex_char (get_elem? hex_table (c / 16)))
            (hex_char (get_elem? hex_table (c % 16))) (c / 16) (c % 16) rest seg first second
          ∙ rw joined (accept-IsName c seg (decode between rest) name))
]
  where
    not_percent :
        ((c == b'%') ≡ true) ⊎ ((c == b'%') ≡ false) → is_safe c ≡ true → (c == b'%') ≡ false
    not_percent (inr n) safe = n
    not_percent (inl e) safe =
        let q : c ≡ b'%' = ground arith in
        let p : is_safe b'%' ≡ true = rw q at safe in unfold is_safe in (cc p)

encode_path_from : (s out : Bytes) → encode_path s out ≡ out ++ encode_path s []
unfolding encode_path
encode_path_from [] out = sym (append-nil out)
encode_path_from (c ∷ s) out =
    encode_path_from s (out ++ encode_byte c)
    ∙ append_assoc out (encode_byte c) (encode_path s [])
    ∙ ap (λ t. out ++ t) (sym (encode_path_from s (encode_byte c)))

decode-encode_from :
    (s seg : Bytes)
    → All IsByte s
    → All IsName s
    → decode between (encode_path s []) seg ≡ ok (seg ++ s)
unfolding encode_path
decode-encode_from [] seg b n = unfold decode in ap ok (sym (append-nil seg))
decode-encode_from (c ∷ s) seg (b, bs) (n, ns) =
    ap (λ t. decode between t seg) (encode_path_from s (encode_byte c))
    ∙ decode-encode_byte c (encode_path s []) seg b n
    ∙ decode-encode_from s (seg ++ (c ∷ [])) bs ns
    ∙ ap ok (append_assoc seg (c ∷ []) s)

-- A segment of a path that was escaped for a link is read back by the percent-decoding of request
-- paths, whatever bytes but a slash and NUL it holds.
pub decode-encode_path :
    (s : Bytes) → All IsByte s → All IsName s → decode between (encode_path s []) [] ≡ ok s
decode-encode_path s b n = decode-encode_from s [] b n

-- A character that opens no tag and ends no attribute.
abbrev pub IsInert : ℕ → Type 0
IsInert c = (c ≢ b'<') × (c ≢ b'>') × (c ≢ b'"') × (c ≢ 39)

escape_char-IsInert : (c : ℕ) → All IsInert (escape_char c)
unfolding escape_char
escape_char-IsInert c = ground arith

-- Text escaped for HTML, behind text that is so already, holds no `<`, `>`, `"` or `'`.
pub escape_html-IsInert : (s out : Bytes) → All IsInert out → All IsInert (escape_html s out)
unfolding escape_html
escape_html-IsInert [] out a = a
escape_html-IsInert (c ∷ s) out a =
    escape_html-IsInert s (out ++ escape_char c)
      (All-append IsInert out (escape_char c) a (escape_char-IsInert c))
