-- ===== src/Http2/Frame/Laws.antt =====
-- src/http2/frame.rs: laws of frame headers and of padding.
use oxi_serve.Base.{ℕ, ◌-◌, ◌/◌, ◌%◌, ◌^◌, ◌<◌, ◌≡◌, ◌↔◌, refl, arith, true, [], ◌∷◌, ◌++◌}
use oxi_serve.Base.{
  some, ltb, ltb→le, length, take, drop, All, Bool-cases, inl, inr, take-append-drop,
  take-length-append, length-append, length-drop,
}
use oxi_serve.Base.Bytes.{Bytes, IsByte, u32_be, from_be32}
use oxi_serve.Base.Bits.{bit_and-mask}
use oxi_serve.Http2.Frame.{Head, HeaderBytes, parse, write, unpad, u32_at}

-- The nine bytes as a list.
abbrev pub to_list : HeaderBytes → Bytes
to_list (a, b, c, d, e, f, g, h, i) = a ∷ b ∷ c ∷ d ∷ e ∷ f ∷ g ∷ h ∷ i ∷ []

abbrev pub IsByteHeader : HeaderBytes → Type 0
IsByteHeader b = All IsByte (to_list b)

pub record IsValid (h : Head) : Type 0 where
  pub len : h.len < 2 ^ 24
  pub kind : h.kind < 256
  pub flags : h.flags < 256
  pub stream : h.stream < 2 ^ 31

-- The bytes that `write` appends.
abbrev header_bytes : Head → HeaderBytes
header_bytes h = (
  h.len / 2 ^ 16 % 256,
  h.len / 256 % 256,
  h.len % 256,
  h.kind,
  h.flags,
  h.stream / 2 ^ 24 % 256,
  h.stream / 2 ^ 16 % 256,
  h.stream / 256 % 256,
  h.stream % 256,
)

parse-header_bytes : (h : Head) → IsValid h → parse (header_bytes h) ≡ h
unfolding parse
parse-header_bytes h v = ground (
  arith,
  bit_and-mask 31 (
      from_be32 (h.stream / 2 ^ 24 % 256) (h.stream / 2 ^ 16 % 256) (h.stream / 256 % 256)
        (h.stream % 256)),
)

-- `write` appends nine bytes to what was there, and `parse` reads the same header back from them.
pub parse-write :
    (h : Head) (out : Bytes)
    → IsValid h
    → (b : HeaderBytes) × (write h out ≡ out ++ to_list b) × IsByteHeader b × (parse b ≡ h)
unfolding write
parse-write h out v = (header_bytes h, refl, omega arith, parse-header_bytes h v)

-- The other way round, every header is written back as the bytes it was read from, but for the
-- reserved bit of the stream id, which is cleared.
pub write-parse :
    (a b c k f s0 s1 s2 s3 : ℕ)
    → IsByteHeader (a, b, c, k, f, s0, s1, s2, s3)
    → write (parse (a, b, c, k, f, s0, s1, s2, s3)) []
      ≡ to_list (a, b, c, k, f, s0 % 128, s1, s2, s3)
unfolding write parse
write-parse a b c k f s0 s1 s2 s3 h = ground (arith, bit_and-mask 31 (from_be32 s0 s1 s2 s3))

unpad_there :
    (payload body : Bytes)
    → unpad payload true ≡ some body
    → (pad : Bytes) × (payload ≡ length pad ∷ (body ++ pad))
unfolding unpad
unpad_there [] body e = cc
unpad_there (n ∷ rest) body e = elim (Bool-cases (ltb (length rest) n)) [
  | inl short ↦ absurd (ground arith)
  | inr long ↦
      let k = length rest - n in
      let pad = drop k rest in
      let len : length pad ≡ n = omega (arith, length-drop k rest, ltb→le (length rest) n long) in
      let cut : take k rest ≡ body = ground arith in
      (pad, rw (len, ← cut, take-append-drop k rest) refl)
]

unpad_back : (body pad : Bytes) → unpad (length pad ∷ (body ++ pad)) true ≡ some body
unfolding unpad
unpad_back body pad =
    let total = length-append body pad in
    let rest : length (body ++ pad) - length pad ≡ length body = omega (arith, total) in
    rw (rest, take-length-append body pad) (ground (arith, total))

-- Stripping succeeds with `body` exactly if the payload is a length byte, `body`, and as many
-- bytes of padding as the length byte says.
pub unpad_iff :
    (payload body : Bytes)
    → (unpad payload true ≡ some body) ↔ ((pad : Bytes) × (payload ≡ length pad ∷ (body ++ pad)))
unpad_iff payload body = (unpad_there payload body, λ (pad, e). rw e (unpad_back body pad))

-- A 32-bit number is read back at the front of whatever follows it.
pub u32_at-u32_be : (v : ℕ) (rest : Bytes) → v < 2 ^ 32 → u32_at (u32_be v ++ rest) 0 ≡ some v
unfolding u32_at
u32_at-u32_be v rest h = ground arith
