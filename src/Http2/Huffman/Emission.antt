-- ===== src/Http2/Huffman/Emission.antt =====
-- src/http2/huffman.rs: the bits that `encode` writes.
use oxi_serve.Base.{
  ℕ, zero, suc, ◌+◌, ◌-◌, ◌*◌, ◌/◌, ◌%◌, ◌^◌, ◌≤◌, ◌<◌, ◌≡◌, refl, sym, ap, ◌∙◌, arith, Bool, List,
  [], ◌∷◌, ◌++◌, append-nil, append_assoc, inl, inr, All,
}
use oxi_serve.Base.{leb, ltb, Bool-cases, length, length-append}
use oxi_serve.Base.Bytes.{Bytes, IsByte}
use oxi_serve.Http2.Huffman.{entry, drain, shift_in, flush, encode_from, encode, bit_count}
use oxi_serve.Http2.Huffman.Bits.{
  bits, bits_of, bits_mod, bits_split, bits_of-append, bits-shift_in,
}
use oxi_serve.Base.Bits.{bit_and-mask}
use Prim.Native.Nat.{bit_and}
use native.Mathlib.Nat.{one-le-pow}
use oxi_serve.Http2.Huffman.Encoding.{entry-IsCode}

-- The codes of the bytes, one behind the other.
unfoldable pub code_bits : Bytes → List Bool
code_bits [] = []
code_bits (b ∷ input) = bits (entry b).1 (entry b).0 ++ code_bits input

-- The loop keeps the bits, fewer than eight of them pending at its end, and pushes the others.
record Drained (acc n : ℕ) (out : Bytes) (r : ℕ × Bytes) : Type 0 where
  pub few : r.0 < 8
  pub kept : bits_of r.1 ++ bits r.0 acc ≡ bits_of out ++ bits n acc
  pub size : 8 * length r.1 + r.0 ≡ 8 * length out + n

bits_of-push : (out : Bytes) (y : ℕ) → bits_of (out ++ (y ∷ [])) ≡ bits_of out ++ bits 8 y
bits_of-push out y =
    bits_of-append out (y ∷ []) ∙ (unfold bits_of in rw (append-nil (bits 8 y)) refl)

drain-Drained : (fuel acc n : ℕ) (out : Bytes) → n ≤ fuel → Drained acc n out (drain fuel acc n out)
unfolding drain
drain-Drained zero acc n out le = record { few = omega (arith, le); kept = refl; size = refl }
drain-Drained (suc fuel) acc n out le = elim (Bool-cases (leb 8 n)) [
  | inr few ↦ rw few (record { few = ground (arith, few); kept = refl; size = refl })
  | inl more ↦
      let y = acc / 2 ^ (n - 8) % 256 in
      let d = drain-Drained fuel acc (n - 8) (out ++ (y ∷ [])) (ground (arith, le)) in
      let eight : n ≡ 8 + (n - 8) = ground (arith, more) in
      let whole : bits n acc ≡ bits 8 y ++ bits (n - 8) acc =
        ap (λ t. bits t acc) eight
        ∙ bits_split 8 (n - 8) acc
        ∙ ap (λ t. t ++ bits (n - 8) acc) (sym (bits_mod 8 (acc / 2 ^ (n - 8)))) in
      rw more (record {
        few = d.few;
        kept =
            d.kept
            ∙ (rw (bits_of-push out y, whole)
                (append_assoc (bits_of out) (bits 8 y) (bits (n - 8) acc)));
        size = omega (arith, d.size, length-append out (y ∷ []), eight);
      })
]

-- What is written: the bits asked for, and padding of ones that fills the last byte.
pub record Written (s : List Bool) (size : ℕ) (r : Bytes) : Type 0 where
  pub pad : ℕ
  pub short : pad < 8
  pub wrote : bits_of r ≡ s ++ bits pad (2 ^ pad - 1)
  pub fills : 8 * length r ≡ size + pad

flush-Written :
    (acc n : ℕ) (out : Bytes)
    → n < 8
    → Written (bits_of out ++ bits n acc) (8 * length out + n) (flush acc n out)
unfolding flush
flush-Written acc n out few =
    let pad = 8 - n in
    let x = shift_in acc (2 ^ pad - 1, pad) in
    elim (Bool-cases (ltb 0 n)) [
      | inr empty ↦
          let z : n ≡ 0 = ground (arith, empty) in
          rw (empty, z)
            (record {
              pad = 0;
              short = omega arith;
              wrote = unfold bits in rw (append-nil (bits_of out)) (sym (append-nil (bits_of out)));
              fills = omega arith;
            })
      | inl some_left ↦
          let eight : n + pad ≡ 8 = omega (arith, few) in
          let masked : bits 8 (bit_and x 0xff) ≡ bits n acc ++ bits pad (2 ^ pad - 1) =
            ap (bits 8) (bit_and-mask 8 x)
            ∙ bits_mod 8 x
            ∙ ap (λ t. bits t x) (sym eight)
            ∙ bits-shift_in n 56 pad acc (2 ^ pad - 1) (omega (arith, eight))
                (omega (arith, one-le-pow pad 2 (omega arith))) in
          rw some_left (record {
            pad = pad;
            short = ground (arith, some_left);
            wrote =
                bits_of-push out (bit_and x 0xff)
                ∙ ap (λ t. bits_of out ++ t) masked
                ∙ sym (append_assoc (bits_of out) (bits n acc) (bits pad (2 ^ pad - 1)));
            fills = omega (arith, length-append out (bit_and x 0xff ∷ []), eight);
          })
    ]

Written-eq : (s t : List Bool) (m n : ℕ) (r : Bytes) → s ≡ t → m ≡ n → Written s m r → Written t n r
Written-eq s t m n r e f w = rw (sym e, sym f) w

encode_from-Written :
    (acc n : ℕ) (s out : Bytes)
    → n < 8
    → All IsByte s
    → Written
        (bits_of out ++ (bits n acc ++ code_bits s))
        (8 * length out + (n + bit_count s))
        (encode_from acc n s out)
unfolding encode_from code_bits bit_count
encode_from-Written acc n [] out few bytes =
    Written-eq (bits_of out ++ bits n acc) (bits_of out ++ (bits n acc ++ [])) (8 * length out + n)
      (8 * length out + (n + 0)) (flush acc n out)
      (ap (λ t. bits_of out ++ t) (sym (append-nil (bits n acc)))) (omega arith)
      (flush-Written acc n out few)
encode_from-Written acc n (b ∷ s) out few (byte, bytes) =
    let code = (entry b).0 in
    let len = (entry b).1 in
    let c = entry-IsCode b byte in
    let next = shift_in acc (entry b) in
    let r = drain (n + len) next (n + len) out in
    let d = drain-Drained (n + len) next (n + len) out (omega arith) in
    let shifted : bits (n + len) next ≡ bits n acc ++ bits len code =
      bits-shift_in n (64 - n - len) len acc code (omega (arith, few, c.short)) c.small in
    let moved : bits_of r.1 ++ (bits r.0 next ++ code_bits s)
        ≡ bits_of out ++ (bits n acc ++ (bits len code ++ code_bits s)) =
      sym (append_assoc (bits_of r.1) (bits r.0 next) (code_bits s))
      ∙ ap (λ t. t ++ code_bits s) (d.kept ∙ ap (λ t. bits_of out ++ t) shifted)
      ∙ append_assoc (bits_of out) (bits n acc ++ bits len code) (code_bits s)
      ∙ ap (λ t. bits_of out ++ t) (append_assoc (bits n acc) (bits len code) (code_bits s)) in
    Written-eq (bits_of r.1 ++ (bits r.0 next ++ code_bits s))
      (bits_of out ++ (bits n acc ++ (bits len code ++ code_bits s)))
      (8 * length r.1 + (r.0 + bit_count s)) (8 * length out + (n + (len + bit_count s)))
      (encode_from next r.0 s r.1) moved (omega (arith, d.size))
      (encode_from-Written next r.0 s r.1 d.few bytes)

pub encode-Written :
    (s out : Bytes)
    → All IsByte s
    → Written (bits_of out ++ code_bits s) (8 * length out + bit_count s) (encode s out)
unfolding encode
encode-Written s out bytes =
    Written-eq (bits_of out ++ (bits 0 0 ++ code_bits s)) (bits_of out ++ code_bits s)
      (8 * length out + (0 + bit_count s)) (8 * length out + bit_count s) (encode_from 0 0 s out)
      (unfold bits in refl) (omega arith) (encode_from-Written 0 0 s out (omega arith) bytes)
