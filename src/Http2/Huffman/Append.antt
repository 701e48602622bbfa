-- ===== src/Http2/Huffman/Append.antt =====
-- src/http2/huffman.rs: `encode` and the output it is given.
use Prim.Native.Nat.{bit_and}
use oxi_serve.Base.{
  ℕ, zero, suc, ◌+◌, ◌-◌, ◌/◌, ◌%◌, ◌^◌, ◌≡◌, refl, sym, ap, ◌∙◌, [], ◌∷◌, ◌++◌, append_assoc,
  append-nil, inl, inr,
}
use oxi_serve.Base.{leb, ltb, Bool-cases}
use oxi_serve.Base.Bytes.{Bytes}
use oxi_serve.Http2.Huffman.{entry, drain, shift_in, flush, encode_from, encode}

drain-append :
    (fuel acc n : ℕ) (a b : Bytes)
    → drain fuel acc n (a ++ b) ≡ ((drain fuel acc n b).0, a ++ (drain fuel acc n b).1)
unfolding drain
drain-append zero acc n a b = refl
drain-append (suc fuel) acc n a b =
    let y = acc / 2 ^ (n - 8) % 256 in
    elim (Bool-cases (leb 8 n)) [
      | inl more ↦
          rw (more, append_assoc a b (y ∷ [])) (drain-append fuel acc (n - 8) a (b ++ (y ∷ [])))
      | inr few ↦ rw few refl
    ]

flush-append : (acc n : ℕ) (a b : Bytes) → flush acc n (a ++ b) ≡ a ++ flush acc n b
unfolding flush
flush-append acc n a b = elim (Bool-cases (ltb 0 n)) [
  | inl left ↦
      rw left (append_assoc a b (bit_and (shift_in acc (2 ^ (8 - n) - 1, 8 - n)) 0xff ∷ []))
  | inr none_left ↦ rw none_left refl
]

encode_from-append :
    (acc n : ℕ) (s a b : Bytes) → encode_from acc n s (a ++ b) ≡ a ++ encode_from acc n s b
unfolding encode_from
encode_from-append acc n [] a b = flush-append acc n a b
encode_from-append acc n (c ∷ s) a b =
    let next = shift_in acc (entry c) in
    let bits = n + (entry c).1 in
    let d = drain bits next bits b in
    rw (drain-append bits next bits a b) (encode_from-append next d.0 s a d.1)

-- What is written goes behind what is there.
pub encode-append : (s out : Bytes) → encode s out ≡ out ++ encode s []
unfolding encode
encode-append s out =
    ap (encode_from 0 0 s) (sym (append-nil out)) ∙ encode_from-append 0 0 s out []
