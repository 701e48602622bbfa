-- ===== src/Http2/Huffman/RoundTrip.antt =====
-- src/http2/huffman.rs: `decode` as a walk over bits, and over what `encode` writes.
use oxi_serve.Base.{
  ℕ, zero, suc, ◌+◌, ◌-◌, ◌%◌, ◌^◌, ◌≤◌, ◌<◌, ◌≡◌, refl, sym, ap, ◌∙◌, arith, Bool, false, List, [],
  ◌∷◌, ◌++◌, append-nil, append_assoc, inl, inr, All, Option, none, some,
}
use oxi_serve.Base.{leb, ◌==◌, Option-cases, length, length-append}
use oxi_serve.Base.Bytes.{Bytes, IsByte}
use oxi_serve.Base.Opt.{◌>>=◌}
use oxi_serve.Http2.Huffman.{
  Tree, node, absent, eos, entry, bit, encode, encoded_len, Walk, from_root, arrive, advance, child,
  feed_byte, feed, tree, is_all_ones_prefix, finish, decode, plant_all, plant, ones_from,
}
use oxi_serve.Http2.Huffman.Bits.{bits, bits_of, bits-suc}
use oxi_serve.Http2.Huffman.Encoding.{leads, ended, entry-IsCode}
use oxi_serve.Http2.Huffman.Emission.{code_bits, encode-Written}

unfoldable pub run : ℕ → List Bool → Walk → Option Walk
run limit [] w = some w
run limit (b ∷ bs) w = advance limit w b >>= run limit bs

pub run-append :
    (limit : ℕ) (xs ys : List Bool) (w : Walk)
    → run limit (xs ++ ys) w ≡ run limit xs w >>= run limit ys
unfolding run
run-append limit [] ys w = refl
run-append limit (x ∷ xs) ys w = elim (Option-cases (advance limit w x)) [
  | inl q ↦ rw q refl
  | inr (v, q) ↦ rw q (run-append limit xs ys v)
]

feed_byte-run : (limit byte k : ℕ) (w : Walk) → feed_byte limit byte k w ≡ run limit (bits k byte) w
unfolding feed_byte run
feed_byte-run limit byte zero w = unfold bits in refl
feed_byte-run limit byte (suc k) w =
    rw (bits-suc k byte) (elim (Option-cases (advance limit w (bit byte k))) [
      | inl q ↦ rw q refl
      | inr (v, q) ↦ rw q (feed_byte-run limit byte k v)
    ])

pub feed-run :
    (limit : ℕ) (input : Bytes) (w : Walk) → feed limit input w ≡ run limit (bits_of input) w
unfolding feed bits_of run
feed-run limit [] w = refl
feed-run limit (byte ∷ input) w =
    rw (feed_byte-run limit byte 8 w, run-append limit (bits 8 byte) (bits_of input) w)
      (elim (Option-cases (run limit (bits 8 byte) w)) [
        | inl q ↦ rw q refl
        | inr (v, q) ↦ rw q (feed-run limit input v)
      ])

-- The walk goes on from a node as the bits behind it lead.
arrive-run :
    (limit symbol : ℕ) (b : Bool) (bs : List Bool) (w : Walk) (t : Tree)
    → ended t bs (leads t bs) ≡ some symbol
    → symbol < 256
    → length w.out < limit
    → ((v : Walk)
        → leads v.at bs ≡ some symbol
        → v.out ≡ w.out
        → run limit bs v ≡ some (from_root (w.out ++ (symbol ∷ []))))
    → arrive limit w b t >>= run limit bs ≡ some (from_root (w.out ++ (symbol ∷ [])))
unfolding arrive ended
arrive-run limit symbol b bs w absent q byte room on = cc
arrive-run limit symbol b [] w (node (some found) l r) q byte room on =
    let same : found ≡ symbol = cc in
    let not_eos : (symbol == eos) ≡ false = ground (arith, byte) in
    let fits : leb limit (length w.out) ≡ false = ground (arith, room) in
    let low : symbol % 256 ≡ symbol = omega (arith, byte) in
    unfold run in rw (same, not_eos, fits, low) refl
arrive-run limit symbol b (c ∷ bs) w (node (some found) l r) q byte room on = cc
arrive-run limit symbol b bs w (node none l r) q byte room on =
    on (record w { at = node none l r; trail = b ∷ w.trail; consumed_bits = w.consumed_bits + 1 }) q
      refl

-- Bits that lead to a symbol push it, and the walk is back at the root.
leads-run :
    (limit symbol : ℕ) (bs : List Bool) (w : Walk)
    → leads w.at bs ≡ some symbol
    → symbol < 256
    → length w.out < limit
    → run limit bs w ≡ some (from_root (w.out ++ (symbol ∷ [])))
unfolding run leads advance
leads-run limit symbol [] w q byte room = cc
leads-run limit symbol (b ∷ bs) w q byte room =
    arrive-run limit symbol b bs w (child w.at b) q byte room
      (λ v led same. rw (sym same) (leads-run limit symbol bs v led byte (rw same room)))

-- Codes push their bytes.
pub codes-run :
    (limit : ℕ) (s out : Bytes)
    → All IsByte s
    → length out + length s ≤ limit
    → run limit (code_bits s) (from_root out) ≡ some (from_root (out ++ s))
unfolding code_bits
codes-run limit [] out bytes room = unfold run in rw (append-nil out) refl
codes-run limit (b ∷ s) out (byte, bytes) room =
    let one =
      leads-run limit b (bits (entry b).1 (entry b).0) (from_root out)
        (entry-IsCode b byte).leads_to byte (omega (arith, room)) in
    let rest =
      codes-run limit s (out ++ (b ∷ [])) bytes (omega (arith, room, length-append out (b ∷ []))) in
    run-append limit (bits (entry b).1 (entry b).0) (code_bits s) (from_root out)
    ∙ (rw one (rest ∙ ap (λ t. some (from_root t)) (append_assoc out (b ∷ []) s)))

-- Padding of ones, fewer than eight, pushes nothing and is accepted.
padding-accepted :
    (limit pad : ℕ) (out : Bytes)
    → pad < 8
    → run limit (bits pad (2 ^ pad - 1)) (from_root out) >>= finish ≡ some out
unfolding run finish bits advance arrive child tree plant_all plant bit is_all_ones_prefix ones_from
padding-accepted limit zero out few = refl
padding-accepted limit (suc zero) out few = refl
padding-accepted limit (suc (suc zero)) out few = refl
padding-accepted limit (suc (suc (suc zero))) out few = refl
padding-accepted limit (suc (suc (suc (suc zero)))) out few = refl
padding-accepted limit (suc (suc (suc (suc (suc zero))))) out few = refl
padding-accepted limit (suc (suc (suc (suc (suc (suc zero)))))) out few = refl
padding-accepted limit (suc (suc (suc (suc (suc (suc (suc zero))))))) out few = refl
padding-accepted limit (suc (suc (suc (suc (suc (suc (suc (suc n)))))))) out few =
    absurd (omega (arith, few))

-- What `encode` writes for a string of bytes, `decode` reads back, within a bound of its length.
pub decode-encode_string :
    (s : Bytes) (limit : ℕ)
    → All IsByte s
    → length s ≤ limit
    → (decode (encode s []) limit [] ≡ some s) × (length (encode s []) ≡ encoded_len s)
unfolding decode encoded_len code_bits bits_of
decode-encode_string s limit bytes room =
    let w = encode-Written s [] bytes in
    (
      rw (feed-run limit (encode s []) (from_root [])) (
          let e : bits_of (encode s []) ≡ code_bits s ++ bits w.pad (2 ^ w.pad - 1) = w.wrote in
          rw
            (
              e,
              run-append limit (code_bits s) (bits w.pad (2 ^ w.pad - 1)) (from_root []),
              codes-run limit s [] bytes (omega (arith, room)),
            )
            (padding-accepted limit w.pad s w.short)),
      omega (arith, w.fills, w.short),
    )
