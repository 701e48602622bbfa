-- ===== src/Http2/Hpack/Int/RoundTrip.antt =====
-- src/http2/hpack.rs: integers written and read.
use Prim.Native.Nat.{bit_and, bit_or}
use mathlib.Core.WellFounded.{Acc}
use mathlib.Core.Logic.{dif_pos, dif_neg}
use native.Mathlib.Decide.{dec_lt}
use native.Mathlib.Nat.{one-le-pow, div-add-mod, pow-le-pow_right}
use native.Mathlib.Numerals.{towards_suc}
use oxi_serve.Base.{
  ℕ, ◌+◌, ◌-◌, ◌*◌, ◌/◌, ◌%◌, ◌^◌, ◌≤◌, ◌<◌, ◌≡◌, refl, ap, ◌∙◌, arith, [], ◌∷◌, ◌++◌, append_assoc,
}
use native.Mathlib.Bridge.{le_prop}
use oxi_serve.Base.{ltb, ltb→lt, ltb→le, le→ltb, Bool-cases, inl, inr, false}
use oxi_serve.Base.Bytes.{Bytes}
use oxi_serve.Base.Bits.{bit_and-mask, bit_and-low, bit_and-top, bit_or-disjoint, bit_or-high}
use oxi_serve.Base.Order.{lt_wf}
use oxi_serve.Base.Result.{ok}
use oxi_serve.Http2.Hpack.Int.{int, int_loop, write_int, write_loop, shrinks}

shift_seven : (s : ℕ) → 2 ^ (s + 7) ≡ 128 * 2 ^ s
shift_seven s = simp towards_suc (omega arith)

-- One round of `int_loop`, on a byte with the top bit set over the group `g`, and on a last byte.
inner_byte :
    (g acc shift : ℕ) (rest : Bytes)
    → g < 128
    → shift < 63
    → acc + g * 2 ^ shift < 2 ^ 64
    → int_loop ((g + 128) ∷ rest) acc shift ≡ int_loop rest (acc + g * 2 ^ shift) (shift + 7)
unfolding int_loop
inner_byte g acc shift rest hg hs fits =
    ground (arith, bit_and-mask 7 (g + 128), bit_and-top (g + 128))

last_byte :
    (g acc shift : ℕ) (rest : Bytes)
    → g < 128
    → shift < 63
    → acc + g * 2 ^ shift < 2 ^ 64
    → int_loop (g ∷ rest) acc shift ≡ ok (acc + g * 2 ^ shift, rest)
unfolding int_loop
last_byte g acc shift rest hg hs fits = ground (arith, bit_and-mask 7 g, bit_and-top g)

-- The lowest group of `v` and the others, all shifted by `s`.
split_low : (v s : ℕ) → v * 2 ^ s ≡ v % 128 * 2 ^ s + v / 128 * 2 ^ (s + 7)
split_low v s = omega (
  arith,
  ap (λ (t : ℕ). t * 2 ^ s) (div-add-mod v 128),
  ap (λ (t : ℕ). v / 128 * t) (shift_seven s),
)

mul_mono : (a b c : ℕ) → a ≤ b → a * c ≤ b * c
mul_mono a b c h = grind arith

shift_room : (v s : ℕ) → 127 < v → v * 2 ^ s < 2 ^ 63 → s + 7 < 63
shift_room v s big h = elim (dec_lt (s + 7) 63) [
  | yes below ↦ below
  | no above ↦
      let far : 2 ^ 63 ≤ 2 ^ (s + 7) =
        pow-le-pow_right (omega arith) {i = 63} {j = s + 7} (omega arith) in
      let one : 128 * 2 ^ s ≤ v * 2 ^ s = mul_mono 128 v (2 ^ s) big in
      absurd (omega (arith, shift_seven s))
]

inner_group : (v : ℕ) → bit_or (bit_and v 0x7f) 0x80 ≡ v % 128 + 128
inner_group v = omega (arith, bit_and-mask 7 v, bit_or-disjoint 7 (bit_and v 0x7f) 1)

-- The bytes that the writing loop appends, and that the reading loop takes them for `v`.
loop_back :
    (v : ℕ) (w : Acc ◌<◌ v) (out : Bytes)
    → (bs : Bytes) × (write_loop v w out ≡ out ++ bs)
      × ((rest : Bytes) (acc shift : ℕ)
          → shift < 63
          → v * 2 ^ shift < 2 ^ 63
          → acc + v * 2 ^ shift < 2 ^ 64
          → int_loop (bs ++ rest) acc shift ≡ ok (acc + v * 2 ^ shift, rest))
unfolding write_loop
loop_back v (Acc.intro _ smaller) out = elim (dec_lt 127 v) [
  | yes big ↦
      let byte = bit_or (bit_and v 0x7f) 0x80 in
      let (bs, e, back) =
        loop_back (v / 128) (smaller (v / 128) (shrinks v big)) (out ++ (byte ∷ [])) in
      (
        (v % 128 + 128) ∷ bs,
        rw (dif_pos _ le_prop big) (e ∙ rw (inner_group v, append_assoc) refl),
        λ rest acc shift hs hv ha.
            inner_byte (v % 128) acc shift (bs ++ rest) (omega arith) hs
              (omega (arith, split_low v shift))
            ∙ back rest (acc + v % 128 * 2 ^ shift) (shift + 7) (shift_room v shift big hv)
                (omega (arith, split_low v shift)) (omega (arith, split_low v shift))
            ∙ ap (λ t. ok (t, rest)) (omega (arith, split_low v shift)),
      )
  | no small ↦ (
    v ∷ [],
    rw (dif_neg _ small) (ap (λ t. out ++ (t ∷ [])) (omega arith)),
    λ rest acc shift hs hv ha. last_byte v acc shift rest (omega arith) hs ha,
  )
]

-- What the flags and a number of `p` bits leave under the mask.
first_byte :
    (p flags r : ℕ) → p < 9 → r < 2 ^ p → bit_and (bit_or (flags * 2 ^ p) (r % 256)) (2 ^ p - 1) ≡ r
first_byte p flags r hp hr =
    let top : 2 ^ p ≤ 2 ^ 8 = pow-le-pow_right (omega arith) {i = p} {j = 8} (omega arith) in
    let small : r % 256 ≡ r = omega arith in
    rw (small, bit_or-high p flags r hr, bit_and-low p flags r hr) refl

-- An integer below 2^63 that `write_int` wrote, with any flags above the prefix, is read back with
-- what follows it, for a prefix of 1 to 8 bits.
pub int-write_int :
    (v p flags : ℕ) (rest : Bytes)
    → v < 2 ^ 63
    → 0 < p
    → p < 9
    → int (write_int v p (flags * 2 ^ p) [] ++ rest) p ≡ ok (v, rest)
unfolding int write_int
int-write_int v p flags rest hv h0 hp =
    let mask = 2 ^ p - 1 in
    let pos = one-le-pow p 2 (omega arith) in
    elim (Bool-cases (ltb v mask)) [
      | inl short ↦
          let e = first_byte p flags v hp (omega (arith, ltb→lt v mask short, pos)) in
          rw (short, e, short) refl
      | inr long ↦
          let e = first_byte p flags mask hp (omega (arith, pos)) in
          let ge = ltb→le v mask long in
          let more =
            loop_back (v - mask) (lt_wf.apply (v - mask))
              (bit_or (flags * 2 ^ p) (mask % 256) ∷ []) in
          let self : ltb mask mask ≡ false = le→ltb mask mask (omega arith) in
          rw (long, more.1, e, self)
            (more.2 rest mask 0 (omega arith) (omega arith) (omega arith)
              ∙ ap (λ t. ok (t, rest)) (omega arith))
    ]

-- The first byte that `write_int` writes for a prefix of seven bits carries the flag above them.
pub write_int_head :
    (v flag : ℕ)
    → flag < 2
    → (b : ℕ) × (bs : Bytes) × (write_int v 7 (flag * 2 ^ 7) [] ≡ b ∷ bs)
      × (bit_and b 0x80 ≡ flag * 2 ^ 7)
unfolding write_int
write_int_head v flag few = elim (Bool-cases (ltb v 127)) [
  | inl short ↦ (
    bit_or (flag * 2 ^ 7) (v % 256),
    [],
    rw short refl,
    flagged (v % 256) flag (omega (arith, ltb→lt v 127 short)) few,
  )
  | inr long ↦
      let (bs, e, back) =
        loop_back (v - 127) (lt_wf.apply (v - 127)) (bit_or (flag * 2 ^ 7) (127 % 256) ∷ []) in
      (bit_or (flag * 2 ^ 7) (127 % 256), bs, rw long e, flagged (127 % 256) flag (omega arith) few)
]
  where
    flagged :
        (r flag : ℕ) → r < 2 ^ 7 → flag < 2 → bit_and (bit_or (flag * 2 ^ 7) r) 0x80 ≡ flag * 2 ^ 7
    flagged r flag small few =
        let joined = bit_or-high 7 flag r small in
        rw joined (bit_and-top (flag * 2 ^ 7 + r) (omega arith) ∙ omega arith)
