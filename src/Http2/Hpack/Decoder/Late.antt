-- ===== src/Http2/Hpack/Decoder/Late.antt =====
-- src/http2/hpack.rs: a table size update that comes after a field.
use oxi_serve.Base.{ℕ, zero, suc, ◌≤◌, ◌<◌, ◌≡◌, refl, sym, ap, ◌⊎◌, arith, true, false, List, ◌∷◌}
use mathlib.Core.Path.{subst}
use oxi_serve.Base.{length}
use oxi_serve.Base.Bytes.{Bytes, IsByte}
use oxi_serve.Base.Bits.{bit_and-top, bit_and-bit6, bit_and-bit5}
use oxi_serve.Base.Result.{ok, err, ok_inj, >>=-eq-ok}
use oxi_serve.Http2.Hpack.Static.{Header}
use oxi_serve.Http2.Hpack.Int.{HpackError, compression, int}
use oxi_serve.Http2.Hpack.Table.{Decoder, lookup, charge}
use oxi_serve.Http2.Hpack.Decoder.{Text, Progress, failed}
use oxi_serve.Http2.Hpack.Decoder.{
  literal, indexed, indexing, size_update, plain, field, after, decode_loop, decode,
}
use oxi_serve.Http2.Hpack.Decoder.Shorter.{field-shorter}

-- The first byte of a table size update.
abbrev pub IsUpdate : ℕ → Type 0
IsUpdate b = (0x20 ≤ b) × (b < 0x40)

-- The first byte of a field, indexed or literal.
abbrev pub IsField : ℕ → Type 0
IsField b = IsByte b × ((b < 0x20) ⊎ (0x40 ≤ b))

-- A decoder at the start of a block.
abbrev pub at_start : Decoder → List Header → Bytes → Progress
at_start d out buf = record { decoder = d; out = out; listed = 0; seen_field = false; buf = buf }

module _ (text : Text) (max_list : ℕ) where
  -- One turn of the loop: it takes the item that begins with the byte `b`.
  pub record Turn (b : ℕ) (s t : Progress) : Type 0 where
    pub more : Bytes
    pub begins : s.buf ≡ b ∷ more
    pub taken : field text max_list b s ≡ ok t

  -- Any number of turns.
  pub data Turns : Progress → Progress → Type 0 where
    none_left : {s : Progress} → Turns s s
    turn : {s t u : Progress} (b : ℕ) → Turn b s t → Turns t u → Turns s u

  -- A field that is decoded is seen: the three forms of a field.
  indexed-seen : (s t : Progress) → indexed text max_list s ≡ ok t → t.seen_field ≡ true
  unfolding indexed
  indexed-seen s t e =
      let ((idx, rest), i, q) = >>=-eq-ok (int s.buf 7) _ e in
      let (h, l, r) = >>=-eq-ok (lookup s.decoder idx) _ q in
      let (n, c, u) = >>=-eq-ok (charge s.listed h max_list) _ r in
      sym (ap (λ p. p.seen_field) (ok_inj u))

  indexing-seen : (s t : Progress) → indexing text max_list s ≡ ok t → t.seen_field ≡ true
  unfolding indexing
  indexing-seen s t e =
      let ((idx, rest), i, q) = >>=-eq-ok (int s.buf 6) _ e in
      let ((h, tail), l, r) = >>=-eq-ok (literal text s.decoder idx rest) _ q in
      let (n, c, u) = >>=-eq-ok (charge s.listed h max_list) _ r in
      sym (ap (λ p. p.seen_field) (ok_inj u))

  plain-seen : (s t : Progress) → plain text max_list s ≡ ok t → t.seen_field ≡ true
  unfolding plain
  plain-seen s t e =
      let ((idx, rest), i, q) = >>=-eq-ok (int s.buf 4) _ e in
      let ((h, tail), l, r) = >>=-eq-ok (literal text s.decoder idx rest) _ q in
      let (n, c, u) = >>=-eq-ok (charge s.listed h max_list) _ r in
      sym (ap (λ p. p.seen_field) (ok_inj u))

  field-seen :
      (b : ℕ) (s t : Progress) → IsField b → field text max_list b s ≡ ok t → t.seen_field ≡ true
  unfolding field
  field-seen b s t (byte, kind) e = ground (
    arith,
    bit_and-top b byte,
    bit_and-bit6 b byte,
    bit_and-bit5 b byte,
    indexed-seen s t,
    indexing-seen s t,
    plain-seen s t,
  )

  -- Behind one, a size update is an error,
  late_update : (s : Progress) → s.seen_field ≡ true → size_update text s ≡ err compression
  unfolding size_update
  late_update s seen = rw seen refl

  -- and every item that is decoded is a field.
  field-stays :
      (b : ℕ) (s t : Progress)
      → s.seen_field ≡ true
      → field text max_list b s ≡ ok t
      → t.seen_field ≡ true
  unfolding field
  field-stays b s t seen e =
      ground (arith, late_update s seen, indexed-seen s t, indexing-seen s t, plain-seen s t)

  Turns-seen : {s u : Progress} → Turns s u → s.seen_field ≡ true → u.seen_field ≡ true
  Turns-seen none_left seen = seen
  Turns-seen (turn {s} {t} b i r) seen = Turns-seen r (field-stays b s t seen i.taken)

  field-late :
      (b : ℕ) (s : Progress)
      → IsUpdate b
      → s.seen_field ≡ true
      → field text max_list b s ≡ err compression
  unfolding field
  field-late b s (lo, hi) seen =
      ground (arith, late_update s seen, bit_and-top b, bit_and-bit6 b, bit_and-bit5 b)

  -- The loop takes the turns, and where the item behind them fails it ends.
  decode_loop-Turns :
      (fuel b : ℕ) (more : Bytes) (e : HpackError) {s u : Progress}
      → Turns s u
      → length s.buf ≤ fuel
      → u.buf ≡ b ∷ more
      → field text max_list b u ≡ err e
      → decode_loop text fuel max_list s.buf s ≡ (u, failed e)
  unfolding decode_loop after
  decode_loop-Turns zero b more e {s} none_left enough begins fails =
      absurd (omega (arith, ap length begins))
  decode_loop-Turns (suc fuel) b more e {s} none_left enough begins fails =
      subst (λ l. decode_loop text (suc fuel) max_list l s ≡ (s, failed e)) (sym begins)
        (rw fails refl)
  decode_loop-Turns zero b more e (turn {s} {t} c i r) enough begins fails =
      absurd (omega (arith, ap length i.begins))
  decode_loop-Turns (suc fuel) b more e (turn {s} {t} {u} c i r) enough begins fails =
      let rest : decode_loop text fuel max_list t.buf t ≡ (u, failed e) =
        decode_loop-Turns fuel b more e r (omega (arith, field-shorter text max_list c s t i.taken))
          begins fails in
      subst (λ l. decode_loop text (suc fuel) max_list l s ≡ (u, failed e)) (sym i.begins)
        (rw i.taken rest)

  Turns-join : {s t u : Progress} → Turns s t → Turns t u → Turns s u
  Turns-join none_left r = r
  Turns-join (turn b i l) r = turn b i (Turns-join l r)

  -- A block of which `decode` takes any number of items, then a field, then any number of items, and
  -- whose next byte is that of a table size update: the block is a compression error, whatever
  -- size the update asks for, and decoder and list stay as the item before it left them.
  pub late_size_update :
      (d : Decoder) (out : List Header) (buf more : Bytes) (c b : ℕ) {s t u : Progress}
      → Turns (at_start d out buf) s
      → IsField c
      → Turn c s t
      → Turns t u
      → u.buf ≡ b ∷ more
      → IsUpdate b
      → decode text d buf max_list out ≡ (u, failed compression)
  unfolding decode
  late_size_update d out buf more c b {s} {t} {u} before kind i later begins update =
      let seen = Turns-seen later (field-seen c s t kind i.taken) in
      decode_loop-Turns (length buf) b more compression (Turns-join before (turn c i later))
        (omega arith) begins (field-late b u update seen)
