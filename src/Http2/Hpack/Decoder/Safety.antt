-- ===== src/Http2/Hpack/Decoder/Safety.antt =====
-- src/http2/hpack.rs: the block decoder on any bytes, under the invariant of its table.
use oxi_serve.Base.{
  ℕ, zero, suc, ◌+◌, ◌^◌, ◌≤◌, ◌<◌, ◌≡◌, ◌≢◌, refl, ap, sym, ◌∙◌, arith, true, false, append_assoc,
  append-nil, List, [], ◌∷◌, ◌++◌, ◌-◌,
}
use oxi_serve.Base.{Bool-cases, inl, inr, length}
use oxi_serve.Base.Bytes.{Bytes}
use mathlib.Core.Path.{subst}
use oxi_serve.Base.Result.{ok, ok_inj, >>=-eq-ok, Result-cases}
use oxi_serve.Http2.Hpack.Static.{Header}
use oxi_serve.Http2.Hpack.Int.{int}
use oxi_serve.Http2.Hpack.Table.{Decoder, insert, lookup, charge, entry_size}
use oxi_serve.Http2.Hpack.Table.Bounds.{
  IsValid, total, insert-IsValid, resize-IsValid, total-append,
}
use oxi_serve.Http2.Hpack.Decoder.{Text, Progress, stuck}
use oxi_serve.Http2.Hpack.Decoder.Shorter.{field-shorter}
use oxi_serve.Http2.Hpack.Decoder.{
  literal, resize, indexed, indexing, size_update, plain, field, after, decode_loop, decode,
}

-- What the loop keeps: a valid table, and the fields `base` of the start with others behind them,
-- whose account is exact and within the limit.
pub record Sound (base : List Header) (max_list : ℕ) (s : Progress) : Type 0 where
  pub valid : IsValid s.decoder
  pub added : List Header
  pub grown : s.out ≡ base ++ added
  pub account : s.listed ≡ total added
  pub bound : s.listed ≤ max_list

charge-exact :
    (listed : ℕ) (h : Header) (max n : ℕ)
    → max < 2 ^ 64 - 1
    → charge listed h max ≡ ok n
    → (n ≡ entry_size h + listed) × (n ≤ max)
unfolding charge
charge-exact listed h max n hm e = ground arith

pushed : (out : List Header) (h : Header) → total (out ++ (h ∷ [])) ≡ entry_size h + total out
pushed out h = omega (arith, total-append out (h ∷ []))

-- A field that was charged, behind those that are there.
pushed-Sound :
    (base : List Header) (max_list : ℕ) (s : Progress) (h : Header) (n : ℕ) (d : Decoder)
    (rest : Bytes)
    → max_list < 2 ^ 64 - 1
    → Sound base max_list s
    → charge s.listed h max_list ≡ ok n
    → IsValid d
    → Sound base max_list
        (record { decoder = d; out = s.out ++ (h ∷ []); listed = n; seen_field = true; buf = rest })
pushed-Sound base max_list s h n d rest small g charged v =
    let (exact, within) = charge-exact s.listed h max_list n small charged in
    record {
      valid = v;
      added = g.added ++ (h ∷ []);
      grown = ap (λ l. l ++ (h ∷ [])) g.grown ∙ append_assoc base g.added (h ∷ []);
      account = omega (arith, exact, g.account, pushed g.added h);
      bound = within;
    }

module _ (text : Text) where
  module _ (base : List Header) (max_list : ℕ) (small : max_list < 2 ^ 64 - 1) where
    indexed-Sound :
        (s t : Progress)
        → Sound base max_list s
        → indexed text max_list s ≡ ok t
        → Sound base max_list t
    unfolding indexed
    indexed-Sound s t g e =
        let ((idx, rest), i, q) = >>=-eq-ok (int s.buf 7) _ e in
        let (h, l, r) = >>=-eq-ok (lookup s.decoder idx) _ q in
        let (n, c, u) = >>=-eq-ok (charge s.listed h max_list) _ r in
        subst (Sound base max_list) (ok_inj u)
          (pushed-Sound base max_list s h n s.decoder rest small g c g.valid)

    indexing-Sound :
        (s t : Progress)
        → Sound base max_list s
        → indexing text max_list s ≡ ok t
        → Sound base max_list t
    unfolding indexing
    indexing-Sound s t g e =
        let ((idx, rest), i, q) = >>=-eq-ok (int s.buf 6) _ e in
        let ((h, tail), l, r) = >>=-eq-ok (literal text s.decoder idx rest) _ q in
        let (n, c, u) = >>=-eq-ok (charge s.listed h max_list) _ r in
        subst (Sound base max_list) (ok_inj u) (
          pushed-Sound base max_list s h n (insert s.decoder h) tail small g c
            (insert-IsValid s.decoder h g.valid))

    plain-Sound :
        (s t : Progress)
        → Sound base max_list s
        → plain text max_list s ≡ ok t
        → Sound base max_list t
    unfolding plain
    plain-Sound s t g e =
        let ((idx, rest), i, q) = >>=-eq-ok (int s.buf 4) _ e in
        let ((h, tail), l, r) = >>=-eq-ok (literal text s.decoder idx rest) _ q in
        let (n, c, u) = >>=-eq-ok (charge s.listed h max_list) _ r in
        subst (Sound base max_list) (ok_inj u)
          (pushed-Sound base max_list s h n s.decoder tail small g c g.valid)

    size_update-Sound :
        (s t : Progress) → Sound base max_list s → size_update text s ≡ ok t → Sound base max_list t
    unfolding size_update resize
    size_update-Sound s t g e = elim (Bool-cases s.seen_field) [
      | inl late ↦ cc (rw late at e)
      | inr early ↦
          let ((n, rest), i, q) = >>=-eq-ok (int s.buf 5) _ (rw early at e) in
          ground (arith, resize-IsValid s.decoder n g.valid)
    ]

    field-Sound :
        (first : ℕ) (s t : Progress)
        → Sound base max_list s
        → field text max_list first s ≡ ok t
        → Sound base max_list t
    unfolding field
    field-Sound first s t g e = ground (
      arith,
      indexed-Sound s t g,
      indexing-Sound s t g,
      plain-Sound s t g,
      size_update-Sound s t g,
    )

    decode_loop-Sound :
        (fuel : ℕ) (buf : Bytes) (s : Progress)
        → Sound base max_list s
        → s.buf ≡ buf
        → length buf ≤ fuel
        → Sound base max_list (decode_loop text fuel max_list buf s).0
          × ((decode_loop text fuel max_list buf s).1 ≢ stuck)
    unfolding decode_loop after
    decode_loop-Sound fuel [] s g same hf = (g, λ e. cc)
    decode_loop-Sound zero (b ∷ bs) s g same hf = absurd (omega arith)
    decode_loop-Sound (suc fuel) (b ∷ bs) s g same hf =
        elim (Result-cases (field text max_list b s)) [
          | inr (x, e) ↦ rw e (g, λ q. cc)
          | inl (t, e) ↦ rw e (
              decode_loop-Sound fuel t.buf t (field-Sound b s t g e) refl
                (omega (arith, field-shorter text max_list b s t e, ap length same)))
        ]

  -- Decoding a block from a valid table, behind any list of fields, with `max_list` below 2^64 − 1,
  -- ends, by completing or by an error, on every input. Whichever way it ends, the table's account is
  -- exact and its size is within the limit that was advertised, and the list has its fields of before
  -- followed by others, whose cost, counted as name, value and 32 bytes each, is at most `max_list`.
  pub decode_safe :
      (d : Decoder) (buf : Bytes) (max_list : ℕ) (out : List Header)
      → IsValid d
      → max_list < 2 ^ 64 - 1
      → IsValid (decode text d buf max_list out).0.decoder
        × ((added : List Header) × ((decode text d buf max_list out).0.out ≡ out ++ added)
            × (total added ≤ max_list))
        × ((decode text d buf max_list out).1 ≢ stuck)
  unfolding decode
  decode_safe d buf max_list out v small =
      let start : Progress = record {
        decoder = d;
        out = out;
        listed = 0;
        seen_field = false;
        buf = buf;
      } in
      let g : Sound out max_list start = record {
        valid = v;
        added = [];
        grown = sym (append-nil out);
        account = refl;
        bound = omega arith;
      } in
      let (good, ends) =
        decode_loop-Sound out max_list small (length buf) buf start g refl (omega arith) in
      (good.valid, (good.added, good.grown, omega (arith, good.account, good.bound)), ends)
