-- ===== src/Http3/Settings/Laws.antt =====
-- src/http3/frame.rs: lemmas on reading a SETTINGS payload.
use oxi_serve.Base.{ℕ, zero, suc, ◌≤◌, ◌<◌, ◌≡◌, ◌≢◌, refl, ◌∙◌, arith, [], ◌∷◌, ◌++◌}
use oxi_serve.Base.{
  none, some, length, drop, All, Option-cases, inl, inr, if◌then◌else◌, length-drop,
}
use oxi_serve.Base.Bytes.{Bytes, IsByte}
use oxi_serve.Base.Result.{err}
use oxi_serve.Http3.Varint.{varint_max, put_varint, get_varint}
use oxi_serve.Http3.Varint.RoundTrip.{
  get_varint-put_varint, length-put_varint, varint_len_bounds, get_varint_bounds,
}
use oxi_serve.Http3.Frame.Laws.{drop-put_varint}
use oxi_serve.Http3.Settings.{
  Settings, default, decode, decode_loop, decode_pair, Outcome, assign, is_reserved, settings_error,
}

All-drop : (n : ℕ) (xs : Bytes) → All IsByte xs → All IsByte (drop n xs)
All-drop zero xs h = h
All-drop (suc n) [] h = tt
All-drop (suc n) (x ∷ xs) h = All-drop n xs h.1

-- A round on any bytes stops, or goes on with fewer bytes.
decode_pair-next :
    (next other : Bytes → Settings → Outcome) (buf : Bytes) (s : Settings)
    → ((rest : Bytes) (t : Settings)
        → All IsByte rest
        → length rest < length buf
        → next rest t ≡ other rest t)
    → All IsByte buf
    → decode_pair buf s next ≡ decode_pair buf s other
unfolding decode_pair
decode_pair-next next other buf s same hb = elim (Option-cases (get_varint buf)) [
  | inl e ↦ rw e
  | inr ((id, n), e) ↦ rw e (elim (Option-cases (get_varint (drop n buf))) [
    | inl q ↦ rw q
    | inr ((v, m), q) ↦ rw q (
        ground (
          arith,
          get_varint_bounds buf id n hb e,
          get_varint_bounds (drop n buf) v m,
          length-drop n buf,
          length-drop m (drop n buf),
          same (drop m (drop n buf)) (assign id v s) (All-drop m (drop n buf) (All-drop n buf hb)),
        ))
  ])
]

pub decode_loop-enough :
    (f g : ℕ) (buf : Bytes) (s : Settings)
    → All IsByte buf
    → length buf ≤ f
    → length buf ≤ g
    → decode_loop f buf s ≡ decode_loop g buf s
unfolding decode_loop
decode_loop-enough f g [] s hb hf hg = refl
decode_loop-enough zero g (b ∷ bs) s hb hf hg = absurd (omega arith)
decode_loop-enough (suc f) zero (b ∷ bs) s hb hf hg = absurd (omega arith)
decode_loop-enough (suc f) (suc g) (b ∷ bs) s hb hf hg =
    decode_pair-next (decode_loop f) (decode_loop g) (b ∷ bs) s
      (λ rest t hr lt. decode_loop-enough f g rest t hr (omega arith) (omega arith)) hb

-- A round whose continuation answers, answers.
decode_pair-ne-none :
    (next : Bytes → Settings → Outcome) (buf : Bytes) (s : Settings)
    → ((rest : Bytes) (t : Settings)
        → All IsByte rest
        → length rest < length buf
        → next rest t ≢ none)
    → All IsByte buf
    → decode_pair buf s next ≢ none
unfolding decode_pair
decode_pair-ne-none next buf s answers hb = elim (Option-cases (get_varint buf)) [
  | inl e ↦ rw e (λ q. cc)
  | inr ((id, n), e) ↦ rw e (elim (Option-cases (get_varint (drop n buf))) [
    | inl q ↦ rw q (λ r. cc)
    | inr ((v, m), q) ↦ rw q (
        ground (
          arith,
          get_varint_bounds buf id n hb e,
          get_varint_bounds (drop n buf) v m,
          length-drop n buf,
          length-drop m (drop n buf),
          answers (drop m (drop n buf)) (assign id v s)
              (All-drop m (drop n buf) (All-drop n buf hb)),
        ))
  ])
]

decode_loop-ne-none :
    (f : ℕ) (buf : Bytes) (s : Settings)
    → All IsByte buf
    → length buf ≤ f
    → decode_loop f buf s ≢ none
unfolding decode_loop
decode_loop-ne-none f [] s hb hf = λ e. cc
decode_loop-ne-none zero (b ∷ bs) s hb hf = absurd (omega arith)
decode_loop-ne-none (suc f) (b ∷ bs) s hb hf =
    decode_pair-ne-none (decode_loop f) (b ∷ bs) s
      (λ rest t hr lt. decode_loop-ne-none f rest t hr (omega arith)) hb

-- Reading ends on every payload, with settings or with an error.
pub decode-ne-none : (buf : Bytes) → All IsByte buf → decode buf ≢ none
unfolding decode
decode-ne-none buf hb = decode_loop-ne-none (length buf) buf default hb (omega arith)

-- One pair of varints in front of any bytes.
decode_pair-put :
    (next : Bytes → Settings → Outcome) (id v : ℕ) (rest : Bytes) (s : Settings)
    → id ≤ varint_max
    → v ≤ varint_max
    → decode_pair (put_varint id [] ++ (put_varint v [] ++ rest)) s next
      ≡ (if is_reserved id then some (err settings_error) else next rest (assign id v s))
unfolding decode_pair
decode_pair-put next id v rest s hi hv =
    rw
      (
        get_varint-put_varint id (put_varint v [] ++ rest) hi,
        drop-put_varint id (put_varint v [] ++ rest),
        get_varint-put_varint v rest hv,
        drop-put_varint v rest,
      )
      refl

pub decode_loop-put :
    (f : ℕ) (id v : ℕ) (rest : Bytes) (s : Settings)
    → id ≤ varint_max
    → v ≤ varint_max
    → decode_loop (suc f) (put_varint id [] ++ (put_varint v [] ++ rest)) s
      ≡ (if is_reserved id then some (err settings_error) else decode_loop f rest (assign id v s))
decode_loop-put f id v rest s hi hv =
    decode_loop-suc (put_varint id []) (omega (arith, length-put_varint id, varint_len_bounds id))
    ∙ decode_pair-put (decode_loop f) id v rest s hi hv
  where
    decode_loop-suc :
        (xs : Bytes)
        → 0 < length xs
        → decode_loop (suc f) (xs ++ (put_varint v [] ++ rest)) s
          ≡ decode_pair (xs ++ (put_varint v [] ++ rest)) s (decode_loop f)
    decode_loop-suc [] h = absurd (omega arith)
    decode_loop-suc (x ∷ xs) h = unfold decode_loop in refl
