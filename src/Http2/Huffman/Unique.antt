-- ===== src/Http2/Huffman/Unique.antt =====
-- src/http2/huffman.rs: an input that `decode` accepts, against its output.
use oxi_serve.Base.{
  ℕ, zero, suc, ◌%◌, ◌<◌, ◌≡◌, refl, sym, ap, ◌∙◌, arith, Bool, true, false, not, ◌&&◌, ◌||◌, List,
  [], ◌∷◌, ◌++◌, append-nil, append_assoc, inl, inr, All, Option, none, some,
}
use oxi_serve.Base.{
  leb, ltb, ltb→le, ◌==◌, if◌then◌else◌, Bool-cases, length, length-append, replicate,
  length-replicate,
}
use oxi_serve.Base.Bytes.{Bytes, IsByte}
use oxi_serve.Base.Opt.{◌>>=◌}
use oxi_serve.Http2.Huffman.{
  Tree, node, absent, eos, entry, Walk, from_root, arrive, advance, child, feed, tree, same_trail,
  ones_from, is_all_ones_prefix, finish, decode,
}
use oxi_serve.Http2.Huffman.Bits.{bits, bits_of, length-bits_of, bits_of_injective}
use oxi_serve.Http2.Huffman.Emission.{code_bits}
use oxi_serve.Http2.Huffman.RoundTrip.{run, feed-run}
use oxi_serve.Http2.Huffman.Canonical.{follow, follow-append, path_code, same_trail→eq}

code_bits-append : (s t : Bytes) → code_bits (s ++ t) ≡ code_bits s ++ code_bits t
unfolding code_bits
code_bits-append [] t = refl
code_bits-append (b ∷ s) t =
    rw (code_bits-append s t)
      (sym (append_assoc (bits (entry b).1 (entry b).0) (code_bits s) (code_bits t)))

-- The bits from the root, the oldest first.
path_of : List Bool → List Bool
path_of [] = []
path_of (b ∷ trail) = path_of trail ++ (b ∷ [])

-- The bits consumed are the codes of the output and the path to the node.
record Sound (w : Walk) (consumed : List Bool) : Type 0 where
  pub at : follow tree (path_of w.trail) ≡ w.at
  pub steps : length w.trail ≡ w.consumed_bits
  pub split : consumed ≡ code_bits w.out ++ path_of w.trail

-- What a push says of its two tests.
pushed :
    {A : Type 0} (a c : Bool) (x y : A)
    → (if a then none else if c then none else some x) ≡ some y
    → (a ≡ false) × (c ≡ false) × (x ≡ y)
pushed true c x y q = cc
pushed false true x y q = cc
pushed false false x y q = (refl, refl, cc)

arrive-Sound :
    (limit : ℕ) (w v : Walk) (b : Bool) (t : Tree) (consumed : List Bool)
    → Sound w consumed
    → child w.at b ≡ t
    → arrive limit w b t ≡ some v
    → Sound v (consumed ++ (b ∷ []))
unfolding arrive path_of
arrive-Sound limit w v b absent consumed x e q = cc
arrive-Sound limit w v b (node none l r) consumed x e q = rw (sym (some_inj q)) (record {
  at = follow-append tree (path_of w.trail) b ∙ ap (λ t. child t b) x.at ∙ e;
  steps = omega (arith, x.steps);
  split = rw x.split (append_assoc (code_bits w.out) (path_of w.trail) (b ∷ []));
})
  where
    some_inj : {a c : Walk} → some a ≡ some c → a ≡ c
    some_inj h = cc
arrive-Sound limit w v b (node (some symbol) l r) consumed x e q =
    let word = w.out ++ ((symbol % 256) ∷ []) in
    let (no_end, room, same) =
      pushed (symbol == eos) (leb limit (length w.out)) (from_root word) v q in
    let here : follow tree (path_of w.trail ++ (b ∷ [])) ≡ node (some symbol) l r =
      follow-append tree (path_of w.trail) b ∙ ap (λ t. child t b) x.at ∙ e in
    let (byte, code) = path_code (path_of w.trail ++ (b ∷ [])) l r symbol here no_end in
    let low : symbol % 256 ≡ symbol = omega (arith, byte) in
    rw (sym same) (record {
      at = unfold follow in refl;
      steps = refl;
      split =
          rw (x.split, low)
            (append_assoc (code_bits w.out) (path_of w.trail) (b ∷ [])
              ∙ ap (λ t. code_bits w.out ++ t) (code ∙ one_code symbol)
              ∙ sym (code_bits-append w.out (symbol ∷ []))
              ∙ sym (append-nil (code_bits (w.out ++ (symbol ∷ [])))));
    })
  where
    one_code : (b : ℕ) → bits (entry b).1 (entry b).0 ≡ code_bits (b ∷ [])
    one_code b = unfold code_bits in sym (append-nil (bits (entry b).1 (entry b).0))

bind_inv :
    {A : Type 0} (o : Option Walk) (f : Walk → Option A) (y : A)
    → o >>= f ≡ some y
    → (u : Walk) × (o ≡ some u) × (f u ≡ some y)
bind_inv none f y q = cc
bind_inv (some u) f y q = (u, refl, q)

run-Sound :
    (limit : ℕ) (more : List Bool) (w v : Walk) (consumed : List Bool)
    → Sound w consumed
    → run limit more w ≡ some v
    → Sound v (consumed ++ more)
unfolding run
run-Sound limit [] w v consumed x q = let same : w ≡ v = cc in rw (sym same, append-nil consumed) x
run-Sound limit (b ∷ more) w v consumed x q =
    let (u, step, rest) = bind_inv (advance limit w b) (run limit more) v q in
    rw (sym (append_assoc consumed (b ∷ []) more)) (
      run-Sound limit more u v (consumed ++ (b ∷ []))
        (arrive-Sound limit w u b (child w.at b) consumed x refl (unfold advance in step)) rest)

-- Bits that are all ones.
IsOnes : List Bool → Type 0
IsOnes = All (λ b. b ≡ true)

or_right : (a b : Bool) → a ≡ false → (a || b) ≡ true → b ≡ true
or_right true b e q = cc
or_right false b e q = q

ones_from-IsOnes :
    (t : Tree) (cur target : List Bool) → IsOnes cur → ones_from t cur target ≡ true → IsOnes target
unfolding ones_from IsOnes
ones_from-IsOnes absent cur target ones q = cc
ones_from-IsOnes (node s l r) cur target ones q = elim (Bool-cases (same_trail cur target)) [
  | inl same ↦ let e = same_trail→eq cur target same in rw (sym e) ones
  | inr other ↦
      ones_from-IsOnes r (true ∷ cur) target (refl, ones)
        (or_right (same_trail cur target) (ones_from r (true ∷ cur) target) other q)
]

path_of-IsOnes : (trail : List Bool) → IsOnes trail → path_of trail ≡ replicate (length trail) true
unfolding path_of IsOnes
path_of-IsOnes [] ones = refl
path_of-IsOnes (b ∷ trail) ones =
    rw (ones.0, path_of-IsOnes trail ones.1) (replicate-snoc (length trail))
  where
    replicate-snoc : (n : ℕ) → replicate n true ++ (true ∷ []) ≡ true ∷ replicate n true
    replicate-snoc zero = refl
    replicate-snoc (suc n) = ap (λ t. true ∷ t) (replicate-snoc n)

and_not : (a b : Bool) → a ≡ true → (a && not b) ≡ false → b ≡ true
and_not true true e q = refl
and_not true false e q = cc
and_not false b e q = cc

trail-IsOnes :
    (trail : List Bool) (n : ℕ)
    → length trail ≡ n
    → (ltb 0 n && not (is_all_ones_prefix trail)) ≡ false
    → IsOnes trail
unfolding is_all_ones_prefix
trail-IsOnes [] n e q = unfold IsOnes in tt
trail-IsOnes (b ∷ trail) n e q =
    let some_bits : ltb 0 n ≡ true = ground (arith, e) in
    ones_from-IsOnes tree [] (b ∷ trail) (unfold IsOnes in tt)
      (and_not (ltb 0 n) (ones_from tree [] (b ∷ trail)) some_bits q)

-- What `decode` accepts is the codes of its output and less than a byte of ones.
accepted :
    (x : Bytes) (limit : ℕ) (s : Bytes)
    → decode x limit [] ≡ some s
    → (pad : ℕ) × (pad < 8) × (bits_of x ≡ code_bits s ++ replicate pad true)
unfolding decode
accepted x limit s q =
    let (v, fed, done) = bind_inv (feed limit x (from_root [])) finish s q in
    let sound =
      run-Sound limit (bits_of x) (from_root []) v []
        (record {
          at = unfold follow path_of in refl;
          steps = refl;
          split = unfold code_bits path_of in refl;
        })
        (sym (feed-run limit x (from_root [])) ∙ fed) in
    finished v done sound
  where
    finished :
        (v : Walk)
        → finish v ≡ some s
        → Sound v (bits_of x)
        → (pad : ℕ) × (pad < 8) × (bits_of x ≡ code_bits s ++ replicate pad true)
    finished v done sound =
        let (short, padded, same) =
          pushed (ltb 7 v.consumed_bits) (ltb 0 v.consumed_bits && not (is_all_ones_prefix v.trail))
            v.out s (unfold finish in done) in
        let ones = trail-IsOnes v.trail v.consumed_bits sound.steps padded in
        (
          length v.trail,
          omega (arith, ltb→le 7 v.consumed_bits short, sound.steps),
          sound.split ∙ (rw (same, path_of-IsOnes v.trail ones) refl),
        )

-- Two inputs of bytes that `decode` accepts within one bound, and that give the same string, are the
-- same input.
pub decode_injective :
    (x y : Bytes) (limit : ℕ) (s : Bytes)
    → All IsByte x
    → All IsByte y
    → decode x limit [] ≡ some s
    → decode y limit [] ≡ some s
    → x ≡ y
decode_injective x y limit s bx b2 dx dy =
    let (p, small_p, ex) = accepted x limit s dx in
    let (q, small_q, ey) = accepted y limit s dy in
    let nx = ap length ex ∙ length-append (code_bits s) (replicate p true) in
    let ny = ap length ey ∙ length-append (code_bits s) (replicate q true) in
    let same : p ≡ q = omega (
      arith,
      nx,
      ny,
      length-bits_of x,
      length-bits_of y,
      length-replicate p true,
      length-replicate q true,
      small_p,
      small_q,
    ) in
    bits_of_injective x y bx b2 (ex ∙ ap (λ n. code_bits s ++ replicate n true) same ∙ sym ey)
