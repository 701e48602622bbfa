-- ===== src/Http/Uri/Safety.antt =====
-- src/http/uri.rs: what a normalised path can hold.
use oxi_serve.Base.{
  ℕ, ◌*◌, ◌≡◌, ◌≢◌, inl, inr, refl, sym, ◌∙◌, arith, Bool, true, false, ◌||◌, List, [], ◌∷◌, ◌++◌,
  some, All, All-append,
}
use oxi_serve.Base.{◌==◌, Bool-cases, Option-cases, drop}
use Prim.Native.Nat.{bit_or}
use mathlib.Core.Path.{subst}
use oxi_serve.Base.Bytes.{Bytes, codes, same_bytes}
use oxi_serve.Base.Same.{same_bytes-false}
use oxi_serve.Base.Result.{Result, ok, err, ◌>>=◌, >>=-eq-ok}
use oxi_serve.Http.Uri.{
  UriError, invalid, not_absolute, hex, Mode, between, after_percent, after_digit, accept, trim,
  trailing_slash, starts_with_slash, normalize, from_utf8,
}
use oxi_serve.Http.Uri.Segments.{
  split, decode, climb_stack, resolve, resolve_all, unsplit, normalize_spec,
}
use oxi_serve.Http.Uri.Fast.{normalize_lem}

-- Neither a separator nor the end of a C string.
abbrev pub IsName : ℕ → Type 0
IsName c = (c ≢ b'/') × (c ≢ 0)

-- A segment that names an entry of the directory before it.
abbrev pub IsSafe : Bytes → Type 0
IsSafe s = (s ≢ []) × (s ≢ codes ".") × (s ≢ codes "..") × All IsName s

accept-ok {ℓ} :
    {A : Type ℓ} (c : ℕ) (seg : Bytes) (k : Bytes → Result UriError A) (a : A)
    → accept c seg k ≡ ok a
    → IsName c × (k (seg ++ (c ∷ [])) ≡ ok a)
unfolding accept
accept-ok c seg k a q = elim (Bool-cases (c == 0 || c == b'/')) [
  | inl refused ↦ (let p : err invalid ≡ ok a = rw refused at q in absurd (cc p))
  | inr fine ↦ ((ground arith, ground arith), (rw fine at q))
]

decode-IsName :
    (m : Mode) (raw seg s : Bytes) → decode m raw seg ≡ ok s → All IsName seg → All IsName s
unfolding decode
decode-IsName between [] seg s q a = subst (All IsName) (let e : seg ≡ s = cc in e) a
decode-IsName after_percent [] seg s q a = cc
decode-IsName (after_digit h) [] seg s q a = cc
decode-IsName between (c ∷ raw) seg s q a = elim (Bool-cases (c == b'%')) [
  | inl percent ↦ decode-IsName after_percent raw seg s (rw (percent, decode) at q) a
  | inr plain ↦
      let (name, more) = accept-ok c seg (decode between raw) s (rw (plain, decode) at q) in
      decode-IsName between raw (seg ++ (c ∷ [])) s more
        (All-append IsName seg (c ∷ []) a (name, tt))
]
decode-IsName after_percent (c ∷ raw) seg s q a = elim (Option-cases (hex c)) [
  | inl bad ↦ (let p : err invalid ≡ ok s = rw (bad, decode) at q in cc)
  | inr (h, digit) ↦ decode-IsName (after_digit h) raw seg s (rw (digit, decode) at q) a
]
decode-IsName (after_digit h) (c ∷ raw) seg s q a = elim (Option-cases (hex c)) [
  | inl bad ↦ (let p : err invalid ≡ ok s = rw (bad, decode) at q in cc)
  | inr (l, digit) ↦
      let b = bit_or (h * 16) l in
      let (name, more) = accept-ok b seg (decode between raw) s (rw (digit, decode) at q) in
      decode-IsName between raw (seg ++ (b ∷ [])) s more
        (All-append IsName seg (b ∷ []) a (name, tt))
]

climb_stack-IsSafe :
    (stack s : List Bytes) → climb_stack stack ≡ ok s → All IsSafe stack → All IsSafe s
unfolding climb_stack
climb_stack-IsSafe [] s q a = absurd (cc q)
climb_stack-IsSafe (x ∷ stack) s q a = subst (All IsSafe) (let e : stack ≡ s = cc in e) a.1

or-false : (a b : Bool) → (a || b) ≡ false → (a ≡ false) × (b ≡ false)
or-false true b q = absurd (cc q)
or-false false b q = (refl, q)

resolve-IsSafe :
    (stack s : List Bytes) (seg : Bytes)
    → resolve stack seg ≡ ok s
    → All IsName seg
    → All IsSafe stack
    → All IsSafe s
unfolding resolve
resolve-IsSafe stack s seg q n a =
    elim (Bool-cases (same_bytes seg [] || same_bytes seg (codes "."))) [
      | inl skip ↦
          let p : ok stack ≡ ok s = rw skip at q in
          subst (All IsSafe) (let e : stack ≡ s = cc in e) a
      | inr named ↦ elim (Bool-cases (same_bytes seg (codes ".."))) [
        | inl up ↦ climb_stack-IsSafe stack s (rw (named, up) at q) a
        | inr down ↦
            let p : ok (seg ∷ stack) ≡ ok s = rw (named, down) at q in
            let (some_bytes, no_dot) =
              or-false (same_bytes seg []) (same_bytes seg (codes ".")) named in
            let safe : IsSafe seg = (
              same_bytes-false seg [] some_bytes,
              same_bytes-false seg (codes ".") no_dot,
              same_bytes-false seg (codes "..") down,
              n,
            ) in
            subst (All IsSafe) (let e : seg ∷ stack ≡ s = cc in e) (safe, a)
      ]
    ]

resolve_all-IsSafe :
    (parts stack s : List Bytes) → resolve_all stack parts ≡ ok s → All IsSafe stack → All IsSafe s
unfolding resolve_all
resolve_all-IsSafe [] stack s q a = subst (All IsSafe) (let e : stack ≡ s = cc in e) a
resolve_all-IsSafe (part ∷ parts) stack s q a =
    let (seg, named, q1) = >>=-eq-ok (decode between part []) _ q in
    let (up, placed, q2) = >>=-eq-ok (resolve stack seg) _ q1 in
    resolve_all-IsSafe parts up s q2
      (resolve-IsSafe stack up seg placed (decode-IsName between part [] seg named tt) a)

-- A path that `normalize` lets through is a list of segments with slashes between, and perhaps one
-- behind; no segment is empty, `.` or `..`, and none holds a slash or a NUL byte. So it names
-- something below the document root, whatever was escaped in the request.
pub normalize-IsSafe :
    (is_utf8 : Bytes → Bool) (path out : Bytes)
    → is_utf8 path ≡ true
    → normalize is_utf8 path ≡ some (ok out)
    → (stack : List Bytes) × All IsSafe stack × (out ≡ trim (trailing_slash path) (unsplit stack))
unfolding normalize_spec from_utf8
normalize-IsSafe is_utf8 path out u q =
    let spec : normalize_spec is_utf8 path ≡ ok out =
      some_inj (sym (normalize_lem is_utf8 path u) ∙ q) in
    elim (Bool-cases (starts_with_slash path)) [
      | inr bare ↦ (let p : err not_absolute ≡ ok out = rw bare at spec in absurd (cc p))
      | inl rooted ↦
          let opened : (resolve_all [] (split [] (drop 1 path)) >>= λ stack.
          from_utf8 is_utf8 (trim (trailing_slash path) (unsplit stack)))
              ≡ ok out =
            rw rooted at spec in
          let (stack, resolved, checked) =
            >>=-eq-ok (resolve_all [] (split [] (drop 1 path))) _ opened in
          (
            stack,
            resolve_all-IsSafe (split [] (drop 1 path)) [] stack resolved tt,
            from_utf8-same (trim (trailing_slash path) (unsplit stack)) checked,
          )
    ]
  where
    some_inj : {a b : Result UriError Bytes} → some a ≡ some b → a ≡ b
    some_inj p = cc

    from_utf8-same : (b : Bytes) → from_utf8 is_utf8 b ≡ ok out → out ≡ b
    from_utf8-same b p = ground arith
