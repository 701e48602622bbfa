-- ===== src/Http/Uri/Fast.antt =====
-- src/http/uri.rs: the paths that `normalize` returns as they are.
use oxi_serve.Base.{
  ℕ, suc, ◌+◌, ◌-◌, ◌<◌, ◌≡◌, ◌≢◌, inl, inr, refl, sym, ap, ◌∙◌, arith, Bool, true, false, List, [],
  ◌∷◌, ◌++◌, some, append-nil, append_assoc, All, All-append,
}
use oxi_serve.Base.{ltb, ◌==◌, Bool-cases, length, length-append, take-length-append}
use oxi_serve.Base.Bytes.{Bytes, same_bytes}
use oxi_serve.Base.Result.{Result, ok, err, ◌>>=◌}
use oxi_serve.Http.Uri.{
  UriError, between, accept, ends_with_slash, trailing_slash, trim, normal_from, is_already_normal,
  normalize, from_utf8, starts_with_slash,
}
use oxi_serve.Http.Uri.Segments.{split, decode, resolve, resolve_all, unsplit, normalize_spec}
use oxi_serve.Http.Uri.Refinement.{slow_lem}

-- A byte that stands for itself within a segment.
IsPlain : ℕ → Type 0
IsPlain c = (c ≢ b'%') × (c ≢ b'/') × (c ≢ 0)

decode-IsPlain : (xs seg : Bytes) → All IsPlain xs → decode between xs seg ≡ ok (seg ++ xs)
unfolding decode IsPlain accept
decode-IsPlain [] seg a = ap ok (sym (append-nil seg))
decode-IsPlain (x ∷ xs) seg ((p, s, z), a) =
    let np : (x == b'%') ≡ false = ground arith in
    let nz : (x == 0) ≡ false = ground arith in
    let ns : (x == b'/') ≡ false = ground arith in
    rw (decode, np, nz, ns)
      (decode-IsPlain xs (seg ++ (x ∷ [])) a ∙ ap ok (append_assoc seg (x ∷ []) xs))

resolve-named :
    (stack : List Bytes) (x : ℕ) (xs : Bytes)
    → x ≢ b'.'
    → resolve stack (x ∷ xs) ≡ ok ((x ∷ xs) ∷ stack)
unfolding resolve same_bytes
resolve-named stack x xs n = let d : (x == b'.') ≡ false = ground arith in rw d refl

-- The part read so far, and the byte before what is left.
data Reading : Bytes → ℕ → Type 0 where
  fresh : Reading [] b'/'
  within :
      (x : ℕ) (xs : Bytes) (prev : ℕ)
      → x ≢ b'.'
      → All IsPlain (x ∷ xs)
      → prev ≢ b'/'
      → Reading (x ∷ xs) prev

ends : ℕ → Bytes → Bool
ends prev [] = prev == b'/'
ends prev (c ∷ rest) = ends c rest

Reading-step :
    (cur : Bytes) (prev c : ℕ)
    → Reading cur prev
    → IsPlain c
    → (prev ≡ b'/' → c ≢ b'.')
    → Reading (cur ++ (c ∷ [])) c
unfolding IsPlain
Reading-step _ _ c fresh p dot = within c [] c (dot refl) (p, tt) p.1
Reading-step _ _ c (within x xs prev n a s) p dot =
    within x (xs ++ (c ∷ [])) c n (All-append IsPlain (x ∷ xs) (c ∷ []) a (p, tt)) p.1

resolved-part :
    (stack : List Bytes) (x : ℕ) (xs : Bytes) (parts : List Bytes)
    → x ≢ b'.'
    → All IsPlain (x ∷ xs)
    → resolve_all stack ((x ∷ xs) ∷ parts) ≡ resolve_all ((x ∷ xs) ∷ stack) parts
unfolding resolve_all
resolved-part stack x xs parts n a =
    rw (decode-IsPlain (x ∷ xs) [] a) (rw (resolve-named stack x xs n) refl)

length-unsplit : (stack : List Bytes) → 0 < length (unsplit stack)
unfolding unsplit
length-unsplit [] = omega arith
length-unsplit (s ∷ stack) =
    omega (arith, length-append (unsplit stack) (s ++ (b'/' ∷ [])), length-unsplit stack)

-- Dropping the slash behind the last segment.
trim-unsplit :
    (stack : List Bytes) (s : Bytes) → trim false (unsplit (s ∷ stack)) ≡ unsplit stack ++ s
unfolding trim unsplit
trim-unsplit stack s =
    let u = unsplit stack ++ s in
    let shape : unsplit stack ++ (s ++ (b'/' ∷ [])) ≡ u ++ (b'/' ∷ []) =
      sym (append_assoc (unsplit stack) s (b'/' ∷ [])) in
    let len : length (u ++ (b'/' ∷ [])) ≡ length u + 1 = length-append u (b'/' ∷ []) in
    let some_bytes : 0 < length u =
      omega (arith, length-append (unsplit stack) s, length-unsplit stack) in
    let long : ltb 1 (length u + 1) ≡ true = ground arith in
    let one : length u + 1 - 1 ≡ length u = omega arith in
    rw (shape, len, long, one) (take-length-append u (b'/' ∷ []))

finish : Bool → Result UriError (List Bytes) → Result UriError Bytes
finish t r = r >>= λ st. ok (trim t (unsplit st))

normal_step :
    (prev c : ℕ) (rest : Bytes)
    → normal_from prev (c ∷ rest) ≡ true
    → (c ≢ b'%')
      × (prev ≡ b'/' → c ≢ b'/')
      × (prev ≡ b'/' → c ≢ b'.')
      × (c ≢ 0)
      × (normal_from c rest ≡ true)
unfolding normal_from
normal_step prev c rest q = (ground arith, ground arith, ground arith, ground arith, ground arith)

-- A slash closes the part at hand, which is not empty.
at_slash :
    (stack : List Bytes) (cur : Bytes) (prev : ℕ) (t : Bool) (rest : Bytes)
    → Reading cur prev
    → prev ≢ b'/'
    → ((st : List Bytes) → finish t (resolve_all st (split [] rest)) ≡ ok (unsplit st ++ rest))
    → finish t (resolve_all stack (cur ∷ split [] rest))
      ≡ ok (unsplit stack ++ (cur ++ (b'/' ∷ rest)))
unfolding unsplit
at_slash stack _ _ t rest fresh apart ih = absurd (apart refl)
at_slash stack _ _ t rest (within x xs prev n a s) apart ih =
    rw (resolved-part stack x xs (split [] rest) n a) (
      ih ((x ∷ xs) ∷ stack)
      ∙ ap ok (
          append_assoc (unsplit stack) ((x ∷ xs) ++ (b'/' ∷ [])) rest
          ∙ ap (λ r. unsplit stack ++ r) (append_assoc (x ∷ xs) (b'/' ∷ []) rest)))

fast_from :
    (stack : List Bytes) (cur : Bytes) (prev : ℕ) (b : Bytes)
    → Reading cur prev
    → normal_from prev b ≡ true
    → finish (ends prev b) (resolve_all stack (split cur b)) ≡ ok (unsplit stack ++ (cur ++ b))
unfolding split ends normal_from
fast_from stack _ _ [] fresh q =
    unfold finish resolve_all resolve decode same_bytes trim in
    ap ok (sym (append-nil (unsplit stack)))
fast_from stack _ _ [] (within x xs prev n a s) q =
    let open_ended : (prev == b'/') ≡ false = ground arith in
    rw (open_ended, resolved-part stack x xs [] n a)
      (finished ((x ∷ xs) ∷ stack)
        ∙ ap ok (
            trim-unsplit stack (x ∷ xs) ∙ ap (λ t. unsplit stack ++ t) (sym (append-nil (x ∷ xs)))))
  where
    finished : (st : List Bytes) → finish false (resolve_all st []) ≡ ok (trim false (unsplit st))
    finished st = unfold finish resolve_all in refl
fast_from stack cur prev (c ∷ rest) r q =
    let (percent, double, dot, zeroth, more) = normal_step prev c rest q in
    elim (Bool-cases (c == b'/')) [
      | inl slash ↦
          let e : c ≡ b'/' = ground arith in
          let apart : prev ≢ b'/' = λ p. double p e in
          let later : normal_from b'/' rest ≡ true = rw e at more in
          rw e (
            at_slash stack cur prev (ends b'/' rest) rest r apart
              (λ st. fast_from st [] b'/' rest fresh later))
      | inr other ↦ rw other (
          fast_from stack (cur ++ (c ∷ [])) c rest
            (Reading-step cur prev c r (unfold IsPlain in (percent, ground arith, zeroth)) dot) more
          ∙ ap (λ t. ok (unsplit stack ++ t)) (append_assoc cur (c ∷ []) rest))
    ]

ends_with_slash-ends : (prev : ℕ) (b : Bytes) → ends_with_slash (prev ∷ b) ≡ ends prev b
unfolding ends_with_slash ends
ends_with_slash-ends prev [] = refl
ends_with_slash-ends prev (c ∷ rest) = ends_with_slash-ends c rest

after_finish :
    (is_utf8 : Bytes → Bool) (t : Bool) (r : Result UriError (List Bytes)) (out : Bytes)
    → finish t r ≡ ok out
    → (r >>= λ st. from_utf8 is_utf8 (trim t (unsplit st))) ≡ from_utf8 is_utf8 out
unfolding finish
after_finish is_utf8 t (ok st) out q =
    let e : trim t (unsplit st) ≡ out = cc in ap (from_utf8 is_utf8) e
after_finish is_utf8 t (err e) out q = cc

trailing_slash-ends :
    (c : ℕ) (rest : Bytes) → trailing_slash (b'/' ∷ c ∷ rest) ≡ ends b'/' (c ∷ rest)
unfolding trailing_slash
trailing_slash-ends c rest =
    let long : ltb 1 (suc (suc (length rest))) ≡ true = ground arith in
    rw long (ends_with_slash-ends b'/' (c ∷ rest))

-- A path that needs no work is what the reading by segments gives.
fast_lem :
    (is_utf8 : Bytes → Bool) (b : Bytes)
    → normal_from b'/' b ≡ true
    → normalize_spec is_utf8 (b'/' ∷ b) ≡ from_utf8 is_utf8 (b'/' ∷ b)
unfolding normalize_spec starts_with_slash
fast_lem is_utf8 [] q =
    unfold resolve_all split resolve decode same_bytes trim unsplit trailing_slash in refl
fast_lem is_utf8 (c ∷ rest) q = rw (trailing_slash-ends c rest) (
    after_finish is_utf8 (ends b'/' (c ∷ rest)) (resolve_all [] (split [] (c ∷ rest)))
      (b'/' ∷ c ∷ rest) (unfold unsplit in fast_from [] [] b'/' (c ∷ rest) fresh q))

-- `normalize` comes to an end, and it answers as the reading by segments does: split at the slashes,
-- decode each part, drop the empty and `.` parts, let `..` drop the part before it or fail, and
-- join. That holds of the byte loop and of the paths that are returned as they are; the path is
-- UTF-8, as every `str` is.
pub normalize_lem :
    (is_utf8 : Bytes → Bool) (path : Bytes)
    → is_utf8 path ≡ true
    → normalize is_utf8 path ≡ some (normalize_spec is_utf8 path)
unfolding normalize is_already_normal
normalize_lem is_utf8 [] u = unfold normalize_spec starts_with_slash in refl
normalize_lem is_utf8 (c ∷ b) u = elim (Bool-cases (c == b'/')) [
  | inr other ↦ unfold normalize_spec starts_with_slash in (rw other refl)
  | inl slash ↦
      let e : c ≡ b'/' = ground arith in
      let v : is_utf8 (b'/' ∷ b) ≡ true = rw e at u in
      elim (Bool-cases (normal_from b'/' b)) [
        | inl normal ↦ rw (e, normal) (ap some (sym (fast_lem is_utf8 b normal ∙ checked b v)))
        | inr work ↦ rw (e, work) (slow_lem is_utf8 b)
      ]
]
  where
    checked : (b : Bytes) → is_utf8 (b'/' ∷ b) ≡ true → from_utf8 is_utf8 (b'/' ∷ b) ≡ ok (b'/' ∷ b)
    checked b v = unfold from_utf8 in (rw v refl)
