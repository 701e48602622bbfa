-- ===== src/Config/Lexer/RoundTrip.antt =====
-- src/config/lexer.rs: words in quotes with escapes, read back.
use oxi_serve.Base.{
  ℕ, zero, suc, ◌<◌, ◌≤◌, true, false, List, [], ◌∷◌, ◌++◌, ◌≡◌, ◌≢◌, ◌⊎◌, ==_iff, refl, ap, ◌∙◌,
  inl, inr, Bool-cases, ◌==◌, if◌then◌else◌, length, length-append, All, arith,
}
use oxi_serve.Base.Bytes.{Bytes}
use oxi_serve.Base.Result.{ok}
use oxi_serve.Config.Lexer.{
  is_space, Tok, word, open_brace, close_brace, semi, Token, next_line, is_delim, skip_trivia,
  contains, resolve, push, scan_quoted, delimited, unescape, put, run, tokenize,
}

-- A backslash before each double quote and each backslash.
unfoldable pub escape : Bytes → Bytes
escape [] = []
escape (c ∷ w) =
    let rest = escape w in
    if c == 92 then 92 ∷ c ∷ rest else if c == 34 then 92 ∷ c ∷ rest else c ∷ rest

unfoldable pub print : Tok → Bytes → Bytes
print (word w) rest = 34 ∷ (escape w ++ (34 ∷ 32 ∷ rest))
print open_brace rest = 123 ∷ 32 ∷ rest
print close_brace rest = 125 ∷ 32 ∷ rest
print semi rest = 59 ∷ 32 ∷ rest

unfoldable pub print_all : List Tok → Bytes
print_all [] = []
print_all (t ∷ ts) = print t (print_all ts)

-- The line behind a word.
unfoldable pub line_after : ℕ → Bytes → ℕ
line_after line [] = line
line_after line (c ∷ w) = line_after (next_line c line) w

-- The tokens with their lines; a word is in quotes.
unfoldable pub placed : ℕ → List Tok → List Token
placed line [] = []
placed line (word w ∷ ts) =
    record { tok = word w; line = line; quoted = true } ∷ placed (line_after line w) ts
placed line (open_brace ∷ ts) =
    record { tok = open_brace; line = line; quoted = false } ∷ placed line ts
placed line (close_brace ∷ ts) =
    record { tok = close_brace; line = line; quoted = false } ∷ placed line ts
placed line (semi ∷ ts) = record { tok = semi; line = line; quoted = false } ∷ placed line ts

-- A byte that is neither the quote nor a backslash is taken.
scan_quoted-plain :
    (c line : ℕ) (rest : Bytes)
    → (c == 92) ≡ false
    → (c == 34) ≡ false
    → scan_quoted 34 line (c ∷ rest) ≡ push c (scan_quoted 34 (next_line c line) rest)
unfolding scan_quoted push
scan_quoted-plain c line [] h k = rw k refl
scan_quoted-plain c line (d ∷ rest) h k = rw (h, k) refl

scan_quoted-escaped :
    (c line : ℕ) (rest : Bytes)
    → scan_quoted 34 line (92 ∷ c ∷ rest)
      ≡ push 92 (push c (scan_quoted 34 (next_line c line) rest))
unfolding scan_quoted push
scan_quoted-escaped c line rest = refl

scan_quoted-end :
    (line : ℕ) (rest : Bytes)
    → scan_quoted 34 line (34 ∷ 32 ∷ rest) ≡ ok (record { raw = []; line = line; rest = 32 ∷ rest })
unfolding scan_quoted push
scan_quoted-end line rest = refl

push-ok :
    (c : ℕ) (raw : Bytes) (line : ℕ) (rest : Bytes)
    → push c (ok (record { raw = raw; line = line; rest = rest }))
      ≡ ok (record { raw = c ∷ raw; line = line; rest = rest })
unfolding push
push-ok c raw line rest = refl

push-two :
    (c : ℕ) (raw : Bytes) (line : ℕ) (rest : Bytes)
    → push 92 (push c (ok (record { raw = raw; line = line; rest = rest })))
      ≡ ok (record { raw = 92 ∷ c ∷ raw; line = line; rest = rest })
unfolding push
push-two c raw line rest = refl

scan_quoted-escape :
    (w : Bytes) (line : ℕ) (rest : Bytes)
    → scan_quoted 34 line (escape w ++ (34 ∷ 32 ∷ rest))
      ≡ ok (record { raw = escape w; line = line_after line w; rest = 32 ∷ rest })
unfolding escape line_after
scan_quoted-escape [] line rest = scan_quoted-end line rest
scan_quoted-escape (c ∷ w) line rest =
    let ih = scan_quoted-escape w (next_line c line) rest in
    elim (Bool-cases (c == 92)) [
      | inl e ↦ rw e (
          scan_quoted-escaped c line (escape w ++ (34 ∷ 32 ∷ rest))
          ∙ rw ih (push-two c (escape w) (line_after (next_line c line) w) (32 ∷ rest)))
      | inr e ↦ elim (Bool-cases (c == 34)) [
        | inl f ↦
            rw (e, f)
              (scan_quoted-escaped c line (escape w ++ (34 ∷ 32 ∷ rest))
                ∙ rw ih (push-two c (escape w) (line_after (next_line c line) w) (32 ∷ rest)))
        | inr f ↦
            rw (e, f)
              (scan_quoted-plain c line (escape w ++ (34 ∷ 32 ∷ rest)) e f
                ∙ rw ih (push-ok c (escape w) (line_after (next_line c line) w) (32 ∷ rest)))
      ]
    ]

resolve-escaped :
    (c : ℕ) (rest : Bytes) → (c ≡ 92) ⊎ (c ≡ 34) → resolve (92 ∷ c ∷ rest) ≡ c ∷ resolve rest
unfolding resolve
resolve-escaped c rest (inl e) = rw e refl
resolve-escaped c rest (inr e) = rw e refl

resolve-plain : (c : ℕ) (rest : Bytes) → (c == 92) ≡ false → resolve (c ∷ rest) ≡ c ∷ resolve rest
unfolding resolve
resolve-plain c [] h = refl
resolve-plain c (d ∷ rest) h = rw h refl

resolve-nil : resolve [] ≡ []
unfolding resolve
resolve-nil = refl

-- Escapes are resolved to what they stand for.
resolve-escape : (w : Bytes) → resolve (escape w) ≡ w
unfolding escape
resolve-escape [] = resolve-nil
resolve-escape (c ∷ w) =
    let ih = ap (λ t. c ∷ t) (resolve-escape w) in
    elim (Bool-cases (c == 92)) [
      | inl e ↦ rw e (resolve-escaped c (escape w) (inl ((==_iff c 92).0 e)) ∙ ih)
      | inr e ↦ elim (Bool-cases (c == 34)) [
        | inl f ↦ rw (e, f) (resolve-escaped c (escape w) (inr ((==_iff c 34).0 f)) ∙ ih)
        | inr f ↦ rw (e, f) (resolve-plain c (escape w) e ∙ ih)
      ]
    ]

true≢false : true ≢ false
true≢false q = ground arith

-- A word that takes no escape is written as it is.
contains-escape : (w : Bytes) → contains 92 (escape w) ≡ false → escape w ≡ w
unfolding escape contains
contains-escape [] h = refl
contains-escape (c ∷ w) h =
    let ih = contains-escape w in
    elim (Bool-cases (c == 92)) [
      | inl e ↦ absurd (true≢false (rw e at h))
      | inr e ↦ elim (Bool-cases (c == 34)) [
        | inl f ↦ absurd (true≢false (rw (e, f) at h))
        | inr f ↦ rw (e, f) (ap (λ t. c ∷ t) (ih (rw (e, f, e) at h)))
      ]
    ]

module _ (lossy : Bytes → Bytes) where
  unescape-escape : (w : Bytes) → lossy w ≡ w → unescape lossy (escape w) ≡ w
  unfolding unescape
  unescape-escape w h = elim (Bool-cases (contains 92 (escape w))) [
    | inl e ↦ rw (e, resolve-escape w, h) refl
    | inr e ↦ rw (e, contains-escape w e, h) refl
  ]

  run-space :
      (fuel line : ℕ) (rest : Bytes) → run lossy fuel line (32 ∷ rest) ≡ run lossy fuel line rest
  unfolding run skip_trivia is_space
  run-space zero line rest = refl
  run-space (suc fuel) line rest = refl

  run-word :
      (fuel line : ℕ) (w rest : Bytes)
      → lossy w ≡ w
      → run lossy (suc fuel) line (34 ∷ (escape w ++ (34 ∷ 32 ∷ rest)))
        ≡ put lossy
            (record { tok = word w; line = line; quoted = true })
            (run lossy fuel (line_after line w) (32 ∷ rest))
  unfolding run skip_trivia is_space put delimited is_delim line_after
  run-word fuel line w rest h = rw (scan_quoted-escape w line rest) (rw (unescape-escape w h) refl)

  -- A word of valid text, which the conversion leaves as it is.
  unfoldable pub IsText : Tok → Type 0
  IsText (word w) = lossy w ≡ w
  IsText open_brace = Unit
  IsText close_brace = Unit
  IsText semi = Unit

  run-print_all :
      (fuel line : ℕ) (ts : List Tok)
      → All IsText ts
      → length ts < fuel
      → run lossy fuel line (print_all ts) ≡ ok (placed line ts)
  unfolding run skip_trivia is_space put print_all print placed IsText
  run-print_all zero line ts h lt = absurd (omega arith)
  run-print_all (suc fuel) line [] h lt = refl
  run-print_all (suc fuel) line (word w ∷ ts) (p, h) lt =
      let ih = run-print_all fuel (line_after line w) ts h (omega arith) in
      run-word fuel line w (print_all ts) p
      ∙ rw (run-space fuel (line_after line w) (print_all ts), ih) refl
  run-print_all (suc fuel) line (open_brace ∷ ts) (p, h) lt =
      let ih = run-print_all fuel line ts h (omega arith) in
      rw (run-space fuel line (print_all ts), ih) refl
  run-print_all (suc fuel) line (close_brace ∷ ts) (p, h) lt =
      let ih = run-print_all fuel line ts h (omega arith) in
      rw (run-space fuel line (print_all ts), ih) refl
  run-print_all (suc fuel) line (semi ∷ ts) (p, h) lt =
      let ih = run-print_all fuel line ts h (omega arith) in
      rw (run-space fuel line (print_all ts), ih) refl

  length-print : (t : Tok) (rest : Bytes) → suc (length rest) ≤ length (print t rest)
  unfolding print
  length-print (word w) rest = omega (arith, length-append (escape w) (34 ∷ 32 ∷ rest))
  length-print open_brace rest = omega arith
  length-print close_brace rest = omega arith
  length-print semi rest = omega arith

  length-print_all : (ts : List Tok) → length ts ≤ length (print_all ts)
  unfolding print_all
  length-print_all [] = omega arith
  length-print_all (t ∷ ts) = omega (arith, length-print_all ts, length-print t (print_all ts))

  -- For a conversion that leaves the words of `ts` as they are: the braces, the semicolons and the
  -- words of `ts`, the words printed in double quotes with a backslash before each double quote and
  -- backslash, and a space behind each token, are what `tokenize` returns, on their lines.
  pub tokenize-print_all :
      (ts : List Tok) → All IsText ts → tokenize lossy (print_all ts) ≡ ok (placed 1 ts)
  unfolding tokenize
  tokenize-print_all ts h =
      run-print_all (suc (length (print_all ts))) 1 ts h (omega (arith, length-print_all ts))
