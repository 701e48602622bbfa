-- ===== src/Server/Body/Crlf.antt =====
-- src/server/conn.rs: `find_crlf` finds the first line break.
use mathlib.Core.Option.{some-injective}
use oxi_serve.Base.{
  ℕ, zero, suc, ◌+◌, ◌<◌, ◌≤◌, false, [], ◌∷◌, ◌++◌, ◌≡◌, ◌≢◌, refl, sym, ap, ◌∙◌, inl, inr, ◌⊎◌,
  Bool-cases, Option-cases, Option, none, some, All,
}
use oxi_serve.Base.{
  ltb, ◌==◌, if◌then◌else◌, get_elem?, length, length-drop, cons-head, cons-tail, drop, arith,
}
use oxi_serve.Base.Bytes.{Bytes}
use oxi_serve.Server.Body.{find_from, find_crlf}

unfoldable pub bump : Option ℕ → Option ℕ
bump none = none
bump (some n) = some (suc n)

-- The first index of a byte, as `memchr` documents its result.
unfoldable pub first_index : ℕ → Bytes → Option ℕ
first_index c [] = none
first_index c (b ∷ bs) = let later = bump (first_index c bs) in if b == c then some 0 else later

-- The first carriage return before a line feed.
unfoldable pub crlf_index : Bytes → Option ℕ
crlf_index [] = none
crlf_index (c ∷ []) = none
crlf_index (c ∷ d ∷ rest) =
    let later = bump (crlf_index (d ∷ rest)) in
    if c == 13 then if d == 10 then some 0 else later else later

add : ℕ → Option ℕ → Option ℕ
add k none = none
add k (some n) = some (k + n)

bump-some : (o : Option ℕ) (k : ℕ) → bump o ≡ some k → (j : ℕ) × ((o ≡ some j) × (k ≡ suc j))
unfolding bump
bump-some none k h = absurd (ground arith)
bump-some (some j) k h = (j, (refl, ground arith))

bump-none : (o : Option ℕ) → bump o ≡ none → o ≡ none
unfolding bump
bump-none none h = refl
bump-none (some j) h = ground arith

add-add : (i k : ℕ) (o : Option ℕ) → add i (add k o) ≡ add (i + k) o
unfolding add
add-add i k none = refl
add-add i k (some n) = ap some (omega arith)

bump-add : (k : ℕ) (o : Option ℕ) → bump (add k o) ≡ add (suc k) o
unfolding add bump
bump-add k none = refl
bump-add k (some n) = ap some (omega arith)

crlf_index-none : (b : Bytes) → first_index 13 b ≡ none → crlf_index b ≡ none
unfolding first_index crlf_index bump
crlf_index-none [] h = refl
crlf_index-none (c ∷ []) h = refl
crlf_index-none (c ∷ d ∷ rest) h = elim (Bool-cases (c == 13)) [
  | inl e ↦ absurd (some-none 0 (rw e at h))
  | inr e ↦
      rw (e, crlf_index-none (d ∷ rest) (bump-none (first_index 13 (d ∷ rest)) (rw e at h))) refl
]
  where
    some-none : (n : ℕ) → some n ≢ none
    some-none n q = ground arith

-- What follows from the first carriage return, at `k`.
step : Bytes → ℕ → Option ℕ → Option ℕ
step b k none = none
step b k (some c) = if c == 10 then some k else add (suc k) (crlf_index (drop (suc k) b))

step-suc : (c : ℕ) (b : Bytes) (k : ℕ) (o : Option ℕ) → bump (step b k o) ≡ step (c ∷ b) (suc k) o
unfolding step bump
step-suc c b k none = refl
step-suc c b k (some d) = elim (Bool-cases (d == 10)) [
  | inl e ↦ rw e refl
  | inr e ↦ rw e (bump-add (suc k) (crlf_index (drop (suc k) b)))
]

bump_one : (o : Option ℕ) → bump o ≡ add 1 o
unfolding bump add
bump_one none = refl
bump_one (some n) = ap some (omega arith)

step_zero :
    (c d : ℕ) (rest : Bytes)
    → (if d == 10 then some 0 else bump (crlf_index (d ∷ rest))) ≡ step (c ∷ d ∷ rest) 0 (some d)
unfolding step
step_zero c d rest = elim (Bool-cases (d == 10)) [
  | inl e ↦ rw e refl
  | inr e ↦ rw e (bump_one (crlf_index (d ∷ rest)))
]

crlf_index-some :
    (b : Bytes) (k : ℕ) → first_index 13 b ≡ some k → crlf_index b ≡ step b k (get_elem? b (suc k))
unfolding first_index crlf_index step
crlf_index-some [] k h = absurd (ground arith)
crlf_index-some (c ∷ []) k h = refl
crlf_index-some (c ∷ d ∷ rest) k h = elim (Bool-cases (c == 13)) [
  | inl e ↦ let q = some-injective 0 k (rw e at h) in rw (e, ← q) (step_zero c d rest)
  | inr e ↦
      let (j, (f, q)) = bump-some (first_index 13 (d ∷ rest)) k (rw e at h) in
      rw (e, q, crlf_index-some (d ∷ rest) j f)
        (step-suc c (d ∷ rest) j (get_elem? (d ∷ rest) (suc j)))
]

short : (b : Bytes) → ltb 1 (length b) ≡ false → crlf_index b ≡ none
unfolding crlf_index
short [] h = refl
short (c ∷ []) h = refl
short (c ∷ d ∷ rest) h = ground arith

found :
    (i : ℕ) (b : Bytes) (k : ℕ) (o : Option ℕ) (later : Option ℕ)
    → later ≡ add (i + suc k) (crlf_index (drop (suc k) b))
    → (elim o [ none ↦ none | some c ↦ if c == 10 then some (i + k) else later ])
      ≡ add i (step b k o)
unfolding step add
found i b k none later h = refl
found i b k (some c) later h = elim (Bool-cases (c == 10)) [
  | inl e ↦ rw e refl
  | inr e ↦ rw (e, h) (sym (add-add i (suc k) (crlf_index (drop (suc k) b))))
]

add_zero : (o : Option ℕ) → add 0 o ≡ o
unfolding add
add_zero none = refl
add_zero (some n) = ap some (omega arith)

module _ (memchr : ℕ → Bytes → Option ℕ)
    (first : (c : ℕ) (b : Bytes) → memchr c b ≡ first_index c b) where
  find_from-crlf_index :
      (fuel i : ℕ) (b : Bytes) → length b ≤ fuel → find_from memchr fuel i b ≡ add i (crlf_index b)
  unfolding find_from add crlf_index
  find_from-crlf_index zero i [] h = refl
  find_from-crlf_index zero i (c ∷ b) h = absurd (omega arith)
  find_from-crlf_index (suc fuel) i b h =
      let ih = find_from-crlf_index fuel in
      elim (Bool-cases (ltb 1 (length b))) [
        | inr e ↦ rw (e, short b e) refl
        | inl e ↦ elim (Option-cases (first_index 13 b)) [
          | inl n ↦ rw (e, first 13 b, n, crlf_index-none b n) refl
          | inr (k, n) ↦
              rw (e, first 13 b, n, crlf_index-some b k n)
                (found i b k (get_elem? b (suc k))
                  (find_from memchr fuel (i + suc k) (drop (suc k) b))
                  (ih (i + suc k) (drop (suc k) b) (omega (arith, length-drop (suc k) b))))
        ]
      ]

  -- The scan that steps over carriage returns finds the first line break.
  pub find_crlf-crlf_index : (b : Bytes) → find_crlf memchr b ≡ crlf_index b
  unfolding find_crlf add
  find_crlf-crlf_index b =
      find_from-crlf_index (length b) 0 b (omega arith) ∙ add_zero (crlf_index b)

not_cr : (c : ℕ) → c ≢ 13 → (c == 13) ≡ false
not_cr c h = grind arith

-- A line without a carriage return ends at its own length, once its line break is there.
pub crlf_index-prefix :
    (line more u v : Bytes)
    → All (λ c. c ≢ 13) line
    → u ++ v ≡ line ++ (13 ∷ 10 ∷ more)
    → ((crlf_index u ≡ some (length line)) × (length line + 2 ≤ length u))
      ⊎ ((crlf_index u ≡ none) × (length u < length line + 2))
unfolding crlf_index bump
crlf_index-prefix [] more [] v h q = inr (refl, omega arith)
crlf_index-prefix [] more (c ∷ []) v h q = inr (refl, omega arith)
crlf_index-prefix [] more (c ∷ d ∷ u) v h q =
    inl (rw (cons-head q, cons-head (cons-tail q)) refl, omega arith)
crlf_index-prefix (l ∷ line) more [] v h q = inr (refl, omega arith)
crlf_index-prefix (l ∷ line) more (c ∷ []) v h q = inr (refl, omega arith)
crlf_index-prefix (l ∷ line) more (c ∷ d ∷ u) v (hl, h) q =
    elim (crlf_index-prefix line more (d ∷ u) v h (cons-tail q)) [
      | inl (e, le) ↦ inl (rw (not_cr c (λ p. hl (sym (cons-head q) ∙ p)), e) refl, omega arith)
      | inr (e, lt) ↦ inr (rw (not_cr c (λ p. hl (sym (cons-head q) ∙ p)), e) refl, omega arith)
    ]
