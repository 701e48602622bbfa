-- ===== src/Server/Etag/Distinct.antt =====
-- src/server/files.rs: files of another time or size have another entity tag.
use native.Mathlib.Nat.{pow-suc}
use oxi_serve.Base.{
  ℕ, zero, suc, ◌+◌, ◌*◌, ◌-◌, ◌/◌, ◌%◌, ◌^◌, ◌<◌, Bool-cases, inl, inr, [], ◌∷◌, ◌++◌,
  append_assoc, drop, false, ◌≡◌, ◌≢◌, refl, sym, ap, ◌∙◌, ltb, ◌==◌, ==_iff, if◌then◌else◌, All,
  arith,
}
use oxi_serve.Base.Bytes.{Bytes}
use oxi_serve.Server.Etag.{digit, fill_digits, push_hex, make_etag}

-- The number that digits stand for.
value : ℕ → Bytes → ℕ
value n [] = n
value n (c ∷ rest) = value (n * 16 + (if ltb c 60 then c - 48 else c - 87)) rest

digit_value :
    (n : ℕ)
    → n / 16 * 16 + (if ltb (digit (n % 16)) 60 then digit (n % 16) - 48 else digit (n % 16) - 87)
      ≡ n
unfolding digit
digit_value n =
    let lt : n % 16 < 16 = omega arith in
    let whole : n ≡ n / 16 * 16 + n % 16 = omega arith in ground arith

value-fill_digits :
    (room n : ℕ) (buf : Bytes) → n < 16 ^ room → value 0 (fill_digits room n buf) ≡ value n buf
unfolding value fill_digits
value-fill_digits zero n buf h = ap (λ t. value t buf) (omega arith)
value-fill_digits (suc room) n buf h =
    let power = pow-suc 16 room in
    let ih = value-fill_digits room (n / 16) (digit (n % 16) ∷ buf) in
    elim (Bool-cases (n == 0)) [
      | inl e ↦ rw (e, (==_iff n 0).0 e) refl
      | inr e ↦ rw e (ih (omega arith) ∙ ap (λ t. value t buf) (digit_value n))
    ]

-- What `push_hex` appends.
hex_text : ℕ → Bytes
hex_text n = if n == 0 then 48 ∷ [] else fill_digits 16 n []

value-hex_text : (n : ℕ) → n < 2 ^ 64 → value 0 (hex_text n) ≡ n
unfolding hex_text value
value-hex_text n h = elim (Bool-cases (n == 0)) [
  | inl e ↦ rw (e, (==_iff n 0).0 e) refl
  | inr e ↦ rw e (value-fill_digits 16 n [] (omega arith))
]

IsDigit : ℕ → Type 0
IsDigit c = (c ≢ 45) × (c ≢ 34)

digit-IsDigit : (d : ℕ) → IsDigit (digit d)
unfolding digit IsDigit
digit-IsDigit d = (λ q. ground arith, λ q. ground arith)

fill_digits-IsDigit :
    (room n : ℕ) (buf : Bytes) → All IsDigit buf → All IsDigit (fill_digits room n buf)
unfolding fill_digits
fill_digits-IsDigit zero n buf h = h
fill_digits-IsDigit (suc room) n buf h =
    let ih = fill_digits-IsDigit room (n / 16) (digit (n % 16) ∷ buf) (digit-IsDigit (n % 16), h) in
    elim (Bool-cases (n == 0)) [ inl e ↦ rw e h | inr e ↦ rw e ih ]

hex_text-IsDigit : (n : ℕ) → All IsDigit (hex_text n)
unfolding hex_text IsDigit
hex_text-IsDigit n = elim (Bool-cases (n == 0)) [
  | inl e ↦ rw e ((λ q. omega arith, λ q. omega arith), tt)
  | inr e ↦ rw e (fill_digits-IsDigit 16 n [] tt)
]

-- What stands before the first such byte, and behind it.
before : ℕ → Bytes → Bytes
before sep [] = []
before sep (c ∷ rest) = let more = before sep rest in if c == sep then [] else c ∷ more

behind : ℕ → Bytes → Bytes
behind sep [] = []
behind sep (c ∷ rest) = let more = behind sep rest in if c == sep then rest else more

other : (c d : ℕ) → c ≢ d → (c == d) ≡ false
other c d h = grind arith

before-dash : (xs ys : Bytes) → All IsDigit xs → before 45 (xs ++ (45 ∷ ys)) ≡ xs
unfolding before IsDigit
before-dash [] ys _ = refl
before-dash (x ∷ xs) ys ((p, _), h) = let ih = before-dash xs ys h in rw (other x 45 p, ih) refl

behind-dash : (xs ys : Bytes) → All IsDigit xs → behind 45 (xs ++ (45 ∷ ys)) ≡ ys
unfolding behind IsDigit
behind-dash [] ys _ = refl
behind-dash (x ∷ xs) ys ((p, _), h) = let ih = behind-dash xs ys h in rw (other x 45 p, ih) refl

before-quote : (xs : Bytes) → All IsDigit xs → before 34 (xs ++ (34 ∷ [])) ≡ xs
unfolding before IsDigit
before-quote [] _ = refl
before-quote (x ∷ xs) ((_, p), h) = let ih = before-quote xs h in rw (other x 34 p, ih) refl

push_hex-hex_text : (out : Bytes) (n : ℕ) → push_hex out n ≡ out ++ hex_text n
unfolding push_hex hex_text
push_hex-hex_text out n = elim (Bool-cases (n == 0)) [ inl e ↦ rw e refl | inr e ↦ rw e refl ]

make_etag_lem :
    (secs size : ℕ)
    → make_etag secs size ≡ 34 ∷ (hex_text secs ++ (45 ∷ (hex_text size ++ (34 ∷ []))))
unfolding make_etag
make_etag_lem secs size =
    rw
      (push_hex-hex_text (34 ∷ []) secs, push_hex-hex_text (34 ∷ (hex_text secs ++ (45 ∷ []))) size)
      (ap (λ t. 34 ∷ t)
        (ap (λ t. t ++ (34 ∷ [])) (append_assoc (hex_text secs) (45 ∷ []) (hex_text size))
          ∙ append_assoc (hex_text secs) (45 ∷ hex_text size) (34 ∷ [])))

-- The time and the size that a tag holds.
time_of : Bytes → ℕ
time_of t = value 0 (before 45 (drop 1 t))

size_of : Bytes → ℕ
size_of t = value 0 (before 34 (behind 45 (drop 1 t)))

time_of-make_etag : (secs size : ℕ) → secs < 2 ^ 64 → time_of (make_etag secs size) ≡ secs
unfolding time_of
time_of-make_etag secs size h = rw (make_etag_lem secs size) (
    rw (before-dash (hex_text secs) (hex_text size ++ (34 ∷ [])) (hex_text-IsDigit secs))
      (value-hex_text secs h))

size_of-make_etag : (secs size : ℕ) → size < 2 ^ 64 → size_of (make_etag secs size) ≡ size
unfolding size_of
size_of-make_etag secs size h = rw (make_etag_lem secs size) (
    rw
      (
        behind-dash (hex_text secs) (hex_text size ++ (34 ∷ [])) (hex_text-IsDigit secs),
        before-quote (hex_text size) (hex_text-IsDigit size),
      )
      (value-hex_text size h))

-- For times in seconds and sizes of 64 bits: two files with the same entity tag have the same time
-- and the same size.
pub make_etag_injective :
    (secs size secs1 size1 : ℕ)
    → secs < 2 ^ 64
    → size < 2 ^ 64
    → secs1 < 2 ^ 64
    → size1 < 2 ^ 64
    → make_etag secs size ≡ make_etag secs1 size1
    → (secs ≡ secs1) × (size ≡ size1)
make_etag_injective secs size secs1 size1 a b c d q = (
  sym (time_of-make_etag secs size a) ∙ ap time_of q ∙ time_of-make_etag secs1 size1 c,
  sym (size_of-make_etag secs size b) ∙ ap size_of q ∙ size_of-make_etag secs1 size1 d,
)
