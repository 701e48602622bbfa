-- ===== src/Server/Body/Hex.antt =====
-- src/server/conn.rs: `parse_hex` reads a chunk's size back.
use native.Mathlib.Nat.{pow-suc}
use oxi_serve.Base.{
  ℕ, zero, suc, ◌+◌, ◌*◌, ◌/◌, ◌%◌, ◌^◌, ◌<◌, ◌≤◌, false, [], ◌∷◌, ◌++◌, ◌≡◌, ◌≢◌, refl, ap, ◌∙◌,
  Option, none, some, All, All-append,
}
use oxi_serve.Base.{ltb, lt→ltb, le→ltb, ◌==◌, if◌then◌else◌, length, length-append, arith}
use oxi_serve.Base.Bytes.{Bytes}
use oxi_serve.Server.Body.{hex_digit, push_digit, hex_from, parse_hex, before_extension}

-- Hexadecimal digits, `k` of them.
unfoldable pub hex_char : ℕ → ℕ
hex_char d = if ltb d 10 then 48 + d else 87 + d

unfoldable pub hex : ℕ → ℕ → Bytes
hex zero n = []
hex (suc k) n = hex k (n / 16) ++ (hex_char (n % 16) ∷ [])

hex_digit-hex_char : (d : ℕ) → d < 16 → hex_digit (hex_char d) ≡ some (some d)
unfolding hex_digit hex_char
hex_digit-hex_char d h = ground arith

hex_from-append :
    (o : Option ℕ) (xs ys : Bytes) → hex_from o (xs ++ ys) ≡ hex_from (hex_from o xs) ys
unfolding hex_from
hex_from-append o [] ys = refl
hex_from-append none (x ∷ xs) [] = refl
hex_from-append none (x ∷ xs) (y ∷ ys) = refl
hex_from-append (some n) (x ∷ xs) ys = hex_from-append (push_digit n (hex_digit x)) xs ys

push_digit_lem : (n : ℕ) → n < 2 ^ 64 → push_digit (n / 16) (some (some (n % 16))) ≡ some n
unfolding push_digit
push_digit_lem n h =
    rw
      (
        lt→ltb (n / 16 * 16) (2 ^ 64) (omega arith),
        lt→ltb (n / 16 * 16 + n % 16) (2 ^ 64) (omega arith),
      )
      (ap some (omega arith))

hex_from-hex : (k n : ℕ) → n < 16 ^ k → n < 2 ^ 64 → hex_from (some 0) (hex k n) ≡ some n
unfolding hex_from hex
hex_from-hex zero n h b = ap some (omega arith)
hex_from-hex (suc k) n h b =
    let power = pow-suc 16 k in
    let lt : n / 16 < 16 ^ k = omega arith in
    hex_from-append (some 0) (hex k (n / 16)) (hex_char (n % 16) ∷ [])
    ∙ rw (hex_from-hex k (n / 16) lt (omega arith), hex_digit-hex_char (n % 16) (omega arith))
        (push_digit_lem n b)

length-hex : (k n : ℕ) → length (hex k n) ≡ k
unfolding hex
length-hex zero n = refl
length-hex (suc k) n =
    omega (arith, length-hex k (n / 16), length-append (hex k (n / 16)) (hex_char (n % 16) ∷ []))

parse_hex-hex_from : (b : Bytes) → 0 < length b → length b ≤ 16 → parse_hex b ≡ hex_from (some 0) b
unfolding parse_hex
parse_hex-hex_from [] p h = absurd (omega arith)
parse_hex-hex_from (c ∷ b) p h = rw (le→ltb 16 (length (c ∷ b)) h) refl

pub parse_hex-hex :
    (k n : ℕ) → 0 < k → k ≤ 16 → n < 16 ^ k → n < 2 ^ 64 → parse_hex (hex k n) ≡ some n
parse_hex-hex k n p h f b =
    parse_hex-hex_from (hex k n) (rw (length-hex k n) p) (rw (length-hex k n) h)
    ∙ hex_from-hex k n f b

-- A byte that is no line break and starts no extension.
IsPlain : ℕ → Type 0
IsPlain c = (c ≢ 13) × (c ≢ 59)

hex_char-IsPlain : (d : ℕ) → d < 16 → IsPlain (hex_char d)
unfolding hex_char IsPlain
hex_char-IsPlain d h = (λ q. ground arith, λ q. ground arith)

hex-IsPlain : (k n : ℕ) → All IsPlain (hex k n)
unfolding hex
hex-IsPlain zero n = tt
hex-IsPlain (suc k) n =
    All-append IsPlain (hex k (n / 16)) (hex_char (n % 16) ∷ []) (hex-IsPlain k (n / 16))
      (hex_char-IsPlain (n % 16) (omega arith), tt)

-- A chunk extension: nothing, or what follows a semicolon.
unfoldable pub extension : Option Bytes → Bytes
extension none = []
extension (some e) = 59 ∷ e

before_extension-plain :
    (xs : Bytes) (e : Option Bytes) → All IsPlain xs → before_extension (xs ++ extension e) ≡ xs
unfolding before_extension extension IsPlain
before_extension-plain [] none h = refl
before_extension-plain [] (some e) h = refl
before_extension-plain (x ∷ xs) e ((_, p), h) =
    let ih = before_extension-plain xs e h in rw (not_semi x p, ih) refl
  where
    not_semi : (c : ℕ) → c ≢ 59 → (c == 59) ≡ false
    not_semi c q = grind arith

pub before_extension-hex :
    (k n : ℕ) (e : Option Bytes) → before_extension (hex k n ++ extension e) ≡ hex k n
before_extension-hex k n e = before_extension-plain (hex k n) e (hex-IsPlain k n)

unfoldable pub IsExtension : Option Bytes → Type 0
IsExtension none = Unit
IsExtension (some e) = All (λ c. c ≢ 13) e × (length e < 900)

extension-line : (e : Option Bytes) → IsExtension e → All (λ c. c ≢ 13) (extension e)
unfolding extension IsExtension
extension-line none h = tt
extension-line (some e) (h, _) = ((λ q. omega arith), h)

plain-line : (xs : Bytes) → All IsPlain xs → All (λ c. c ≢ 13) xs
unfolding IsPlain
plain-line [] _ = tt
plain-line (x ∷ xs) ((p, _), h) = (p, plain-line xs h)

pub hex-line :
    (k n : ℕ) (e : Option Bytes) → IsExtension e → All (λ c. c ≢ 13) (hex k n ++ extension e)
hex-line k n e h =
    All-append (λ c. c ≢ 13) (hex k n) (extension e) (plain-line (hex k n) (hex-IsPlain k n))
      (extension-line e h)

pub length-hex-line :
    (k n : ℕ) (e : Option Bytes) → k ≤ 16 → IsExtension e → length (hex k n ++ extension e) < 1000
unfolding extension IsExtension
length-hex-line k n none p h = omega (arith, length-append (hex k n) [], length-hex k n)
length-hex-line k n (some e) p (_, lt) =
    omega (arith, length-append (hex k n) (59 ∷ e), length-hex k n)
