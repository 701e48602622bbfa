-- ===== src/Http2/Huffman/Bits.antt =====
-- src/http2/huffman.rs: the bits of a number, from the highest to the lowest.
use native.Mathlib.Nat.{pow-suc, one-le-pow}
use native.Mathlib.Nat.{
  div-add-mod', mod-lt, mul_comm, mul_assoc, add-mul, mul-add-mod_self_right, mod-eq_of_lt,
  mul-lt-mul_of_pos_right,
}
use oxi_serve.Base.{
  ℕ, zero, suc, ◌+◌, ◌*◌, ◌/◌, ◌%◌, ◌^◌, ◌<◌, ◌≡◌, refl, sym, ap, ◌∙◌, arith, Bool, List, [], ◌∷◌,
  ◌++◌, append-nil, append_assoc,
}
use oxi_serve.Base.{
  ◌==◌, if◌then◌else◌, length, length-append, take, drop, take-length-append, drop-length-append,
  All,
}
use oxi_serve.Base.Bits.{agree, agree→eq, double_pow, bit_or-high}
use oxi_serve.Base.Bytes.{Bytes, IsByte}
use oxi_serve.Http2.Huffman.{bit, shift_in}

-- The `n` low bits of a number.
unfoldable pub bits : ℕ → ℕ → List Bool
bits zero v = []
bits (suc n) v = bits n (v / 2) ++ ((v % 2 == 1) ∷ [])

unfoldable pub bits_of : Bytes → List Bool
bits_of [] = []
bits_of (b ∷ input) = bits 8 b ++ bits_of input

pub bits_low : (k q r : ℕ) → bits k (q * 2 ^ k + r) ≡ bits k r
unfolding bits
bits_low zero q r = refl
bits_low (suc k) q r =
    let half : (q * 2 ^ suc k + r) / 2 ≡ q * 2 ^ k + r / 2 = omega (arith, double_pow q k) in
    let last : (q * 2 ^ suc k + r) % 2 ≡ r % 2 = omega (arith, double_pow q k) in
    rw (half, last, bits_low k q (r / 2)) refl

pub bits_append : (n k c r : ℕ) → r < 2 ^ k → bits (n + k) (c * 2 ^ k + r) ≡ bits n c ++ bits k r
unfolding bits
bits_append n zero c r small =
    let z : n + 0 ≡ n = omega arith in
    let e : c * 1 + r ≡ c = omega (arith, small) in rw (z, e) (sym (append-nil (bits n c)))
bits_append n (suc k) c r small =
    let s : n + suc k ≡ suc (n + k) = omega arith in
    let half : (c * 2 ^ suc k + r) / 2 ≡ c * 2 ^ k + r / 2 = omega (arith, double_pow c k) in
    let last : (c * 2 ^ suc k + r) % 2 ≡ r % 2 = omega (arith, double_pow c k) in
    let h : r / 2 < 2 ^ k = omega (arith, small, pow-suc 2 k) in
    rw (s, half, last, bits_append n k c (r / 2) h)
      (append_assoc (bits n c) (bits k (r / 2)) ((r % 2 == 1) ∷ []))

pub bits_mod : (k v : ℕ) → bits k (v % 2 ^ k) ≡ bits k v
bits_mod k v =
    let e : v / 2 ^ k * 2 ^ k + v % 2 ^ k ≡ v = div-add-mod' v (2 ^ k) in
    sym (bits_low k (v / 2 ^ k) (v % 2 ^ k)) ∙ ap (bits k) e

-- The `n + k` low bits are `n` bits and the `k` low ones.
pub bits_split : (n k v : ℕ) → bits (n + k) v ≡ bits n (v / 2 ^ k) ++ bits k v
bits_split n k v =
    let e : v / 2 ^ k * 2 ^ k + v % 2 ^ k ≡ v = div-add-mod' v (2 ^ k) in
    ap (bits (n + k)) (sym e)
    ∙ bits_append n k (v / 2 ^ k) (v % 2 ^ k) (mod-lt v (one-le-pow k 2 (omega arith)))
    ∙ ap (λ t. bits n (v / 2 ^ k) ++ t) (bits_mod k v)

pub bits-suc : (k v : ℕ) → bits (suc k) v ≡ bit v k ∷ bits k v
unfolding bit
bits-suc k v =
    let s : suc k ≡ 1 + k = omega arith in rw s (bits_split 1 k v ∙ (unfold bits in refl))

pub bits_of-append : (xs ys : Bytes) → bits_of (xs ++ ys) ≡ bits_of xs ++ bits_of ys
unfolding bits_of
bits_of-append [] ys = refl
bits_of-append (x ∷ xs) ys =
    rw (bits_of-append xs ys) (sym (append_assoc (bits 8 x) (bits_of xs) (bits_of ys)))

pow_add : (j k : ℕ) → 2 ^ (j + k) ≡ 2 ^ j * 2 ^ k
pow_add j zero = let z : j + 0 ≡ j = omega arith in rw z (omega arith)
pow_add j (suc k) =
    let s : j + suc k ≡ suc (j + k) = omega arith in
    rw s (omega (arith, pow-suc 2 (j + k), pow_add j k, double_pow (2 ^ j) k))

-- Bits above those that are read do not matter.
bits_mod_high : (n i v : ℕ) → bits n (v % 2 ^ (n + i)) ≡ bits n v
bits_mod_high n i v =
    let m = 2 ^ (n + i) in
    let e : v / m * m + v % m ≡ v = div-add-mod' v m in
    let p : v / m * m ≡ v / m * 2 ^ i * 2 ^ n =
      ap (λ t. v / m * t) (pow_add n i ∙ mul_comm (2 ^ n) (2 ^ i))
      ∙ sym (mul_assoc (v / m) (2 ^ i) (2 ^ n)) in
    let w : v / m * 2 ^ i * 2 ^ n + v % m ≡ v = omega (arith, e, p) in
    sym (bits_low n (v / m * 2 ^ i) (v % m)) ∙ ap (bits n) w

mul_mod : (v j k : ℕ) → v * 2 ^ k % 2 ^ (j + k) ≡ v % 2 ^ j * 2 ^ k
mul_mod v j k =
    let q = v / 2 ^ j in
    let r = v % 2 ^ j in
    let e : q * 2 ^ j + r ≡ v = div-add-mod' v (2 ^ j) in
    let shifted : v * 2 ^ k ≡ q * 2 ^ (j + k) + r * 2 ^ k =
      ap (λ t. t * 2 ^ k) (sym e)
      ∙ add-mul (q * 2 ^ j) r (2 ^ k)
      ∙ ap (λ t. t + r * 2 ^ k)
          (mul_assoc q (2 ^ j) (2 ^ k) ∙ ap (λ t. q * t) (sym (pow_add j k))) in
    let small : r * 2 ^ k < 2 ^ (j + k) = rw (pow_add j k) (
      mul-lt-mul_of_pos_right (mod-lt v (one-le-pow j 2 (omega arith)))
        (one-le-pow k 2 (omega arith))) in
    ap (λ t. t % 2 ^ (j + k)) shifted
    ∙ mul-add-mod_self_right q (2 ^ (j + k)) (r * 2 ^ k)
    ∙ mod-eq_of_lt small

-- A code shifted in stands behind the bits that are pending; 64 bits hold both.
pub bits-shift_in :
    (n i len acc code : ℕ)
    → n + i + len ≡ 64
    → code < 2 ^ len
    → bits (n + len) (shift_in acc (code, len)) ≡ bits n acc ++ bits len code
unfolding shift_in
bits-shift_in n i len acc code fits small =
    let m : acc * 2 ^ len % 2 ^ 64 ≡ acc % 2 ^ (n + i) * 2 ^ len =
      ap (λ t. acc * 2 ^ len % 2 ^ t) (sym fits) ∙ mul_mod acc (n + i) len in
    rw
      (
        m,
        bit_or-high len (acc % 2 ^ (n + i)) code small,
        bits_append n len (acc % 2 ^ (n + i)) code small,
        bits_mod_high n i acc,
      )
      refl

length-bits : (k v : ℕ) → length (bits k v) ≡ k
unfolding bits
length-bits zero v = refl
length-bits (suc k) v =
    omega (arith, length-bits k (v / 2), length-append (bits k (v / 2)) ((v % 2 == 1) ∷ []))

pub length-bits_of : (x : Bytes) → length (bits_of x) ≡ 8 * length x
unfolding bits_of
length-bits_of [] = refl
length-bits_of (b ∷ x) =
    omega (arith, length-bits_of x, length-append (bits 8 b) (bits_of x), length-bits 8 b)

-- The number that bits write, with those before them.
number : ℕ → List Bool → ℕ
number acc [] = acc
number acc (b ∷ bs) = number (2 * acc + (if b then 1 else 0)) bs

number-bits : (b : ℕ) → b < 256 → number 0 (bits 8 b) ≡ b
unfolding agree number bits
number-bits b byte = agree→eq (λ b. number 0 (bits 8 b)) (λ b. b) 256 b refl byte

pub bits_of_injective : (x y : Bytes) → All IsByte x → All IsByte y → bits_of x ≡ bits_of y → x ≡ y
unfolding bits_of
bits_of_injective [] [] bx b2 e = refl
bits_of_injective [] (b ∷ y) bx b2 e =
    absurd (omega (arith, ap length e, length-bits 8 b, length-append (bits 8 b) (bits_of y)))
bits_of_injective (a ∷ x) [] bx b2 e =
    absurd (omega (arith, ap length e, length-bits 8 a, length-append (bits 8 a) (bits_of x)))
bits_of_injective (a ∷ x) (b ∷ y) (ba, bx) (bb, b2) e =
    let la = length-bits 8 a in
    let lb = length-bits 8 b in
    let first : bits 8 a ≡ bits 8 b =
      sym (take-length-append (bits 8 a) (bits_of x))
      ∙ ap (take (length (bits 8 a))) e
      ∙ ap (λ n. take n (bits 8 b ++ bits_of y)) (la ∙ sym lb)
      ∙ take-length-append (bits 8 b) (bits_of y) in
    let rest : bits_of x ≡ bits_of y =
      sym (drop-length-append (bits 8 a) (bits_of x))
      ∙ ap (drop (length (bits 8 a))) e
      ∙ ap (λ n. drop n (bits 8 b ++ bits_of y)) (la ∙ sym lb)
      ∙ drop-length-append (bits 8 b) (bits_of y) in
    let same : a ≡ b = sym (number-bits a ba) ∙ ap (number 0) first ∙ number-bits b bb in
    rw (same, bits_of_injective x y bx b2 rest) refl
