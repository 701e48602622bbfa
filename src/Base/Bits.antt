-- ===== src/Base/Bits.antt =====
-- `&`, `|` on native numbers as arithmetic, at every width: a mask of low bits is a remainder, and
-- an `|` of fields that do not overlap is a sum.
use Prim.Native.Nat.{ℕ, zero, suc, ◌+◌, ◌-◌, ◌*◌, ◌/◌, ◌%◌, ◌^◌, ◌≤◌, ◌<◌, min, max}
use Prim.Native.Nat.{bit_and, bit_or, digits, bit_and-bitwise, bit_or-bitwise}
use Prim.Native.Nat.{compare, Ordering}
use mathlib.Core.Bool.{Bool, true, false}
use mathlib.Core.Path.{◌≡◌, refl, ap, ◌∙◌}
use native.Mathlib.Nat.{pow-suc, one-le-pow}
use native.Mathlib.Omega.{arith}

-- The count of digits to go does not matter, as long as it is enough.
module _ (z : ℕ → ℕ) (f : ℕ → ℕ → ℕ) where
  digits-enough : (a b n m : ℕ) → a ≤ m → a ≤ n → digits z f n a b ≡ digits z f m a b
  digits-enough zero b zero zero lm ln = refl
  digits-enough zero b (suc n) zero lm ln = refl
  digits-enough zero b zero (suc m) lm ln = refl
  digits-enough zero b (suc n) (suc m) lm ln = refl
  digits-enough (suc a) b zero m lm ln = absurd (omega arith)
  digits-enough (suc a) b (suc n) zero lm ln = absurd (omega arith)
  digits-enough (suc a) b (suc n) (suc m) lm ln =
      let half : suc a / 2 ≤ a = omega arith in
      rw (digits-enough (suc a / 2) (b / 2) n m (omega (arith, half)) (omega (arith, half)))

bit_or-step : (a b : ℕ) → bit_or a b ≡ bit_or (a / 2) (b / 2) * 2 + max (a % 2) (b % 2)
bit_or-step zero b = simp bit_or-bitwise (omega arith)
bit_or-step (suc a) b = simp bit_or-bitwise (
    omega (
      arith,
      digits-enough (λ y. y) max (suc a / 2) (b / 2) a (suc a / 2) (omega arith) (omega arith),
    ))

bit_and-step : (a b : ℕ) → bit_and a b ≡ bit_and (a / 2) (b / 2) * 2 + min (a % 2) (b % 2)
bit_and-step zero b = simp bit_and-bitwise (omega arith)
bit_and-step (suc a) b = simp bit_and-bitwise (
    omega (
      arith,
      digits-enough (λ y. 0) min (suc a / 2) (b / 2) a (suc a / 2) (omega arith) (omega arith),
    ))

pub bit_and-zero_right : (n a : ℕ) → a ≤ n → bit_and a 0 ≡ 0
bit_and-zero_right n zero h = refl
bit_and-zero_right zero (suc a) h = absurd (omega arith)
bit_and-zero_right (suc n) (suc a) h =
    omega (arith, bit_and-step (suc a) 0, bit_and-zero_right n (suc a / 2) (omega arith))

bit_or-zero_fuel : (n a : ℕ) → a ≤ n → bit_or a 0 ≡ a
bit_or-zero_fuel n zero h = refl
bit_or-zero_fuel zero (suc a) h = absurd (omega arith)
bit_or-zero_fuel (suc n) (suc a) h =
    omega (arith, bit_or-step (suc a) 0, bit_or-zero_fuel n (suc a / 2) (omega arith))

bit_or-zero_right : (a : ℕ) → bit_or a 0 ≡ a
bit_or-zero_right a = bit_or-zero_fuel a a (omega arith)

bit_or-zero_left : (a : ℕ) → bit_or 0 a ≡ a
bit_or-zero_left a = simp bit_or-bitwise

pub double_pow : (c k : ℕ) → c * 2 ^ suc k ≡ 2 * (c * 2 ^ k)
double_pow c k = omega (arith, ap (λ (t : ℕ). c * t) (pow-suc 2 k))

pub bit_and-low : (k q r : ℕ) → r < 2 ^ k → bit_and (q * 2 ^ k + r) (2 ^ k - 1) ≡ r
bit_and-low zero q r h = omega (arith, bit_and-zero_right (q * 1 + r) (q * 1 + r) (omega arith))
bit_and-low (suc k) q r h = ground (
  arith,
  pow-suc 2 k,
  double_pow q k,
  bit_and-step (q * 2 ^ suc k + r) (2 ^ suc k - 1),
  bit_and-low k q (r / 2) (omega arith),
)

-- `x & (2^k - 1)` is `x % 2^k`.
pub bit_and-mask : (k a : ℕ) → bit_and a (2 ^ k - 1) ≡ a % 2 ^ k
bit_and-mask k a = ground (arith, one-le-pow k 2, bit_and-low k (a / 2 ^ k) (a % 2 ^ k))

-- `r | (c << k)` is `r + c * 2^k` when `r` has at most `k` bits.
pub bit_or-disjoint : (k r c : ℕ) → r < 2 ^ k → bit_or r (c * 2 ^ k) ≡ r + c * 2 ^ k
bit_or-disjoint zero r c h =
    let e : r ≡ 0 = omega arith in rw e (bit_or-zero_left (c * 1) ∙ omega arith)
bit_or-disjoint (suc k) r c h =
    ground (
      arith,
      double_pow c k,
      pow-suc 2 k,
      bit_or-step r (c * 2 ^ suc k),
      bit_or-disjoint k (r / 2) c,
    )

-- `(c << k) | r`, with the fields the other way round.
pub bit_or-high : (k c r : ℕ) → r < 2 ^ k → bit_or (c * 2 ^ k) r ≡ c * 2 ^ k + r
bit_or-high zero c r h =
    let e : r ≡ 0 = omega arith in rw e (bit_or-zero_right (c * 1) ∙ omega arith)
bit_or-high (suc k) c r h =
    ground
      (arith, double_pow c k, pow-suc 2 k, bit_or-step (c * 2 ^ suc k) r, bit_or-high k c (r / 2))

-- Two functions that agree at each number below a bound, checked by evaluation.
unfoldable pub agree : (ℕ → ℕ) → (ℕ → ℕ) → ℕ → Bool
agree f g zero = true
agree f g (suc n) = elim (compare (f n) (g n)) [ Ordering.eq ↦ agree f g n | _ ↦ false ]

pub agree→eq : (f g : ℕ → ℕ) (n i : ℕ) → agree f g n ≡ true → i < n → f i ≡ g i
unfolding agree
agree→eq f g zero i e h = absurd (omega arith)
agree→eq f g (suc n) i e h = ground (arith, agree→eq f g n i)

-- The tests of a byte's bits.
pub bit_and-top : (b : ℕ) → b < 256 → bit_and b 0x80 ≡ b / 128 * 128
unfolding agree
bit_and-top b = agree→eq (λ b. bit_and b 0x80) (λ b. b / 128 * 128) 256 b refl

pub bit_and-bit6 : (b : ℕ) → b < 256 → bit_and b 0x40 ≡ b / 64 % 2 * 64
unfolding agree
bit_and-bit6 b = agree→eq (λ b. bit_and b 0x40) (λ b. b / 64 % 2 * 64) 256 b refl

pub bit_and-bit5 : (b : ℕ) → b < 256 → bit_and b 0x20 ≡ b / 32 % 2 * 32
unfolding agree
bit_and-bit5 b = agree→eq (λ b. bit_and b 0x20) (λ b. b / 32 % 2 * 32) 256 b refl
