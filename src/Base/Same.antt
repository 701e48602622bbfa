-- ===== src/Base/Same.antt =====
-- The comparison of byte strings, against their equality.
use mathlib.Core.Path.{◌≡◌, refl, sym}
use mathlib.Core.Logic.{◌≢◌}
use mathlib.Core.Bool.{true, false}
use mathlib.Core.List.{[], ◌∷◌}
use native.Mathlib.Omega.{arith}
use oxi_serve.Base.Bytes.{Bytes, same_bytes}

pub same_bytes_refl : (a : Bytes) → same_bytes a a ≡ true
unfolding same_bytes
same_bytes_refl [] = refl
same_bytes_refl (x ∷ a) = ground (arith, same_bytes_refl a)

pub same_bytes-false : (a b : Bytes) → same_bytes a b ≡ false → a ≢ b
same_bytes-false a b q e =
    let p : same_bytes a a ≡ false = rw (sym e) at q in cc (same_bytes_refl a)

pub same_bytes-true : (a b : Bytes) → same_bytes a b ≡ true → a ≡ b
unfolding same_bytes
same_bytes-true [] [] q = refl
same_bytes-true [] (y ∷ b) q = cc
same_bytes-true (x ∷ a) [] q = cc
same_bytes-true (x ∷ a) (y ∷ b) q = ground (arith, same_bytes-true a b)
